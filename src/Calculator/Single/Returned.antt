-- ===== src/Calculator/Single/Returned.antt =====
-- CalculateDiff returns: neither the comparison nor the steps before it dereference nil.
use crossplane_diff.Prelude.{inr, Option, none, some, arith}
use crossplane_diff.Text.{Text}
use crossplane_diff.Objects.{Fields}
use crossplane_diff.Objects.Api.{Api}
use crossplane_diff.Types.Key.{ResourceDiff}
use crossplane_diff.Result.{Result, ok, err, panic, ◌>>=◌, wrapping}
use crossplane_diff.Formatter.Lines.{DiffOptions}
use crossplane_diff.Compare.Generate.{Comparer}
use crossplane_diff.Compare.Generate.Total.{ComparerLaws, IsDiffOf, generate_diff_total}
use crossplane_diff.Calculator.Single.{Clients, would_be_result, calculate_diff}

abbrev pub IsReturned {ℓ} : {A : Type ℓ} → Result A → Type 0
IsReturned (ok a) = Unit
IsReturned (err e) = Unit
IsReturned panic = ⊥

-- The clients return.
pub record IsReturning (clients : Clients) : Type 0 where
  pub fetch : (c : Option Fields) (o : Fields) → IsReturned (clients.fetch_current_object c o)
  pub apply : (o : Fields) (m : Text) → IsReturned (clients.dry_run_apply o m)

pub wrapping-IsReturned {ℓ} :
    {A : Type ℓ} (m : Text) (r : Result A) → IsReturned r → IsReturned (wrapping m r)
wrapping-IsReturned m (ok a) h = h
wrapping-IsReturned m (err e) h = h
wrapping-IsReturned m panic h = h

>>=-IsReturned {ℓ κ} :
    {A : Type ℓ} {B : Type κ} (m : Result A) (f : A → Result B)
    → IsReturned m
    → ((a : A) → IsReturned (f a))
    → IsReturned (m >>= f)
>>=-IsReturned (ok a) f h g = g a
>>=-IsReturned (err e) f h g = h
>>=-IsReturned panic f h g = h

module _ (xr_synthesis_suffix : Text) (api : Api) (lib : Comparer) (laws : ComparerLaws lib)
    (clients : Clients) (returning : IsReturning clients) (diff_options : DiffOptions) where
  diff-IsReturned :
      (current desired : Option Fields) (res : Result ResourceDiff)
      → IsDiffOf xr_synthesis_suffix api lib laws current desired res
      → IsReturned res
  diff-IsReturned current desired (ok d) h = tt
  diff-IsReturned current desired (err e) h = tt
  diff-IsReturned current desired panic h = h

  would_be_result-IsReturned :
      (current : Option Fields) (desired : Fields)
      → IsReturned
          (would_be_result xr_synthesis_suffix api lib clients diff_options current desired)
  unfolding would_be_result
  would_be_result-IsReturned none desired = tt
  would_be_result-IsReturned (some c) desired = wrapping-IsReturned _ _ (returning.apply _ _)

  pub calculate_diff-IsReturned :
      (composite : Option Fields) (desired : Fields)
      → IsReturned
          (calculate_diff xr_synthesis_suffix api lib clients diff_options composite desired)
  unfolding calculate_diff
  calculate_diff-IsReturned composite desired =
      >>=-IsReturned _ _ (wrapping-IsReturned _ _ (returning.fetch composite desired)) (λ current.
        >>=-IsReturned _ _ (would_be_result-IsReturned current _) (λ would_be.
          diff-IsReturned current (some would_be) _ (
            generate_diff_total xr_synthesis_suffix api lib laws current (some would_be)
              diff_options (inr (λ h. ground (arith, h))))))
