-- ===== src/Calculator/Composed/Kept.antt =====
-- What the loop over the composed resources records.
use crossplane_diff.Prelude.{
  ◌≡◌, refl, sym, ap, ◌∙◌, Bool, true, false, not, ◌&&◌, ◌||◌, Option, List, [], ◌∷◌, ◌++◌, arith,
  any, Bool-cases, inl, inr, append_assoc, append-nil, if◌then◌else◌,
}
use crossplane_diff.Text.{Text, codes, text_eq}
use crossplane_diff.GoMap.{GoMap, has_key, insert, lookup-insert, has_key-insert}
use crossplane_diff.Objects.{Fields}
use crossplane_diff.Objects.Api.{Api}
use crossplane_diff.Errors.Tree.{GoError, wrap}
use crossplane_diff.Types.Key.{ResourceDiff, is_change, get_diff_key}
use crossplane_diff.Result.{Result, ok, err, panic, ◌>>=◌}
use crossplane_diff.Formatter.Lines.{DiffOptions}
use crossplane_diff.Compare.Generate.{Comparer}
use crossplane_diff.Compare.Generate.Total.{ComparerLaws}
use crossplane_diff.Calculator.Single.{Clients, calculate_diff}
use crossplane_diff.Calculator.Single.Returned.{IsReturned, IsReturning, calculate_diff-IsReturned}
use crossplane_diff.Calculator.Removed.{is_rendered}
use crossplane_diff.Calculator.Composed.{
  Progress, is_nameless, composed_id, record_diff, calculate_composed,
}

is_rendered-insert :
    (k j : Text) (m : GoMap Bool)
    → is_rendered (insert k true m) j ≡ (text_eq k j || is_rendered m j)
unfolding is_rendered
is_rendered-insert k j m = ground (arith, lookup-insert k j true m)

module _ (api : Api) where
  -- The error, the rendered keys and the changed keys that one outcome adds.
  abbrev pub failure_in : Text → Result ResourceDiff → List GoError
  failure_in id (err e) = wrap (codes "cannot calculate diff for " ++ id) e ∷ []
  failure_in id _ = []

  abbrev pub renders_in : Text → Result ResourceDiff → Bool
  renders_in k (ok d) = text_eq (get_diff_key api d) k
  renders_in k _ = false

  abbrev pub changes_in : Text → Result ResourceDiff → Bool
  changes_in k (ok d) = is_change d.diff_type && text_eq (get_diff_key api d) k
  changes_in k _ = false

  -- From one progress to the next, by what is added.
  abbrev pub IsStep :
      Progress → List GoError → (Text → Bool) → (Text → Bool) → Result Progress → Type 0
  IsStep p errs renders changes (ok q) =
      (q.errs ≡ p.errs ++ errs)
      × ((k : Text) → is_rendered q.rendered k ≡ (renders k || is_rendered p.rendered k))
      × ((k : Text) → has_key k q.diffs ≡ (changes k || has_key k p.diffs))
  IsStep p errs renders changes (err e) = ⊥
  IsStep p errs renders changes panic = ⊥

  changed_key :
      (b : Bool) (k j : Text) (d : ResourceDiff) (m : GoMap ResourceDiff)
      → has_key j (if b then insert k d m else m) ≡ ((b && text_eq k j) || has_key j m)
  changed_key true k j d m = has_key-insert k j d m
  changed_key false k j d m = refl

  record-IsStep :
      (id : Text) (res : Result ResourceDiff) (p : Progress)
      → IsReturned res
      → IsStep p
          (failure_in id res)
          (λ k. renders_in k res)
          (λ k. changes_in k res)
          (record_diff api id res p)
  unfolding record_diff
  record-IsStep id (ok d) p h = (
    sym (append-nil p.errs),
    λ k. is_rendered-insert (get_diff_key api d) k p.rendered,
    λ k. changed_key (is_change d.diff_type) (get_diff_key api d) k d p.diffs,
  )
  record-IsStep id (err e) p h = (refl, λ k. refl, λ k. refl)
  record-IsStep id panic p h = absurd h

module _ (xr_synthesis_suffix : Text) (api : Api) (lib : Comparer) (clients : Clients)
    (diff_options : DiffOptions) (composite : Option Fields) where
  abbrev outcome : Fields → Result ResourceDiff
  outcome o = calculate_diff xr_synthesis_suffix api lib clients diff_options composite o

  -- The errors of the list, in order: one for each resource with a name or a generateName whose
  -- diff failed.
  unfoldable pub failures : List Fields → List GoError
  failures [] = []
  failures (o ∷ os) =
      (if is_nameless api o then [] else failure_in api (composed_id api o) (outcome o))
      ++ failures os

  -- Does the resource have a diff with the key, and is it a change?
  unfoldable pub renders : Text → Fields → Bool
  renders k o = not (is_nameless api o) && renders_in api k (outcome o)

  unfoldable pub changes : Text → Fields → Bool
  changes k o = not (is_nameless api o) && changes_in api k (outcome o)

  IsStep-then :
      (o : Fields) (os : List Fields) (p : Progress) (es : List GoError) (f g : Text → Bool)
      (res : Result Progress)
      → IsStep api p es f g res
      → ((q : Progress)
          → IsStep api q
              (failures os)
              (λ k. any (renders k) os)
              (λ k. any (changes k) os)
              (calculate_composed xr_synthesis_suffix api lib clients diff_options composite os q))
      → IsStep api p
          (es ++ failures os)
          (λ k. f k || any (renders k) os)
          (λ k. g k || any (changes k) os)
          (res >>= (λ q.
            calculate_composed xr_synthesis_suffix api lib clients diff_options composite os q))
  IsStep-then o os p es f g (ok q) (a, b, c) rest =
      both (calculate_composed xr_synthesis_suffix api lib clients diff_options composite os q)
        (rest q)
    where
      both :
          (res : Result Progress)
          → IsStep api q (failures os) (λ k. any (renders k) os) (λ k. any (changes k) os) res
          → IsStep api p
              (es ++ failures os)
              (λ k. f k || any (renders k) os)
              (λ k. g k || any (changes k) os)
              res
      both (ok r) (a', b', c') = (
        a' ∙ ap (λ xs. xs ++ failures os) a ∙ append_assoc p.errs es (failures os),
        λ k. ground (arith, b k, b' k),
        λ k. ground (arith, c k, c' k),
      )
      both (err e) h = h
      both panic h = h
  IsStep-then o os p es f g (err e) h rest = absurd h
  IsStep-then o os p es f g panic h rest = absurd h

  -- If the clients return, the loop over the composed resources does, with one error more for each resource whose diff
  -- failed, in order; a key is rendered exactly if it was before or a resource has a diff with it;
  -- it has an entry in the diffs exactly if it had before or such a diff is a change. Resources
  -- with neither name nor generateName count for nothing.
  pub calculate_composed-exact :
      ComparerLaws lib
      → IsReturning clients
      → (os : List Fields) (p : Progress)
      → IsStep api p
          (failures os)
          (λ k. any (renders k) os)
          (λ k. any (changes k) os)
          (calculate_composed xr_synthesis_suffix api lib clients diff_options composite os p)
  unfolding calculate_composed failures renders changes
  calculate_composed-exact laws returning [] p = (sym (append-nil p.errs), λ k. refl, λ k. refl)
  calculate_composed-exact laws returning (o ∷ os) p = elim (Bool-cases (is_nameless api o)) [
    | inl e ↦ rw (e, calculate_composed) (calculate_composed-exact laws returning os p)
    | inr e ↦
        rw (e, calculate_composed)
          (IsStep-then o os p (failure_in api (composed_id api o) (outcome o))
            (λ k. renders_in api k (outcome o)) (λ k. changes_in api k (outcome o)) _
            (record-IsStep api (composed_id api o) (outcome o) p (
              calculate_diff-IsReturned xr_synthesis_suffix api lib laws clients returning
                diff_options composite o))
            (λ q. calculate_composed-exact laws returning os q))
  ]
