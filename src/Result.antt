-- ===== src/Result.antt =====
-- What a Go function that may fail returns, and the chaining of such functions.
use crossplane_diff.Prelude.{◌≡◌, refl, arith}
use crossplane_diff.Text.{Text}
use crossplane_diff.Errors.Tree.{GoError, wrap}

-- A value and a nil error; an error; or no return: a nil pointer is dereferenced.
pub data Result {ℓ} (A : Type ℓ) : Type ℓ where
  ok : A → Result A
  err : GoError → Result A
  panic : Result A

-- The steps of a function one after the other, up to the first that fails.
infixl 5 ◌>>=◌
abbrev pub ◌>>=◌ {ℓ κ} :
    {Before : Type ℓ} {After : Type κ} → Result Before → (Before → Result After) → Result After
ok value >>= next = next value
panic >>= next = panic
err failure >>= next = err failure

-- errors.Wrap(err, m) on the way out.
abbrev pub wrapping {ℓ} : {A : Type ℓ} → Text → Result A → Result A
wrapping m (ok a) = ok a
wrapping m (err e) = err (wrap m e)
wrapping m panic = panic

module _ {ℓ κ} {Before : Type ℓ} {After : Type κ} where
  -- Where two steps returned a value, the first did, and the second did on the first's value.
  pub both_ok :
      (first : Result Before) (next : Before → Result After) {last : After}
      → (first >>= next) ≡ ok last
      → (value : Before) × (next value ≡ ok last) × (first ≡ ok value)
  both_ok panic next returned = absurd (ground (arith, returned))
  both_ok (err failure) next returned = absurd (ground (arith, returned))
  both_ok (ok value) next returned = (value, returned, refl)

  pub step_ok :
      (first : Result Before) (next : Before → Result After) {value : Before} {last : Result After}
      → first ≡ ok value
      → next value ≡ last
      → (first >>= next) ≡ last
  step_ok first next returned after = rw returned after
