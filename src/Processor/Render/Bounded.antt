-- ===== src/Processor/Render/Bounded.antt =====
-- What bounds the render loop, and lemmas on the Ready conditions that it synthesizes.
use crossplane_diff.Prelude.{
  ◌≡◌, Bool, true, false, Option, List, [], ◌∷◌, arith, any, all, keep, Bool-cases, inl, inr,
}
use crossplane_diff.Text.{Text, text_eq, text_eq_self}
use crossplane_diff.Objects.{Fields}
use crossplane_diff.Objects.Api.{Api}
use crossplane_diff.Errors.Tree.{leaf}
use crossplane_diff.Result.{Result, ok, err, panic, wrapping, both_ok}
use crossplane_diff.Compare.Generate.{is_nil}
use crossplane_diff.Processor.Render.{
  Engine, composed_resource_key, set_ready_condition, synthesize_ready_status,
}
use crossplane_diff.Processor.Render.Observed.{is_observed, is_at, keys_of}
use crossplane_diff.Processor.Render.Bound.{is_known}

-- The keys of the resources that requirements resolve to are among `required_keys`; in the
-- eventual-state mode those of the rendered resources are among `composed_keys`, and a Ready
-- condition leaves a resource's key as it is.
pub record IsBounded (api : Api) (engine : Engine) (synthesize_ready : Bool)
    (required_keys composed_keys : List Text) : Type 0 where
  pub known :
      (selectors : List Fields) (resources : List (Option Fields))
      → engine.resolve_selectors selectors ≡ ok resources
      → all (is_known api required_keys) resources ≡ true
  pub composed :
      synthesize_ready ≡ true
      → (required observed : List Fields)
      → all
          (λ r. any (λ u. text_eq u (composed_resource_key api r)) composed_keys)
          (engine.render required observed).0.composed_resources
        ≡ true
  pub ready :
      synthesize_ready ≡ true
      → (r r' : Fields) → set_ready_condition api engine r ≡ ok r'
      → composed_resource_key api r' ≡ composed_resource_key api r

module _ {ℓ} {A : Type ℓ} where
  -- The result is a value or an error that wraps another: no iteration was missing.
  abbrev pub IsSettled : Result A → Type 0
  IsSettled (err (leaf m)) = ⊥
  IsSettled _ = Unit

module _ (api : Api) where
  pub kept_one :
      (p q : Fields → Bool) (xs : List Fields)
      → is_nil (keep p xs) ≡ false
      → all q xs ≡ true
      → (x : Fields) × (p x ≡ true)
        × (q x ≡ true)
        × (is_observed api xs (composed_resource_key api x) ≡ true)
  unfolding is_observed is_at
  kept_one p q [] h g = absurd (ground (arith, h))
  kept_one p q (x ∷ xs) h g = elim (Bool-cases (p x)) [
    | inl e ↦ (x, e, ground (arith, g), rw (text_eq_self (composed_resource_key api x)))
    | inr e ↦
        let (y, py, qy, at) = kept_one p q xs (rw (e, is_nil) at h) (ground (arith, g)) in
        (y, py, qy, ground (arith, at))
  ]

module _ (api : Api) (engine : Engine)
    (ready : (r r' : Fields)
      → set_ready_condition api engine r ≡ ok r'
      → composed_resource_key api r' ≡ composed_resource_key api r) where
  unwrapped : (m : Text) (r : Result Fields) (a : Fields) → wrapping m r ≡ ok a → r ≡ ok a
  unwrapped m (ok b) a h = h
  unwrapped m (err e) a h = absurd (ground (arith, h))
  unwrapped m panic a h = absurd (ground (arith, h))

  pub ready_keys :
      (rs ready' : List Fields)
      → synthesize_ready_status api engine rs ≡ ok ready'
      → keys_of api ready' ≡ keys_of api rs
  unfolding synthesize_ready_status
  ready_keys [] ready' h = ground (arith, h)
  ready_keys (r ∷ rs) ready' h =
      let (r', rest, e) = both_ok (wrapping _ (set_ready_condition api engine r)) _ h in
      let (later, last, e') = both_ok (synthesize_ready_status api engine rs) _ rest in
      let key = ready r r' (unwrapped _ _ r' e) in ground (arith, last, key, ready_keys rs later e')
