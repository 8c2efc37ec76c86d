-- ===== src/Processor/Render/Step.antt =====
-- One iteration of the render loop that goes on has fewer keys missing.
use crossplane_diff.Prelude.{
  ◌≡◌, refl, sym, ap, ◌∙◌, ℕ, ◌≤◌, ◌<◌, Bool, true, false, not, ◌&&◌, List, ◌++◌, arith, any, all,
  Bool-cases, inl, inr, ◌==◌,
}
use crossplane_diff.Text.{Text, codes, text_eq}
use crossplane_diff.Objects.{Fields}
use crossplane_diff.Objects.Api.{Api}
use crossplane_diff.Result.{Result, ok, err, panic, ◌>>=◌, wrapping}
use crossplane_diff.Compare.Generate.{is_nil}
use crossplane_diff.Processor.Render.{
  Engine, RenderOutput, StabilityResult, composed_resource_key, find_new_composed_resources,
  merge_observed_resources, synthesize_ready_status, synthesized, check_with_ready_synthesis,
  check_requirements_resolved, check_stability,
}
use crossplane_diff.Processor.Render.Observed.{
  is_observed, find_new-keep, merge-observed, same_keys,
}
use crossplane_diff.Processor.Render.Bound.{missing, missing_mono, missing_less}
use crossplane_diff.Processor.Render.Bounded.{IsBounded, IsSettled, kept_one, ready_keys}

module _ (api : Api) (composed_keys : List Text) where
  abbrev pub unseen : List Fields → ℕ
  unseen observed = missing (is_observed api observed) composed_keys

  -- A check that goes on has fewer resources unseen, or there was a new requirement.
  abbrev pub GoesOn : List Fields → ℕ → Result StabilityResult → Type 0
  GoesOn observed new (ok r) =
      r.stable ≡ false
      → (unseen r.next_observed ≤ unseen observed)
        × ((new == 0) ≡ true → unseen r.next_observed < unseen observed)
  GoesOn observed new r = IsSettled r

module _ (api : Api) (engine : Engine) (synthesize_ready : Bool)
    (required_keys composed_keys : List Text)
    (bounded : IsBounded api engine synthesize_ready required_keys composed_keys) where
  merged-GoesOn :
      (is_ready : synthesize_ready ≡ true) (output : RenderOutput) (observed ready' : List Fields)
      (new : ℕ)
      → synthesize_ready_status api engine output.composed_resources ≡ ok ready'
      → all
          (λ r. any (λ u. text_eq u (composed_resource_key api r)) composed_keys)
          output.composed_resources
        ≡ true
      → (is_nil (find_new_composed_resources api output.composed_resources observed) && (new == 0))
        ≡ false
      → (unseen api composed_keys (merge_observed_resources api observed ready')
          ≤ unseen api composed_keys observed)
        × ((new == 0) ≡ true
            → unseen api composed_keys (merge_observed_resources api observed ready')
              < unseen api composed_keys observed)
  merged-GoesOn is_ready output observed ready' new e known more =
      let merged = merge_observed_resources api observed ready' in
      let grows : (k : Text) → is_observed api observed k ≡ true → is_observed api merged k ≡ true =
        λ k g. merge-observed api observed ready' k ∙ ground (arith, g) in
      (
        missing_mono (is_observed api observed) (is_observed api merged) composed_keys grows,
        λ z.
            let fresh : is_nil (find_new_composed_resources api output.composed_resources observed)
                ≡ false =
              ground (arith, more, z) in
            let (x, absent, in_keys, at) =
              kept_one api (λ r. not (is_observed api observed (composed_resource_key api r)))
                (λ r. any (λ u. text_eq u (composed_resource_key api r)) composed_keys)
                output.composed_resources
                (sym (ap is_nil (find_new-keep api output.composed_resources observed)) ∙ fresh)
                known in
            let k = composed_resource_key api x in
            let same =
              same_keys api k ready' output.composed_resources (
                ready_keys api engine (bounded.ready is_ready) output.composed_resources ready'
                  e) in
            missing_less (is_observed api observed) (is_observed api merged) composed_keys k grows
              in_keys (ground (arith, absent))
              (merge-observed api observed ready' k ∙ ground (arith, same, at)),
      )

  synthesized-GoesOn :
      (is_ready : synthesize_ready ≡ true) (output : RenderOutput) (observed : List Fields)
      (new iteration : ℕ)
      → all
          (λ r. any (λ u. text_eq u (composed_resource_key api r)) composed_keys)
          output.composed_resources
        ≡ true
      → (is_nil (find_new_composed_resources api output.composed_resources observed) && (new == 0))
        ≡ false
      → GoesOn api composed_keys observed new (synthesized api engine output observed iteration)
  unfolding synthesized
  synthesized-GoesOn is_ready output observed new iteration known more =
      made (synthesize_ready_status api engine output.composed_resources) refl
    where
      made :
          (res : Result (List Fields))
          → synthesize_ready_status api engine output.composed_resources ≡ res
          → GoesOn api composed_keys observed new (
              wrapping
                (codes "failed to synthesize Ready status at iteration "
                  ++ engine.decimal iteration)
                res
              >>= (λ ready. ok (record {
                stable = false;
                next_observed = merge_observed_resources api observed ready;
              })))
      made (ok ready') e = λ h. merged-GoesOn is_ready output observed ready' new e known more
      made (err e') e = tt
      made panic e = tt

  pub check-GoesOn :
      (b : Bool) (output : RenderOutput) (observed : List Fields) (new iteration : ℕ)
      → b ≡ synthesize_ready
      → (synthesize_ready ≡ true
          → all
              (λ r. any (λ u. text_eq u (composed_resource_key api r)) composed_keys)
              output.composed_resources
            ≡ true)
      → GoesOn api composed_keys observed new
          (check_stability api engine output observed new b iteration)
  unfolding check_stability check_with_ready_synthesis check_requirements_resolved
  check-GoesOn true output observed new iteration same known =
      let fresh = find_new_composed_resources api output.composed_resources observed in
      elim (Bool-cases (is_nil fresh && (new == 0))) [
        | inl e ↦ rw e (λ h. absurd (ground (arith, h)))
        | inr e ↦
            rw e (synthesized-GoesOn (sym same) output observed new iteration (known (sym same)) e)
      ]
  check-GoesOn false output observed new iteration same known =
      λ h. (ground arith, λ z. absurd (ground (arith, h, z)))
