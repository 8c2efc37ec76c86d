-- ===== src/Processor/Render/Stable.antt =====
-- What a render that is returned has reached.
use crossplane_diff.Prelude.{
  ◌≡◌, refl, subst, ◌∙◌, ℕ, zero, suc, Bool, true, false, ◌&&◌, Option, none, some, List, [], ◌∷◌,
  arith, Bool-cases, inl, inr, ◌==◌, ==_iff, if◌then◌else◌,
}
use crossplane_diff.GoMap.{GoMap}
use crossplane_diff.Objects.{Fields}
use crossplane_diff.Objects.Api.{Api}
use crossplane_diff.Errors.Tree.{GoError}
use crossplane_diff.Result.{Result, ok, err, panic, ◌>>=◌}
use crossplane_diff.Compare.Generate.{is_nil}
use crossplane_diff.Processor.Render.{
  Engine, RenderOutput, StabilityResult, values, merge_observed_resources,
  find_new_composed_resources, with_requirements, check_with_ready_synthesis,
  check_requirements_resolved, synthesized, check_stability, after_requirements, render_loop,
  render_to_stable_state,
}

is_nil-eq {ℓ} : {A : Type ℓ} (xs : List A) → is_nil xs ≡ true → xs ≡ []
is_nil-eq [] h = refl
is_nil-eq (x ∷ xs) h = absurd (ground (arith, h))

module _ (api : Api) (engine : Engine) (synthesize_ready : Bool) where
  -- The output is what a render without error gave, on required and observed resources to which
  -- it has nothing to add: its requirements bring no new resource and, where Ready conditions are
  -- synthesized, its composed resources are all observed.
  abbrev pub IsFixed : RenderOutput → Type 0
  IsFixed output =
      (required : GoMap Fields) × (observed : List Fields) × (required' : GoMap Fields)
      × (engine.render (values required) observed ≡ (output, none))
      × (with_requirements api engine output required ≡ ok (required', 0))
      × (synthesize_ready ≡ true
          → find_new_composed_resources api output.composed_resources observed ≡ [])

  abbrev FixedIn : Result RenderOutput → Type 0
  FixedIn (ok output) = IsFixed output
  FixedIn _ = Unit

  -- A check that answers "stable" was made with no new requirement and, where it matters, no new
  -- resource.
  abbrev StableOnly : RenderOutput → List Fields → ℕ → Result StabilityResult → Type 0
  StableOnly output observed new (ok r) =
      r.stable ≡ true
      → (new ≡ 0)
        × (synthesize_ready ≡ true
            → find_new_composed_resources api output.composed_resources observed ≡ [])
  StableOnly output observed new _ = Unit

  not_stable :
      (output : RenderOutput) (observed : List Fields) (new iteration : ℕ)
      → StableOnly output observed new (synthesized api engine output observed iteration)
  unfolding synthesized
  not_stable output observed new iteration = elim_ready _
    where
      elim_ready :
          (r : Result (List Fields))
          → StableOnly output observed new (
              r >>= (λ ready. ok (record {
                stable = false;
                next_observed = merge_observed_resources api observed ready;
              })))
      elim_ready (ok ready) = λ h. absurd (ground (arith, h))
      elim_ready (err e) = tt
      elim_ready panic = tt

  check-StableOnly :
      (output : RenderOutput) (observed : List Fields) (new iteration : ℕ) (b : Bool)
      → b ≡ synthesize_ready
      → StableOnly output observed new (check_stability api engine output observed new b iteration)
  unfolding check_stability check_with_ready_synthesis check_requirements_resolved
  check-StableOnly output observed new iteration true same =
      let fresh = find_new_composed_resources api output.composed_resources observed in
      elim (Bool-cases (is_nil fresh && (new == 0))) [
        | inl e ↦
            rw e (λ h.
              ((==_iff new 0).0 (ground (arith, e)), λ g. is_nil-eq fresh (ground (arith, e))))
        | inr e ↦ rw e (not_stable output observed new iteration)
      ]
  check-StableOnly output observed new iteration false same =
      λ h. ((==_iff new 0).0 h, λ g. absurd (ground (arith, same, g)))

  after-FixedIn :
      (output : RenderOutput) (render_err : Option GoError) (required : GoMap Fields)
      (observed : List Fields) (r : GoMap Fields × ℕ) (iteration : ℕ)
      (again : List Fields → Result RenderOutput)
      → engine.render (values required) observed ≡ (output, render_err)
      → with_requirements api engine output required ≡ ok r
      → ((o : List Fields) → FixedIn (again o))
      → FixedIn (
          after_requirements api engine output render_err observed r.1 synthesize_ready iteration
            again)
  unfolding after_requirements
  after-FixedIn output (some e) required observed (m, new) iteration again rendered resolved rest =
      elim (Bool-cases (new == 0)) [ inl z ↦ rw z tt | inr z ↦ rw z (rest observed) ]
  after-FixedIn output none required observed (m, new) iteration again rendered resolved rest =
      decided (check_stability api engine output observed new synthesize_ready iteration)
        (check-StableOnly output observed new iteration synthesize_ready refl)
    where
      decided :
          (res : Result StabilityResult)
          → StableOnly output observed new res
          → FixedIn
              (res >>= (λ result. if result.stable then ok output else again result.next_observed))
      decided (ok s) only = elim (Bool-cases s.stable) [
        | inl y ↦
            let (zero_new, none_fresh) = only y in
            rw y (required, observed, m, rendered, resolved ∙ rw zero_new, none_fresh)
        | inr n ↦ rw n (rest s.next_observed)
      ]
      decided (err e) only = tt
      decided panic only = tt

  loop-FixedIn :
      (max_iterations left iteration : ℕ) (required : GoMap Fields) (observed : List Fields)
      → FixedIn
          (render_loop api engine max_iterations left iteration synthesize_ready required observed)
  unfolding render_loop
  loop-FixedIn max_iterations zero iteration required observed = tt
  loop-FixedIn max_iterations (suc left) iteration required observed =
      let (output, render_err) = engine.render (values required) observed in
      resolved output render_err refl (with_requirements api engine output required) refl
        (λ m o. loop-FixedIn max_iterations left (suc iteration) m o)
    where
      resolved :
          (output : RenderOutput) (render_err : Option GoError)
          → engine.render (values required) observed ≡ (output, render_err)
          → (res : Result (GoMap Fields × ℕ)) → with_requirements api engine output required ≡ res
          → ((m : GoMap Fields) (o : List Fields)
              → FixedIn
                  (render_loop api engine max_iterations left (suc iteration) synthesize_ready m o))
          → FixedIn (
              res >>= (λ r.
                after_requirements api engine output render_err observed r.1 synthesize_ready
                  iteration
                  (λ o.
                    render_loop api engine max_iterations left
                      (suc iteration)
                      synthesize_ready
                      r.0
                      o)))
      resolved output render_err rendered (ok r) e rest =
          after-FixedIn output render_err required observed r iteration _ rendered e (rest r.0)
      resolved output render_err rendered (err e') e rest = tt
      resolved output render_err rendered panic e rest = tt

  IsFixed-of :
      (res : Result RenderOutput) (output : RenderOutput)
      → res ≡ ok output
      → FixedIn res
      → IsFixed output
  IsFixed-of (ok o) output h fixed = subst_fixed (ground (arith, h)) fixed
    where
      subst_fixed : {o output : RenderOutput} → o ≡ output → IsFixed o → IsFixed output
      subst_fixed e = subst IsFixed e
  IsFixed-of (err e) output h fixed = absurd (ground (arith, h))
  IsFixed-of panic output h fixed = absurd (ground (arith, h))

  -- RenderToStableState returns only what has settled: the output of a render without error whose
  -- requirements bring no resource that it was not given, and in the eventual-state mode none of
  -- whose composed resources is new.
  pub render_to_stable_state-IsFixed :
      (max_iterations : ℕ) (observed : List Fields) (output : RenderOutput)
      → render_to_stable_state api engine max_iterations synthesize_ready observed ≡ ok output
      → IsFixed output
  unfolding render_to_stable_state
  render_to_stable_state-IsFixed max_iterations observed output h =
      IsFixed-of _ output h (loop-FixedIn max_iterations max_iterations 1 [] observed)
