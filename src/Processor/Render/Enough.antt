-- ===== src/Processor/Render/Enough.antt =====
-- The render loop settles within a bound on the iterations.
use crossplane_diff.Prelude.{
  ◌≡◌, refl, ℕ, zero, suc, ◌+◌, ◌≤◌, ◌<◌, Bool, true, false, Option, none, some, List, [], arith,
  any, all, length, Bool-cases, inl, inr, ◌==◌, if◌then◌else◌,
}
use crossplane_diff.Text.{Text, codes, text_eq}
use crossplane_diff.GoMap.{GoMap, has_key}
use crossplane_diff.Objects.{Fields}
use crossplane_diff.Objects.Api.{Api}
use crossplane_diff.Errors.Tree.{GoError, leaf}
use crossplane_diff.Result.{Result, ok, err, panic, ◌>>=◌, wrapping}
use crossplane_diff.Compare.Generate.{is_nil}
use crossplane_diff.Processor.Render.{
  Engine, RenderOutput, StabilityResult, values, composed_resource_key, check_stability, add_all,
  with_requirements, after_requirements, render_loop, render_to_stable_state,
}
use crossplane_diff.Processor.Render.Observed.{is_observed}
use crossplane_diff.Processor.Render.Bound.{missing-length, missing_mono, left_of, add_all-progress}
use crossplane_diff.Processor.Render.Bounded.{IsBounded, IsSettled}
use crossplane_diff.Processor.Render.Step.{unseen, GoesOn, check-GoesOn}

module _ (api : Api) (engine : Engine) (synthesize_ready : Bool)
    (required_keys composed_keys : List Text)
    (bounded : IsBounded api engine synthesize_ready required_keys composed_keys) where
  after_settles :
      (output : RenderOutput) (render_err : Option GoError) (required m : GoMap Fields)
      (observed : List Fields) (new iteration left : ℕ) (again : List Fields → Result RenderOutput)
      → (synthesize_ready ≡ true
          → all
              (λ r. any (λ u. text_eq u (composed_resource_key api r)) composed_keys)
              output.composed_resources
            ≡ true)
      → left_of api required_keys m ≤ left_of api required_keys required
      → ((new == 0) ≡ false → left_of api required_keys m < left_of api required_keys required)
      → left_of api required_keys required + unseen api composed_keys observed < suc left
      → ((o : List Fields)
          → left_of api required_keys m + unseen api composed_keys o < left
          → IsSettled (again o))
      → IsSettled (
          after_requirements api engine output render_err observed new synthesize_ready iteration
            again)
  unfolding after_requirements
  after_settles output (some e) required m observed new iteration left again known mono less bound
        settles =
      elim (Bool-cases (new == 0)) [
        | inl z ↦ rw z tt
        | inr z ↦ rw z (settles observed (omega (arith, less z, bound)))
      ]
  after_settles output none required m observed new iteration left again known mono less bound
        settles =
      decided (check_stability api engine output observed new synthesize_ready iteration) (
        check-GoesOn api engine synthesize_ready required_keys composed_keys bounded
          synthesize_ready output observed new iteration refl known)
    where
      decided :
          (res : Result StabilityResult)
          → GoesOn api composed_keys observed new res
          → IsSettled
              (res >>= (λ result. if result.stable then ok output else again result.next_observed))
      decided (ok s) goes = elim (Bool-cases s.stable) [
        | inl y ↦ rw y tt
        | inr n ↦
            let (mono', less') = goes n in
            rw n (
              settles s.next_observed (elim (Bool-cases (new == 0)) [
                | inl z ↦ omega (arith, mono, less' z, bound)
                | inr z ↦ omega (arith, less z, mono', bound)
              ]))
      ]
      decided (err (leaf e)) goes = goes
      decided (err e) goes = tt
      decided panic goes = tt

  abbrev Required : GoMap Fields → Result (GoMap Fields × ℕ) → Type 0
  Required required (ok r) =
      (left_of api required_keys r.0 ≤ left_of api required_keys required)
      × ((r.1 == 0) ≡ false → left_of api required_keys r.0 < left_of api required_keys required)
  Required required r = IsSettled r

  with_requirements-Required :
      (output : RenderOutput) (required : GoMap Fields)
      → Required required (with_requirements api engine output required)
  unfolding with_requirements
  with_requirements-Required output required =
      elim (Bool-cases (is_nil output.required_resources)) [
        | inl e ↦ rw e (ground arith, λ h. absurd (ground (arith, h)))
        | inr e ↦ rw e (resolved (engine.resolve_selectors output.required_resources) refl)
      ]
    where
      resolved :
          (res : Result (List (Option Fields)))
          → engine.resolve_selectors output.required_resources ≡ res
          → Required required (
              wrapping (codes "failed to process requirements") res
              >>= (λ additional. ok (add_all api required additional)))
      resolved (ok additional) e =
          let (grows, less) =
            add_all-progress api required_keys additional required
              (bounded.known output.required_resources additional e) in
          (
            missing_mono (λ k. has_key k required)
                (λ k. has_key k (add_all api required additional).0) required_keys grows,
            λ h. less (rw h),
          )
      resolved (err e') e = tt
      resolved panic e = tt

  loop_settles :
      (max_iterations left iteration : ℕ) (required : GoMap Fields) (observed : List Fields)
      → left_of api required_keys required + unseen api composed_keys observed < left
      → IsSettled
          (render_loop api engine max_iterations left iteration synthesize_ready required observed)
  unfolding render_loop
  loop_settles max_iterations zero iteration required observed bound =
      absurd (ground (arith, bound))
  loop_settles max_iterations (suc left) iteration required observed bound =
      let output = (engine.render (values required) observed).0 in
      iterated (with_requirements api engine output required)
        (with_requirements-Required output required)
        (λ m o h. loop_settles max_iterations left (suc iteration) m o h)
    where
      iterated :
          (res : Result (GoMap Fields × ℕ))
          → Required required res
          → ((m : GoMap Fields) (o : List Fields)
              → left_of api required_keys m + unseen api composed_keys o < left
              → IsSettled
                  (render_loop api engine max_iterations left (suc iteration) synthesize_ready m o))
          → IsSettled (
              res >>= (λ r.
                after_requirements api engine
                  (engine.render (values required) observed).0
                  (engine.render (values required) observed).1
                  observed
                  r.1
                  synthesize_ready
                  iteration
                  (λ o.
                    render_loop api engine max_iterations left
                      (suc iteration)
                      synthesize_ready
                      r.0
                      o)))
      iterated (ok (m, new)) (mono, less) settles =
          after_settles _ (engine.render (values required) observed).1 required m observed new
            iteration left _ (λ is_ready. bounded.composed is_ready (values required) observed) mono
            less bound (λ o h. settles m o h)
      iterated (err (leaf e)) h settles = h
      iterated (err e) h settles = tt
      iterated panic h settles = tt

  -- With more iterations allowed than there are keys that can turn up (those of the resources that
  -- requirements resolve to and, in the eventual-state mode, of the rendered ones, whose Ready
  -- conditions leave their keys), RenderToStableState never gives up for want of iterations: unless
  -- a client panics it returns an output, or an error that wraps what failed.
  pub render_to_stable_state-settles :
      (max_iterations : ℕ) (observed : List Fields)
      → length required_keys + length composed_keys < max_iterations
      → IsSettled (render_to_stable_state api engine max_iterations synthesize_ready observed)
  unfolding render_to_stable_state
  render_to_stable_state-settles max_iterations observed bound =
      loop_settles max_iterations max_iterations 1 [] observed (
        omega (
          arith,
          missing-length (λ k. has_key {V = Fields} k []) required_keys,
          missing-length (is_observed api observed) composed_keys,
          bound,
        ))
