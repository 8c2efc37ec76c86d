-- ===== src/Tests/Processor.antt =====
-- Tests of the diff processor (cmd/diff/diffprocessor/diff_processor.go).
use crossplane_diff.Prelude.{
  ◌≡◌, refl, ap, true, false, Option, none, List, [], ◌∷◌, ◌++◌, any, all, arith,
}
use crossplane_diff.Text.{codes, text_eq_self}
use crossplane_diff.GoMap.{GoMap}
use crossplane_diff.Objects.{Fields, Items}
use crossplane_diff.Types.Key.{ResourceDiff}
use crossplane_diff.Result.{Result, ok, err}
use crossplane_diff.Errors.Tree.GoError.{leaf}
use crossplane_diff.Calculator.Composed.{joined}
use crossplane_diff.Processor.Perform.{perform_diff}
use crossplane_diff.Processor.Perform.Report.{
  changed, errors_of, render_errors, perform_diff-report,
}
use crossplane_diff.Processor.Render.{
  Engine, RenderOutput, render_to_stable_state, render_loop, with_requirements, after_requirements,
  check_stability, check_requirements_resolved, composed_resource_key, set_ready_condition,
}
use crossplane_diff.Processor.Render.Stable.{IsFixed, render_to_stable_state-IsFixed}
use crossplane_diff.Processor.Render.Bound.{is_known}
use crossplane_diff.Processor.Render.Bounded.{IsBounded, IsSettled}
use crossplane_diff.Processor.Render.Enough.{render_to_stable_state-settles}
use crossplane_diff.Tests.Cluster.{api}
use crossplane_diff.Tests.Calculator.{xr, new_bucket}

-- The one resource that fails.
abbrev failing : Fields → Result (GoMap ResourceDiff)
failing o = err (leaf (codes "cannot get composition"))

perform_diff-report_example :
    perform_diff api failing (λ gs es. none) (xr ∷ [])
    ≡ ok (
      any (changed api failing (λ gs es. none)) (xr ∷ []),
      joined (
          errors_of api failing (λ gs es. none) (xr ∷ [])
          ++ render_errors api failing (λ gs es. none) (xr ∷ [])),
    )
perform_diff-report_example = perform_diff-report api failing (λ gs es. none) xr [] (λ o. tt)

abbrev rendered : RenderOutput
rendered = record { composed_resources = new_bucket ∷ []; required_resources = [] }

-- A pipeline that renders the new bucket whatever it is given.
abbrev engine : Engine
engine = record {
  render = λ required observed. (rendered, none);
  resolve_selectors = λ selectors. ok [];
  nested_slice = λ o path. Items.nil;
  set_nested_slice = λ o items path. ok o;
  now = codes "2024-01-01T00:00:00Z";
  decimal = λ n. codes "n";
}

render_to_stable_state-IsFixed_example : IsFixed api engine false rendered
render_to_stable_state-IsFixed_example =
    render_to_stable_state-IsFixed api engine false 3 [] rendered (
      unfold render_to_stable_state render_loop with_requirements after_requirements check_stability
        check_requirements_resolved in
      refl)

abbrev no_result : Result (List (Option Fields))
no_result = ok []

no_resources :
    (resources : List (Option Fields))
    → no_result ≡ ok resources
    → all (is_known api []) resources ≡ true
no_resources [] h = refl
no_resources (r ∷ rs) h = absurd (ground (arith, h))

same_object : (r r' : Fields) → set_ready_condition api engine r ≡ ok r' → r' ≡ r
unfolding set_ready_condition
same_object r r' h = ground (arith, h)

abbrev bounded : IsBounded api engine true [] (composed_resource_key api new_bucket ∷ [])
bounded = record {
  known = λ selectors resources h. no_resources resources h;
  composed = λ is_ready required observed. rw (text_eq_self (composed_resource_key api new_bucket));
  ready = λ is_ready r r' h. ap (composed_resource_key api) (same_object r r' h);
}

render_to_stable_state-settles_example : IsSettled (render_to_stable_state api engine 2 true [])
render_to_stable_state-settles_example =
    render_to_stable_state-settles api engine true [] (composed_resource_key api new_bucket ∷ [])
      bounded 2 [] (ground arith)
