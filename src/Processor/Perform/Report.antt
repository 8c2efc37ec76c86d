-- ===== src/Processor/Perform/Report.antt =====
-- What PerformDiff reports.
use crossplane_diff.Prelude.{
  ◌≡◌, refl, sym, ap, ◌∙◌, Bool, false, ◌||◌, Option, none, some, List, [], ◌∷◌, ◌++◌, arith, any,
  append_assoc, append-nil,
}
use crossplane_diff.Text.{codes}
use crossplane_diff.GoMap.{GoMap}
use crossplane_diff.Objects.{Fields}
use crossplane_diff.Objects.Api.{Api}
use crossplane_diff.Errors.Tree.{GoError, wrap}
use crossplane_diff.Errors.Failures.{new_output_error}
use crossplane_diff.Types.Key.{ResourceDiff}
use crossplane_diff.Types.Output.{OutputError}
use crossplane_diff.Result.{Result, ok, err, panic}
use crossplane_diff.Calculator.Single.Returned.{IsReturned}
use crossplane_diff.Calculator.Composed.{joined}
use crossplane_diff.Processor.Perform.{
  XrDiffGroup, Collected, nothing_collected, any_change, has_diffs, resource_id, reference, collect,
  process_all, all_errors, perform_diff,
}

has_diffs-append :
    (gs hs : List XrDiffGroup) → has_diffs (gs ++ hs) ≡ (has_diffs gs || has_diffs hs)
unfolding has_diffs
has_diffs-append [] hs = refl
has_diffs-append (g ∷ gs) hs = ground (arith, has_diffs-append gs hs)

module _ (api : Api) where
  -- The group, the errors and the changes of one outcome.
  abbrev group_in : Fields → Result (GoMap ResourceDiff) → XrDiffGroup
  group_in res (ok diffs) = record { xr = reference api res; diffs = diffs; err = none }
  group_in res (err e) = record {
    xr = reference api res;
    diffs = [];
    err = some (new_output_error (resource_id api res) e);
  }
  group_in res panic = record { xr = reference api res; diffs = []; err = none }

  abbrev output_errors_in : Fields → Result (GoMap ResourceDiff) → List OutputError
  output_errors_in res (err e) = new_output_error (resource_id api res) e ∷ []
  output_errors_in res _ = []

  abbrev errors_in : Fields → Result (GoMap ResourceDiff) → List GoError
  errors_in res (err e) = wrap (codes "unable to process resource " ++ resource_id api res) e ∷ []
  errors_in res _ = []

  abbrev is_changed : Result (GoMap ResourceDiff) → Bool
  is_changed (ok diffs) = any_change diffs
  is_changed _ = false

  abbrev collected : Fields → Result (GoMap ResourceDiff) → Collected → Collected
  collected res r c = record {
    groups = c.groups ++ (group_in res r ∷ []);
    output_errors = c.output_errors ++ output_errors_in res r;
    errs = c.errs ++ errors_in res r;
  }

  collect-collected :
      (res : Fields) (r : Result (GoMap ResourceDiff)) (c : Collected)
      → IsReturned r
      → collect api res r c ≡ ok (collected res r c)
  unfolding collect
  collect-collected res (ok d) c h = rw (append-nil c.output_errors, append-nil c.errs)
  collect-collected res (err e) c h = refl
  collect-collected res panic c h = absurd h

  group_in-changed :
      (res : Fields) (r : Result (GoMap ResourceDiff))
      → any_change (group_in res r).diffs ≡ is_changed r
  unfolding any_change
  group_in-changed res (ok d) = refl
  group_in-changed res (err e) = refl
  group_in-changed res panic = refl

  module _ (diff_single_resource : Fields → Result (GoMap ResourceDiff))
      (render_diffs : List XrDiffGroup → List OutputError → Option GoError) where
    -- The report's parts, read off the list of resources.
    unfoldable pub groups_of : List Fields → List XrDiffGroup
    groups_of [] = []
    groups_of (res ∷ rest) = group_in res (diff_single_resource res) ∷ groups_of rest

    unfoldable pub output_errors_of : List Fields → List OutputError
    output_errors_of [] = []
    output_errors_of (res ∷ rest) =
        output_errors_in res (diff_single_resource res) ++ output_errors_of rest

    unfoldable pub errors_of : List Fields → List GoError
    errors_of [] = []
    errors_of (res ∷ rest) = errors_in res (diff_single_resource res) ++ errors_of rest

    unfoldable pub changed : Fields → Bool
    changed res = is_changed (diff_single_resource res)

    unfoldable pub render_errors : List Fields → List GoError
    unfolding groups_of output_errors_of
    render_errors resources =
        elim (render_diffs (groups_of resources) (output_errors_of resources)) [
          | none ↦ []
          | some e ↦ wrap (codes "failed to render diffs") e ∷ []
        ]

    process_all-collects :
        (resources : List Fields) (c : Collected)
        → ((res : Fields) → IsReturned (diff_single_resource res))
        → process_all api diff_single_resource render_diffs resources c
          ≡ ok (record {
            groups = c.groups ++ groups_of resources;
            output_errors = c.output_errors ++ output_errors_of resources;
            errs = c.errs ++ errors_of resources;
          })
    unfolding process_all groups_of output_errors_of errors_of
    process_all-collects [] c returned =
        rw (append-nil c.groups, append-nil c.output_errors, append-nil c.errs)
    process_all-collects (res ∷ rest) c returned =
        let r = diff_single_resource res in
        rw (collect-collected res r c (returned res)) (
          process_all-collects rest (collected res r c) returned
          ∙ rw (
            append_assoc c.groups (group_in res r ∷ []) (groups_of rest),
            append_assoc c.output_errors (output_errors_in res r) (output_errors_of rest),
            append_assoc c.errs (errors_in res r) (errors_of rest),
          ))

    has_diffs-groups :
        (resources : List Fields) → has_diffs (groups_of resources) ≡ any changed resources
    unfolding has_diffs groups_of changed
    has_diffs-groups [] = refl
    has_diffs-groups (res ∷ rest) =
        rw (has_diffs-groups rest, group_in-changed res (diff_single_resource res))

    -- PerformDiff on a list of resources that is not empty, where handling one always returns: every
    -- resource is handled, whatever the others' outcome; there are diffs exactly if some resource's
    -- diffs have a change, and the error joins one error for each resource that failed, in order,
    -- and the renderer's error, which saw one group for each resource, in order.
    pub perform_diff-report :
        (res : Fields) (rest : List Fields)
        → ((res : Fields) → IsReturned (diff_single_resource res))
        → perform_diff api diff_single_resource render_diffs (res ∷ rest)
          ≡ ok (
            any changed (res ∷ rest),
            joined (errors_of (res ∷ rest) ++ render_errors (res ∷ rest)),
          )
    unfolding perform_diff render_errors all_errors
    perform_diff-report res rest returned =
        rw
          (
            process_all-collects (res ∷ rest) nothing_collected returned,
            has_diffs-groups (res ∷ rest),
          )
          (ap (λ es. ok (any changed (res ∷ rest), joined es))
            (with_render (render_diffs (groups_of (res ∷ rest)) (output_errors_of (res ∷ rest)))
              (errors_of (res ∷ rest))))
      where
        with_render :
            (e : Option GoError) (es : List GoError)
            → (elim e [ none ↦ es | some e ↦ es ++ (wrap (codes "failed to render diffs") e ∷ []) ])
              ≡ es ++ (elim e [ none ↦ [] | some e ↦ wrap (codes "failed to render diffs") e ∷ [] ])
        with_render none es = sym (append-nil es)
        with_render (some e) es = refl
