-- ===== src/Processor/Perform.antt =====
-- PerformDiff of diff_processor.go, and XRDiffGroup of renderer/types/types.go. What handles one
-- resource and what renders the result are parameters here, as the processor calls them.
pub mod Report
use crossplane_diff.Prelude.{
  Bool, true, false, ◌||◌, Option, none, some, List, [], ◌∷◌, ◌++◌, if◌then◌else◌,
}
use crossplane_diff.Text.{Text, codes}
use crossplane_diff.GoMap.{GoMap}
use crossplane_diff.Objects.{Fields}
use crossplane_diff.Objects.Api.{Api}
use crossplane_diff.Errors.Tree.{GoError, wrap}
use crossplane_diff.Errors.Failures.{new_output_error}
use crossplane_diff.Types.Key.{ResourceDiff, is_change}
use crossplane_diff.Types.Output.{OutputError}
use crossplane_diff.Result.{Result, ok, err, panic, ◌>>=◌}
use crossplane_diff.Calculator.Composed.{joined}

-- corev1.ObjectReference, the fields that are set.
pub record ObjectReference : Type 0 where
  pub api_version : Text
  pub kind : Text
  pub name : Text
  pub namespace : Text

-- XRDiffGroup; none is a nil pointer.
pub record XrDiffGroup : Type 0 where
  pub xr : ObjectReference
  pub diffs : GoMap ResourceDiff
  pub err : Option OutputError

-- The variables groups, outputErrors and errs.
pub record Collected : Type 0 where
  pub groups : List XrDiffGroup
  pub output_errors : List OutputError
  pub errs : List GoError

abbrev pub nothing_collected : Collected
nothing_collected = record { groups = []; output_errors = []; errs = [] }

-- Does a map of diffs have one that is not DiffTypeEqual?
unfoldable pub any_change : GoMap ResourceDiff → Bool
any_change [] = false
any_change ((k, d) ∷ m) = is_change d.diff_type || any_change m

-- The loop that counts the diffs.
unfoldable pub has_diffs : List XrDiffGroup → Bool
unfolding any_change
has_diffs [] = false
has_diffs (g ∷ gs) = any_change g.diffs || has_diffs gs

module _ (api : Api) where
  unfoldable pub resource_id : Fields → Text
  resource_id res = api.get_kind res ++ (b'/' ∷ api.get_name res)

  unfoldable pub reference : Fields → ObjectReference
  reference res = record {
    api_version = api.get_api_version res;
    kind = api.get_kind res;
    name = api.get_name res;
    namespace = api.get_namespace res;
  }

  -- What is collected of one resource.
  unfoldable pub collect : Fields → Result (GoMap ResourceDiff) → Collected → Result Collected
  collect res (ok diffs) c =
      let group : XrDiffGroup = record { xr = reference res; diffs = diffs; err = none } in
      ok (record {
        groups = c.groups ++ (group ∷ []);
        output_errors = c.output_errors;
        errs = c.errs;
      })
  collect res (err e) c =
      let out_err = new_output_error (resource_id res) e in
      let group : XrDiffGroup = record { xr = reference res; diffs = []; err = some out_err } in
      ok (record {
        groups = c.groups ++ (group ∷ []);
        output_errors = c.output_errors ++ (out_err ∷ []);
        errs = c.errs ++ (wrap (codes "unable to process resource " ++ resource_id res) e ∷ []);
      })
  collect res panic c = panic

module _ (api : Api) (diff_single_resource : Fields → Result (GoMap ResourceDiff))
    (render_diffs : List XrDiffGroup → List OutputError → Option GoError) where
  unfoldable pub process_all : List Fields → Collected → Result Collected
  process_all [] c = ok c
  process_all (res ∷ rest) c =
      collect api res (diff_single_resource res) c >>= (λ c'. process_all rest c')

  -- errs after the rendering.
  unfoldable pub all_errors : Collected → List GoError
  all_errors c = elim (render_diffs c.groups c.output_errors) [
    | none ↦ c.errs
    | some e ↦ c.errs ++ (wrap (codes "failed to render diffs") e ∷ [])
  ]

  -- PerformDiff: whether there are diffs, and the error.
  unfoldable pub perform_diff : List Fields → Result (Bool × Option GoError)
  perform_diff [] = ok (false, none)
  perform_diff (res ∷ rest) =
      process_all (res ∷ rest) nothing_collected
      >>= (λ c. ok (has_diffs c.groups, joined (all_errors c)))
