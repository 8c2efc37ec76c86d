-- ===== src/CompDiff/Impact.antt =====
-- The composites that a composition affects, each rendered with it: collectXRDiffs and
-- buildImpactAnalysis of comp_processor.go, with the records of
-- cmd/diff/renderer/structured_renderer.go.
pub mod Counted
pub mod Own
use crossplane_diff.Prelude.{
  ℕ, suc, Bool, true, false, ◌&&◌, Option, none, some, List, [], ◌∷◌, ◌++◌, length, is_some,
  if◌then◌else◌,
}
use crossplane_diff.Text.{Text, codes, text_eq}
use crossplane_diff.GoMap.{GoMap, lookup, has_key, insert}
use crossplane_diff.Objects.{Fields}
use crossplane_diff.Objects.Api.{Api, Gvk}
use crossplane_diff.Errors.Tree.{GoError, wrap}
use crossplane_diff.Types.Key.{ResourceDiff, make_diff_key_from_resource, is_change}
use crossplane_diff.Result.{Result, ok, err, panic, ◌>>=◌}
use crossplane_diff.Processor.Perform.{ObjectReference, reference, any_change}
use crossplane_diff.Selection.State.{Composition}
use crossplane_diff.CompDiff.Classify.{FilterReason, no_reason, FilteredXr, FilterCounts}

-- XRStatus
pub data XrStatus : Type 0 where
  status_changed status_unchanged status_error status_filtered : XrStatus

-- XRDiffResult
pub record XrDiffResult : Type 0 where
  pub diffs : GoMap ResourceDiff
  pub error : Option GoError

-- HasChanges and HasError
unfoldable pub has_changes : XrDiffResult → Bool
unfolding any_change
has_changes r = any_change r.diffs

unfoldable pub has_error : XrDiffResult → Bool
has_error r = is_some r.error

-- XRImpact
pub record XrImpact : Type 0 where
  pub xr : ObjectReference
  pub status : XrStatus
  pub filter_reason : FilterReason
  pub filter_detail : Text
  pub error : Option GoError
  pub diffs : Option (GoMap ResourceDiff)

-- AffectedResourcesSummary
pub record AffectedResourcesSummary : Type 0 where
  pub total : ℕ
  pub with_changes : ℕ
  pub unchanged : ℕ
  pub with_errors : ℕ
  pub filtered_by_policy : ℕ
  pub filtered_by_selector : ℕ
  pub filtered_by_deletion : ℕ

abbrev pub empty_summary : ℕ → AffectedResourcesSummary
empty_summary n = record {
  total = n;
  with_changes = 0;
  unchanged = 0;
  with_errors = 0;
  filtered_by_policy = 0;
  filtered_by_selector = 0;
  filtered_by_deletion = 0;
}

-- summary.WithChanges++, summary.Unchanged++ or summary.WithErrors++.
abbrev pub tallied : XrStatus → AffectedResourcesSummary → AffectedResourcesSummary
tallied status_changed s = record {
  total = s.total;
  with_changes = suc s.with_changes;
  unchanged = s.unchanged;
  with_errors = s.with_errors;
  filtered_by_policy = s.filtered_by_policy;
  filtered_by_selector = s.filtered_by_selector;
  filtered_by_deletion = s.filtered_by_deletion;
}
tallied status_unchanged s = record {
  total = s.total;
  with_changes = s.with_changes;
  unchanged = suc s.unchanged;
  with_errors = s.with_errors;
  filtered_by_policy = s.filtered_by_policy;
  filtered_by_selector = s.filtered_by_selector;
  filtered_by_deletion = s.filtered_by_deletion;
}
tallied status_error s = record {
  total = s.total;
  with_changes = s.with_changes;
  unchanged = s.unchanged;
  with_errors = suc s.with_errors;
  filtered_by_policy = s.filtered_by_policy;
  filtered_by_selector = s.filtered_by_selector;
  filtered_by_deletion = s.filtered_by_deletion;
}
tallied status_filtered s = s

-- filterCounts.applyTo
unfoldable pub apply_to : FilterCounts → AffectedResourcesSummary → AffectedResourcesSummary
apply_to c s = record {
  total = s.total;
  with_changes = s.with_changes;
  unchanged = s.unchanged;
  with_errors = s.with_errors;
  filtered_by_policy = c.by_policy;
  filtered_by_selector = c.by_selector;
  filtered_by_deletion = c.by_deletion;
}

-- The switch of buildImpactAnalysis; none is a nil result.
unfoldable pub status_of : Option XrDiffResult → XrStatus
status_of none = status_unchanged
status_of (some r) =
    if has_error r then status_error else if has_changes r then status_changed else status_unchanged

abbrev impact_with : ObjectReference → Option XrDiffResult → XrStatus → XrImpact
impact_with xr result status_error = record {
  xr = xr;
  status = status_error;
  filter_reason = no_reason;
  filter_detail = [];
  error = elim result [ none ↦ none | some r ↦ r.error ];
  diffs = none;
}
impact_with xr result status_changed = record {
  xr = xr;
  status = status_changed;
  filter_reason = no_reason;
  filter_detail = [];
  error = none;
  diffs = elim result [ none ↦ none | some r ↦ some r.diffs ];
}
impact_with xr result status = record {
  xr = xr;
  status = status;
  filter_reason = no_reason;
  filter_detail = [];
  error = none;
  diffs = none;
}

-- The impact of a composite with a result.
unfoldable pub impact_of : ObjectReference → Option XrDiffResult → XrImpact
impact_of xr result = impact_with xr result (status_of result)

module _ (api : Api) where
  -- The loop of buildImpactAnalysis.
  unfoldable pub build_from :
      List Fields
      → GoMap XrDiffResult
      → AffectedResourcesSummary
      → List XrImpact × AffectedResourcesSummary
  build_from [] results summary = ([], summary)
  build_from (xr ∷ xrs) results summary =
      let impact =
        impact_of (reference api xr) (lookup (make_diff_key_from_resource api xr) results) in
      let rest = build_from xrs results (tallied impact.status summary) in (impact ∷ rest.0, rest.1)

  -- buildImpactAnalysis
  unfoldable pub build_impact_analysis :
      List Fields → GoMap XrDiffResult → List XrImpact × AffectedResourcesSummary
  build_impact_analysis xrs results = build_from xrs results (empty_summary (length xrs))

  -- The entry of a composite that the revision does not reach.
  unfoldable pub filtered_impact : FilteredXr → XrImpact
  filtered_impact d = record {
    xr = reference api d.xr;
    status = status_filtered;
    filter_reason = d.reason;
    filter_detail = d.detail;
    error = none;
    diffs = none;
  }

  -- The loop that collects the keys of the composites.
  unfoldable pub root_keys : List Fields → GoMap Bool → GoMap Bool
  root_keys [] keys = keys
  root_keys (xr ∷ xrs) keys = root_keys xrs (insert (make_diff_key_from_resource api xr) true keys)

  module _ (find_matching_composition : Fields → Result Composition) where
    -- compositionProvider
    unfoldable pub composition_provider : Composition → GoMap Bool → Fields → Result Composition
    composition_provider cli_comp roots res =
        let gvk = api.group_version_kind res in
        if has_key (make_diff_key_from_resource api res) roots
        then ok cli_comp
        else if text_eq (api.group_version gvk) cli_comp.spec.composite_type_ref.api_version
            && text_eq gvk.kind cli_comp.spec.composite_type_ref.kind
        then ok cli_comp
        else find_matching_composition res

    module _
        (diff_single_resource : (Fields → Result Composition)
          → Fields
          → Result (GoMap ResourceDiff))
        (to_composition : Fields → Result Composition) where
      -- What is stored of one composite.
      unfoldable pub result_of : Text → Result (GoMap ResourceDiff) → Result XrDiffResult
      result_of key (ok diffs) = ok (record { diffs = diffs; error = none })
      result_of key (err e) = ok (record {
        diffs = [];
        error = some (wrap (codes "unable to process resource " ++ key) e);
      })
      result_of key panic = panic

      unfoldable pub collect_from :
          (Fields → Result Composition)
          → List Fields
          → GoMap XrDiffResult
          → Result (GoMap XrDiffResult)
      collect_from provider [] results = ok results
      collect_from provider (xr ∷ xrs) results =
          let key = make_diff_key_from_resource api xr in
          result_of key (diff_single_resource provider xr)
          >>= (λ r. collect_from provider xrs (insert key r results))

      -- The results where the composition cannot be converted.
      unfoldable pub all_failed : GoError → List Fields → GoMap XrDiffResult → GoMap XrDiffResult
      all_failed e [] results = results
      all_failed e (xr ∷ xrs) results = all_failed e xrs (
          insert (make_diff_key_from_resource api xr)
            (record {
              diffs = [];
              error = some (wrap (codes "cannot convert CLI composition to typed") e);
            })
            results)

      -- collectXRDiffs
      unfoldable pub collect_xr_diffs : List Fields → Fields → Result (GoMap XrDiffResult)
      collect_xr_diffs xrs new_comp = elim (to_composition new_comp) [
        | ok cli_comp ↦ collect_from (composition_provider cli_comp (root_keys xrs [])) xrs []
        | err e ↦ ok (all_failed e xrs [])
        | panic ↦ panic
      ]
