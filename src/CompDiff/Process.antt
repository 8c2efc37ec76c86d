-- ===== src/CompDiff/Process.antt =====
-- One composition and all of them: processSingleComposition, preflightResourceRefs and
-- DiffComposition of comp_processor.go, with the records of renderer/structured_renderer.go.
pub mod Summed
pub mod Verdict
pub mod Pinned
use crossplane_diff.Prelude.{
  ℕ, Bool, true, false, not, ◌&&◌, ◌||◌, Option, none, some, List, [], ◌∷◌, ◌++◌, map, length, suc,
  ◌==◌, ltb, is_some, if◌then◌else◌,
}
use crossplane_diff.Text.{Text, codes, text_eq}
use crossplane_diff.GoMap.{GoMap, lookup, insert}
use crossplane_diff.Objects.{Fields}
use crossplane_diff.Objects.Api.{Api}
use crossplane_diff.Errors.Tree.{GoError, leaf, wrap}
use crossplane_diff.Errors.Failures.{new_output_error}
use crossplane_diff.Types.Key.{ResourceDiff, is_change}
use crossplane_diff.Types.Output.{OutputError}
use crossplane_diff.Result.{Result, ok, err, panic, ◌>>=◌, wrapping}
use crossplane_diff.Compare.Generate.{Comparer}
use crossplane_diff.Ref.{NamespacedName, format}
use crossplane_diff.Selection.Paths.{Accessors}
use crossplane_diff.Selection.Selector.{Labels}
use crossplane_diff.Selection.State.{Composition}
use crossplane_diff.CompDiff.Scope.{
  ChangeScope, scope_text, AnalyzeOn, triggers_analysis, CompositionComparison, changed,
  CompositionSource, calculate_composition_diff,
}
use crossplane_diff.CompDiff.Classify.{
  Sorted, FilteredXr, count_filter_reasons, partition_xrs_by_update_policy,
}
use crossplane_diff.CompDiff.Impact.{
  XrStatus, status_changed, status_error, XrDiffResult, XrImpact, AffectedResourcesSummary,
  empty_summary, apply_to, build_impact_analysis, filtered_impact, collect_xr_diffs,
}

-- RevisionImpact
pub record RevisionImpact : Type 0 where
  pub change_scope : Text
  pub creates_revision : Bool
  pub repointed_composites : ℕ

-- CompositionDiff
pub record CompositionDiff : Type 0 where
  pub name : Text
  pub error : Option GoError
  pub composition_diff : Option ResourceDiff
  pub affected_resources : AffectedResourcesSummary
  pub impact_analysis : List XrImpact
  pub impact_analysis_skipped : Bool
  pub masked_changes_only : Bool
  pub revision_impact : RevisionImpact

-- The composition processor's configuration, the clients and the XR processor that it calls, and
-- the functions of apimachinery and of the comparison.
pub record Environment (Expression Selector : Type 0) : Type 0 where
  pub include_manual : Bool
  pub analyze_on : AnalyzeOn
  pub ignore_paths : List Text
  pub xr_synthesis_suffix : Text
  pub api : Api
  pub lib : Comparer
  pub at : Accessors
  pub labels : Labels Expression Selector
  pub deletion_timestamp : Fields → Option Text
  pub source : CompositionSource
  pub to_composition : Fields → Result Composition
  pub find_matching_composition : Fields → Result Composition
  pub diff_single_resource : (Fields → Result Composition) → Fields → Result (GoMap ResourceDiff)

abbrev is_some_change : Option ResourceDiff → Bool
is_some_change none = false
is_some_change (some d) = is_change d.diff_type

unfoldable pub any_changed : List XrImpact → Bool
any_changed [] = false
any_changed (i ∷ is) = elim i.status [ status_changed ↦ true | _ ↦ any_changed is ]

-- CompositionDiff.HasChanges
unfoldable pub has_changes : CompositionDiff → Bool
has_changes c = is_some_change c.composition_diff || any_changed c.impact_analysis

abbrev repointed : CompositionComparison → List Fields → ℕ
repointed c kept = if changed c then length kept else 0

-- What of the result does not depend on the composites: the rest is filled in.
unfoldable pub report :
    Text
    → CompositionComparison
    → List Fields
    → AffectedResourcesSummary
    → List XrImpact
    → Bool
    → CompositionDiff
report name c kept summary impacts skipped = record {
  name = name;
  error = none;
  composition_diff = c.diff;
  affected_resources = summary;
  impact_analysis = impacts;
  impact_analysis_skipped = skipped;
  masked_changes_only = not (is_some c.diff) && changed c;
  revision_impact = record {
    change_scope = scope_text c.scope;
    creates_revision = changed c;
    repointed_composites = repointed c kept;
  };
}

-- keptSummary.Total = len(affectedXRs)
abbrev widened : ℕ → AffectedResourcesSummary → AffectedResourcesSummary
widened n s = record {
  total = n;
  with_changes = s.with_changes;
  unchanged = s.unchanged;
  with_errors = s.with_errors;
  filtered_by_policy = s.filtered_by_policy;
  filtered_by_selector = s.filtered_by_selector;
  filtered_by_deletion = s.filtered_by_deletion;
}

module _ {Expression Selector : Type 0} (env : Environment Expression Selector) where
  abbrev pub comparison_of : Fields → Result CompositionComparison
  comparison_of new_comp =
      calculate_composition_diff env.api env.lib env.xr_synthesis_suffix env.source env.ignore_paths
        new_comp

  abbrev pub partition : List Fields → Fields → Result Sorted
  partition xrs comp =
      partition_xrs_by_update_policy env.api env.at env.labels env.deletion_timestamp
        env.include_manual xrs comp

  abbrev pub collected : List Fields → Fields → Result (GoMap XrDiffResult)
  collected xrs comp =
      collect_xr_diffs env.api env.find_matching_composition env.diff_single_resource
        env.to_composition xrs comp

  abbrev surfaced : Bool → List FilteredXr → List XrImpact
  surfaced surface_filtered dropped =
      if surface_filtered then map (filtered_impact env.api) dropped else []

  -- The entries and the counts, with the results of the composites that are kept.
  unfoldable pub with_results :
      ℕ
      → Bool
      → List Fields
      → List FilteredXr
      → GoMap XrDiffResult
      → List XrImpact × AffectedResourcesSummary
  with_results n surface_filtered xrs dropped results =
      let built = build_impact_analysis env.api xrs results in
      (
        surfaced surface_filtered dropped ++ built.0,
        apply_to (count_filter_reasons dropped) (widened n built.1),
      )

  -- The analysis: without a kept composite nothing is rendered.
  unfoldable pub analysed :
      ℕ → Bool → Fields → Sorted → Result (List XrImpact × AffectedResourcesSummary)
  analysed n surface_filtered comp ([], dropped) =
      ok (
        surfaced surface_filtered dropped,
        apply_to (count_filter_reasons dropped) (empty_summary n),
      )
  analysed n surface_filtered comp (xr ∷ xrs, dropped) =
      collected (xr ∷ xrs) comp
      >>= (λ results. ok (with_results n surface_filtered (xr ∷ xrs) dropped results))

  unfoldable pub analysed_if :
      Bool → Text → CompositionComparison → ℕ → Bool → Fields → Sorted → Result CompositionDiff
  analysed_if true name c n surface_filtered comp sorted =
      analysed n surface_filtered comp sorted >>= (λ a. ok (report name c sorted.0 a.1 a.0 false))
  analysed_if false name c n surface_filtered comp sorted =
      ok (report name c sorted.0 (empty_summary 0) [] true)

  -- What follows the comparison, which leaves the composition without the cluster's metadata.
  unfoldable pub process_compared :
      Fields → List Fields → Bool → CompositionComparison → Result CompositionDiff
  process_compared new_comp affected surface_filtered comparison =
      partition affected (env.source.without_cluster_metadata new_comp) >>= (λ sorted.
        analysed_if (triggers_analysis comparison.scope env.analyze_on) (env.api.get_name new_comp)
          comparison (length affected) surface_filtered
          (env.source.without_cluster_metadata new_comp) sorted)

  -- processSingleComposition
  unfoldable pub process_single_composition : Fields → List Fields → Bool → Result CompositionDiff
  process_single_composition new_comp affected surface_filtered =
      wrapping (codes "cannot calculate composition diff") (comparison_of new_comp)
      >>= (λ comparison. process_compared new_comp affected surface_filtered comparison)
