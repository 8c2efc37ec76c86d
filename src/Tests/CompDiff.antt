-- ===== src/Tests/CompDiff.antt =====
-- Tests of the composition processor (cmd/diff/diffprocessor/comp_processor.go): a composition with
-- another spec than the cluster's, and one composite that uses it.
use crossplane_diff.CompDiff.Run.{affected_xrs}
use crossplane_diff.CompDiff.Run.{processed}
use crossplane_diff.CompDiff.Run.{preflight_resource_refs}
use crossplane_diff.Types.Key.{make_diff_key_from_resource}
use crossplane_diff.Types.Key.{make_diff_key}
use crossplane_diff.Types.Generated.{with_dash}
use crossplane_diff.Types.Generated.{to_lower}
use crossplane_diff.Types.Generated.{is_lower_hex}
use crossplane_diff.Types.Generated.{is_hex_digit}
use crossplane_diff.Types.Generated.{has_generated_shape}
use crossplane_diff.Types.Generated.{generated_display_name}
use crossplane_diff.Text.{has_prefix}
use crossplane_diff.Text.{cut_prefix}
use crossplane_diff.Text.{cut}
use crossplane_diff.Processor.Perform.{reference}
use crossplane_diff.Processor.Perform.{any_change}
use crossplane_diff.Objects.{has}
use crossplane_diff.GoMap.{has_key}
use crossplane_diff.Compare.Paths.{remove_field}
use crossplane_diff.Compare.Generate.{rendered_name}
use crossplane_diff.Compare.Generate.{equal_diff}
use crossplane_diff.Compare.Generate.{diff_namespace}
use crossplane_diff.Compare.Generate.{diff_name}
use crossplane_diff.Compare.Cleanup.{strip_paths}
use crossplane_diff.CompDiff.Scope.{unmasked_comparison}
use crossplane_diff.CompDiff.Scope.{undisplayed}
use crossplane_diff.CompDiff.Scope.{triggers_analysis}
use crossplane_diff.CompDiff.Scope.{scope_text}
use crossplane_diff.CompDiff.Scope.{composition_change_scope}
use crossplane_diff.CompDiff.Process.{with_results}
use crossplane_diff.CompDiff.Process.{report}
use crossplane_diff.CompDiff.Process.{analysed_if}
use crossplane_diff.CompDiff.Process.{analysed}
use crossplane_diff.CompDiff.Impact.{status_of}
use crossplane_diff.CompDiff.Impact.{root_keys}
use crossplane_diff.CompDiff.Impact.{result_of}
use crossplane_diff.CompDiff.Impact.{impact_of}
use crossplane_diff.CompDiff.Impact.{has_error}
use crossplane_diff.CompDiff.Impact.{filtered_impact}
use crossplane_diff.CompDiff.Impact.{composition_provider}
use crossplane_diff.CompDiff.Impact.{collect_from}
use crossplane_diff.CompDiff.Impact.{build_from}
use crossplane_diff.CompDiff.Impact.{apply_to}
use crossplane_diff.CompDiff.Impact.{all_failed}
use crossplane_diff.CompDiff.Classify.{count_from}
use crossplane_diff.CompDiff.Process.{process_compared}
use crossplane_diff.CompDiff.Scope.{displayed}
use crossplane_diff.Compare.Generate.{described}
use crossplane_diff.Tests.Cluster.{one_piece}
use crossplane_diff.Tests.Cluster.{fields_text}
use crossplane_diff.Compare.Generate.{from_texts}
use crossplane_diff.Compare.Generate.{clean_of}
use crossplane_diff.Compare.Generate.{as_string}
use crossplane_diff.Compare.Generate.{text_diff}
use crossplane_diff.Types.Generated.{looks_like_generated_name}
use crossplane_diff.Compare.Cleanup.{strip_synthetic_name}
use crossplane_diff.Compare.Cleanup.{remove_all}
use crossplane_diff.Compare.Cleanup.{clean_metadata_map}
use crossplane_diff.Objects.{put}
use crossplane_diff.Tests.Cluster.{set_in}
use crossplane_diff.Text.{split}
use crossplane_diff.Compare.Paths.{remove_key_of}
use crossplane_diff.Compare.Paths.{remove_map_key}
use crossplane_diff.Text.{trim_suffix}
use crossplane_diff.Compare.Paths.{remove_bracket_path}
use crossplane_diff.Text.{has_suffix}
use crossplane_diff.Text.{contains}
use crossplane_diff.Compare.Paths.{remove_nested_path}
use crossplane_diff.Compare.Cleanup.{clean_metadata}
use crossplane_diff.Compare.Cleanup.{spec_map}
use crossplane_diff.Compare.Cleanup.{set_spec}
use crossplane_diff.Tests.Cluster.{map_in}
use crossplane_diff.Compare.Cleanup.{clean_crossplane}
use crossplane_diff.Objects.{remove}
use crossplane_diff.Compare.Cleanup.{clean_fields}
use crossplane_diff.Compare.Cleanup.{cleanup_for_diff}
use crossplane_diff.Compare.Generate.{cleaned_equal}
use crossplane_diff.Tests.Cluster.{fields_eq}
use crossplane_diff.CompDiff.Scope.{compared}
use crossplane_diff.CompDiff.Scope.{calculate_composition_diff}
use crossplane_diff.Tests.Selection.{has_all}
use crossplane_diff.Tests.Selection.{as_map_at}
use crossplane_diff.Text.{join_with}
use crossplane_diff.Tests.Cluster.{field_at}
use crossplane_diff.Selection.Selector.{surfaced}
use crossplane_diff.Selection.Selector.{selector_referenced_keys}
use crossplane_diff.Selection.Selector.{parsed_selector}
use crossplane_diff.Selection.Selector.{describe_selector_mismatch}
use crossplane_diff.GoMap.{lookup}
use crossplane_diff.GoMap.{insert}
use crossplane_diff.GoMap.{copy}
use crossplane_diff.Selection.Paths.{nested_crossplane_map}
use crossplane_diff.Selection.Selector.{selector_under_policy}
use crossplane_diff.Selection.Selector.{xr_revision_selector}
use crossplane_diff.Selection.Selector.{xr_revision_selector_match}
use crossplane_diff.CompDiff.Classify.{classify_by_policy}
use crossplane_diff.Tests.Selection.{as_string_at}
use crossplane_diff.Objects.{get}
use crossplane_diff.Tests.Cluster.{string_in}
use crossplane_diff.Selection.Paths.{get_crossplane_ref_paths}
use crossplane_diff.Selection.Paths.{first_found}
use crossplane_diff.Selection.Paths.{nested_crossplane_value}
use crossplane_diff.Selection.Paths.{nested_crossplane_string}
use crossplane_diff.Selection.Paths.{xr_update_policy}
use crossplane_diff.CompDiff.Classify.{classify_xr}
use crossplane_diff.CompDiff.Classify.{partition_from}
use crossplane_diff.Prelude.{
  ◌⊎◌, ◌≡◌, refl, ◌+◌, ◌↔◌, Bool, true, false, Option, none, some, List, [], ◌∷◌, keep, any, map,
  length, All,
}
use crossplane_diff.Text.{Text, codes, text_eq}
use crossplane_diff.GoMap.{GoMap}
use crossplane_diff.Objects.{string, object, Fields}
use crossplane_diff.Objects.Fields.{entry, end}
use crossplane_diff.Errors.Tree.{GoError, leaf}
use crossplane_diff.Types.Key.{ResourceDiff, added}
use crossplane_diff.Result.{Result, ok, err, panic}
use crossplane_diff.Compare.Generate.{generate_diff}
use crossplane_diff.Selection.State.{Composition}
use crossplane_diff.CompDiff.Scope.{changed}
use crossplane_diff.CompDiff.Scope.{
  on_any_change, on_always, on_spec_change, CompositionSource, original_composition, options,
}
use crossplane_diff.CompDiff.Classify.{
  Sorted, count_filter_reasons, partition_xrs_by_update_policy, predicted_revision_labels,
  labels_or_empty,
}
use crossplane_diff.CompDiff.Classify.Partition.{Parted, partition-Parted, total}
use crossplane_diff.CompDiff.Impact.{XrDiffResult, build_impact_analysis, collect_xr_diffs}
use crossplane_diff.CompDiff.Impact.Own.{OwnImpacts, collect_xr_diffs-OwnImpacts}
use crossplane_diff.CompDiff.Process.{
  CompositionDiff, Environment, partition, process_single_composition, has_changes,
}
use crossplane_diff.CompDiff.Process.Summed.{IsSummary, process-IsSummary}
use crossplane_diff.CompDiff.Process.Verdict.{process-changed, process-same}
use crossplane_diff.CompDiff.Process.Pinned.{process-pinned}
use crossplane_diff.Types.Output.{OutputError}
use crossplane_diff.Selection.Discover.{FindCompositesOptions}
use crossplane_diff.CompDiff.Run.{RunProgress, failed_composition, diff_composition}
use crossplane_diff.CompDiff.Run.Reported.{
  is_composition, outcome, entry as entry_for, failures, shows_change, Fine,
  diff_composition-report,
}
use crossplane_diff.Tests.Cluster.{api, lib}
use crossplane_diff.Tests.Selection.{at, labels, composition, bucket}

abbrev comp_object : Text → Fields
comp_object value = entry (codes "kind") (string (codes "Composition")) (
    entry (codes "metadata") (object (entry (codes "name") (string (codes "comp")) end))
      (entry (codes "spec") (object (entry (codes "a") (string value) end)) end))

abbrev original : Fields
original = comp_object (codes "old")

abbrev altered : Fields
altered = comp_object (codes "new")

abbrev source : CompositionSource
source = record {
  get_composition = λ name. ok composition;
  to_unstructured = λ c. ok original;
  without_cluster_metadata = λ o. o;
}

abbrev diff : ResourceDiff
diff = record {
  gvk = record { group = []; version = []; kind = codes "Bucket" };
  namespace = [];
  resource_name = codes "x";
  diff_type = added;
  line_diffs = [];
  current = record { raw = none; clean = none };
  desired = record { raw = none; clean = none };
}

abbrev env : Bool → Environment Text (GoMap Text)
env include_manual = record {
  include_manual = include_manual;
  analyze_on = on_any_change;
  ignore_paths = [];
  xr_synthesis_suffix = codes "suffix";
  api = api;
  lib = lib;
  at = at;
  labels = labels;
  deletion_timestamp = λ o. none;
  source = source;
  to_composition = λ o. ok composition;
  find_matching_composition = λ o. err (leaf (codes "none"));
  diff_single_resource = λ provider xr. ok ((codes "k", diff) ∷ []);
}

-- A composite that is pinned.
abbrev pinned : Fields
pinned = entry (codes "kind") (string (codes "XBucket")) (
    entry (codes "spec")
      (object (entry (codes "compositionUpdatePolicy") (string (codes "Manual")) end)) end)

partition-Parted_example :
    Parted api at labels
      (λ o. none)
      false
      (predicted_revision_labels api altered)
      (labels_or_empty (api.get_labels altered))
      (bucket ∷ [])
      (bucket ∷ [])
      []
    × (length (bucket ∷ []) ≡ length (bucket ∷ []) + total (count_filter_reasons []))
unfolding partition_xrs_by_update_policy partition_from classify_xr xr_update_policy
    nested_crossplane_string nested_crossplane_value first_found get_crossplane_ref_paths text_eq
    string_in get as_string_at classify_by_policy xr_revision_selector_match xr_revision_selector
    selector_under_policy nested_crossplane_map predicted_revision_labels copy insert lookup
    describe_selector_mismatch parsed_selector selector_referenced_keys surfaced field_at join_with
    as_map_at has_all
partition-Parted_example =
    partition-Parted api at labels (λ o. none) false (bucket ∷ []) (bucket ∷ []) [] altered refl

abbrev or_else {ℓ} : {A : Type ℓ} → Result A → A → A
or_else (ok a) b = a
or_else (err e) b = b
or_else panic b = b

abbrev nothing : CompositionDiff
nothing = failed_composition [] (leaf [])

abbrev of_changed : CompositionDiff
of_changed = or_else (process_single_composition (env false) altered (bucket ∷ []) true) nothing

abbrev of_pinned : CompositionDiff
of_pinned = or_else (process_single_composition (env true) altered (pinned ∷ []) true) nothing

abbrev of_original : CompositionDiff
of_original = or_else (process_single_composition (env false) original (bucket ∷ []) true) nothing

process-IsSummary_example :
    IsSummary 1 true of_changed.impact_analysis of_changed.affected_resources
unfolding process_single_composition calculate_composition_diff original_composition compared
    generate_diff fields_eq text_eq cleaned_equal cleanup_for_diff clean_fields remove
    clean_crossplane map_in get set_spec spec_map clean_metadata remove_nested_path contains
    has_suffix remove_bracket_path trim_suffix remove_map_key remove_key_of split set_in put
    clean_metadata_map remove_all strip_synthetic_name string_in looks_like_generated_name text_diff
    as_string clean_of from_texts fields_text one_piece described displayed process_compared
    partition_xrs_by_update_policy partition_from classify_xr xr_update_policy
    nested_crossplane_string nested_crossplane_value first_found get_crossplane_ref_paths
    as_string_at classify_by_policy count_filter_reasons count_from predicted_revision_labels
    all_failed apply_to build_from build_impact_analysis collect_from collect_xr_diffs
    composition_provider filtered_impact has_changes has_error impact_of result_of root_keys
    status_of analysed analysed_if report with_results changed composition_change_scope scope_text
    triggers_analysis undisplayed unmasked_comparison strip_paths diff_name diff_namespace
    equal_diff rendered_name remove_field copy has_key insert lookup has any_change reference
    nested_crossplane_map describe_selector_mismatch parsed_selector selector_referenced_keys
    selector_under_policy surfaced xr_revision_selector xr_revision_selector_match field_at cut
    cut_prefix has_prefix join_with generated_display_name has_generated_shape is_hex_digit
    is_lower_hex to_lower with_dash make_diff_key make_diff_key_from_resource as_map_at has_all
process-IsSummary_example =
    process-IsSummary (env false) altered (bucket ∷ []) true of_changed refl refl

process-changed_example :
    (of_changed.revision_impact.creates_revision ≡ true)
    × ((sorted : Sorted) × (partition (env false) (bucket ∷ []) altered ≡ ok sorted)
        × (of_changed.revision_impact.repointed_composites ≡ length sorted.0))
    × (((env false).analyze_on ≡ on_spec_change) ⊎ (of_changed.impact_analysis_skipped ≡ false))
unfolding original_composition generate_diff fields_eq text_eq cleaned_equal cleanup_for_diff
    clean_fields remove clean_crossplane map_in get set_spec spec_map clean_metadata set_in put
    clean_metadata_map remove_all strip_paths strip_synthetic_name as_string clean_of described
    diff_name diff_namespace equal_diff from_texts rendered_name text_diff remove_bracket_path
    remove_field remove_key_of remove_map_key remove_nested_path has field_at contains cut
    cut_prefix has_prefix has_suffix split trim_suffix generated_display_name has_generated_shape
    is_hex_digit is_lower_hex looks_like_generated_name to_lower with_dash string_in fields_text
    one_piece process_single_composition calculate_composition_diff compared displayed
    process_compared partition_xrs_by_update_policy partition_from classify_xr xr_update_policy
    nested_crossplane_string nested_crossplane_value first_found get_crossplane_ref_paths
    as_string_at classify_by_policy count_filter_reasons count_from predicted_revision_labels
    all_failed apply_to build_from build_impact_analysis collect_from collect_xr_diffs
    composition_provider filtered_impact has_changes has_error impact_of result_of root_keys
    status_of analysed analysed_if report with_results changed composition_change_scope scope_text
    triggers_analysis undisplayed unmasked_comparison copy has_key insert lookup any_change
    reference nested_crossplane_map describe_selector_mismatch parsed_selector
    selector_referenced_keys selector_under_policy surfaced xr_revision_selector
    xr_revision_selector_match join_with make_diff_key make_diff_key_from_resource as_map_at has_all
process-changed_example =
    process-changed (env false) altered (bucket ∷ []) true (some original) of_changed refl
      (
        or_else
            (generate_diff (codes "suffix") api lib (some original) (some altered)
              (options [] true))
            diff,
        refl,
        refl,
      )
      refl

process-same_example :
    (of_original.revision_impact.creates_revision ≡ false)
    × (of_original.revision_impact.repointed_composites ≡ 0)
    × (of_original.composition_diff ≡ none)
    × (of_original.masked_changes_only ≡ false)
    × (((env false).analyze_on ≡ on_always)
        ⊎ ((of_original.impact_analysis_skipped ≡ true) × (has_changes of_original ≡ false)))
unfolding original_composition fields_eq text_eq process_single_composition
    calculate_composition_diff compared generate_diff equal_diff displayed unmasked_comparison
    process_compared partition_xrs_by_update_policy partition_from classify_xr xr_update_policy
    nested_crossplane_string nested_crossplane_value first_found get_crossplane_ref_paths string_in
    get as_string_at classify_by_policy xr_revision_selector_match xr_revision_selector
    selector_under_policy nested_crossplane_map as_map_at parsed_selector has_all analysed_if
    triggers_analysis undisplayed composition_change_scope
process-same_example =
    process-same (env false) original (bucket ∷ []) true original of_original refl refl refl

process-pinned_example : of_pinned.revision_impact.repointed_composites ≡ 1
unfolding xr_update_policy nested_crossplane_string nested_crossplane_value first_found
    get_crossplane_ref_paths text_eq string_in get as_string_at original_composition generate_diff
    fields_eq cleaned_equal cleanup_for_diff clean_fields remove clean_crossplane clean_metadata
    clean_metadata_map remove_all set_spec spec_map strip_paths strip_synthetic_name as_string
    clean_of described diff_name diff_namespace equal_diff from_texts rendered_name text_diff
    remove_bracket_path remove_field remove_key_of remove_map_key remove_nested_path has field_at
    contains cut cut_prefix has_prefix has_suffix join_with split trim_suffix generated_display_name
    has_generated_shape is_hex_digit is_lower_hex looks_like_generated_name to_lower with_dash
    map_in set_in put fields_text one_piece process_single_composition calculate_composition_diff
    compared displayed process_compared partition_xrs_by_update_policy partition_from classify_xr
    classify_by_policy analysed_if triggers_analysis composition_change_scope count_filter_reasons
    count_from predicted_revision_labels all_failed apply_to build_from build_impact_analysis
    collect_from collect_xr_diffs composition_provider filtered_impact has_changes has_error
    impact_of result_of root_keys status_of analysed report with_results changed scope_text
    undisplayed unmasked_comparison copy has_key insert lookup any_change reference
    nested_crossplane_map describe_selector_mismatch parsed_selector selector_referenced_keys
    selector_under_policy surfaced xr_revision_selector xr_revision_selector_match make_diff_key
    make_diff_key_from_resource
process-pinned_example =
    process-pinned (env true) altered (pinned ∷ []) true (some original) of_pinned refl
      ((refl, refl), tt) refl
      (
        or_else
            (generate_diff (codes "suffix") api lib (some original) (some altered)
              (options [] true))
            diff,
        refl,
        refl,
      )
      refl

abbrev results : GoMap XrDiffResult
results =
    or_else
      (collect_xr_diffs api (env false).find_matching_composition (env false).diff_single_resource
        (env false).to_composition (bucket ∷ []) altered)
      []

collect_xr_diffs-OwnImpacts_example :
    (provider : Fields → Result Composition) × All
      (λ xr. provider xr ≡ ok composition)
      (bucket ∷ [])
    × OwnImpacts api
        (env false).find_matching_composition
        (env false).diff_single_resource
        (env false).to_composition
        provider
        (bucket ∷ [])
        (build_impact_analysis api (bucket ∷ []) results).0
unfolding collect_xr_diffs collect_from result_of
collect_xr_diffs-OwnImpacts_example =
    collect_xr_diffs-OwnImpacts api (env false).find_matching_composition
      (env false).diff_single_resource (env false).to_composition (bucket ∷ []) altered composition
      results refl (tt, tt) refl

abbrev no_composites : Fields → FindCompositesOptions → Result (List Fields)
no_composites comp opts = ok []

abbrev no_render : List CompositionDiff → List OutputError → Option GoError
no_render comps errors = none

abbrev is_one : Fields → Bool
is_one = is_composition (env false) no_composites no_render (λ n. []) [] [] []

abbrev entry_of_one : Fields → CompositionDiff
entry_of_one = entry_for (env false) no_composites no_render (λ n. []) [] [] []

abbrev outcome_of_one : Fields → Result CompositionDiff
outcome_of_one = outcome (env false) no_composites no_render (λ n. []) [] [] []

diff_composition-report_example :
    (p : RunProgress) × (error : Option GoError) × (diff_composition
        (env false)
        no_composites
        no_render
        (λ n. [])
        (altered ∷ [])
        []
        []
      ≡ ok (p.has_diffs, error))
    × (p.compositions ≡ map (entry_of_one) (keep is_one (altered ∷ [])))
    × (p.composition_errors
        ≡ failures
            (env false)
            no_composites
            no_render
            (λ n. [])
            []
            []
            []
            (keep is_one (altered ∷ [])))
    × (p.has_diffs ≡ any (λ c. shows_change (outcome_of_one c)) (keep is_one (altered ∷ [])))
    × ((error ≡ none) ↔ Fine (env false) no_composites no_render (λ n. []) [] [] [] p)
unfolding preflight_resource_refs text_eq string_in get processed affected_xrs
    process_single_composition calculate_composition_diff original_composition compared
    generate_diff fields_eq cleaned_equal cleanup_for_diff clean_fields remove clean_crossplane
    map_in set_spec spec_map clean_metadata remove_nested_path contains has_suffix
    remove_bracket_path trim_suffix remove_map_key remove_key_of split set_in put clean_metadata_map
    remove_all strip_synthetic_name looks_like_generated_name text_diff as_string clean_of
    from_texts fields_text one_piece described displayed process_compared
    partition_xrs_by_update_policy partition_from analysed_if triggers_analysis
    composition_change_scope analysed
diff_composition-report_example =
    diff_composition-report (env false) no_composites no_render (λ n. []) [] [] [] altered [] refl
      (tt, tt)
