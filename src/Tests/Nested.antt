-- ===== src/Tests/Nested.antt =====
-- Tests of the nested XRs (diffSingleResourceInternal and ProcessNestedXRs of
-- cmd/diff/diffprocessor/diff_processor.go).
use crossplane_diff.Types.Generated.{with_dash}
use crossplane_diff.Types.Generated.{to_lower}
use crossplane_diff.Types.Generated.{synthesize_generated_name}
use crossplane_diff.Types.Generated.{is_lower_hex}
use crossplane_diff.Types.Generated.{is_hex_digit}
use crossplane_diff.Types.Generated.{has_generated_shape}
use crossplane_diff.Types.Generated.{generated_display_name}
use crossplane_diff.Text.{trim_suffix}
use crossplane_diff.Text.{split}
use crossplane_diff.Text.{has_suffix}
use crossplane_diff.Text.{has_prefix}
use crossplane_diff.Text.{cut_prefix}
use crossplane_diff.Preserve.{copy_labels}
use crossplane_diff.Preserve.{copy_keys}
use crossplane_diff.Objects.{remove}
use crossplane_diff.Objects.{has}
use crossplane_diff.Compare.Paths.{remove_nested_path}
use crossplane_diff.Compare.Paths.{remove_map_key}
use crossplane_diff.Compare.Paths.{remove_key_of}
use crossplane_diff.Compare.Paths.{remove_field}
use crossplane_diff.Compare.Paths.{remove_bracket_path}
use crossplane_diff.Compare.Generate.{rendered_name}
use crossplane_diff.Compare.Generate.{equal_diff}
use crossplane_diff.Compare.Generate.{cleaned_equal}
use crossplane_diff.Compare.Cleanup.{strip_synthetic_name}
use crossplane_diff.Compare.Cleanup.{strip_paths}
use crossplane_diff.Compare.Cleanup.{spec_map}
use crossplane_diff.Compare.Cleanup.{set_spec}
use crossplane_diff.Compare.Cleanup.{remove_all}
use crossplane_diff.Compare.Cleanup.{cleanup_for_diff}
use crossplane_diff.Compare.Cleanup.{clean_metadata_map}
use crossplane_diff.Compare.Cleanup.{clean_metadata}
use crossplane_diff.Compare.Cleanup.{clean_fields}
use crossplane_diff.Compare.Cleanup.{clean_crossplane}
use crossplane_diff.Calculator.Single.{composed_manager}
use crossplane_diff.Calculator.Composed.{composed_id}
use crossplane_diff.Prelude.{◌⊎◌, inl, inr, sym, subst, ◌≡◌, refl, true, none, some, [], ◌∷◌, arith}
use crossplane_diff.Text.{Text, codes, text_eq, cut, contains}
use crossplane_diff.GoMap.{GoMap, lookup, insert, copy}
use crossplane_diff.Objects.{get, Fields}
use crossplane_diff.Types.Key.{
  ResourceDiff, make_diff_key_from_resource, get_diff_key, make_diff_key,
}
use crossplane_diff.Types.Generated.{looks_like_generated_name}
use crossplane_diff.Compare.Generate.{
  diff_namespace, diff_name, generate_diff, text_diff, as_string, clean_of, from_texts, described,
}
use crossplane_diff.Calculator.Single.{
  to_apply, preserve_composite_label, preserve_existing_resource_identity, text_at, calculate_diff,
  would_be_result, left_by_diff, is_copied,
}
use crossplane_diff.Result.{ok, panic}
use crossplane_diff.Formatter.Lines.{default_diff_options}
use crossplane_diff.Calculator.Removed.{is_rendered}
use crossplane_diff.Calculator.Composed.{
  calculate_non_removal_diffs, calculate_composed, composite_of, desired_xr, is_nameless,
  record_diff, CompositionOutputs, Progress, left_composed, left_by_loop,
}
use crossplane_diff.Calculator.Merge.{IsMerged}
use crossplane_diff.Processor.Nested.{
  Steps, existing_xr, merge_and_detect, sanitize_xr, with_synthesized_name,
  diff_single_resource_internal,
}
use crossplane_diff.Processor.Nested.Endless.{
  Renders, no_backing_xr, diff_single_resource_internal-endless,
}
use crossplane_diff.Processor.Nested.Detected.{merge_and_detect-IsMerged}
use crossplane_diff.Tests.Cluster.{
  api, lib, comparer_laws, gvk_of, gv_text, string_in, field_at, one_piece, meta_map, meta_text,
}
use crossplane_diff.Tests.Calculator.{
  suffix, xr, clients, tree, tree-IsKeyed, nothing, resource, or_nothing, flat_lib,
}

merge_and_detect-IsMerged_example :
    (m : GoMap ResourceDiff) × (merge_and_detect suffix api lib clients default_diff_options true
        (some xr)
        nothing
        ([], (codes "k", true) ∷ [])
      ≡ ok (m, copy [] ((codes "k", true) ∷ [])))
    × IsMerged suffix api lib comparer_laws default_diff_options
        (copy [] ((codes "k", true) ∷ []))
        tree
        (copy [] [])
        m
    × ((k : Text)
        → is_rendered ((codes "k", true) ∷ []) k ≡ true
        → lookup k m ≡ lookup k (copy [] []))
merge_and_detect-IsMerged_example =
    merge_and_detect-IsMerged suffix api lib comparer_laws clients default_diff_options xr xr
      nothing [] ((codes "k", true) ∷ []) tree (refl, tt) refl tree-IsKeyed

-- A composition for stores that composes a store with a name of its own, whatever store it is for.
abbrev inner : Fields
inner = resource (codes "Store") (codes "inner")

abbrev of_store : Fields → CompositionOutputs
of_store res = record { composite_resource = some res; composed_resources = inner ∷ [] }

abbrev steps : Steps
steps = record {
  to_composite_xr = λ res. ok res;
  composition_provider = λ res. ok Fields.end;
  functions_for = λ comp. ok [];
  apply_xrd_defaults = λ res. ok res;
  with_cluster_identity = λ res cluster. res;
  resolve_backing_xr = λ cluster res. ok no_backing_xr;
  fetch_observed = λ cluster. none;
  render_to_stable_state = λ res comp fns observed. ok (of_store res);
  prepare_xr_for_diff = λ res desired backing. ok res;
  remove_namespaces = λ composed. ok composed;
  validate_resources = λ res composed. ok true;
  merged_xr = λ res. ok res;
  to_composite = λ res. res;
  is_composite_resource = λ res. text_eq (api.get_kind res) (codes "Store");
  copy_uid = λ existing res. res;
  decimal = λ n. codes "1";
}

abbrev compared : Fields → Progress
compared res = or_nothing (
    calculate_non_removal_diffs suffix api flat_lib clients default_diff_options res none
      (of_store res))

-- The store of the input, and the store that is composed for each.
abbrev Store : Fields → Type 0
Store res = (res ≡ xr) ⊎ (res ≡ inner)

xr-Renders : Renders suffix api flat_lib clients default_diff_options steps Store xr
unfolding sanitize_xr with_synthesized_name meta_text get text_eq calculate_non_removal_diffs
    calculate_diff would_be_result generate_diff text_diff as_string clean_of from_texts one_piece
    described calculate_composed is_nameless composed_id composite_of desired_xr record_diff
    composed_manager preserve_composite_label preserve_existing_resource_identity text_at to_apply
    clean_crossplane clean_fields clean_metadata clean_metadata_map cleanup_for_diff remove_all
    set_spec spec_map strip_paths strip_synthetic_name cleaned_equal diff_name diff_namespace
    equal_diff rendered_name remove_bracket_path remove_field remove_key_of remove_map_key
    remove_nested_path insert lookup has remove copy_keys copy_labels field_at string_in contains
    cut cut_prefix has_prefix has_suffix split trim_suffix generated_display_name
    has_generated_shape is_hex_digit is_lower_hex looks_like_generated_name
    synthesize_generated_name to_lower with_dash get_diff_key make_diff_key existing_xr gv_text
    gvk_of meta_map make_diff_key_from_resource left_composed left_by_loop left_by_diff is_copied
xr-Renders = record {
  sanitized = xr;
  xr = xr;
  comp = Fields.end;
  fns = [];
  outputs = of_store xr;
  prepared = xr;
  child = inner;
  merged = xr;
  p = compared xr;
  left = inner;
  is_sanitized = refl;
  is_provided = refl;
  has_functions = refl;
  is_defaulted = refl;
  not_found = refl;
  no_claim = refl;
  is_rendered = refl;
  is_prepared = refl;
  one_child = refl;
  is_valid = refl;
  is_merged = refl;
  is_compared = refl;
  no_errors = refl;
  is_new = refl;
  is_left = refl;
  is_xr = refl;
  is_input = inr refl;
}

inner-Renders : Renders suffix api flat_lib clients default_diff_options steps Store inner
unfolding sanitize_xr with_synthesized_name meta_text get text_eq calculate_non_removal_diffs
    calculate_diff would_be_result generate_diff text_diff as_string clean_of from_texts one_piece
    described calculate_composed is_nameless composed_id composite_of desired_xr record_diff
    composed_manager preserve_composite_label preserve_existing_resource_identity text_at to_apply
    clean_crossplane clean_fields clean_metadata clean_metadata_map cleanup_for_diff remove_all
    set_spec spec_map strip_paths strip_synthetic_name cleaned_equal diff_name diff_namespace
    equal_diff rendered_name remove_bracket_path remove_field remove_key_of remove_map_key
    remove_nested_path insert lookup has remove copy_keys copy_labels field_at string_in contains
    cut cut_prefix has_prefix has_suffix split trim_suffix generated_display_name
    has_generated_shape is_hex_digit is_lower_hex looks_like_generated_name
    synthesize_generated_name to_lower with_dash get_diff_key make_diff_key existing_xr gv_text
    gvk_of meta_map make_diff_key_from_resource left_composed left_by_loop left_by_diff is_copied
inner-Renders = record {
  sanitized = inner;
  xr = inner;
  comp = Fields.end;
  fns = [];
  outputs = of_store inner;
  prepared = inner;
  child = inner;
  merged = inner;
  p = compared inner;
  left = inner;
  is_sanitized = refl;
  is_provided = refl;
  has_functions = refl;
  is_defaulted = refl;
  not_found = refl;
  no_claim = refl;
  is_rendered = refl;
  is_prepared = refl;
  one_child = refl;
  is_valid = refl;
  is_merged = refl;
  is_compared = refl;
  no_errors = refl;
  is_new = refl;
  is_left = refl;
  is_xr = refl;
  is_input = inr refl;
}

Store-Renders :
    (res : Fields)
    → Store res
    → Renders suffix api flat_lib clients default_diff_options steps Store res
Store-Renders res (inl same) =
    subst (Renders suffix api flat_lib clients default_diff_options steps Store) (sym same)
      xr-Renders
Store-Renders res (inr same) =
    subst (Renders suffix api flat_lib clients default_diff_options steps Store) (sym same)
      inner-Renders

diff_single_resource_internal-endless_example :
    diff_single_resource_internal suffix api flat_lib clients default_diff_options steps 10 1000 xr
      none true
    ≡ panic
diff_single_resource_internal-endless_example =
    diff_single_resource_internal-endless suffix api flat_lib clients default_diff_options steps 10
      Store Store-Renders (ground arith) 1000 xr true (inl refl)
