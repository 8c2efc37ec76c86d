-- ===== src/Processor/Nested.antt =====
-- diffSingleResourceInternal, DiffSingleResource and ProcessNestedXRs of diff_processor.go, which
-- call each other: one resource is rendered and compared, then the XRs among its composed resources
-- are, and removals are detected at the end.
pub mod Endless
pub mod Detected
use crossplane_diff.Prelude.{
  ℕ, zero, suc, ◌+◌, Bool, true, false, not, ◌&&◌, Option, none, some, List, [], ◌∷◌, ◌++◌, ltb,
  if◌then◌else◌, is_some,
}
use crossplane_diff.Text.{Text, codes, text_eq, is_empty, contains}
use crossplane_diff.GoMap.{GoMap, lookup, copy}
use crossplane_diff.Objects.{Fields}
use crossplane_diff.Objects.Api.{Api}
use crossplane_diff.Errors.Tree.{GoError, leaf, wrap, error_text}
use crossplane_diff.Types.Key.{ResourceDiff, make_diff_key_from_resource}
use crossplane_diff.Types.Generated.{synthesize_generated_name}
use crossplane_diff.Result.{Result, ok, err, panic, ◌>>=◌, wrapping}
use crossplane_diff.Formatter.Lines.{DiffOptions}
use crossplane_diff.Compare.Generate.{Comparer}
use crossplane_diff.Preserve.{
  copy_labels, copy_composition_ref, label_composite, label_claim_name, label_claim_namespace,
}
use crossplane_diff.Calculator.Single.{Clients, text_at, resource_name_annotation}
use crossplane_diff.Calculator.Removed.{calculate_removed_resource_diffs}
use crossplane_diff.Calculator.Composed.{
  CompositionOutputs, Progress, joined, calculate_non_removal_diffs, left_composed,
}

-- backingXRInfo, the fields that are read here; none is nil.
pub record BackingXr : Type 0 where
  pub observed_resources : Option (List Fields)
  pub xr_for_rendering : Option Fields

-- The steps on the way from the input to the diffs, each of which may fail: the conversion of the
-- input to a composite, the composition provider, GetFunctionsForComposition, applyXRDDefaults, the copying of the cluster's
-- UID and resource version, resolveBackingXRForClaim, fetchObservedResourcesFromClusterXR,
-- RenderToStableState, prepareXRForDiff, removeNamespacesFromClusterScopedResources,
-- ValidateResources, the conversion of the merged XR without its managed fields and resource
-- version, the conversion of the cluster's XR, getCompositeResourceXRD, SetUID(GetUID()), and fmt's
-- %d.
pub record Steps : Type 0 where
  pub to_composite_xr : Fields → Result Fields
  pub composition_provider : Fields → Result Fields
  pub functions_for : Fields → Result (List Fields)
  pub apply_xrd_defaults : Fields → Result Fields
  pub with_cluster_identity : Fields → Fields → Fields
  pub resolve_backing_xr : Option Fields → Fields → Result BackingXr
  pub fetch_observed : Fields → Option (List Fields)
  pub render_to_stable_state :
      Fields → Fields → List Fields → Option (List Fields) → Result CompositionOutputs
  pub prepare_xr_for_diff : Fields → CompositionOutputs → BackingXr → Result Fields
  pub remove_namespaces : List Fields → Result (List Fields)
  pub validate_resources : Fields → List Fields → Result Bool
  pub merged_xr : Fields → Result Fields
  pub to_composite : Fields → Fields
  pub is_composite_resource : Fields → Bool
  pub copy_uid : Fields → Fields → Fields
  pub decimal : ℕ → Text

-- What is known of a resource and of the XRs below it: the diffs and the rendered keys.
abbrev pub Found : Type 0
Found = GoMap ResourceDiff × GoMap Bool

abbrev or_nil : Option (List Fields) → List Fields
or_nil none = []
or_nil (some os) = os

-- Is the error about an XR that has no composition?
unfoldable pub is_missing_composition : GoError → Bool
is_missing_composition e =
    contains (error_text e) (codes "cannot get composition")
    && contains (error_text e) (codes "no composition found")

module _ (api : Api) (clients : Clients) (steps : Steps) where
  -- findExistingNestedXR
  unfoldable pub find_existing_nested_xr : Fields → List Fields → Option Fields
  find_existing_nested_xr nested [] = none
  find_existing_nested_xr nested (obs ∷ rest) =
      let name = text_at resource_name_annotation (api.get_annotations nested) in
      let later = find_existing_nested_xr nested rest in
      if not (is_empty name)
        && (text_eq (text_at resource_name_annotation (api.get_annotations obs)) name
            && text_eq (api.get_kind obs) (api.get_kind nested))
      then some obs
      else later

  -- preserveNestedXRIdentity
  unfoldable pub preserve_nested_xr_identity : Fields → Fields → Fields
  preserve_nested_xr_identity nested existing = copy_composition_ref api existing (
      copy_labels api existing
        (steps.copy_uid existing (
          api.set_generate_name (api.get_generate_name existing)
            (api.set_name (api.get_name existing) nested)))
        (label_composite ∷ label_claim_name ∷ label_claim_namespace ∷ []))

  -- The cluster's copy of an XR, looked up without a composite; an error is only logged.
  unfoldable pub fetched : Option Fields → Fields → Result (Option Fields)
  fetched composite xr = elim (clients.fetch_current_object composite xr) [
    | ok current ↦ ok current
    | err e ↦ ok none
    | panic ↦ panic
  ]

  -- The existing nested XR: among the observed resources, else in the cluster under its parent.
  unfoldable pub existing_nested_xr : Option Fields → List Fields → Fields → Result (Option Fields)
  existing_nested_xr parent observed nested = elim (find_existing_nested_xr nested observed) [
    | some existing ↦ ok (some existing)
    | none ↦ elim parent [ none ↦ ok none | some p ↦ fetched (some p) nested ]
  ]

  abbrev pub identified : Option Fields → Fields → Fields
  identified none nested = nested
  identified (some existing) nested = preserve_nested_xr_identity nested existing

  unfoldable pub nested_resource_id : Fields → ℕ → Text
  nested_resource_id nested depth =
      api.get_kind nested
      ++ (b'/'
          ∷ (api.get_name nested ++ codes " (nested depth " ++ steps.decimal depth ++ codes ")"))

  -- What becomes of the result of one nested XR; an XR without a composition is skipped.
  unfoldable pub merge_nested : Fields → ℕ → Found → Result Found → Result Found
  merge_nested nested depth (diffs, rendered) (ok (nested_diffs, nested_rendered)) =
      ok (copy diffs nested_diffs, copy rendered nested_rendered)
  merge_nested nested depth found (err e) =
      if is_missing_composition e
      then ok found
      else err (wrap (codes "cannot process nested XR " ++ nested_resource_id nested depth) e)
  merge_nested nested depth found panic = panic

  module _ (process : Fields → Option Fields → Result Found) (max_nested_depth : ℕ) where
    -- One composed resource that is an XR.
    unfoldable pub nested_result : ℕ → Option Fields → List Fields → Fields → Found → Result Found
    nested_result depth parent observed composed found = do
      existing ← existing_nested_xr parent observed composed
      let nested = identified existing composed
      merge_nested composed depth found (process nested parent)

    -- The loop of ProcessNestedXRs; `process` is diffSingleResourceInternal without removals.
    unfoldable pub nested_loop :
        ℕ → Option Fields → List Fields → List Fields → Found → Result Found
    nested_loop depth parent observed [] found = ok found
    nested_loop depth parent observed (composed ∷ rest) found =
        (if steps.is_composite_resource composed
          then nested_result depth parent observed composed found
          else ok found)
        >>= (λ found'. nested_loop depth parent observed rest found')

    -- ProcessNestedXRs
    unfoldable pub process_nested_xrs : List Fields → Option Fields → List Fields → ℕ → Result Found
    process_nested_xrs composed parent observed depth =
        if ltb max_nested_depth depth
        then err (leaf (codes "maximum nesting depth exceeded"))
        else nested_loop depth parent observed composed ([], [])

module _ (xr_synthesis_suffix : Text) (api : Api) (steps : Steps) where
  -- An XR with a generateName and no name gets a name.
  unfoldable pub with_synthesized_name : Fields → Fields
  with_synthesized_name xr =
      if is_empty (api.get_name xr) && not (is_empty (api.get_generate_name xr))
      then api.set_name (synthesize_generated_name xr_synthesis_suffix (api.get_generate_name xr))
          xr
      else xr

  -- SanitizeXR
  unfoldable pub sanitize_xr : Fields → Result Fields
  sanitize_xr res =
      wrapping (codes "cannot convert XR to composite unstructured") (steps.to_composite_xr res)
      >>= (λ xr. ok (with_synthesized_name xr))

-- The diffs of a resource without removals, if none failed.
abbrev pub without_errors : Progress → Result Progress
without_errors p = elim (joined p.errs) [ none ↦ ok p | some e ↦ err e ]

abbrev pub or_else : Option Fields → Fields → Fields
or_else none xr = xr
or_else (some y) xr = y

module _ (api : Api) (steps : Steps) where
  -- existingXR: the cluster's copy that the diff of the XR holds.
  unfoldable pub existing_xr : Fields → GoMap ResourceDiff → Option Fields
  existing_xr xr diffs = elim (lookup (make_diff_key_from_resource api xr) diffs) [
    | none ↦ none
    | some d ↦ elim d.current.raw [ none ↦ none | some c ↦ some (steps.to_composite c) ]
  ]

  abbrev pub with_identity : Option Fields → Fields → Fields
  with_identity none xr = xr
  with_identity (some existing) xr = steps.with_cluster_identity xr existing

  abbrev pub observed_of : BackingXr → Option Fields → Option (List Fields)
  observed_of backing existing = elim backing.observed_resources [
    | some os ↦ some os
    | none ↦ elim existing [ none ↦ none | some e ↦ steps.fetch_observed e ]
  ]

module _ (xr_synthesis_suffix : Text) (api : Api) (lib : Comparer) (clients : Clients)
    (diff_options : DiffOptions) where
  -- The merge with the nested XRs' results, and the removals after it.
  unfoldable pub merge_and_detect : Bool → Option Fields → Progress → Found → Result Found
  merge_and_detect detect_removals existing p (nested_diffs, nested_rendered) =
      let diffs = copy p.diffs nested_diffs in
      let rendered = copy p.rendered nested_rendered in
      elim existing [
        | none ↦ ok (diffs, rendered)
        | some xr ↦
            if detect_removals
            then wrapping (codes "cannot detect removed resources") (
                calculate_removed_resource_diffs xr_synthesis_suffix api lib clients diff_options xr
                  rendered)
              >>= (λ removed. ok (copy diffs removed, rendered))
            else ok (diffs, rendered)
      ]

module _ (xr_synthesis_suffix : Text) (api : Api) (lib : Comparer) (clients : Clients)
    (diff_options : DiffOptions) (steps : Steps) (max_nested_depth : ℕ) where
  -- diffSingleResourceInternal. `fuel` is how many calls of it may stand on the stack; with none
  -- left it does not return.
  unfoldable pub diff_single_resource_internal : ℕ → Fields → Option Fields → Bool → Result Found
  diff_single_resource_internal zero res parent detect_removals = panic
  diff_single_resource_internal (suc fuel) res parent detect_removals = do
    sanitized ← sanitize_xr xr_synthesis_suffix api steps res
    comp ← wrapping (codes "cannot get composition") (steps.composition_provider res)
    fns ← wrapping (codes "cannot get functions for composition") (steps.functions_for comp)
    defaulted ← wrapping (codes "cannot apply XRD defaults") (steps.apply_xrd_defaults sanitized)
    cluster ← fetched api clients steps none defaulted
    let xr = with_identity api steps cluster defaulted
    backing ←
        wrapping (codes "cannot resolve backing XR for Claim") (steps.resolve_backing_xr cluster xr)
    let observed = observed_of api steps backing cluster
    desired ←
        wrapping (codes "cannot render resources with requirements")
          (steps.render_to_stable_state (or_else backing.xr_for_rendering xr) comp fns observed)
    prepared ← steps.prepare_xr_for_diff xr desired backing
    composed ←
        wrapping (codes "cannot clean up namespaces from cluster-scoped resources")
          (steps.remove_namespaces desired.composed_resources)
    validated ←
        wrapping (codes "cannot validate resources") (steps.validate_resources prepared composed)
    merged ← wrapping (codes "cannot convert merged XR") (steps.merged_xr prepared)
    let cleaned : CompositionOutputs = record {
      composite_resource = desired.composite_resource;
      composed_resources = composed;
    }
    p ← wrapping (codes "cannot calculate diffs for composed resources") (
        calculate_non_removal_diffs xr_synthesis_suffix api lib clients diff_options merged parent
          cleaned
        >>= without_errors)
    let existing = existing_xr api steps xr p.diffs
    nested ← wrapping (codes "cannot process nested XRs") (
        process_nested_xrs api clients steps
          (λ child parent'. diff_single_resource_internal fuel child parent' false) max_nested_depth
          (left_composed xr_synthesis_suffix api lib clients diff_options merged parent cleaned)
          existing (or_nil observed) 1)
    merge_and_detect xr_synthesis_suffix api lib clients diff_options detect_removals existing p
        nested

  -- DiffSingleResource
  unfoldable pub diff_single_resource : ℕ → Fields → Result (GoMap ResourceDiff)
  diff_single_resource fuel res = do
    found ← diff_single_resource_internal fuel res none true
    ok found.0
