-- ===== src/Manager/Fetch.antt =====
-- FetchCurrentObject of resource_manager.go: the cluster's copy of a rendered resource, by its name
-- or by its owner's labels. The warning about another owner is a Bool that is returned.
pub mod Matches
pub mod Labels
pub mod Current
use crossplane_diff.Prelude.{
  Bool, false, not, ◌&&◌, ◌||◌, Option, none, some, List, [], ◌∷◌, ◌++◌, if◌then◌else◌, any,
}
use crossplane_diff.Text.{Text, codes, text_eq, is_empty, has_prefix, has_suffix}
use crossplane_diff.GoMap.{GoMap, lookup}
use crossplane_diff.Objects.{Fields}
use crossplane_diff.Objects.Api.{Api, Gvk}
use crossplane_diff.Errors.Tree.{GoError}
use crossplane_diff.Result.{Result, ok, err, panic, ◌>>=◌, wrapping}
use crossplane_diff.Preserve.{label_composite, label_claim_name, label_claim_namespace}
use crossplane_diff.Calculator.Single.{text_at, resource_name_annotation}

-- ResourceClient and DefinitionClient, the operations that are used here: none is a nil object with
-- a nil error. The labels are those of MatchLabels.
pub record ResourceReads : Type 0 where
  pub get_resource : Gvk → Text → Text → Result (Option Fields)
  pub is_not_found : GoError → Bool
  pub get_resources_by_label : Gvk → Text → GoMap Text → Result (List Fields)
  pub is_claim_resource : Fields → Bool

abbrev pub name_suffix : Text
name_suffix = codes "/composition-resource-name"

-- The value of the first key with the suffix, in the map's order; "" without one.
unfoldable pub suffixed_value : GoMap Text → Text
suffixed_value [] = []
suffixed_value ((key, value) ∷ m) =
    let rest = suffixed_value m in if has_suffix key name_suffix then value else rest

-- getCompositionResourceName
unfoldable pub get_composition_resource_name : GoMap Text → Text
get_composition_resource_name annotations = elim (lookup resource_name_annotation annotations) [
  | some value ↦ value
  | none ↦ suffixed_value annotations
]

abbrev is_value : Text → Option Text → Bool
is_value name none = false
is_value name (some value) = text_eq value name

-- hasMatchingResourceName
unfoldable pub has_matching_resource_name : GoMap Text → Text → Bool
has_matching_resource_name annotations name =
    is_value name (lookup resource_name_annotation annotations)
    || any (λ e. has_suffix e.0 name_suffix && text_eq e.1 name) annotations

module _ (api : Api) where
  -- The tests of the loop of findMatchingResource.
  unfoldable pub is_match : Text → Text → Fields → Bool
  is_match name generate_name res = elim (api.get_annotations res) [
    | none ↦ false
    | some annotations ↦
        has_matching_resource_name annotations name
        && (is_empty generate_name || has_prefix (api.get_name res) generate_name)
  ]

  -- findMatchingResource
  unfoldable pub find_matching_resource : Text → Text → List Fields → Option Fields
  find_matching_resource name generate_name [] = none
  find_matching_resource name generate_name (res ∷ resources) =
      let rest = find_matching_resource name generate_name resources in
      if is_match name generate_name res then some res else rest

  -- checkCompositeOwnership: is the user warned that another composite owns the object?
  unfoldable pub check_composite_ownership : Fields → Option Fields → Bool
  check_composite_ownership current none = false
  check_composite_ownership current (some composite) = elim (api.get_labels current) [
    | none ↦ false
    | some labels ↦ elim (lookup label_composite labels) [
      | none ↦ false
      | some owner ↦ not (text_eq owner (api.get_name composite))
    ]
  ]

  module _ (reads : ResourceReads) where
    -- The name that is looked up, and the labels.
    unfoldable pub label_selector : Fields → Fields → Text × GoMap Text
    label_selector composite desired =
        let own_label = text_at label_composite (api.get_labels desired) in
        let name = api.get_name composite in
        if reads.is_claim_resource composite
        then (
          name,
          (label_claim_name, name) ∷ ((label_claim_namespace, api.get_namespace composite) ∷ []),
        )
        else if not (is_empty own_label) && not (text_eq own_label name)
        then (own_label, (label_composite, own_label) ∷ [])
        else (name, (label_composite, name) ∷ [])

    abbrev pub listed : Fields → Fields → Result (List Fields)
    listed composite desired =
        wrapping
          (codes "cannot list resources for "
            ++ ((if reads.is_claim_resource composite then codes "claim" else codes "composite")
                ++ (b' ' ∷ (label_selector composite desired).0)))
          (reads.get_resources_by_label (api.group_version_kind desired) (api.get_namespace desired)
            (label_selector composite desired).1)

    -- lookupByComposite
    unfoldable pub lookup_by_composite : Fields → Fields → Result (Option Fields)
    lookup_by_composite composite desired = elim (api.get_annotations desired) [
      | none ↦ ok none
      | some annotations ↦
          let name = get_composition_resource_name annotations in
          if is_empty name || is_empty (api.get_name composite)
          then ok none
          else (listed composite desired >>= (λ resources.
              ok (find_matching_resource name (api.get_generate_name desired) resources)))
    ]

    -- What is done with its error: an object with a generateName counts as new.
    unfoldable pub or_new : Text → Result (Option Fields) → Result (Option Fields)
    or_new generate_name (ok found) = ok found
    or_new generate_name (err e) = if is_empty generate_name then err e else ok none
    or_new generate_name panic = panic

    unfoldable pub fetch_by_composite : Option Fields → Fields → Result (Option Fields)
    fetch_by_composite none desired = ok none
    fetch_by_composite (some composite) desired =
        or_new (api.get_generate_name desired) (lookup_by_composite composite desired)

    -- What is done with the outcome of the lookup by name.
    unfoldable pub after_lookup :
        Option Fields → Fields → Result (Option Fields) → Bool × Result (Option Fields)
    after_lookup composite desired (ok (some current)) =
        (check_composite_ownership current composite, ok (some current))
    after_lookup composite desired (ok none) = (false, fetch_by_composite composite desired)
    after_lookup composite desired (err e) =
        (false, if reads.is_not_found e then fetch_by_composite composite desired else err e)
    after_lookup composite desired panic = (false, panic)

    -- FetchCurrentObject: whether the user is warned, and what it returns; none is a new object.
    unfoldable pub fetch_current_object : Option Fields → Fields → Bool × Result (Option Fields)
    fetch_current_object composite desired =
        if is_empty (api.get_name desired)
        then (false, fetch_by_composite composite desired)
        else after_lookup composite desired (
            reads.get_resource (api.group_version_kind desired) (api.get_namespace desired)
              (api.get_name desired))
