-- ===== src/Selection/Match.antt =====
-- The compositions of client/crossplane/composition_client.go: the cache of them, and the choice
-- by labels or by the composite's type.
pub mod Exact
use crossplane_diff.Prelude.{
  ℕ, Bool, true, false, not, ◌&&◌, Option, none, some, List, [], ◌∷◌, ◌++◌, keep, map,
  if◌then◌else◌,
}
use crossplane_diff.Text.{Text, codes, text_eq, is_empty, contains}
use crossplane_diff.GoMap.{GoMap, lookup, insert}
use crossplane_diff.Objects.{Value, string, Fields, end, entry, is_empty_map}
use crossplane_diff.Objects.Api.{Api, Gvk}
use crossplane_diff.Errors.Tree.{GoError, leaf, wrap, error_text}
use crossplane_diff.Result.{Result, ok, err, panic, wrapping}
use crossplane_diff.Calculator.Single.{text_at}
use crossplane_diff.Selection.Paths.{
  Accessors, update_policy_automatic, get_crossplane_ref_paths, nested_crossplane_string,
  nested_crossplane_map, xr_update_policy,
}
use crossplane_diff.Selection.Selector.{Labels, xr_revision_label_selector}
use crossplane_diff.Selection.State.{
  Composition, CompositionRevision, ClientState, Stateful, lift, ◌>>=◌, wrapping_run, ClusterReads,
}
use crossplane_diff.Selection.Definitions.{get_xr_type_from_xrd}
use crossplane_diff.Selection.Revisions.{
  label_composition_name, extension_gvk, converted, get_composition_revision,
  get_latest_revision_for_composition, get_composition_from_revision,
}

abbrev pub update_policy_manual : Text
update_policy_manual = codes "Manual"

abbrev composition_gvk : Gvk
composition_gvk = extension_gvk (codes "Composition")

module _ (cluster : ClusterReads) where
  -- ListCompositions
  unfoldable pub list_compositions : Result (List Composition)
  list_compositions = elim (cluster.list_resources composition_gvk []) [
    | ok found ↦
        converted cluster.to_composition (codes "cannot convert unstructured to Composition") found
    | err e ↦ err (wrap (codes "cannot list compositions from cluster") e)
    | panic ↦ panic
  ]

  abbrev remember_composition : Text → Composition → Stateful Composition
  remember_composition name comp s = (
    record {
      compositions = insert name comp s.compositions;
      revisions = s.revisions;
      revisions_by_composition = s.revisions_by_composition;
    },
    ok comp,
  )

  unfoldable pub fetch_composition : Text → Stateful Composition
  fetch_composition name = do
    found ← lift (
        wrapping (codes "cannot get composition " ++ name)
          (cluster.get_resource composition_gvk [] name))
    comp ← lift (
        wrapping (codes "cannot convert unstructured to Composition")
          (cluster.to_composition found))
    remember_composition name comp

  -- GetComposition
  unfoldable pub get_composition : Text → Stateful Composition
  get_composition name s = elim (lookup name s.compositions) [
    | some comp ↦ (s, ok comp)
    | none ↦ fetch_composition name s
  ]

  -- The listing that findByLabelSelector and findByTypeReference ask for when the cache is empty.
  -- Only the error of the call is used: the cache stays empty.
  unfoldable pub only_its_error : Text → Result (List Composition) → Stateful (GoMap Composition)
  only_its_error m (ok comps) s = (s, ok [])
  only_its_error m (err e) s = (s, err (wrap m e))
  only_its_error m panic s = (s, panic)

  unfoldable pub list_when_empty : Text → Stateful (GoMap Composition)
  list_when_empty m s = elim s.compositions [
    | [] ↦ only_its_error m list_compositions s
    | c ∷ cs ↦ (s, ok (c ∷ cs))
  ]

-- The string cached_values of a map[string]any.
unfoldable pub string_labels : Fields → GoMap Text
string_labels end = []
string_labels (entry k (string v) rest) = (k, v) ∷ string_labels rest
string_labels (entry k _ rest) = string_labels rest

-- labelsMatch
unfoldable pub labels_match : Option (GoMap Text) → GoMap Text → Bool
labels_match labels [] = true
labels_match labels ((k, v) ∷ selector) =
    text_eq (text_at k labels) v && labels_match labels selector

-- Does an error say that there are no revisions?
unfoldable pub is_unpublished : GoError → Bool
is_unpublished e = contains (error_text e) (codes "no composition revisions found")

-- The first name at one of the paths that is not empty; errors count as absent.
abbrev pub named : Option Text → Option Text → Option Text
named none later = later
named (some name) later = if is_empty name then later else some name

-- The choice among the compositions that fit.
unfoldable pub only_one : Text → Text → List Composition → Result Composition
only_one none_text many_text [] = err (leaf none_text)
only_one none_text many_text (comp ∷ []) = ok comp
only_one none_text many_text (comp ∷ other ∷ rest) = err (leaf many_text)

abbrev pub cached_values : GoMap Composition → List Composition
cached_values m = map (λ e. e.1) m

module _ (api : Api) where
  -- isCompositionCompatible
  unfoldable pub is_composition_compatible : Gvk → Composition → Bool
  is_composition_compatible gvk comp =
      text_eq comp.spec.composite_type_ref.api_version (api.group_version gvk)
      && text_eq comp.spec.composite_type_ref.kind gvk.kind

  unfoldable pub first_name : Fields → List (List Text) → Option Text
  first_name res [] = none
  first_name res (p ∷ ps) = let later = first_name res ps in named (api.nested_string res p) later

  module _ (at : Accessors) (cluster : ClusterReads) where
    -- findByTypeReference
    unfoldable pub find_by_type_reference : Gvk → Stateful Composition
    find_by_type_reference target =
        list_when_empty cluster (codes "cannot list compositions to match type") >>= (λ cached.
          lift (
            only_one (codes "no composition found for " ++ cluster.gvk_string target)
              (codes "ambiguous composition selection: multiple compositions exist for "
                ++ cluster.gvk_string target)
              (keep (is_composition_compatible target) (cached_values cached))))

    unfoldable pub fits : Gvk → GoMap Text → Composition → Bool
    fits target selector comp =
        is_composition_compatible target comp && labels_match comp.labels selector

    -- The choice among the cached compositions by matchLabels.
    unfoldable pub choose_by_labels : Text → Gvk → Fields → Stateful Composition
    choose_by_labels resource_id target match_labels =
        list_when_empty cluster (codes "cannot list compositions to match selector") >>= (λ cached.
          lift (
            only_one
              (codes "no compatible composition found matching labels "
                ++ (cluster.labels_text (string_labels match_labels)
                    ++ (codes " for " ++ resource_id)))
              (codes "ambiguous composition selection: multiple compositions match")
              (keep (fits target (string_labels match_labels)) (cached_values cached))))

    -- What findByLabelSelector makes of matchLabels.
    unfoldable pub select_by_labels : Text → Gvk → Option Fields → Stateful (Option Composition)
    select_by_labels resource_id target none s = (s, ok none)
    select_by_labels resource_id target (some match_labels) s =
        let selected =
          (choose_by_labels resource_id target match_labels >>= (λ comp. lift (ok (some comp))))
            s in
        if is_empty_map match_labels then (s, ok none) else selected

    -- findByLabelSelector
    unfoldable pub find_by_label_selector :
        Fields → Fields → Gvk → Text → Stateful (Option Composition)
    find_by_label_selector xrd res target resource_id =
        lift (
          wrapping (codes "cannot read compositionSelector for " ++ resource_id) (
            nested_crossplane_map at res (api.get_api_version xrd)
              (codes "compositionSelector" ∷ codes "matchLabels" ∷ [])))
        >>= (λ match_labels. select_by_labels resource_id target match_labels)
