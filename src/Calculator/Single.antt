-- ===== src/Calculator/Single.antt =====
-- CalculateDiff of diff_calculator.go, with the two steps that keep what the cluster has, and
-- GetComposedFieldOwner of client/kubernetes/apply_client.go. Log messages and the resource IDs
-- that only they read are left out. The deep copies are the values themselves.
pub mod Returned
use crossplane_diff.Prelude.{
  Bool, true, false, not, ◌&&◌, ◌||◌, Option, none, some, List, [], ◌∷◌, if◌then◌else◌,
}
use crossplane_diff.Text.{Text, codes, is_empty, has_prefix}
use crossplane_diff.GoMap.{GoMap, lookup}
use crossplane_diff.Objects.{Fields}
use crossplane_diff.Objects.Api.{Api}
use crossplane_diff.Types.Key.{ResourceDiff}
use crossplane_diff.Result.{Result, ok, err, panic, ◌>>=◌, wrapping}
use crossplane_diff.Formatter.Lines.{DiffOptions}
use crossplane_diff.Compare.Generate.{Comparer, generate_diff}
use crossplane_diff.Preserve.{copy_labels, label_composite}

-- A node of the resource tree: an object and its children.
mutual
  pub data Node : Type 0 where
    node : Fields → Nodes → Node

  pub data Nodes : Type 0 where
    leaf : Nodes
    branch : Node → Nodes → Nodes

-- The interfaces that the calculator is made with: ResourceManager, ApplyClient and
-- ResourceTreeClient, as they answer while one XR is processed. FetchCurrentObject answers none for
-- an object that is not in the cluster; UpdateOwnerRefs gives the child afterwards.
pub record Clients : Type 0 where
  pub fetch_current_object : Option Fields → Fields → Result (Option Fields)
  pub update_owner_refs : Option Fields → Fields → Fields
  pub managers : Fields → List Text
  pub dry_run_apply : Fields → Text → Result Fields
  pub get_resource_tree : Fields → Result Node

abbrev pub field_owner_composed_prefix : Text
field_owner_composed_prefix = codes "apiextensions.crossplane.io/composed"

-- GetComposedFieldOwner: the loop over the managers of managedFields.
unfoldable pub composed_manager : List Text → Text
composed_manager [] = []
composed_manager (m ∷ ms) =
    let rest = composed_manager ms in if has_prefix m field_owner_composed_prefix then m else rest

-- m[k] of a map[string]string, "" for a key that is missing or in a nil map.
unfoldable pub text_at : Text → Option (GoMap Text) → Text
text_at k none = []
text_at k (some m) = elim (lookup k m) [ none ↦ [] | some v ↦ v ]

abbrev pub resource_name_annotation : Text
resource_name_annotation = codes "crossplane.io/composition-resource-name"

abbrev owner_references_path : List Text
owner_references_path = codes "metadata" ∷ codes "ownerReferences" ∷ []

module _ (api : Api) where
  -- preserveExistingResourceIdentity
  unfoldable pub preserve_existing_resource_identity : Option Fields → Fields → Fields
  preserve_existing_resource_identity none desired = desired
  preserve_existing_resource_identity (some current) desired =
      if is_empty (api.get_name current)
      then desired
      else copy_labels api current
          (api.set_generate_name (api.get_generate_name current)
            (api.set_name (api.get_name current) desired))
          (label_composite ∷ [])

  -- preserveCompositeLabel
  unfoldable pub preserve_composite_label : Option Fields → Fields → Fields
  preserve_composite_label none desired = desired
  preserve_composite_label (some current) desired =
      if is_empty (text_at resource_name_annotation (api.get_annotations desired))
        || is_empty (text_at label_composite (api.get_labels current))
      then desired
      else copy_labels api current desired (label_composite ∷ [])

  -- Is the object that goes on a deep copy, of the one or the other of the two?
  unfoldable pub is_copied : Option Fields → Fields → Bool
  is_copied none desired = false
  is_copied (some current) desired =
      not (is_empty (api.get_name current))
      || (not (is_empty (text_at resource_name_annotation (api.get_annotations desired)))
          && not (is_empty (text_at label_composite (api.get_labels current))))

  -- The desired object that the caller holds, after CalculateDiff: UpdateOwnerRefs changes it in
  -- place, unless a copy goes on or the cluster's object cannot be fetched.
  unfoldable pub left_by_diff : Clients → Option Fields → Fields → Fields
  left_by_diff clients composite desired = elim (clients.fetch_current_object composite desired) [
    | ok current ↦
        if is_copied current desired then desired else clients.update_owner_refs composite desired
    | err e ↦ desired
    | panic ↦ desired
  ]

module _ (xr_synthesis_suffix : Text) (api : Api) (lib : Comparer) (clients : Clients)
    (diff_options : DiffOptions) where
  -- The desired object as it is applied: with the cluster's identity and the owner references of
  -- its composite.
  unfoldable pub to_apply : Option Fields → Option Fields → Fields → Fields
  to_apply composite current desired = clients.update_owner_refs composite (
      preserve_composite_label api current
        (preserve_existing_resource_identity api current desired))

  -- wouldBeResult
  unfoldable pub would_be_result : Option Fields → Fields → Result Fields
  would_be_result none desired = ok desired
  would_be_result (some current) desired = wrapping (codes "cannot dry-run apply desired object") (
      clients.dry_run_apply (api.remove_nested_field desired owner_references_path)
        (composed_manager (clients.managers current)))

  -- CalculateDiff
  unfoldable pub calculate_diff : Option Fields → Fields → Result ResourceDiff
  calculate_diff composite desired = do
    current ←
        wrapping (codes "cannot fetch current object")
          (clients.fetch_current_object composite desired)
    would_be ← would_be_result current (to_apply composite current desired)
    generate_diff xr_synthesis_suffix api lib current (some would_be) diff_options
