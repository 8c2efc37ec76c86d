-- ===== src/Manager/Owners.antt =====
-- UpdateOwnerRefs of resource_manager.go, with its handlers for claims and for XRs, and
-- updateCompositeOwnerLabel. A child that is changed in place is returned changed.
pub mod Deduped
pub mod Owned
pub mod Labelled
use crossplane_diff.Prelude.{
  ℕ, suc, Bool, true, false, not, ◌&&◌, Option, none, some, List, [], ◌∷◌, if◌then◌else◌,
}
use crossplane_diff.Text.{Text, text_eq, is_empty}
use crossplane_diff.GoMap.{GoMap, has_key, insert}
use crossplane_diff.Objects.{Fields}
use crossplane_diff.Objects.Api.{Api}
use crossplane_diff.Types.Key.{make_diff_key}
use crossplane_diff.Preserve.{
  label_composite, label_claim_name, label_claim_namespace, or_no_labels,
}
use crossplane_diff.Calculator.Removed.{is_rendered}

-- metav1.OwnerReference; none is a nil pointer.
pub record OwnerReference : Type 0 where
  pub api_version : Text
  pub kind : Text
  pub name : Text
  pub uid : Text
  pub controller : Option Bool
  pub block_owner_deletion : Option Bool

-- The accessors of apimachinery for owners, with the UID of metav1.GetControllerOf (none for a nil
-- reference), uuid.NewUUID at its n-th call, and IsClaimResource of the definition client.
pub record Ownership : Type 0 where
  pub get_uid : Fields → Text
  pub get_owner_references : Fields → List OwnerReference
  pub set_owner_references : List OwnerReference → Fields → Fields
  pub controller_uid : Fields → Option Text
  pub new_uid : ℕ → Text
  pub is_claim_resource : Fields → Bool

abbrev pub with_uid : Text → OwnerReference → OwnerReference
with_uid uid ref = record {
  api_version = ref.api_version;
  kind = ref.kind;
  name = ref.name;
  uid = uid;
  controller = ref.controller;
  block_owner_deletion = ref.block_owner_deletion;
}

abbrev uncontrolled : OwnerReference → OwnerReference
uncontrolled ref = record {
  api_version = ref.api_version;
  kind = ref.kind;
  name = ref.name;
  uid = ref.uid;
  controller = some false;
  block_owner_deletion = ref.block_owner_deletion;
}

abbrev pub is_controller : Option Bool → Bool
is_controller none = false
is_controller (some b) = b

-- The key of a reference among those of one child.
abbrev pub ref_key : OwnerReference → Text
ref_key ref = make_diff_key ref.api_version ref.kind [] ref.name

-- The loop that drops a reference whose key was seen.
unfoldable pub dedupe : GoMap Bool → List OwnerReference → List OwnerReference
dedupe seen [] = []
dedupe seen (ref ∷ refs) =
    let without = dedupe seen refs in
    let others = dedupe (insert (ref_key ref) true seen) refs in
    if is_rendered seen (ref_key ref) then without else ref ∷ others

module _ (api : Api) (own : Ownership) where
  -- The loops count the UIDs that they have drawn.
  unfoldable pub fresh_uid : ℕ → OwnerReference → OwnerReference × ℕ
  fresh_uid drawn ref =
      if is_empty ref.uid then (with_uid (own.new_uid drawn) ref, suc drawn) else (ref, drawn)

  -- A claim is never a controller.
  unfoldable pub not_controlled_by : Fields → OwnerReference → OwnerReference
  not_controlled_by claim ref =
      if (text_eq ref.kind (api.get_kind claim) && text_eq ref.name (api.get_name claim))
        && is_controller ref.controller
      then uncontrolled ref
      else ref

  unfoldable pub claim_refs : Fields → ℕ → List OwnerReference → List OwnerReference
  claim_refs claim drawn [] = []
  claim_refs claim drawn (ref ∷ refs) =
      let (updated, drawn') = fresh_uid drawn ref in
      not_controlled_by claim updated ∷ claim_refs claim drawn' refs

  -- updateOwnerRefsForClaim
  unfoldable pub update_owner_refs_for_claim : Fields → Fields → Fields
  update_owner_refs_for_claim claim child =
      own.set_owner_references (claim_refs claim 0 (own.get_owner_references child)) child

  -- Is the reference one to the XR?
  unfoldable pub refers_to : Fields → OwnerReference → Bool
  refers_to xr ref =
      text_eq ref.name (api.get_name xr)
      && (text_eq ref.api_version (api.get_api_version xr) && text_eq ref.kind (api.get_kind xr))

  unfoldable pub parent_uid : Fields → OwnerReference → OwnerReference
  parent_uid xr ref =
      if not (is_empty (own.get_uid xr)) && refers_to xr ref
      then with_uid (own.get_uid xr) ref
      else ref

  unfoldable pub xr_refs : Fields → ℕ → List OwnerReference → List OwnerReference
  xr_refs xr drawn [] = []
  xr_refs xr drawn (ref ∷ refs) =
      let (updated, drawn') = fresh_uid drawn (parent_uid xr ref) in
      updated ∷ xr_refs xr drawn' refs

  -- updateOwnerRefsForXR
  unfoldable pub update_owner_refs_for_xr : Fields → Fields → Fields
  update_owner_refs_for_xr xr child =
      own.set_owner_references (dedupe [] (xr_refs xr 0 (own.get_owner_references child))) child

  -- The parent's name, or its generateName where it has none.
  unfoldable pub parent_name : Fields → Text
  parent_name parent =
      if is_empty (api.get_name parent) then api.get_generate_name parent else api.get_name parent

  -- The composite label is set where there is none.
  unfoldable pub composite_labelled : Text → GoMap Text → GoMap Text
  composite_labelled name labels =
      if has_key label_composite labels then labels else insert label_composite name labels

  unfoldable pub owner_labels : Fields → Text → GoMap Text → GoMap Text
  owner_labels parent name labels = composite_labelled name (
      if own.is_claim_resource parent
      then insert label_claim_namespace (api.get_namespace parent)
          (insert label_claim_name name labels)
      else labels)

  -- updateCompositeOwnerLabel
  unfoldable pub update_composite_owner_label : Fields → Fields → Fields
  update_composite_owner_label parent child =
      if is_empty (parent_name parent)
      then child
      else api.set_labels
          (owner_labels parent (parent_name parent) (or_no_labels (api.get_labels child))) child

  -- UpdateOwnerRefs: the child afterwards.
  unfoldable pub update_owner_refs : Option Fields → Fields → Fields
  update_owner_refs none child = child
  update_owner_refs (some parent) child = update_composite_owner_label parent (
      if own.is_claim_resource parent
      then update_owner_refs_for_claim parent child
      else update_owner_refs_for_xr parent child)
