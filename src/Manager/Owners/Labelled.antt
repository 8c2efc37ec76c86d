-- ===== src/Manager/Owners/Labelled.antt =====
-- What the labels of a child are after UpdateOwnerRefs.
use crossplane_diff.Prelude.{
  ◌≡◌, refl, ◌∙◌, Bool, not, ◌&&◌, Option, some, List, arith, Bool-cases, inl, inr, if◌then◌else◌,
}
use crossplane_diff.Text.{Text, text_eq, is_empty}
use crossplane_diff.GoMap.{GoMap, lookup, has_key, insert, lookup-insert, has_key-insert}
use crossplane_diff.Objects.{Fields}
use crossplane_diff.Objects.Api.{Api}
use crossplane_diff.Preserve.{
  label_composite, label_claim_name, label_claim_namespace, or_no_labels,
}
use crossplane_diff.Manager.Owners.{
  OwnerReference, Ownership, update_owner_refs_for_claim, update_owner_refs_for_xr, parent_name,
  composite_labelled, owner_labels, update_composite_owner_label, update_owner_refs,
}

-- The label of an owner among those it had: the composite's where there was none, a claim's name and
-- namespace in any case.
abbrev pub owned_label : Bool → Text → Text → GoMap Text → Text → Option Text
owned_label is_claim name namespace labels k =
    if text_eq label_composite k && not (has_key label_composite labels)
    then some name
    else if is_claim && text_eq label_claim_namespace k
    then some namespace
    else if is_claim && text_eq label_claim_name k
    then some name
    else lookup k labels

lookup-composite_labelled :
    (api : Api) (own : Ownership) (name k : Text) (labels : GoMap Text)
    → lookup k (composite_labelled api own name labels) ≡ (
        if text_eq label_composite k && not (has_key label_composite labels)
        then some name
        else lookup k labels)
unfolding composite_labelled
lookup-composite_labelled api own name k labels =
    elim (Bool-cases (has_key label_composite labels)) [
      | inl e ↦ rw e (ground arith)
      | inr e ↦ rw e (ground (arith, lookup-insert label_composite k name labels))
    ]

-- The claim's labels are not the composite's.
has_key-claim_labels :
    (name namespace : Text) (labels : GoMap Text)
    → has_key label_composite
        (insert label_claim_namespace namespace (insert label_claim_name name labels))
      ≡ has_key label_composite labels
unfolding text_eq
has_key-claim_labels name namespace labels =
    has_key-insert label_claim_namespace label_composite namespace
      (insert label_claim_name name labels)
    ∙ has_key-insert label_claim_name label_composite name labels

lookup-claim_labels :
    (name namespace k : Text) (labels : GoMap Text)
    → lookup k (insert label_claim_namespace namespace (insert label_claim_name name labels)) ≡ (
        if text_eq label_claim_namespace k
        then some namespace
        else if text_eq label_claim_name k
        then some name
        else lookup k labels)
lookup-claim_labels name namespace k labels =
    rw
      (
        lookup-insert label_claim_namespace k namespace (insert label_claim_name name labels),
        lookup-insert label_claim_name k name labels,
      )
      refl

module _ (api : Api) (own : Ownership)
    (set_labels_lem : (m : GoMap Text) (o : Fields) → api.get_labels (api.set_labels m o) ≡ some m)
    (labels_kept : (refs : List OwnerReference) (o : Fields)
      → api.get_labels (own.set_owner_references refs o) ≡ api.get_labels o) where
  lookup-owner_labels :
      (parent : Fields) (name k : Text) (labels : GoMap Text)
      → lookup k (owner_labels api own parent name labels)
        ≡ owned_label (own.is_claim_resource parent) name (api.get_namespace parent) labels k
  unfolding owner_labels
  lookup-owner_labels parent name k labels = elim (Bool-cases (own.is_claim_resource parent)) [
    | inr e ↦ rw (e, lookup-composite_labelled) refl
    | inl e ↦ rw (e, lookup-composite_labelled, has_key-claim_labels, lookup-claim_labels) refl
  ]

  labels_by_name :
      (parent child : Fields) (k : Text)
      → lookup k (or_no_labels (api.get_labels (update_owner_refs api own (some parent) child))) ≡ (
          if is_empty (parent_name api own parent)
          then lookup k (or_no_labels (api.get_labels child))
          else owned_label
              (own.is_claim_resource parent)
              (parent_name api own parent)
              (api.get_namespace parent)
              (or_no_labels (api.get_labels child))
              k)
  unfolding update_owner_refs update_composite_owner_label update_owner_refs_for_claim
      update_owner_refs_for_xr
  labels_by_name parent child k = elim (Bool-cases (is_empty (parent_name api own parent))) [
    | inl e ↦ elim (Bool-cases (own.is_claim_resource parent)) [
      | inl c ↦ rw (e, c, labels_kept) refl
      | inr c ↦ rw (e, c, labels_kept) refl
    ]
    | inr e ↦ elim (Bool-cases (own.is_claim_resource parent)) [
      | inl c ↦ rw (e, set_labels_lem, lookup-owner_labels, c, labels_kept) refl
      | inr c ↦ rw (e, set_labels_lem, lookup-owner_labels, c, labels_kept) refl
    ]
  ]

  -- Where the accessors of an object keep the labels that they are given and do not touch them for
  -- owner references: after UpdateOwnerRefs for a parent, which goes by its name or, without one, by
  -- its generateName, that is the composite label if there was none; the claim labels are the one
  -- that a claim goes by and its namespace; every other label is as before, the composite label that
  -- there was included. With neither a name nor a generateName the labels are as before.
  pub update_owner_refs-lookup :
      (parent child : Fields) (k : Text)
      → lookup k (or_no_labels (api.get_labels (update_owner_refs api own (some parent) child))) ≡ (
          if not (is_empty (api.get_name parent))
          then owned_label
              (own.is_claim_resource parent)
              (api.get_name parent)
              (api.get_namespace parent)
              (or_no_labels (api.get_labels child))
              k
          else if not (is_empty (api.get_generate_name parent))
          then owned_label
              (own.is_claim_resource parent)
              (api.get_generate_name parent)
              (api.get_namespace parent)
              (or_no_labels (api.get_labels child))
              k
          else lookup k (or_no_labels (api.get_labels child)))
  unfolding parent_name
  update_owner_refs-lookup parent child k = elim (Bool-cases (is_empty (api.get_name parent))) [
    | inl e ↦ elim (Bool-cases (is_empty (api.get_generate_name parent))) [
      | inl g ↦ labels_by_name parent child k ∙ rw (parent_name, e, g) refl
      | inr g ↦ labels_by_name parent child k ∙ rw (parent_name, e, g) refl
    ]
    | inr e ↦ labels_by_name parent child k ∙ rw (parent_name, e, e) refl
  ]
