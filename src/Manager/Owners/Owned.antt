-- ===== src/Manager/Owners/Owned.antt =====
-- What the owner references of a child are after UpdateOwnerRefs.
use mathlib.Core.List.{Memᴰ}
use crossplane_diff.Prelude.{
  ℕ, ◌≡◌, ◌↔◌, refl, subst, inl, inr, Bool, true, false, not, ◌&&◌, some, List, [], ◌∷◌, arith, map,
  All, All-weaken, Bool-cases,
}
use crossplane_diff.Text.{Text, text_eq, is_empty}
use crossplane_diff.GoMap.{GoMap}
use crossplane_diff.Objects.{Fields}
use crossplane_diff.Objects.Api.{Api}
use crossplane_diff.Manager.Owners.{
  OwnerReference, Ownership, with_uid, is_controller, ref_key, dedupe, fresh_uid, not_controlled_by,
  claim_refs, update_owner_refs_for_claim, refers_to, parent_uid, xr_refs, update_owner_refs_for_xr,
  parent_name, update_composite_owner_label, update_owner_refs,
}
use crossplane_diff.Manager.Owners.Deduped.{
  Distinct, Keyed, dedupe-Distinct, All-dedupe, dedupe-keys,
}

module _ (api : Api) (own : Ownership)
    (new_uid_filled : (n : ℕ) → is_empty (own.new_uid n) ≡ false) where
  abbrev Filled : OwnerReference → Type 0
  Filled ref = is_empty ref.uid ≡ false

  fresh_uid-Filled : (drawn : ℕ) (ref : OwnerReference) → Filled (fresh_uid api own drawn ref).0
  unfolding fresh_uid
  fresh_uid-Filled drawn ref = elim (Bool-cases (is_empty ref.uid)) [
    | inl e ↦ rw e (new_uid_filled drawn)
    | inr e ↦ rw e e
  ]

  fresh_uid-key :
      (drawn : ℕ) (ref : OwnerReference) → ref_key (fresh_uid api own drawn ref).0 ≡ ref_key ref
  unfolding fresh_uid
  fresh_uid-key drawn ref = elim (Bool-cases (is_empty ref.uid)) [
    | inl e ↦ rw e refl
    | inr e ↦ rw e refl
  ]

  fresh_uid-refers_to :
      (xr : Fields) (drawn : ℕ) (ref : OwnerReference)
      → refers_to api own xr (fresh_uid api own drawn ref).0 ≡ refers_to api own xr ref
  unfolding fresh_uid refers_to
  fresh_uid-refers_to xr drawn ref = elim (Bool-cases (is_empty ref.uid)) [
    | inl e ↦ rw e refl
    | inr e ↦ rw e refl
  ]

  fresh_uid_kept :
      (drawn : ℕ) (ref : OwnerReference) → Filled ref → (fresh_uid api own drawn ref).0 ≡ ref
  unfolding fresh_uid
  fresh_uid_kept drawn ref e = rw e refl

  -- A reference to the claim by kind and name.
  abbrev pub names : Fields → OwnerReference → Bool
  names claim ref = text_eq ref.kind (api.get_kind claim) && text_eq ref.name (api.get_name claim)

  abbrev ClaimRef : Fields → OwnerReference → Type 0
  ClaimRef claim ref = names claim ref ≡ true → is_controller ref.controller ≡ false

  not_controlled-ClaimRef :
      (claim : Fields) (ref : OwnerReference)
      → Filled ref
      → Filled (not_controlled_by api own claim ref)
        × ClaimRef claim (not_controlled_by api own claim ref)
        × (ref_key (not_controlled_by api own claim ref) ≡ ref_key ref)
  unfolding not_controlled_by
  not_controlled-ClaimRef claim ref filled =
      elim (Bool-cases (names claim ref && is_controller ref.controller)) [
        | inl e ↦ rw e (filled, λ named. refl, refl)
        | inr e ↦ rw e (filled, λ named. ground (arith, e, named), refl)
      ]

  claim_refs-ClaimRef :
      (claim : Fields) (drawn : ℕ) (refs : List OwnerReference)
      → All (λ ref. Filled ref × ClaimRef claim ref) (claim_refs api own claim drawn refs)
        × (map ref_key (claim_refs api own claim drawn refs) ≡ map ref_key refs)
  unfolding claim_refs
  claim_refs-ClaimRef claim drawn [] = (tt, refl)
  claim_refs-ClaimRef claim drawn (ref ∷ refs) =
      let (filled, uncontrolled, key) =
        not_controlled-ClaimRef claim (fresh_uid api own drawn ref).0
          (fresh_uid-Filled drawn ref) in
      let (rest, keys) = claim_refs-ClaimRef claim (fresh_uid api own drawn ref).1 refs in
      (((filled, uncontrolled), rest), rw (key, fresh_uid-key drawn ref, keys) refl)

  -- A reference to an XR that the cluster has carries the XR's UID.
  abbrev XrRef : Fields → OwnerReference → Type 0
  XrRef xr ref =
      refers_to api own xr ref ≡ true → is_empty (own.get_uid xr) ≡ false → ref.uid ≡ own.get_uid xr

  parent_uid-XrRef :
      (xr : Fields) (drawn : ℕ) (ref : OwnerReference)
      → XrRef xr (fresh_uid api own drawn (parent_uid api own xr ref)).0
        × (ref_key (fresh_uid api own drawn (parent_uid api own xr ref)).0 ≡ ref_key ref)
  unfolding parent_uid
  parent_uid-XrRef xr drawn ref =
      elim (Bool-cases (not (is_empty (own.get_uid xr)) && refers_to api own xr ref)) [
        | inl e ↦
            let filled : is_empty (own.get_uid xr) ≡ false = ground (arith, e) in
            rw (e, fresh_uid_kept drawn (with_uid (own.get_uid xr) ref) filled)
              (λ to filled'. refl, refl)
        | inr e ↦ rw e (
          λ to filled. absurd (ground (arith, e, filled, to, fresh_uid-refers_to xr drawn ref)),
          fresh_uid-key drawn ref,
        )
      ]

  xr_refs-XrRef :
      (xr : Fields) (drawn : ℕ) (refs : List OwnerReference)
      → All (λ ref. Filled ref × XrRef xr ref) (xr_refs api own xr drawn refs)
        × (map ref_key (xr_refs api own xr drawn refs) ≡ map ref_key refs)
  unfolding xr_refs
  xr_refs-XrRef xr drawn [] = (tt, refl)
  xr_refs-XrRef xr drawn (ref ∷ refs) =
      let updated = parent_uid api own xr ref in
      let (of_parent, key) = parent_uid-XrRef xr drawn ref in
      let (rest, keys) = xr_refs-XrRef xr (fresh_uid api own drawn updated).1 refs in
      (((fresh_uid-Filled drawn updated, of_parent), rest), rw (key, keys) refl)

  -- The references after an update for the parent, as they follow from those before it.
  abbrev pub Owned : Fields → List OwnerReference → List OwnerReference → Type 0
  Owned parent before after =
      All Filled after
      × (own.is_claim_resource parent ≡ true
          → All (ClaimRef parent) after × (map ref_key after ≡ map ref_key before))
      × (own.is_claim_resource parent ≡ false
          → All (XrRef parent) after
            × Distinct after
            × ((key : Text) → Keyed key before ↔ Keyed key after))

  claim_refs-Owned :
      (claim : Fields) (refs : List OwnerReference)
      → own.is_claim_resource claim ≡ true
      → Owned claim refs (claim_refs api own claim 0 refs)
  claim_refs-Owned claim refs e =
      let (each, keys) = claim_refs-ClaimRef claim 0 refs in
      (
        All-weaken _ _ (claim_refs api own claim 0 refs) (λ ref h. h.0) each,
        λ e'. (All-weaken _ _ (claim_refs api own claim 0 refs) (λ ref h. h.1) each, keys),
        λ e'. absurd (ground (arith, e, e')),
      )

  xr_refs-Owned :
      (xr : Fields) (refs : List OwnerReference)
      → own.is_claim_resource xr ≡ false
      → Owned xr refs (dedupe [] (xr_refs api own xr 0 refs))
  xr_refs-Owned xr refs e =
      let (each, keys) = xr_refs-XrRef xr 0 refs in
      let updated = xr_refs api own xr 0 refs in
      let kept = All-dedupe (λ ref. Filled ref × XrRef xr ref) [] updated each in
      (
        All-weaken _ _ (dedupe [] updated) (λ ref h. h.0) kept,
        λ e'. absurd (ground (arith, e, e')),
        λ e'. (
          All-weaken _ _ (dedupe [] updated) (λ ref h. h.1) kept,
          dedupe-Distinct [] updated,
          λ key.
              subst (λ (ks : List Text). Memᴰ key ks ↔ Keyed key (dedupe [] updated)) keys
                (dedupe-keys updated key),
        ),
      )

  update_label_kept :
      ((m : GoMap Text) (o : Fields)
        → own.get_owner_references (api.set_labels m o) ≡ own.get_owner_references o)
      → (parent child : Fields)
      → own.get_owner_references (update_composite_owner_label api own parent child)
        ≡ own.get_owner_references child
  unfolding update_composite_owner_label
  update_label_kept kept parent child = elim (Bool-cases (is_empty (parent_name api own parent))) [
    | inl e ↦ rw e refl
    | inr e ↦ rw (e, kept) refl
  ]

  -- Where UIDs are never empty and the accessors of an object keep the owner references that they
  -- are given and do not touch them for labels: after UpdateOwnerRefs for a parent, every
  -- reference has a UID. For a claim they have the same keys as before, in order, and none that
  -- names the claim is a controller. For an XR no two have the same key, the keys are those from
  -- before, and each that names the XR carries its UID, where the XR has one.
  pub update_owner_refs-Owned :
      ((refs : List OwnerReference) (o : Fields)
        → own.get_owner_references (own.set_owner_references refs o) ≡ refs)
      → ((m : GoMap Text) (o : Fields)
          → own.get_owner_references (api.set_labels m o) ≡ own.get_owner_references o)
      → (parent child : Fields)
      → Owned parent
          (own.get_owner_references child)
          (own.get_owner_references (update_owner_refs api own (some parent) child))
  unfolding update_owner_refs update_owner_refs_for_claim update_owner_refs_for_xr
  update_owner_refs-Owned set_lem kept parent child =
      let before = own.get_owner_references child in
      let after = own.get_owner_references (update_owner_refs api own (some parent) child) in
      elim (Bool-cases (own.is_claim_resource parent)) [
        | inl e ↦
            let same : claim_refs api own parent 0 before ≡ after =
              rw (update_label_kept kept parent, e, set_lem) refl in
            subst (λ (refs : List OwnerReference). Owned parent before refs) same
              (claim_refs-Owned parent before e)
        | inr e ↦
            let same : dedupe [] (xr_refs api own parent 0 before) ≡ after =
              rw (update_label_kept kept parent, e, set_lem) refl in
            subst (λ (refs : List OwnerReference). Owned parent before refs) same
              (xr_refs-Owned parent before e)
      ]
