-- ===== src/Processor/Claim/Merged.antt =====
-- Where each field of the merged spec comes from.
use crossplane_diff.Prelude.{
  ◌≡◌, refl, ◌∙◌, Bool, not, ◌&&◌, ◌||◌, Option, List, [], ◌∷◌, arith, any, Bool-cases,
  Option-cases, inl, inr, if◌then◌else◌,
}
use crossplane_diff.Text.{Text, text_eq, text_eq_iff}
use crossplane_diff.Objects.{Value, Fields, get, has, get-put}
use crossplane_diff.Result.{ok}
use crossplane_diff.Processor.Claim.{
  field_composition_revision_ref, composition_update_policy_manual, always_preserved_fields,
  conditional_fields, take_from, preserve_always, preserve_missing, preserve_revision,
  build_merged_spec,
}

get-take_from :
    (k j : Text) (xr_spec merged : Fields)
    → get j (take_from k xr_spec merged)
      ≡ (if text_eq k j && has j xr_spec then get j xr_spec else get j merged)
unfolding take_from has
get-take_from k j xr_spec merged = elim (Option-cases (get k xr_spec)) [
  | inl e ↦ ground (arith, e, text_eq_iff k j)
  | inr (v, e) ↦ ground (arith, e, text_eq_iff k j, get-put k j v merged)
]

get-preserve_always :
    (j : Text) (ks : List Text) (xr_spec merged : Fields)
    → get j (preserve_always ks xr_spec merged)
      ≡ (if any (λ k. text_eq k j) ks && has j xr_spec then get j xr_spec else get j merged)
unfolding preserve_always
get-preserve_always j [] xr_spec merged = refl
get-preserve_always j (k ∷ ks) xr_spec merged =
    get-preserve_always j ks xr_spec (take_from k xr_spec merged)
    ∙ ground (arith, get-take_from k j xr_spec merged)

get-preserve_missing :
    (j : Text) (ks : List Text) (claim_spec xr_spec merged : Fields)
    → get j (preserve_missing ks claim_spec xr_spec merged) ≡ (
        if any (λ k. text_eq k j) ks && (not (has j claim_spec) && has j xr_spec)
        then get j xr_spec
        else get j merged)
unfolding preserve_missing
get-preserve_missing j [] claim_spec xr_spec merged = refl
get-preserve_missing j (k ∷ ks) claim_spec xr_spec merged =
    get-preserve_missing j ks claim_spec xr_spec _
    ∙ ground (arith, get-take_from k j xr_spec merged, text_eq_iff k j)

-- Does the field come from the backing XR, and not from the claim?
unfoldable pub from_xr : Fields → Fields → Text → Text → Bool
from_xr claim_spec xr_spec policy j =
    has j xr_spec
    && (any (λ k. text_eq k j) always_preserved_fields
        || (not (has j claim_spec)
            && (any (λ k. text_eq k j) conditional_fields
                || (text_eq field_composition_revision_ref j
                    && text_eq policy composition_update_policy_manual))))

get-preserve_revision :
    (j policy : Text) (claim_spec xr_spec merged : Fields)
    → (m : Fields) × (preserve_revision claim_spec xr_spec (ok policy) merged ≡ ok m)
      × (get j m ≡ (
          if (text_eq field_composition_revision_ref j && not (has j claim_spec))
            && (text_eq policy composition_update_policy_manual && has j xr_spec)
          then get j xr_spec
          else get j merged))
unfolding preserve_revision
get-preserve_revision j policy claim_spec xr_spec merged =
    let r = field_composition_revision_ref in
    elim (Bool-cases (has r claim_spec)) [
      | inl e ↦ (merged, rw e, ground (arith, e, text_eq_iff r j))
      | inr e ↦ elim (Bool-cases (text_eq policy composition_update_policy_manual)) [
        | inl manual ↦ (
          take_from r xr_spec merged,
          rw (e, manual),
          ground (arith, e, manual, text_eq_iff r j, get-take_from r j xr_spec merged),
        )
        | inr other ↦ (merged, rw (e, other), ground (arith, other))
      ]
    ]

-- The merged spec has each field from one side. The backing XR's claimRef and resourceRefs win;
-- its composition and connection-secret fields stand in for those that the claim does not have,
-- and with the Manual policy its compositionRevisionRef does; every other field is the claim's, so
-- a field that was removed from the claim is gone.
pub build_merged_spec-field :
    (claim_spec xr_spec : Fields) (policy j : Text)
    → (m : Fields) × (build_merged_spec claim_spec xr_spec (ok policy) ≡ ok m)
      × (get j m
          ≡ (if from_xr claim_spec xr_spec policy j then get j xr_spec else get j claim_spec))
unfolding build_merged_spec from_xr
build_merged_spec-field claim_spec xr_spec policy j =
    let always = preserve_always always_preserved_fields xr_spec claim_spec in
    let missing = preserve_missing conditional_fields claim_spec xr_spec always in
    let (m, e, found) = get-preserve_revision j policy claim_spec xr_spec missing in
    (
      m,
      e,
      found
          ∙ combined (text_eq field_composition_revision_ref j)
              (any (λ k. text_eq k j) conditional_fields)
              (any (λ k. text_eq k j) always_preserved_fields) (has j claim_spec) (has j xr_spec)
              (text_eq policy composition_update_policy_manual)
              (get-preserve_missing j conditional_fields claim_spec xr_spec always)
              (get-preserve_always j always_preserved_fields xr_spec claim_spec),
    )
  where
    combined :
        (r c a h n p : Bool) {x y : Option Value}
        → x ≡ (if c && (not h && n) then get j xr_spec else y)
        → y ≡ (if a && n then get j xr_spec else get j claim_spec)
        → (if (r && not h) && (p && n) then get j xr_spec else x)
          ≡ (if n && (a || (not h && (c || (r && p)))) then get j xr_spec else get j claim_spec)
    combined r c a h n p e f = ground (arith, e, f)
