-- ===== src/Processor/Claim.antt =====
-- buildMergedSpec of diff_processor.go: the spec of a claim's
-- backing XR as it is rendered. xp.XRUpdatePolicy of the backing XR is a parameter.
pub mod Merged
use crossplane_diff.Prelude.{
  Bool, true, false, Option, none, some, List, [], ◌∷◌, ◌++◌, if◌then◌else◌,
}
use crossplane_diff.Text.{Text, codes, text_eq}
use crossplane_diff.Objects.{Value, object, Fields, get, has, put, as_map}
use crossplane_diff.Result.{Result, ok, err, panic, ◌>>=◌, wrapping}

abbrev pub field_composition_revision_ref : Text
field_composition_revision_ref = codes "compositionRevisionRef"

abbrev pub composition_update_policy_manual : Text
composition_update_policy_manual = codes "Manual"

-- alwaysPreservedFields
abbrev pub always_preserved_fields : List Text
always_preserved_fields = codes "claimRef" ∷ codes "resourceRefs" ∷ []

-- conditionalFields
abbrev pub conditional_fields : List Text
conditional_fields =
    codes "compositionRef" ∷ codes "compositionSelector" ∷ codes "writeConnectionSecretToRef" ∷ []

-- if val, ok := xrSpecMap[k]; ok { mergedSpec[k] = val }
unfoldable pub take_from : Text → Fields → Fields → Fields
take_from k xr_spec merged = elim (get k xr_spec) [ none ↦ merged | some v ↦ put k v merged ]

-- The two loops.
unfoldable pub preserve_always : List Text → Fields → Fields → Fields
preserve_always [] xr_spec merged = merged
preserve_always (k ∷ ks) xr_spec merged = preserve_always ks xr_spec (take_from k xr_spec merged)

unfoldable pub preserve_missing : List Text → Fields → Fields → Fields → Fields
preserve_missing [] claim_spec xr_spec merged = merged
preserve_missing (k ∷ ks) claim_spec xr_spec merged =
    preserve_missing ks claim_spec xr_spec
      (if has k claim_spec then merged else take_from k xr_spec merged)

unfoldable pub preserve_revision : Fields → Fields → Result Text → Fields → Result Fields
preserve_revision claim_spec xr_spec update_policy merged =
    if has field_composition_revision_ref claim_spec
    then ok merged
    else wrapping (codes "cannot read compositionUpdatePolicy from backing XR") update_policy
      >>= (λ policy. ok (
          if text_eq policy composition_update_policy_manual
          then take_from field_composition_revision_ref xr_spec merged
          else merged))

-- buildMergedSpec
unfoldable pub build_merged_spec : Fields → Fields → Result Text → Result Fields
build_merged_spec claim_spec xr_spec update_policy =
    preserve_revision claim_spec xr_spec update_policy (
      preserve_missing conditional_fields claim_spec xr_spec
        (preserve_always always_preserved_fields xr_spec claim_spec))
