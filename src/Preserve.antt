-- ===== src/Preserve.antt =====
-- cmd/diff/diffprocessor/preserve.go: labels and references that a rendered object takes over from
-- the cluster's copy.
pub mod Labels
use crossplane_diff.Prelude.{Bool, true, false, Option, none, some, List, [], ◌∷◌, if◌then◌else◌}
use crossplane_diff.Text.{Text, codes}
use crossplane_diff.GoMap.{GoMap, lookup, insert}
use crossplane_diff.Objects.{Fields, object, put}
use crossplane_diff.Objects.Api.{Api}

abbrev pub label_composite : Text
label_composite = codes "crossplane.io/composite"

abbrev pub label_claim_name : Text
label_claim_name = codes "crossplane.io/claim-name"

abbrev pub label_claim_namespace : Text
label_claim_namespace = codes "crossplane.io/claim-namespace"

-- The loop of CopyLabels: the target's labels, and whether one was copied.
unfoldable pub copy_keys : List Text → GoMap Text → GoMap Text → Bool → GoMap Text × Bool
copy_keys [] source target copied = (target, copied)
copy_keys (key ∷ keys) source target copied =
    let found = lookup key source in
    copy_keys keys source (elim found [ some value ↦ insert key value target | none ↦ target ])
      (elim found [ some _ ↦ true | none ↦ copied ])

abbrev pub or_no_labels : Option (GoMap Text) → GoMap Text
or_no_labels none = []
or_no_labels (some m) = m

abbrev spec_key : Text
spec_key = codes "spec"

abbrev ref_key : Text
ref_key = codes "compositionRef"

abbrev crossplane_key : Text
crossplane_key = codes "crossplane"

abbrev or_new_map : Option Fields → Fields
or_new_map none = Fields.end
or_new_map (some m) = m

module _ (api : Api) where
  -- CopyLabels: the target afterwards.
  unfoldable pub copy_labels : Fields → Fields → List Text → Fields
  unfolding copy_keys
  copy_labels source target keys = elim (api.get_labels source) [
    | none ↦ target
    | some labels ↦
        let (target_labels, copied) =
          copy_keys keys labels (or_no_labels (api.get_labels target)) false in
        if copied then api.set_labels target_labels target else target
  ]

  -- CopyCompositionRef: the target afterwards.
  unfoldable pub copy_composition_ref : Fields → Fields → Fields
  copy_composition_ref source target = elim (api.nested_map source (spec_key ∷ ref_key ∷ [])) [
    | some ref ↦ api.set_nested_map target ref (spec_key ∷ ref_key ∷ [])
    | none ↦ elim (api.nested_map source (spec_key ∷ crossplane_key ∷ ref_key ∷ [])) [
      | none ↦ target
      | some ref ↦
          let crossplane = or_new_map (api.nested_map target (spec_key ∷ crossplane_key ∷ [])) in
          api.set_nested_map target (put ref_key (object ref) crossplane)
            (spec_key ∷ crossplane_key ∷ [])
    ]
  ]
