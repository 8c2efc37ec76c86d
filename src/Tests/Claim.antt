-- ===== src/Tests/Claim.antt =====
-- Tests of the merged spec of a claim (cmd/diff/diffprocessor/diff_processor.go).
use crossplane_diff.Prelude.{◌≡◌, refl, if◌then◌else◌}
use crossplane_diff.Text.{codes, text_eq}
use crossplane_diff.Objects.{string, Fields, get, put, has}
use crossplane_diff.Objects.Fields.{entry, end}
use crossplane_diff.Result.{ok}
use crossplane_diff.Processor.Claim.{
  build_merged_spec, preserve_revision, preserve_missing, preserve_always, take_from,
}
use crossplane_diff.Processor.Claim.Merged.{from_xr, build_merged_spec-field}

abbrev claim_spec : Fields
claim_spec = entry (codes "size") (string (codes "big")) end

abbrev xr_spec : Fields
xr_spec = entry (codes "claimRef") (string (codes "c")) (
    entry (codes "legacy") (string (codes "x"))
      (entry (codes "compositionRevisionRef") (string (codes "r1")) end))

build_merged_spec-field_example :
    (m : Fields) × (build_merged_spec claim_spec xr_spec (ok (codes "Manual")) ≡ ok m)
    × (get (codes "compositionRevisionRef") m ≡ (
        if from_xr claim_spec xr_spec (codes "Manual") (codes "compositionRevisionRef")
        then get (codes "compositionRevisionRef") xr_spec
        else get (codes "compositionRevisionRef") claim_spec))
build_merged_spec-field_example =
    build_merged_spec-field claim_spec xr_spec (codes "Manual") (codes "compositionRevisionRef")

-- The field that the claim no longer has is gone.
merged :
    build_merged_spec claim_spec xr_spec (ok (codes "Manual"))
    ≡ ok (
        entry (codes "size") (string (codes "big")) (
          entry
            (codes "claimRef")
            (string (codes "c"))
            (entry (codes "compositionRevisionRef") (string (codes "r1")) end)))
unfolding build_merged_spec preserve_revision preserve_missing preserve_always take_from text_eq get
    put has
merged = refl
