-- ===== src/Tests/Compare.antt =====
-- Tests of the comparison of two objects (cmd/diff/renderer/diff_formatter.go).
use crossplane_diff.Prelude.{◌≡◌, refl, inr, none, some, [], ◌∷◌, arith, if◌then◌else◌}
use crossplane_diff.Text.{Text, codes, text_eq, contains, has_suffix, split}
use crossplane_diff.Objects.Fields.{entry, end}
use crossplane_diff.Objects.{object, string, number, Fields, get}
use crossplane_diff.Formatter.Lines.{default_diff_options}
use crossplane_diff.Compare.Paths.{remove_nested_path, remove_field}
use crossplane_diff.Compare.Paths.Gone.{OnlyWithout, removed_path_gone}
use crossplane_diff.Compare.Cleanup.{clean_fields}
use crossplane_diff.Compare.Cleanup.Cleaned.{clean_fields-frame}
use crossplane_diff.Compare.Cleanup.Content.{clean_fields_content, is_hidden, spec_shown}
use crossplane_diff.Compare.Generate.{generate_diff}
use crossplane_diff.Compare.Generate.Total.{generate_diff_total, IsDiffOf}
use crossplane_diff.Tests.Cluster.{api, nested_laws, lib, comparer_laws, field_at}

abbrev suffix : Text
suffix = codes "1a2b3c4d5e6f"

abbrev metadata : Fields
metadata =
    entry (codes "name") (string (codes "db")) (entry (codes "uid") (string (codes "42")) end)

abbrev spec : Fields
spec = entry (codes "size") (number (codes "3")) (entry (codes "resourceRefs") (string []) end)

abbrev database : Fields
database = entry (codes "kind") (string (codes "Db")) (
    entry (codes "metadata") (object metadata)
      (entry (codes "spec") (object spec) (entry (codes "status") (string []) end)))

removed_path_gone_example :
    (api.nested_field
        (remove_nested_path api database (codes "spec.size")).0
        (codes "spec" ∷ codes "size" ∷ [])
      ≡ none)
    × OnlyWithout
        (codes "spec")
        (codes "size" ∷ [])
        database
        (remove_nested_path api database (codes "spec.size")).0
removed_path_gone_example =
    removed_path_gone api nested_laws database (codes "spec.size") (codes "spec")
      (codes "size" ∷ []) (unfold split in refl) (unfold contains has_suffix in refl)
      (unfold remove_nested_path remove_field contains has_suffix split field_at get text_eq in
        refl)

clean_fields-frame_example :
    get (codes "kind") (clean_fields suffix api database)
    ≡ (if text_eq (codes "status") (codes "kind") then none else get (codes "kind") database)
clean_fields-frame_example =
    clean_fields-frame suffix api nested_laws database (codes "kind") (unfold text_eq in refl)
      (unfold text_eq in refl)

clean_fields_content_example :
    (m' : Fields) × (get (codes "metadata") (clean_fields suffix api database) ≡ some (object m'))
    × (get (codes "uid") m' ≡ (
        if is_hidden suffix api metadata (codes "uid") then none else get (codes "uid") metadata))
    × (get (codes "spec") (clean_fields suffix api database) ≡ some (object (spec_shown spec)))
clean_fields_content_example =
    clean_fields_content suffix api nested_laws database metadata spec (codes "uid")
      (unfold get text_eq in refl) (unfold get text_eq in refl)

generate_diff_total_example :
    IsDiffOf suffix api lib comparer_laws none
      (some database)
      (generate_diff suffix api lib none (some database) default_diff_options)
generate_diff_total_example =
    generate_diff_total suffix api lib comparer_laws none (some database) default_diff_options
      (inr (λ h. ground (arith, h)))

-- The database with another uid: only a server-side field differs.
abbrev recreated : Fields
recreated = entry (codes "kind") (string (codes "Db")) (
    entry (codes "metadata")
      (object (
        entry (codes "name") (string (codes "db")) (entry (codes "uid") (string (codes "43")) end)))
      (entry (codes "spec") (object spec) (entry (codes "status") (string []) end)))
