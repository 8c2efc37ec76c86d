-- ===== src/Tests/Preserve.antt =====
-- Tests of the copying of labels (cmd/diff/diffprocessor/preserve.go).
use crossplane_diff.Prelude.{◌≡◌, refl, [], ◌∷◌, if◌then◌else◌}
use crossplane_diff.Text.{codes, text_eq}
use crossplane_diff.GoMap.{lookup}
use crossplane_diff.Objects.{object, string, Fields, get}
use crossplane_diff.Objects.Fields.{entry, end}
use crossplane_diff.Preserve.{copy_labels, or_no_labels, label_composite}
use crossplane_diff.Preserve.Labels.{copy_labels-lookup, is_copied}
use crossplane_diff.Tests.Cluster.{api, set_labels_lem, meta_map}

abbrev labelled : Fields
labelled =
    entry (codes "metadata")
      (object
        (entry (codes "labels") (object (entry label_composite (string (codes "root")) end)) end))
      end

copy_labels-lookup_example :
    lookup label_composite
      (or_no_labels (api.get_labels (copy_labels api labelled end (label_composite ∷ []))))
    ≡ (if is_copied (label_composite ∷ []) ((label_composite, codes "root") ∷ []) label_composite
        then lookup label_composite ((label_composite, codes "root") ∷ [])
        else lookup label_composite (or_no_labels (api.get_labels end)))
unfolding meta_map get text_eq
copy_labels-lookup_example =
    copy_labels-lookup api set_labels_lem labelled end (label_composite ∷ [])
      ((label_composite, codes "root") ∷ []) label_composite refl
