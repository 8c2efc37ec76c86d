-- ===== src/Selection/Selector.antt =====
-- client/crossplane/revision_selector.go: the selector by which a composite chooses among the
-- revisions of its composition.
use crossplane_diff.Prelude.{Bool, Option, none, some, List, [], ◌∷◌, ◌++◌, map, if◌then◌else◌}
use crossplane_diff.Text.{Text, codes, text_eq}
use crossplane_diff.GoMap.{GoMap, lookup, insert, copy}
use crossplane_diff.Objects.{Fields}
use crossplane_diff.Objects.Api.{Api}
use crossplane_diff.Result.{Result, ok, err, panic, ◌>>=◌, wrapping}
use crossplane_diff.Selection.Paths.{
  Accessors, xr_update_policy, nested_crossplane_map, update_policy_automatic,
}

-- metav1.LabelSelector: matchLabels, and the keys of matchExpressions beside the expressions.
pub record LabelSelector (Expression : Type 0) : Type 0 where
  pub match_labels : GoMap Text
  pub match_expressions : List (Text × Expression)

-- labels.Selector, with Everything(), Matches and String; Set.String; LabelSelectorAsSelector; and
-- the conversion of an unstructured map to a LabelSelector.
pub record Labels (Expression Selector : Type 0) : Type 0 where
  pub everything : Selector
  pub matches : Selector → GoMap Text → Bool
  pub selector_string : Selector → Text
  pub set_string : GoMap Text → Text
  pub as_selector : LabelSelector Expression → Result Selector
  pub label_selector_from : Fields → Result (LabelSelector Expression)

module _ {Expression Selector : Type 0} (labels : Labels Expression Selector) where
  -- selectorReferencedKeys
  unfoldable pub selector_referenced_keys : LabelSelector Expression → List Text
  selector_referenced_keys sel =
      map (λ entry. entry.0) sel.match_labels ++ map (λ req. req.0) sel.match_expressions

  -- The loop that adds the labels that the selector keys on.
  unfoldable pub surfaced : List Text → GoMap Text → GoMap Text → GoMap Text
  surfaced [] target_labels display = display
  surfaced (k ∷ ks) target_labels display =
      surfaced ks target_labels
        (elim (lookup k target_labels) [ none ↦ display | some v ↦ insert k v display ])

  -- describeSelectorMismatch; a nil selector is dereferenced.
  unfoldable pub describe_selector_mismatch :
      Option (LabelSelector Expression) → GoMap Text → GoMap Text → Result Text
  describe_selector_mismatch none target_labels comp_labels = panic
  describe_selector_mismatch (some sel) target_labels comp_labels =
      let display = surfaced (selector_referenced_keys sel) target_labels (copy [] comp_labels) in
      elim (labels.as_selector sel) [
        | ok selector ↦ ok (
            codes "compositionRevisionSelector "
            ++ (labels.selector_string selector
                ++ (codes " does not match composition labels {"
                    ++ (labels.set_string display ++ codes "}"))))
        | err e ↦ ok (codes "compositionRevisionSelector could not be rendered")
        | panic ↦ panic
      ]

  -- What a selector that is found becomes.
  unfoldable pub parsed_selector :
      Option Fields → Result (Selector × Option (LabelSelector Expression))
  parsed_selector none = ok (labels.everything, none)
  parsed_selector (some m) = do
    sel ← wrapping (codes "cannot parse compositionRevisionSelector") (labels.label_selector_from m)
    selector ←
        wrapping (codes "cannot convert compositionRevisionSelector to selector")
          (labels.as_selector sel)
    ok (selector, some sel)

  module _ (api : Api) (at : Accessors) where
    unfoldable pub selector_under_policy :
        Fields → Text → Result (Selector × Option (LabelSelector Expression))
    selector_under_policy xr policy =
        let found =
          wrapping (codes "cannot read compositionRevisionSelector") (
            nested_crossplane_map at xr (api.get_api_version xr)
              (codes "compositionRevisionSelector" ∷ []))
          >>= (λ m. parsed_selector m) in
        if text_eq policy update_policy_automatic then found else ok (labels.everything, none)

    -- xrRevisionSelector
    unfoldable pub xr_revision_selector :
        Fields → Result (Selector × Option (LabelSelector Expression))
    xr_revision_selector xr =
        wrapping (codes "cannot read compositionUpdatePolicy")
          (xr_update_policy at xr (api.get_api_version xr))
        >>= (λ policy. selector_under_policy xr policy)

    -- XRRevisionLabelSelector
    unfoldable pub xr_revision_label_selector : Fields → Result Selector
    xr_revision_label_selector xr = xr_revision_selector xr >>= (λ s. ok s.0)

    -- XRRevisionSelectorMatch: nothing if the selector matches, else the detail.
    unfoldable pub xr_revision_selector_match :
        Fields → GoMap Text → GoMap Text → Result (Option Text)
    xr_revision_selector_match xr target_labels comp_labels = xr_revision_selector xr >>= (λ s.
        let detail =
          describe_selector_mismatch s.1 target_labels comp_labels >>= (λ d. ok (some d)) in
        if labels.matches s.0 target_labels then ok none else detail)
