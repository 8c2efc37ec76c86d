-- ===== src/CompDiff/Classify.antt =====
-- Which composites would adopt the revision that a composition makes: classifyXR and
-- partitionXRsByUpdatePolicy of comp_processor.go, and the counts of those that would not.
pub mod Partition
use crossplane_diff.Prelude.{
  ℕ, suc, Bool, true, false, Option, none, some, List, [], ◌∷◌, ◌++◌, if◌then◌else◌,
}
use crossplane_diff.Text.{Text, codes, text_eq}
use crossplane_diff.GoMap.{GoMap, insert, copy}
use crossplane_diff.Objects.{Fields}
use crossplane_diff.Objects.Api.{Api}
use crossplane_diff.Result.{Result, ok, err, panic, ◌>>=◌, wrapping}
use crossplane_diff.Selection.Paths.{Accessors, xr_update_policy}
use crossplane_diff.Selection.Selector.{Labels, xr_revision_selector_match}
use crossplane_diff.Selection.Revisions.{label_composition_name}
use crossplane_diff.Processor.Claim.{composition_update_policy_manual}

-- FilterReason: its constants, and "".
pub data FilterReason : Type 0 where
  no_reason manual_policy revision_selector_mismatch deleting : FilterReason

-- filteredXR
pub record FilteredXr : Type 0 where
  pub xr : Fields
  pub reason : FilterReason
  pub detail : Text

-- filterCounts
pub record FilterCounts : Type 0 where
  pub by_policy : ℕ
  pub by_selector : ℕ
  pub by_deletion : ℕ

-- One round of the loop of countFilterReasons.
abbrev counted : FilterReason → FilterCounts → FilterCounts
counted no_reason c = c
counted manual_policy c = record {
  by_policy = suc c.by_policy;
  by_selector = c.by_selector;
  by_deletion = c.by_deletion;
}
counted revision_selector_mismatch c = record {
  by_policy = c.by_policy;
  by_selector = suc c.by_selector;
  by_deletion = c.by_deletion;
}
counted deleting c = record {
  by_policy = c.by_policy;
  by_selector = c.by_selector;
  by_deletion = suc c.by_deletion;
}

-- countFilterReasons
unfoldable pub count_from : List FilteredXr → FilterCounts → FilterCounts
count_from [] c = c
count_from (d ∷ ds) c = count_from ds (counted d.reason c)

abbrev no_counts : FilterCounts
no_counts = record { by_policy = 0; by_selector = 0; by_deletion = 0 }

unfoldable pub count_filter_reasons : List FilteredXr → FilterCounts
count_filter_reasons dropped = count_from dropped no_counts

abbrev pub labels_or_empty : Option (GoMap Text) → GoMap Text
labels_or_empty none = []
labels_or_empty (some m) = m

-- Where an XR goes.
abbrev pub Sorted : Type 0
Sorted = List Fields × List FilteredXr

abbrev pub put_in : Fields → Option FilteredXr → Sorted → Sorted
put_in xr none (kept, dropped) = (xr ∷ kept, dropped)
put_in xr (some d) (kept, dropped) = (kept, d ∷ dropped)

abbrev pub mismatch : Fields → Option Text → Option FilteredXr
mismatch xr none = none
mismatch xr (some detail) =
    some (record { xr = xr; reason = revision_selector_mismatch; detail = detail })

module _ (api : Api) where
  -- predictedRevisionLabels
  unfoldable pub predicted_revision_labels : Fields → GoMap Text
  predicted_revision_labels new_comp =
      insert label_composition_name (api.get_name new_comp)
        (copy [] (labels_or_empty (api.get_labels new_comp)))

  module _ (at : Accessors) {Expression Selector : Type 0} (labels : Labels Expression Selector)
      (deletion_timestamp : Fields → Option Text) (include_manual : Bool) where
    -- What follows the policy.
    unfoldable pub classify_by_policy :
        Fields → GoMap Text → GoMap Text → Text → Result (Option FilteredXr)
    classify_by_policy xr target_labels comp_labels policy =
        let by_selector =
          wrapping
            (codes "cannot evaluate compositionRevisionSelector for XR "
              ++ (34 ∷ (api.get_name xr ++ (34 ∷ []))))
            (xr_revision_selector_match labels api at xr target_labels comp_labels)
          >>= (λ detail. ok (mismatch xr detail)) in
        if text_eq policy composition_update_policy_manual
        then if include_manual
          then ok none
          else ok (some (record { xr = xr; reason = manual_policy; detail = [] }))
        else by_selector

    -- classifyXR; `deletion_timestamp` is the timestamp in UTC and RFC 3339.
    unfoldable pub classify_xr : Fields → GoMap Text → GoMap Text → Result (Option FilteredXr)
    classify_xr xr target_labels comp_labels = elim (deletion_timestamp xr) [
      | some stamp ↦ ok (
          some
            (record { xr = xr; reason = deleting; detail = codes "deletionTimestamp: " ++ stamp }))
      | none ↦
          wrapping
            (codes "cannot read compositionUpdatePolicy for XR "
              ++ (34 ∷ (api.get_name xr ++ (34 ∷ []))))
            (xr_update_policy at xr (api.get_api_version xr))
          >>= (λ policy. classify_by_policy xr target_labels comp_labels policy)
    ]

    -- The loop of partitionXRsByUpdatePolicy, up to the first error.
    unfoldable pub partition_from : GoMap Text → GoMap Text → List Fields → Result Sorted
    partition_from target_labels comp_labels [] = ok ([], [])
    partition_from target_labels comp_labels (xr ∷ xrs) = do
      drop ← classify_xr xr target_labels comp_labels
      rest ← partition_from target_labels comp_labels xrs
      ok (put_in xr drop rest)

    -- partitionXRsByUpdatePolicy
    unfoldable pub partition_xrs_by_update_policy : List Fields → Fields → Result Sorted
    partition_xrs_by_update_policy xrs new_comp =
        partition_from (predicted_revision_labels new_comp)
          (labels_or_empty (api.get_labels new_comp)) xrs
