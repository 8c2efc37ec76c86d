-- ===== src/CompDiff/Process/Pinned.antt =====
-- Composites that are pinned to a revision, where they are asked for.
use crossplane_diff.Prelude.{◌≡◌, refl, ◌∙◌, Bool, true, Option, none, List, arith, All, length}
use crossplane_diff.Text.{Text}
use crossplane_diff.GoMap.{GoMap}
use crossplane_diff.Objects.{Fields}
use crossplane_diff.Objects.Api.{Api}
use crossplane_diff.Result.{ok}
use crossplane_diff.Selection.Paths.{Accessors, xr_update_policy}
use crossplane_diff.Processor.Claim.{composition_update_policy_manual}
use crossplane_diff.Selection.Selector.{Labels}
use crossplane_diff.CompDiff.Scope.{original_composition, cleaned}
use crossplane_diff.CompDiff.Classify.{
  FilterReason, no_reason, manual_policy, revision_selector_mismatch, deleting, FilteredXr,
  predicted_revision_labels, labels_or_empty,
}
use crossplane_diff.CompDiff.Classify.Partition.{
  Excluded, Parted, all_parted, kept_next, dropped_next, partition-Parted,
}
use crossplane_diff.CompDiff.Process.{CompositionDiff, Environment, process_single_composition}
use crossplane_diff.CompDiff.Process.Verdict.{Differs, process-changed}

module _ (api : Api) (at : Accessors) (deletion_timestamp : Fields → Option Text) where
  -- Not being deleted, and of the Manual policy.
  abbrev pub IsPinned : Fields → Type 0
  IsPinned xr =
      (deletion_timestamp xr ≡ none)
      × (xr_update_policy at xr (api.get_api_version xr) ≡ ok composition_update_policy_manual)

module _ (api : Api) (at : Accessors) {Expression Selector : Type 0}
    (labels : Labels Expression Selector) (deletion_timestamp : Fields → Option Text)
    (include_manual : Bool) (target_labels comp_labels : GoMap Text)
    (asked : include_manual ≡ true) where
  pinned_stays :
      (xr : Fields) (reason : FilterReason) (detail : Text)
      → IsPinned api at deletion_timestamp xr
      → Excluded api at labels deletion_timestamp include_manual target_labels comp_labels xr reason
          detail
      → ⊥
  pinned_stays xr no_reason detail h e = e
  pinned_stays xr deleting detail h e = ground (arith, h.0, e.1)
  pinned_stays xr manual_policy detail h e = ground (arith, asked, e.2)
  pinned_stays xr revision_selector_mismatch detail h (alive, (policy, p, other, m)) =
      other (ground (arith, p, h.1))

  pinned-kept :
      {xrs kept : List Fields} {dropped : List FilteredXr}
      → Parted api at labels deletion_timestamp include_manual target_labels comp_labels xrs kept
          dropped
      → All (IsPinned api at deletion_timestamp) xrs
      → length kept ≡ length xrs
  pinned-kept all_parted h = refl
  pinned-kept (kept_next adopts r) h = omega (arith, pinned-kept r h.1)
  pinned-kept (dropped_next {d = d} same excluded r) h =
      absurd (pinned_stays _ d.reason d.detail h.0 excluded)

module _ {Expression Selector : Type 0} (env : Environment Expression Selector) (new_comp : Fields)
    (affected : List Fields) (shown : Bool) where
  -- With pinned composites asked for, where all composites are pinned and none is being deleted, a
  -- composition that changes counts all of them as moving to the new revision, although none of
  -- them would adopt it.
  pub process-pinned :
      (original : Option Fields) (r : CompositionDiff)
      → env.include_manual ≡ true
      → All (IsPinned env.api env.at env.deletion_timestamp) affected
      → original_composition env.source (env.api.get_name new_comp) ≡ ok original
      → Differs env.api env.lib env.xr_synthesis_suffix env.ignore_paths
          (env.source.without_cluster_metadata new_comp)
          (cleaned env.source original)
      → process_single_composition env new_comp affected shown ≡ ok r
      → r.revision_impact.repointed_composites ≡ length affected
  process-pinned original r asked pinned found differs e =
      let comp = env.source.without_cluster_metadata new_comp in
      let facts = process-changed env new_comp affected shown original r found differs e in
      let (sorted, parted, moved) = facts.1 in
      let in_turn =
        partition-Parted env.api env.at env.labels env.deletion_timestamp env.include_manual
          affected sorted.0 sorted.1 comp parted in
      moved
      ∙ pinned-kept env.api env.at env.labels env.deletion_timestamp env.include_manual
          (predicted_revision_labels env.api comp) (labels_or_empty (env.api.get_labels comp)) asked
          in_turn.0 pinned
