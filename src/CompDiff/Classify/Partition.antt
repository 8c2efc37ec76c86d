-- ===== src/CompDiff/Classify/Partition.antt =====
-- The composites that are kept and those that are dropped, and the reasons.
use crossplane_diff.Prelude.{
  ℕ, suc, ◌+◌, ◌≡◌, ◌≢◌, refl, ◌∙◌, subst, ◌⊎◌, inl, inr, Bool, true, false, Option, none, some,
  List, [], ◌∷◌, ◌++◌, arith, length, Bool-cases, if◌then◌else◌,
}
use crossplane_diff.Text.{Text, codes, text_eq, text_eq_iff}
use crossplane_diff.GoMap.{GoMap}
use crossplane_diff.Objects.{Fields}
use crossplane_diff.Objects.Api.{Api}
use crossplane_diff.Result.{Result, ok, err, panic, ◌>>=◌, wrapping, both_ok}
use crossplane_diff.Selection.Paths.{Accessors, xr_update_policy}
use crossplane_diff.Selection.Selector.{Labels, xr_revision_selector_match}
use crossplane_diff.Processor.Claim.{composition_update_policy_manual}
use crossplane_diff.CompDiff.Classify.{
  FilterReason, no_reason, manual_policy, revision_selector_mismatch, deleting, FilteredXr,
  FilterCounts, counted, no_counts, count_from, count_filter_reasons, Sorted, put_in, mismatch,
  classify_by_policy, classify_xr, partition_from, partition_xrs_by_update_policy,
  predicted_revision_labels, labels_or_empty,
}

pub wrapping_ok : {A : Type 0} (m : Text) (r : Result A) {a : A} → wrapping m r ≡ ok a → r ≡ ok a
wrapping_ok m (ok x) e = e
wrapping_ok m (err x) e = absurd (ground (arith, e))
wrapping_ok m panic e = absurd (ground (arith, e))

abbrev pub total : FilterCounts → ℕ
total c = c.by_policy + (c.by_selector + c.by_deletion)

module _ (api : Api) (at : Accessors) {Expression Selector : Type 0}
    (labels : Labels Expression Selector) (deletion_timestamp : Fields → Option Text)
    (include_manual : Bool) (target_labels comp_labels : GoMap Text) where
  abbrev pub Policy : Fields → Text → Type 0
  Policy xr policy = xr_update_policy at xr (api.get_api_version xr) ≡ ok policy

  abbrev pub Match : Fields → Option Text → Type 0
  Match xr detail =
      xr_revision_selector_match labels api at xr target_labels comp_labels ≡ ok detail

  abbrev pub manual : Text
  manual = composition_update_policy_manual

  -- The XR would adopt the new revision, or counts as if it would: it is not being deleted, and it
  -- is pinned and pinned XRs are asked for, or it is not pinned and its selector matches.
  abbrev pub Adopts : Fields → Type 0
  Adopts xr =
      (deletion_timestamp xr ≡ none)
      × ((Policy xr manual × (include_manual ≡ true))
          ⊎ ((policy : Text) × Policy xr policy × (policy ≢ manual) × Match xr none))

  -- The XR would not, for the reason that is given.
  abbrev pub Excluded : Fields → FilterReason → Text → Type 0
  Excluded xr no_reason detail = ⊥
  Excluded xr deleting detail = (stamp : Text) × (deletion_timestamp xr ≡ some stamp)
  Excluded xr manual_policy detail =
      (deletion_timestamp xr ≡ none) × Policy xr manual × (include_manual ≡ false)
  Excluded xr revision_selector_mismatch detail =
      (deletion_timestamp xr ≡ none)
      × ((policy : Text) × Policy xr policy × (policy ≢ manual) × Match xr (some detail))

  abbrev Verdict : Fields → Option FilteredXr → Type 0
  Verdict xr none = Adopts xr
  Verdict xr (some d) = (d.xr ≡ xr) × Excluded xr d.reason d.detail

  -- The XRs in their order, each among the kept or among the dropped.
  pub data Parted : List Fields → List Fields → List FilteredXr → Type 0 where
    all_parted : Parted [] [] []
    kept_next :
        {xr : Fields} {xrs kept : List Fields} {dropped : List FilteredXr}
        → Adopts xr
        → Parted xrs kept dropped
        → Parted (xr ∷ xrs) (xr ∷ kept) dropped
    dropped_next :
        {xr : Fields} {xrs kept : List Fields} {d : FilteredXr} {dropped : List FilteredXr}
        → d.xr ≡ xr
        → Excluded xr d.reason d.detail
        → Parted xrs kept dropped
        → Parted (xr ∷ xrs) kept (d ∷ dropped)

  matched :
      (xr : Fields) (policy : Text) (detail : Option Text)
      → deletion_timestamp xr ≡ none
      → Policy xr policy
      → policy ≢ manual
      → Match xr detail
      → Verdict xr (mismatch xr detail)
  matched xr policy none alive p other m = (alive, inr (policy, p, other, m))
  matched xr policy (some detail) alive p other m = (refl, (alive, (policy, p, other, m)))

  returned :
      (xr : Fields) (x drop : Option FilteredXr) → ok x ≡ ok drop → Verdict xr x → Verdict xr drop
  returned xr x drop e v = subst (Verdict xr) (ground (arith, e)) v

  abbrev by_policy : Fields → FilteredXr
  by_policy xr = record { xr = xr; reason = manual_policy; detail = [] }

  by_manual :
      (xr : Fields) (drop : Option FilteredXr)
      → deletion_timestamp xr ≡ none
      → Policy xr manual
      → (if include_manual then ok none else ok (some (by_policy xr))) ≡ ok drop
      → Verdict xr drop
  by_manual xr drop alive p e = elim (Bool-cases include_manual) [
    | inl asked ↦ returned xr none drop (rw asked at e) (alive, inl (p, asked))
    | inr not_asked ↦
        returned xr (some (by_policy xr)) drop (rw not_asked at e) (refl, (alive, p, not_asked))
  ]

  selector-Verdict :
      (xr : Fields) (policy : Text) (m : Text) (drop : Option FilteredXr)
      → deletion_timestamp xr ≡ none
      → Policy xr policy
      → policy ≢ manual
      → (wrapping m (xr_revision_selector_match labels api at xr target_labels comp_labels)
          >>= (λ detail. ok (mismatch xr detail)))
        ≡ ok drop
      → Verdict xr drop
  selector-Verdict xr policy m drop alive p other e =
      let (detail, last, wrapped) = both_ok _ _ e in
      subst (Verdict xr) (ground (arith, last))
        (matched xr policy detail alive p other (wrapping_ok m _ wrapped))

  classified-Verdict :
      (xr : Fields) (policy : Text) (drop : Option FilteredXr)
      → deletion_timestamp xr ≡ none
      → Policy xr policy
      → classify_by_policy api at labels deletion_timestamp include_manual xr target_labels
          comp_labels policy
        ≡ ok drop
      → Verdict xr drop
  unfolding classify_by_policy
  classified-Verdict xr policy drop alive p e = elim (Bool-cases (text_eq policy manual)) [
    | inl is_manual ↦
        let pinned : Policy xr manual =
          subst (Policy xr) ((text_eq_iff policy manual).0 is_manual) p in
        by_manual xr drop alive pinned (rw is_manual at e)
    | inr differs ↦
        selector-Verdict xr policy _ drop alive p
          (λ same. absurd (ground (arith, differs, (text_eq_iff policy manual).1 same)))
          (rw differs at e)
  ]

  xr-Verdict :
      (xr : Fields) (drop : Option FilteredXr) (stamp : Option Text)
      → deletion_timestamp xr ≡ stamp
      → classify_xr api at labels deletion_timestamp include_manual xr target_labels comp_labels
        ≡ ok drop
      → Verdict xr drop
  unfolding classify_xr
  xr-Verdict xr drop none alive e =
      let (policy, later, wrapped) = both_ok _ _ (rw (alive, classify_xr) at e) in
      classified-Verdict xr policy drop alive (wrapping_ok _ _ wrapped) later
  xr-Verdict xr drop (some stamp) dying e =
      returned xr
        (some
          (record { xr = xr; reason = deleting; detail = codes "deletionTimestamp: " ++ stamp }))
        drop (rw (dying, classify_xr) at e) (refl, (stamp, dying))

  put_in-Parted :
      (xr : Fields) (xrs : List Fields) (drop : Option FilteredXr) (rest : Sorted)
      → Verdict xr drop
      → Parted xrs rest.0 rest.1
      → Parted (xr ∷ xrs) (put_in xr drop rest).0 (put_in xr drop rest).1
  put_in-Parted xr xrs none (kept, dropped) v r = kept_next v r
  put_in-Parted xr xrs (some d) (kept, dropped) v r = dropped_next v.0 v.1 r

  partition_from-Parted :
      (xrs : List Fields) (sorted : Sorted)
      → partition_from api at labels deletion_timestamp include_manual target_labels comp_labels xrs
        ≡ ok sorted
      → Parted xrs sorted.0 sorted.1
  unfolding partition_from
  partition_from-Parted [] sorted e =
      subst (λ (s : Sorted). Parted [] s.0 s.1) (ground (arith, e)) all_parted
  partition_from-Parted (xr ∷ xrs) sorted e =
      let (drop, later, classified) = both_ok _ _ e in
      let (rest, last, earlier) = both_ok _ _ later in
      subst (λ (s : Sorted). Parted (xr ∷ xrs) s.0 s.1) (ground (arith, last))
        (put_in-Parted xr xrs drop rest (xr-Verdict xr drop (deletion_timestamp xr) refl classified)
          (partition_from-Parted xrs rest earlier))

  pub Parted-length :
      {xrs kept : List Fields} {dropped : List FilteredXr}
      → Parted xrs kept dropped
      → length xrs ≡ length kept + length dropped
  Parted-length all_parted = omega arith
  Parted-length (kept_next h r) = omega (arith, Parted-length r)
  Parted-length (dropped_next e h r) = omega (arith, Parted-length r)

  counted-total :
      (xr : Fields) (reason : FilterReason) (detail : Text) (c : FilterCounts)
      → Excluded xr reason detail
      → total (counted reason c) ≡ suc (total c)
  counted-total xr no_reason detail c h = absurd h
  counted-total xr manual_policy detail c h = omega arith
  counted-total xr revision_selector_mismatch detail c h = omega arith
  counted-total xr deleting detail c h = omega arith

  Parted-total :
      {xrs kept : List Fields} {dropped : List FilteredXr} (c : FilterCounts)
      → Parted xrs kept dropped
      → length xrs + total c ≡ length kept + total (count_from dropped c)
  unfolding count_from
  Parted-total c all_parted = refl
  Parted-total c (kept_next h r) = omega (arith, Parted-total c r)
  Parted-total c (dropped_next {d = d} e h r) =
      omega (arith, Parted-total (counted d.reason c) r, counted-total _ d.reason d.detail c h)

module _ (api : Api) (at : Accessors) {Expression Selector : Type 0}
    (labels : Labels Expression Selector) (deletion_timestamp : Fields → Option Text)
    (include_manual : Bool) where
  -- Where the policies and selectors can be read, every composite is in its turn kept or dropped:
  -- kept exactly if it would adopt the new revision or is pinned and asked for, and dropped as
  -- being deleted before all else, then as pinned, then for its selector. The counts of the three
  -- reasons and the kept ones add up to all of them.
  pub partition-Parted :
      (xrs kept : List Fields) (dropped : List FilteredXr) (new_comp : Fields)
      → partition_xrs_by_update_policy api at labels deletion_timestamp include_manual xrs new_comp
        ≡ ok (kept, dropped)
      → Parted api at labels deletion_timestamp include_manual
          (predicted_revision_labels api new_comp)
          (labels_or_empty (api.get_labels new_comp))
          xrs
          kept
          dropped
        × (length xrs ≡ length kept + total (count_filter_reasons dropped))
  unfolding partition_xrs_by_update_policy count_filter_reasons
  partition-Parted xrs kept dropped new_comp e =
      let parted =
        partition_from-Parted api at labels deletion_timestamp include_manual
          (predicted_revision_labels api new_comp) (labels_or_empty (api.get_labels new_comp)) xrs
          (kept, dropped) e in
      (
        parted,
        omega (
          arith,
          Parted-total api at labels deletion_timestamp include_manual
              (predicted_revision_labels api new_comp) (labels_or_empty (api.get_labels new_comp))
              no_counts parted,
        ),
      )

abbrev pub same_reason : FilterReason → FilterReason → Bool
same_reason manual_policy manual_policy = true
same_reason revision_selector_mismatch revision_selector_mismatch = true
same_reason deleting deleting = true
same_reason no_reason no_reason = true
same_reason _ _ = false

abbrev one_if : Bool → ℕ → ℕ
one_if true n = suc n
one_if false n = n

-- How many were dropped for a reason.
unfoldable pub dropped_for : FilterReason → List FilteredXr → ℕ
dropped_for why [] = 0
dropped_for why (d ∷ ds) = one_if (same_reason d.reason why) (dropped_for why ds)

counted_lem :
    (r : FilterReason) (c : FilterCounts) (p s x : ℕ)
    → (p + (counted r c).by_policy ≡ one_if (same_reason r manual_policy) p + c.by_policy)
      × (s + (counted r c).by_selector
          ≡ one_if (same_reason r revision_selector_mismatch) s + c.by_selector)
      × (x + (counted r c).by_deletion ≡ one_if (same_reason r deleting) x + c.by_deletion)
counted_lem no_reason c p s x = (omega arith, omega arith, omega arith)
counted_lem manual_policy c p s x = (omega arith, omega arith, omega arith)
counted_lem revision_selector_mismatch c p s x = (omega arith, omega arith, omega arith)
counted_lem deleting c p s x = (omega arith, omega arith, omega arith)

count_from-dropped_for :
    (ds : List FilteredXr) (c : FilterCounts)
    → ((count_from ds c).by_policy ≡ dropped_for manual_policy ds + c.by_policy)
      × ((count_from ds c).by_selector ≡ dropped_for revision_selector_mismatch ds + c.by_selector)
      × ((count_from ds c).by_deletion ≡ dropped_for deleting ds + c.by_deletion)
unfolding count_from dropped_for
count_from-dropped_for [] c = (omega arith, omega arith, omega arith)
count_from-dropped_for (d ∷ ds) c =
    let ih = count_from-dropped_for ds (counted d.reason c) in
    let now =
      counted_lem d.reason c (dropped_for manual_policy ds)
        (dropped_for revision_selector_mismatch ds) (dropped_for deleting ds) in
    (ih.0 ∙ now.0, ih.1 ∙ now.1, ih.2 ∙ now.2)

-- The counts are of the composites that were dropped for each reason.
pub count_filter_reasons-dropped_for :
    (ds : List FilteredXr)
    → ((count_filter_reasons ds).by_policy ≡ dropped_for manual_policy ds)
      × ((count_filter_reasons ds).by_selector ≡ dropped_for revision_selector_mismatch ds)
      × ((count_filter_reasons ds).by_deletion ≡ dropped_for deleting ds)
unfolding count_filter_reasons
count_filter_reasons-dropped_for ds =
    let all_counts = count_from-dropped_for ds no_counts in
    (omega (arith, all_counts.0), omega (arith, all_counts.1), omega (arith, all_counts.2))
