-- ===== src/CompDiff/Impact/Counted.antt =====
-- The counts of the summary are those of the statuses in the impact analysis.
use crossplane_diff.Prelude.{
  ℕ, suc, ◌+◌, ◌≡◌, refl, ◌∙◌, Bool, true, false, Option, none, some, List, [], ◌∷◌, ◌++◌, map,
  arith, length, Bool-cases, inl, inr,
}
use crossplane_diff.GoMap.{GoMap, lookup}
use crossplane_diff.Objects.{Fields}
use crossplane_diff.Objects.Api.{Api}
use crossplane_diff.Types.Key.{make_diff_key_from_resource}
use crossplane_diff.Processor.Perform.{ObjectReference, reference}
use crossplane_diff.CompDiff.Classify.{FilteredXr}
use crossplane_diff.CompDiff.Impact.{
  XrStatus, status_changed, status_unchanged, status_error, status_filtered, XrDiffResult, XrImpact,
  AffectedResourcesSummary, tallied, status_of, impact_with, impact_of, has_error, has_changes,
  build_from, filtered_impact,
}

abbrev pub is_status : XrStatus → XrStatus → Bool
is_status status_changed status_changed = true
is_status status_unchanged status_unchanged = true
is_status status_error status_error = true
is_status status_filtered status_filtered = true
is_status _ _ = false

abbrev one_if : Bool → ℕ → ℕ
one_if true n = suc n
one_if false n = n

-- How many composites have a status.
unfoldable pub with_status : XrStatus → List XrImpact → ℕ
with_status st [] = 0
with_status st (i ∷ is) = one_if (is_status i.status st) (with_status st is)

one_if_plus : (b : Bool) (n m k : ℕ) → n ≡ m + k → one_if b n ≡ one_if b m + k
one_if_plus true n m k e = omega (arith, e)
one_if_plus false n m k e = e

pub with_status-append :
    (st : XrStatus) (is js : List XrImpact)
    → with_status st (is ++ js) ≡ with_status st is + with_status st js
unfolding with_status
with_status-append st [] js = omega arith
with_status-append st (i ∷ is) js =
    one_if_plus (is_status i.status st) _ _ _ (with_status-append st is js)

-- The counts of the three outcomes.
abbrev pub with_outcome : List XrImpact → ℕ
with_outcome is =
    with_status status_changed is + (with_status status_unchanged is + with_status status_error is)

tallied_lem :
    (st : XrStatus) (s : AffectedResourcesSummary) (c u e : ℕ)
    → (c + (tallied st s).with_changes ≡ one_if (is_status st status_changed) c + s.with_changes)
      × (u + (tallied st s).unchanged ≡ one_if (is_status st status_unchanged) u + s.unchanged)
      × (e + (tallied st s).with_errors ≡ one_if (is_status st status_error) e + s.with_errors)
tallied_lem status_changed s c u e = (omega arith, omega arith, omega arith)
tallied_lem status_unchanged s c u e = (omega arith, omega arith, omega arith)
tallied_lem status_error s c u e = (omega arith, omega arith, omega arith)
tallied_lem status_filtered s c u e = (omega arith, omega arith, omega arith)

impact_with-status :
    (xr : ObjectReference) (r : Option XrDiffResult) (st : XrStatus)
    → (impact_with xr r st).status ≡ st
impact_with-status xr r status_changed = refl
impact_with-status xr r status_unchanged = refl
impact_with-status xr r status_error = refl
impact_with-status xr r status_filtered = refl

-- A composite that was rendered has one of the three outcomes.
abbrev Outcome : XrStatus → Type 0
Outcome st =
    (c u e f : ℕ)
    → (one_if (is_status st status_changed) c
          + (one_if (is_status st status_unchanged) u + one_if (is_status st status_error) e)
        ≡ suc (c + (u + e)))
      × (one_if (is_status st status_filtered) f ≡ f)

status_of-Outcome : (r : Option XrDiffResult) → Outcome (status_of r)
unfolding status_of
status_of-Outcome none c u e f = (omega arith, refl)
status_of-Outcome (some r) c u e f = elim (Bool-cases (has_error r)) [
  | inl failed ↦ rw failed (omega arith, refl)
  | inr fine ↦ rw fine (elim (Bool-cases (has_changes r)) [
    | inl some' ↦ rw some' (omega arith, refl)
    | inr none' ↦ rw none' (omega arith, refl)
  ])
]

module _ (api : Api) where
  -- With the counts before, those after the loop are those of the statuses.
  pub build_from-with_status :
      (xrs : List Fields) (results : GoMap XrDiffResult) (s : AffectedResourcesSummary)
      → ((build_from api xrs results s).1.with_changes
          ≡ with_status status_changed (build_from api xrs results s).0 + s.with_changes)
        × ((build_from api xrs results s).1.unchanged
            ≡ with_status status_unchanged (build_from api xrs results s).0 + s.unchanged)
        × ((build_from api xrs results s).1.with_errors
            ≡ with_status status_error (build_from api xrs results s).0 + s.with_errors)
  unfolding build_from with_status
  build_from-with_status [] results s = (omega arith, omega arith, omega arith)
  build_from-with_status (xr ∷ xrs) results s =
      let impact =
        impact_of (reference api xr) (lookup (make_diff_key_from_resource api xr) results) in
      let s' = tallied impact.status s in
      let rest = (build_from api xrs results s').0 in
      let ih = build_from-with_status xrs results s' in
      let now =
        tallied_lem impact.status s (with_status status_changed rest)
          (with_status status_unchanged rest) (with_status status_error rest) in
      (ih.0 ∙ now.0, ih.1 ∙ now.1, ih.2 ∙ now.2)

  -- Every composite has an entry with one of the three outcomes.
  pub build_from-with_outcome :
      (xrs : List Fields) (results : GoMap XrDiffResult) (s : AffectedResourcesSummary)
      → (with_outcome (build_from api xrs results s).0 ≡ length xrs)
        × (with_status status_filtered (build_from api xrs results s).0 ≡ 0)
        × (length (build_from api xrs results s).0 ≡ length xrs)
  unfolding build_from with_status impact_of
  build_from-with_outcome [] results s = (omega arith, refl, refl)
  build_from-with_outcome (xr ∷ xrs) results s =
      let result = lookup (make_diff_key_from_resource api xr) results in
      let impact = impact_of (reference api xr) result in
      let rest = (build_from api xrs results (tallied impact.status s)).0 in
      let ih = build_from-with_outcome xrs results (tallied impact.status s) in
      let now : Outcome impact.status =
        rw (impact_with-status (reference api xr) result (status_of result))
          (status_of-Outcome result) in
      let counts =
        now (with_status status_changed rest) (with_status status_unchanged rest)
          (with_status status_error rest) (with_status status_filtered rest) in
      (omega (arith, counts.0, ih.0), counts.1 ∙ ih.1, omega (arith, ih.2))

  pub filtered-with_status :
      (ds : List FilteredXr)
      → (with_outcome (map (filtered_impact api) ds) ≡ 0)
        × (with_status status_filtered (map (filtered_impact api) ds) ≡ length ds)
  unfolding with_status filtered_impact
  filtered-with_status [] = (omega arith, refl)
  filtered-with_status (d ∷ ds) = let ih = filtered-with_status ds in (ih.0, omega (arith, ih.1))
