-- ===== src/CompDiff/Process/Summed.antt =====
-- The summary of a composition that was analysed.
use crossplane_diff.Prelude.{
  ℕ, ◌+◌, ◌≡◌, refl, sym, subst, ap, ◌∙◌, Bool, true, false, List, [], ◌∷◌, ◌++◌, arith, length,
  if◌then◌else◌,
}
use crossplane_diff.Text.{Text}
use crossplane_diff.GoMap.{GoMap}
use crossplane_diff.Objects.{Fields}
use crossplane_diff.Result.{ok, both_ok}
use crossplane_diff.CompDiff.Scope.{CompositionComparison, triggers_analysis}
use crossplane_diff.CompDiff.Classify.{Sorted, FilteredXr, count_filter_reasons}
use crossplane_diff.CompDiff.Classify.Partition.{
  total, partition-Parted, Parted-length, wrapping_ok,
}
use crossplane_diff.CompDiff.Impact.{
  XrStatus, status_changed, status_unchanged, status_error, status_filtered, XrImpact, XrDiffResult,
  AffectedResourcesSummary, empty_summary, apply_to, build_impact_analysis,
}
use crossplane_diff.CompDiff.Impact.Counted.{
  with_status, with_status-append, build_from-with_status, build_from-with_outcome,
  filtered-with_status,
}
use crossplane_diff.CompDiff.Process.{
  CompositionDiff, Environment, surfaced, collected, partition, comparison_of, with_results,
  analysed, analysed_if, report, process_compared, process_single_composition,
}

abbrev pub filtered : AffectedResourcesSummary → ℕ
filtered s = s.filtered_by_policy + (s.filtered_by_selector + s.filtered_by_deletion)

-- The counts of a summary are those of the entries, and add up to all composites. Those that were
-- filtered have entries exactly if they are shown.
abbrev pub IsSummary : ℕ → Bool → List XrImpact → AffectedResourcesSummary → Type 0
IsSummary n shown is s =
    (s.total ≡ n)
    × (s.with_changes ≡ with_status status_changed is)
    × (s.unchanged ≡ with_status status_unchanged is)
    × (s.with_errors ≡ with_status status_error is)
    × (with_status status_filtered is ≡ (if shown then filtered s else 0))
    × ((s.with_changes + (s.unchanged + s.with_errors)) + filtered s ≡ n)

module _ {Expression Selector : Type 0} (env : Environment Expression Selector) (n : ℕ)
    (dropped : List FilteredXr) where
  shown-with_status :
      (shown : Bool) (is : List XrImpact) (st : XrStatus)
      → with_status st (surfaced env shown dropped ++ is)
        ≡ with_status st (surfaced env shown dropped) + with_status st is
  shown-with_status shown is st = with_status-append st (surfaced env shown dropped) is

  -- The entries that are shown of the filtered composites.
  surfaced-with_status :
      (shown : Bool)
      → (with_status status_changed (surfaced env shown dropped) ≡ 0)
        × (with_status status_unchanged (surfaced env shown dropped) ≡ 0)
        × (with_status status_error (surfaced env shown dropped) ≡ 0)
        × (with_status status_filtered (surfaced env shown dropped)
            ≡ (if shown then length dropped else 0))
  unfolding with_status
  surfaced-with_status false = (refl, refl, refl, refl)
  surfaced-with_status true =
      let (outcomes, others) = filtered-with_status env.api dropped in
      (omega (arith, outcomes), omega (arith, outcomes), omega (arith, outcomes), others)

  shown_or_not :
      (shown : Bool) {a b : ℕ} → a ≡ b → (if shown then a else 0) ≡ (if shown then b else 0)
  shown_or_not true e = e
  shown_or_not false e = refl

  results-IsSummary :
      (shown : Bool) (xrs : List Fields) (results : GoMap XrDiffResult)
      → n ≡ length xrs + total (count_filter_reasons dropped)
      → total (count_filter_reasons dropped) ≡ length dropped
      → IsSummary n shown
          (with_results env n shown xrs dropped results).0
          (with_results env n shown xrs dropped results).1
  unfolding with_results apply_to build_impact_analysis
  results-IsSummary shown xrs results all_counted of_dropped =
      let built = build_impact_analysis env.api xrs results in
      let counts = build_from-with_status env.api xrs results (empty_summary (length xrs)) in
      let outcomes = build_from-with_outcome env.api xrs results (empty_summary (length xrs)) in
      let entries = surfaced-with_status shown in
      let joined = shown-with_status shown built.0 in
      (
        refl,
        omega (arith, counts.0, joined status_changed, entries.0),
        omega (arith, counts.1, joined status_unchanged, entries.1),
        omega (arith, counts.2, joined status_error, entries.2),
        omega (arith, joined status_filtered, outcomes.1, entries.3)
            ∙ shown_or_not shown (sym of_dropped),
        omega (arith, all_counted, counts.0, counts.1, counts.2, outcomes.0),
      )

  analysed-IsSummary :
      (shown : Bool) (comp : Fields) (kept : List Fields) (is : List XrImpact)
      (s : AffectedResourcesSummary)
      → n ≡ length kept + total (count_filter_reasons dropped)
      → total (count_filter_reasons dropped) ≡ length dropped
      → analysed env n shown comp (kept, dropped) ≡ ok (is, s)
      → IsSummary n shown is s
  unfolding analysed apply_to
  analysed-IsSummary shown comp [] is s all_counted of_dropped e =
      let entries = surfaced-with_status shown in
      subst (λ (q : List XrImpact × AffectedResourcesSummary). IsSummary n shown q.0 q.1)
        (ground (arith, e))
        (
          refl,
          sym entries.0,
          sym entries.1,
          sym entries.2,
          entries.3 ∙ shown_or_not shown (sym of_dropped),
          omega (arith, all_counted),
        )
  analysed-IsSummary shown comp (xr ∷ xrs) is s all_counted of_dropped e =
      let (results, last, returned) =
        both_ok (collected env (xr ∷ xrs) comp)
          (λ results. ok (with_results env n shown (xr ∷ xrs) dropped results)) e in
      subst (λ (q : List XrImpact × AffectedResourcesSummary). IsSummary n shown q.0 q.1)
        (ground (arith, last)) (results-IsSummary shown (xr ∷ xrs) results all_counted of_dropped)

module _ {Expression Selector : Type 0} (env : Environment Expression Selector) (new_comp : Fields)
    (affected : List Fields) (shown : Bool) where
  abbrev comp : Fields
  comp = env.source.without_cluster_metadata new_comp

  abbrev name : Text
  name = env.api.get_name new_comp

  -- The steps of a composition that was processed.
  abbrev pub StepsOf : CompositionDiff → CompositionComparison → Sorted → Type 0
  StepsOf r c sorted =
      (comparison_of env new_comp ≡ ok c)
      × (partition env affected comp ≡ ok sorted)
      × (analysed_if env (triggers_analysis c.scope env.analyze_on) name c (length affected) shown
            comp sorted
          ≡ ok r)

  pub processed_steps :
      (r : CompositionDiff)
      → process_single_composition env new_comp affected shown ≡ ok r
      → (c : CompositionComparison) × (sorted : Sorted) × StepsOf r c sorted
  unfolding process_single_composition process_compared
  processed_steps r e =
      let (c, later, compared) = both_ok _ (process_compared env new_comp affected shown) e in
      let (sorted, last, parted) =
        both_ok (partition env affected comp)
          (analysed_if env (triggers_analysis c.scope env.analyze_on) name c (length affected) shown
            comp)
          later in
      (c, sorted, (wrapping_ok _ _ compared, parted, last))

  triggered-IsSummary :
      (on : Bool) (c : CompositionComparison) (sorted : Sorted) (r : CompositionDiff)
      → length affected ≡ length sorted.0 + total (count_filter_reasons sorted.1)
      → total (count_filter_reasons sorted.1) ≡ length sorted.1
      → analysed_if env on name c (length affected) shown comp sorted ≡ ok r
      → r.impact_analysis_skipped ≡ false
      → IsSummary (length affected) shown r.impact_analysis r.affected_resources
  unfolding analysed_if report
  triggered-IsSummary false c sorted r all_counted of_dropped e analysed' = absurd (
      ground (arith, analysed', ap (λ q. elim q [ ok x ↦ x.impact_analysis_skipped | _ ↦ true ]) e))
  triggered-IsSummary true c (kept, dropped) r all_counted of_dropped e analysed' =
      let (a, last, done) =
        both_ok (analysed env (length affected) shown comp (kept, dropped))
          (λ a. ok (report name c kept a.1 a.0 false)) e in
      let same : report name c kept a.1 a.0 false ≡ r = ground (arith, last) in
      subst
        (λ (q : CompositionDiff).
          IsSummary (length affected) shown q.impact_analysis q.affected_resources)
        same
        (analysed-IsSummary env (length affected) dropped shown comp kept a.0 a.1 all_counted
          of_dropped done)

  -- Wherever a composition is processed and its analysis is not skipped, the summary's total is the
  -- number of composites that use it; the counts of changed, unchanged and failed composites are
  -- those of the entries, and with the three counts of filtered ones add up to the total. The
  -- filtered ones have entries of their own exactly if they are to be shown.
  pub process-IsSummary :
      (r : CompositionDiff)
      → process_single_composition env new_comp affected shown ≡ ok r
      → r.impact_analysis_skipped ≡ false
      → IsSummary (length affected) shown r.impact_analysis r.affected_resources
  process-IsSummary r e analysed' =
      let (c, sorted, (compared, parted, last)) = processed_steps r e in
      let (in_turn, counted) =
        partition-Parted env.api env.at env.labels env.deletion_timestamp env.include_manual
          affected sorted.0 sorted.1 comp parted in
      let lengths =
        Parted-length env.api env.at env.labels env.deletion_timestamp env.include_manual _ _
          in_turn in
      triggered-IsSummary (triggers_analysis c.scope env.analyze_on) c sorted r counted
        (omega (arith, counted, lengths)) last analysed'
