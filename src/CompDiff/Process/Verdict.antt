-- ===== src/CompDiff/Process/Verdict.antt =====
-- Whether a composition changes anything, whatever paths are ignored for display.
use crossplane_diff.Prelude.{
  ◌≡◌, refl, sym, subst, ap, ◌∙◌, ◌⊎◌, inl, inr, Bool, true, false, not, ◌&&◌, Option, none, some,
  List, [], arith, length, is_some, Bool-cases, if◌then◌else◌,
}
use crossplane_diff.Text.{Text}
use crossplane_diff.Objects.{Fields}
use crossplane_diff.Objects.Api.{Api}
use crossplane_diff.Types.Key.{ResourceDiff, is_change}
use crossplane_diff.Result.{Result, ok, wrapping, both_ok}
use crossplane_diff.Compare.Generate.{Comparer, generate_diff, equal_diff}
use crossplane_diff.CompDiff.Scope.{
  ChangeScope, scope_none, AnalyzeOn, on_any_change, on_spec_change, unrecognized, on_always,
  is_none, triggers_analysis, CompositionComparison, changed, options, cleaned,
  original_composition, composition_change_scope, undisplayed, unmasked_comparison, displayed,
  compared, calculate_composition_diff,
}
use crossplane_diff.CompDiff.Classify.{Sorted}
use crossplane_diff.CompDiff.Classify.Partition.{wrapping_ok}
use crossplane_diff.CompDiff.Impact.{empty_summary}
use crossplane_diff.CompDiff.Process.{
  CompositionDiff, Environment, analysed, analysed_if, report, process_single_composition,
  any_changed, has_changes, comparison_of, partition,
}
use crossplane_diff.CompDiff.Process.Summed.{processed_steps}

module _ (api : Api) (lib : Comparer) (suffix : Text) (ignore_paths : List Text)
    (proposed : Fields) where
  -- The composition is a new one, or differs from the cluster's with every mask lifted.
  abbrev pub Differs : Option Fields → Type 0
  Differs none = Unit
  Differs (some o) =
      (d : ResourceDiff) × (generate_diff suffix api lib (some o) (some proposed) (options [] true)
        ≡ ok d)
      × (is_change d.diff_type ≡ true)

  changed_scope :
      (original : Option Fields)
      → Differs original
      → is_none (composition_change_scope api lib original proposed true) ≡ false
  unfolding composition_change_scope
  changed_scope none h = refl
  changed_scope (some o) h = ground arith

  undisplayed-changed :
      (original : Option Fields) (d : ResourceDiff)
      → Differs original
      → generate_diff suffix api lib original (some proposed) (options [] true) ≡ ok d
      → changed (undisplayed api lib suffix original proposed d) ≡ true
  unfolding undisplayed changed composition_change_scope
  undisplayed-changed none d h e = refl
  undisplayed-changed (some o) d (d', e', change) e =
      let same : d' ≡ d = ground (arith, e, e') in
      let change' : is_change d.diff_type ≡ true =
        subst (λ x. is_change x.diff_type ≡ true) same change in
      ground (arith, change')

  unmasked-changed :
      (original : Option Fields) (c : CompositionComparison)
      → Differs original
      → unmasked_comparison api lib suffix original proposed ≡ ok c
      → changed c ≡ true
  unfolding unmasked_comparison
  unmasked-changed original c h e =
      let (d, last, unmasked) =
        both_ok _ (λ d. ok (undisplayed api lib suffix original proposed d)) e in
      let same : undisplayed api lib suffix original proposed d ≡ c = ground (arith, last) in
      subst (λ x. changed x ≡ true) same
        (undisplayed-changed original d h (wrapping_ok _ _ unmasked))

  displayed-changed :
      (original : Option Fields) (d : ResourceDiff) (c : CompositionComparison)
      → Differs original
      → displayed api lib suffix original proposed d ≡ ok c
      → changed c ≡ true
  unfolding displayed changed
  displayed-changed original d c h e = elim (Bool-cases (is_change d.diff_type)) [
    | inl change ↦
        let shown : CompositionComparison = record {
          diff = some d;
          scope = composition_change_scope api lib original proposed true;
        } in
        let same : shown ≡ c = ground (arith, rw change at e) in
        subst (λ x. changed x ≡ true) same (ap not (changed_scope original h))
    | inr hidden ↦ unmasked-changed original c h (rw hidden at e)
  ]

  compared-changed :
      (original : Option Fields) (c : CompositionComparison)
      → Differs original
      → compared api lib suffix ignore_paths original proposed ≡ ok c
      → changed c ≡ true
  unfolding compared
  compared-changed original c h e =
      let (d, later, masked) = both_ok _ (displayed api lib suffix original proposed) e in
      displayed-changed original d c h later

  -- Two compositions that are equal give no change under any mask.
  generated-equal :
      (o : Fields) (m : Text) (paths : List Text) (verdict : Bool) (d : ResourceDiff)
      → lib.semantic_equal o proposed ≡ true
      → wrapping m (generate_diff suffix api lib (some o) (some proposed) (options paths verdict))
        ≡ ok d
      → is_change d.diff_type ≡ false
  unfolding generate_diff equal_diff
  generated-equal o m paths verdict d same e = sym (ap not_change (rw same at (wrapping_ok m _ e)))
    where
      not_change : Result ResourceDiff → Bool
      not_change (ok x) = is_change x.diff_type
      not_change _ = true

  unmasked-equal :
      (o : Fields) (c : CompositionComparison)
      → lib.semantic_equal o proposed ≡ true
      → unmasked_comparison api lib suffix (some o) proposed ≡ ok c
      → (c.scope ≡ scope_none) × (c.diff ≡ none)
  unfolding unmasked_comparison undisplayed composition_change_scope
  unmasked-equal o c same e =
      let (d, last, unmasked) =
        both_ok _ (λ d. ok (undisplayed api lib suffix (some o) proposed d)) e in
      let no_change = generated-equal o _ [] true d same unmasked in
      let is_it : undisplayed api lib suffix (some o) proposed d ≡ c = ground (arith, last) in
      subst (λ (x : CompositionComparison). (x.scope ≡ scope_none) × (x.diff ≡ none)) is_it
        (rw no_change refl, refl)

  compared-equal :
      (o : Fields) (c : CompositionComparison)
      → lib.semantic_equal o proposed ≡ true
      → compared api lib suffix ignore_paths (some o) proposed ≡ ok c
      → (c.scope ≡ scope_none) × (c.diff ≡ none)
  unfolding compared displayed
  compared-equal o c same e =
      let (d, later, masked) = both_ok _ (displayed api lib suffix (some o) proposed) e in
      let no_change = generated-equal o _ ignore_paths false d same masked in
      unmasked-equal o c same (rw no_change at later)

none-skips : (on : AnalyzeOn) → (on ≡ on_always) ⊎ (triggers_analysis scope_none on ≡ false)
unfolding triggers_analysis
none-skips on_always = inl refl
none-skips on_any_change = inr refl
none-skips on_spec_change = inr refl
none-skips (unrecognized t) = inr refl

-- A change is analysed unless only changes of the spec are to be.
change-analysed :
    (scope : ChangeScope) (on : AnalyzeOn)
    → is_none scope ≡ false
    → (on ≡ on_spec_change) ⊎ (triggers_analysis scope on ≡ true)
unfolding triggers_analysis
change-analysed scope on_spec_change h = inl refl
change-analysed scope on_always h = inr refl
change-analysed scope on_any_change h = inr (ap not h)
change-analysed scope (unrecognized t) h = inr (ap not h)

module _ {Expression Selector : Type 0} (env : Environment Expression Selector) (new_comp : Fields)
    (affected : List Fields) (shown : Bool) where
  abbrev comp : Fields
  comp = env.source.without_cluster_metadata new_comp

  abbrev name : Text
  name = env.api.get_name new_comp

  -- What the report says of the revision, whether the composites are analysed or not.
  abbrev Reported : Bool → CompositionComparison → Sorted → CompositionDiff → Type 0
  Reported on c sorted r =
      (r.revision_impact.creates_revision ≡ changed c)
      × (r.revision_impact.repointed_composites ≡ (if changed c then length sorted.0 else 0))
      × (r.impact_analysis_skipped ≡ not on)
      × (r.composition_diff ≡ c.diff)
      × (r.masked_changes_only ≡ (not (is_some c.diff) && changed c))

  reported :
      (on : Bool) (c : CompositionComparison) (sorted : Sorted) (r : CompositionDiff)
      → analysed_if env on name c (length affected) shown comp sorted ≡ ok r
      → Reported on c sorted r
  unfolding analysed_if report
  reported false c sorted r e =
      let same : report name c sorted.0 (empty_summary 0) [] true ≡ r = ground (arith, e) in
      subst (Reported false c sorted) same (refl, refl, refl, refl, refl)
  reported true c sorted r e =
      let (a, last, done) =
        both_ok (analysed env (length affected) shown comp sorted)
          (λ a. ok (report name c sorted.0 a.1 a.0 false)) e in
      let same : report name c sorted.0 a.1 a.0 false ≡ r = ground (arith, last) in
      subst (Reported true c sorted) same (refl, refl, refl, refl, refl)

  unanalysed :
      (c : CompositionComparison) (sorted : Sorted) (r : CompositionDiff)
      → analysed_if env false name c (length affected) shown comp sorted ≡ ok r
      → r.impact_analysis ≡ []
  unfolding analysed_if report
  unanalysed c sorted r e =
      let same : report name c sorted.0 (empty_summary 0) [] true ≡ r = ground (arith, e) in
      subst (λ (q : CompositionDiff). q.impact_analysis ≡ []) same refl

  compared_with :
      (original : Option Fields) (c : CompositionComparison)
      → original_composition env.source name ≡ ok original
      → comparison_of env new_comp ≡ ok c
      → compared env.api env.lib env.xr_synthesis_suffix env.ignore_paths
          (cleaned env.source original)
          comp
        ≡ ok c
  unfolding calculate_composition_diff
  compared_with original c found e = rw found at e

  -- A composition that is new, or that differs from the cluster's in anything but the cluster's
  -- metadata, creates a revision, and every composite that is kept counts as one that moves to it,
  -- whatever paths are ignored for display and whatever changes are to be analysed. Unless only
  -- changes of the spec are to be analysed, the composites are.
  pub process-changed :
      (original : Option Fields) (r : CompositionDiff)
      → original_composition env.source name ≡ ok original
      → Differs env.api env.lib env.xr_synthesis_suffix env.ignore_paths comp
          (cleaned env.source original)
      → process_single_composition env new_comp affected shown ≡ ok r
      → (r.revision_impact.creates_revision ≡ true)
        × ((sorted : Sorted) × (partition env affected comp ≡ ok sorted)
            × (r.revision_impact.repointed_composites ≡ length sorted.0))
        × ((env.analyze_on ≡ on_spec_change) ⊎ (r.impact_analysis_skipped ≡ false))
  unfolding changed
  process-changed original r found differs e =
      let (c, sorted, (compared', parted, last)) =
        processed_steps env new_comp affected shown r e in
      let change =
        compared-changed env.api env.lib env.xr_synthesis_suffix env.ignore_paths comp
          (cleaned env.source original) c differs (compared_with original c found compared') in
      let facts = reported (triggers_analysis c.scope env.analyze_on) c sorted r last in
      (
        facts.0 ∙ change,
        (sorted, parted, facts.1 ∙ rw change refl),
        elim (change-analysed c.scope env.analyze_on (ground (arith, change))) [
          | inl spec_only ↦ inl spec_only
          | inr on ↦ inr (facts.2 ∙ ap not on)
        ],
      )

  -- A composition that is the cluster's, but for the cluster's metadata, creates no revision, moves
  -- no composite and has no diff, shown or masked, whatever changes are to be analysed. Unless
  -- compositions are always analysed, no composite is rendered and the result has no changes.
  pub process-same :
      (original : Fields) (r : CompositionDiff)
      → original_composition env.source name ≡ ok (some original)
      → env.lib.semantic_equal (env.source.without_cluster_metadata original) comp ≡ true
      → process_single_composition env new_comp affected shown ≡ ok r
      → (r.revision_impact.creates_revision ≡ false)
        × (r.revision_impact.repointed_composites ≡ 0)
        × (r.composition_diff ≡ none)
        × (r.masked_changes_only ≡ false)
        × ((env.analyze_on ≡ on_always)
            ⊎ ((r.impact_analysis_skipped ≡ true) × (has_changes r ≡ false)))
  unfolding has_changes changed any_changed
  process-same original r found same e =
      let (c, sorted, (compared', parted, last)) =
        processed_steps env new_comp affected shown r e in
      let (unchanged, undisplayed') =
        compared-equal env.api env.lib env.xr_synthesis_suffix env.ignore_paths comp
          (env.source.without_cluster_metadata original) c same
          (compared_with (some original) c found compared') in
      let no_change : changed c ≡ false = ap (λ s. not (is_none s)) unchanged in
      let facts = reported (triggers_analysis c.scope env.analyze_on) c sorted r last in
      let no_diff : r.composition_diff ≡ none = facts.3 ∙ undisplayed' in
      (
        facts.0 ∙ no_change,
        facts.1 ∙ rw no_change refl,
        no_diff,
        facts.4 ∙ ground (arith, no_change),
        elim (none-skips env.analyze_on) [
          | inl always ↦ inl always
          | inr skips ↦
              let off : triggers_analysis c.scope env.analyze_on ≡ false = rw unchanged skips in
              let no_entries = unanalysed c sorted r (rw off at last) in
              inr (facts.2 ∙ ap not off, rw (no_diff, no_entries) refl)
        ],
      )
