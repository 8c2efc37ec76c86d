-- ===== src/CompDiff/Impact/Own.antt =====
-- Each composite is rendered with the composition and reported by its own outcome.
use crossplane_diff.Prelude.{
  ◌≡◌, refl, subst, ◌∙◌, Bool, true, false, none, some, List, [], ◌∷◌, ◌++◌, arith, All, Bool-cases,
  inl, inr, if◌then◌else◌,
}
use crossplane_diff.Text.{Text, codes, text_eq, text_eq_self}
use crossplane_diff.GoMap.{GoMap, lookup, has_key, insert, lookup-insert, has_key-insert}
use crossplane_diff.Objects.{Fields}
use crossplane_diff.Objects.Api.{Api}
use crossplane_diff.Errors.Tree.{wrap}
use crossplane_diff.Types.Key.{ResourceDiff, make_diff_key_from_resource}
use crossplane_diff.Result.{Result, ok, err, panic, both_ok}
use crossplane_diff.Processor.Perform.{reference, any_change}
use crossplane_diff.Selection.State.{Composition}
use crossplane_diff.CompDiff.Impact.{
  status_changed, status_unchanged, status_error, XrDiffResult, XrImpact, AffectedResourcesSummary,
  status_of, impact_of, has_error, has_changes, build_from, build_impact_analysis, root_keys,
  composition_provider, result_of, collect_from, collect_xr_diffs,
}

module _ (api : Api) (find_matching_composition : Fields → Result Composition)
    (diff_single_resource : (Fields → Result Composition) → Fields → Result (GoMap ResourceDiff))
    (to_composition : Fields → Result Composition) where
  abbrev key_of : Fields → Text
  key_of xr = make_diff_key_from_resource api xr

  -- No two composites have the same diff key.
  abbrev pub Distinct : List Fields → Type 0
  Distinct [] = Unit
  Distinct (xr ∷ xrs) = All (λ y. text_eq (key_of y) (key_of xr) ≡ false) xrs × Distinct xrs

  -- The entry of a composite with an outcome of DiffSingleResource.
  abbrev pub Own : Fields → Result (GoMap ResourceDiff) → XrImpact → Type 0
  Own xr (ok diffs) i =
      (i.xr ≡ reference api xr)
      × (i.error ≡ none)
      × (i.status ≡ (if any_change diffs then status_changed else status_unchanged))
      × (i.diffs ≡ (if any_change diffs then some diffs else none))
  Own xr (err e) i =
      (i.xr ≡ reference api xr)
      × (i.error ≡ some (wrap (codes "unable to process resource " ++ key_of xr) e))
      × (i.status ≡ status_error)
      × (i.diffs ≡ none)
  Own xr panic i = ⊥

  -- One entry for each composite, in order, each by its own outcome.
  abbrev pub OwnImpacts : (Fields → Result Composition) → List Fields → List XrImpact → Type 0
  OwnImpacts provider [] [] = Unit
  OwnImpacts provider (xr ∷ xrs) (i ∷ is) =
      Own xr (diff_single_resource provider xr) i × OwnImpacts provider xrs is
  OwnImpacts provider [] (i ∷ is) = ⊥
  OwnImpacts provider (xr ∷ xrs) [] = ⊥

  abbrev one_result : Fields → Result (GoMap ResourceDiff) → Result XrDiffResult
  one_result xr r =
      result_of api find_matching_composition diff_single_resource to_composition (key_of xr) r

  impact_of-Own :
      (xr : Fields) (outcome : Result (GoMap ResourceDiff)) (r : XrDiffResult)
      → one_result xr outcome ≡ ok r
      → Own xr outcome (impact_of (reference api xr) (some r))
  unfolding result_of impact_of status_of has_error has_changes
  impact_of-Own xr panic r e = absurd (ground (arith, e))
  impact_of-Own xr (err f) r e =
      let failed : XrDiffResult = record {
        diffs = [];
        error = some (wrap (codes "unable to process resource " ++ key_of xr) f);
      } in
      let same : failed ≡ r = ground (arith, e) in
      subst (λ x. Own xr (err f) (impact_of (reference api xr) (some x))) same
        (refl, refl, refl, refl)
  impact_of-Own xr (ok diffs) r e =
      let fine : XrDiffResult = record { diffs = diffs; error = none } in
      let same : fine ≡ r = ground (arith, e) in
      subst (λ x. Own xr (ok diffs) (impact_of (reference api xr) (some x))) same
        (elim (Bool-cases (any_change diffs)) [
          | inl change ↦ rw change (refl, refl, refl, refl)
          | inr nothing ↦ rw nothing (refl, refl, refl, refl)
        ])

  module _ (provider : Fields → Result Composition) where
    abbrev collect_with : List Fields → GoMap XrDiffResult → Result (GoMap XrDiffResult)
    collect_with xrs results =
        collect_from api find_matching_composition diff_single_resource to_composition provider xrs
          results

    -- A key that no composite has keeps its result.
    collect_with-other :
        (k : Text) (xrs : List Fields) (results final : GoMap XrDiffResult)
        → All (λ y. text_eq (key_of y) k ≡ false) xrs
        → collect_with xrs results ≡ ok final
        → lookup k final ≡ lookup k results
    unfolding collect_from
    collect_with-other k [] results final h e = ground (arith, e)
    collect_with-other k (xr ∷ xrs) results final h e =
        let (r, later, done) =
          both_ok (one_result xr (diff_single_resource provider xr))
            (λ r. collect_with xrs (insert (key_of xr) r results)) e in
        collect_with-other k xrs (insert (key_of xr) r results) final h.1 later
        ∙ rw (lookup-insert (key_of xr) k r results, h.0) refl

    collect_with-OwnImpacts :
        (xrs : List Fields) (results final : GoMap XrDiffResult) (s : AffectedResourcesSummary)
        → Distinct xrs
        → collect_with xrs results ≡ ok final
        → OwnImpacts provider xrs (build_from api xrs final s).0
    unfolding collect_from build_from
    collect_with-OwnImpacts [] results final s h e = tt
    collect_with-OwnImpacts (xr ∷ xrs) results final s h e =
        let (r, later, done) =
          both_ok (one_result xr (diff_single_resource provider xr))
            (λ r. collect_with xrs (insert (key_of xr) r results)) e in
        let kept : lookup (key_of xr) final ≡ some r =
          collect_with-other (key_of xr) xrs (insert (key_of xr) r results) final h.0 later
          ∙ rw (lookup-insert (key_of xr) (key_of xr) r results, text_eq_self (key_of xr)) refl in
        (
          rw kept (impact_of-Own xr (diff_single_resource provider xr) r done),
          collect_with-OwnImpacts xrs (insert (key_of xr) r results) final _ h.1 later,
        )

  -- The keys that are collected are those of the composites.
  has_key-root_keys :
      (k : Text) (xrs : List Fields) (keys : GoMap Bool)
      → has_key k keys ≡ true
      → has_key k (root_keys api xrs keys) ≡ true
  unfolding root_keys
  has_key-root_keys k [] keys h = h
  has_key-root_keys k (xr ∷ xrs) keys h =
      has_key-root_keys k xrs (insert (key_of xr) true keys)
        (ground (arith, has_key-insert (key_of xr) k true keys, h))

  roots_given :
      (comp : Composition) (xrs : List Fields) (keys : GoMap Bool)
      → All (λ xr. has_key (key_of xr) (root_keys api xrs keys) ≡ true) xrs
  unfolding root_keys
  roots_given comp [] keys = tt
  roots_given comp (xr ∷ xrs) keys = (
    has_key-root_keys (key_of xr) xrs (insert (key_of xr) true keys) (
        ground (arith, has_key-insert (key_of xr) (key_of xr) true keys, text_eq_self (key_of xr))),
    roots_given comp xrs (insert (key_of xr) true keys),
  )

  given-cli :
      (cli : Composition) (roots : GoMap Bool) (xrs : List Fields)
      → All (λ xr. has_key (key_of xr) roots ≡ true) xrs
      → All (λ xr. composition_provider api find_matching_composition cli roots xr ≡ ok cli) xrs
  unfolding composition_provider
  given-cli cli roots [] h = tt
  given-cli cli roots (xr ∷ xrs) h = (ground (arith, h.0), given-cli cli roots xrs h.1)

  -- Where the composition can be converted and no two composites have the same diff key, every
  -- composite is handled with a provider that gives it the composition from the command line, and
  -- has one entry, in order, that shows its own outcome: its error, or its diffs where one of them
  -- is a change.
  pub collect_xr_diffs-OwnImpacts :
      (xrs : List Fields) (new_comp : Fields) (cli : Composition) (results : GoMap XrDiffResult)
      → to_composition new_comp ≡ ok cli
      → Distinct xrs
      → collect_xr_diffs api find_matching_composition diff_single_resource to_composition xrs
          new_comp
        ≡ ok results
      → (provider : Fields → Result Composition) × All (λ xr. provider xr ≡ ok cli) xrs
        × OwnImpacts provider xrs (build_impact_analysis api xrs results).0
  unfolding collect_xr_diffs build_impact_analysis
  collect_xr_diffs-OwnImpacts xrs new_comp cli results converted distinct e =
      let provider =
        composition_provider api find_matching_composition cli (root_keys api xrs []) in
      (
        provider,
        given-cli cli (root_keys api xrs []) xrs (roots_given cli xrs []),
        collect_with-OwnImpacts provider xrs [] results _ distinct
            (rw (converted, collect_xr_diffs) at e),
      )
