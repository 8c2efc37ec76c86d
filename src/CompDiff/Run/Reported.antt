-- ===== src/CompDiff/Run/Reported.antt =====
-- What DiffComposition reports of the compositions.
use crossplane_diff.Prelude.{
  ℕ, ◌+◌, ◌≡◌, ◌≢◌, refl, sym, subst, ap, ◌∙◌, ◌⊎◌, ◌↔◌, inl, inr, Bool, false, ◌||◌, Option, none,
  some, List, [], ◌∷◌, ◌++◌, map, keep, keep_in, keep_out, any, All, append_assoc, append-nil,
  arith, length, Bool-cases,
}
use crossplane_diff.Text.{Text, text_eq}
use crossplane_diff.GoMap.{GoMap}
use crossplane_diff.Objects.{Fields}
use crossplane_diff.Errors.Tree.{GoError, leaf}
use crossplane_diff.Types.Output.{OutputError}
use crossplane_diff.Result.{Result, ok, err, panic, step_ok}
use crossplane_diff.Ref.{NamespacedName}
use crossplane_diff.Calculator.Single.Returned.{IsReturned}
use crossplane_diff.Selection.Discover.{FindCompositesOptions}
use crossplane_diff.CompDiff.Process.{CompositionDiff, Environment, has_changes}
use crossplane_diff.CompDiff.Run.{
  RunProgress, nothing_yet, recorded, failed_composition, composition_kind, output_errors,
  processed, preflight_resource_refs, run_from, verdict, final_error, diff_composition,
}

-- The entry of a composition by its outcome, whether the outcome has changes, and whether it is a
-- failure.
unfoldable pub entry_of : Text → Result CompositionDiff → CompositionDiff
entry_of name (ok c) = c
entry_of name (err e) = failed_composition name e
entry_of name panic = failed_composition name (leaf [])

unfoldable pub shows_change : Result CompositionDiff → Bool
shows_change (ok c) = has_changes c
shows_change _ = false

unfoldable pub one_failure : Result CompositionDiff → ℕ
one_failure (err e) = 1
one_failure _ = 0

-- One step: the outcome is added to what there is.
recorded_lem :
    (name : Text) (outcome : Result CompositionDiff) (p : RunProgress)
    → IsReturned outcome
    → recorded name outcome p
      ≡ ok (record {
        compositions = p.compositions ++ (entry_of name outcome ∷ []);
        composition_errors = one_failure outcome + p.composition_errors;
        has_diffs = p.has_diffs || shows_change outcome;
      })
unfolding recorded entry_of shows_change one_failure
recorded_lem name (ok c) p h = ground arith
recorded_lem name (err e) p h = ground arith
recorded_lem name panic p h = absurd h

same_progress :
    {cs cs' : List CompositionDiff} {n n' : ℕ} {b b' : Bool}
    → cs ≡ cs'
    → n ≡ n'
    → b ≡ b'
    → ◌≡◌ {A = RunProgress}
        (record { compositions = cs; composition_errors = n; has_diffs = b })
        (record { compositions = cs'; composition_errors = n'; has_diffs = b' })
same_progress e f g = λ i. record { compositions = e i; composition_errors = f i; has_diffs = g i }

module _ {Expression Selector : Type 0} (env : Environment Expression Selector)
    (find_composites : Fields → FindCompositesOptions → Result (List Fields))
    (render_comp_diff : List CompositionDiff → List OutputError → Option GoError)
    (decimal : ℕ → Text) (refs : List NamespacedName) (namespace : Text)
    (matches : GoMap (List Fields)) where
  abbrev pub is_composition : Fields → Bool
  is_composition comp = text_eq (env.api.get_kind comp) composition_kind

  abbrev pub outcome : Fields → Result CompositionDiff
  outcome comp = processed env find_composites render_comp_diff decimal refs namespace matches comp

  abbrev pub entry : Fields → CompositionDiff
  entry comp = entry_of (env.api.get_name comp) (outcome comp)

  -- How many of the compositions fail.
  unfoldable pub failures : List Fields → ℕ
  failures [] = 0
  failures (comp ∷ comps) = one_failure (outcome comp) + failures comps

  -- What the loop has after these compositions.
  abbrev done : List Fields → RunProgress → RunProgress
  done comps p = record {
    compositions = p.compositions ++ map entry comps;
    composition_errors = failures comps + p.composition_errors;
    has_diffs = p.has_diffs || any (λ comp. shows_change (outcome comp)) comps;
  }

  abbrev run : List Fields → RunProgress → Result RunProgress
  run comps p = run_from env find_composites render_comp_diff decimal refs namespace matches comps p

  abbrev added : Fields → RunProgress → RunProgress
  added comp p = record {
    compositions = p.compositions ++ (entry comp ∷ []);
    composition_errors = one_failure (outcome comp) + p.composition_errors;
    has_diffs = p.has_diffs || shows_change (outcome comp);
  }

  abbrev pub Returns : Fields → Type 0
  Returns comp = IsReturned (outcome comp)

  done-added :
      (comp : Fields) (comps : List Fields) (p : RunProgress)
      → done comps (added comp p) ≡ done (comp ∷ comps) p
  unfolding failures
  done-added comp comps p =
      same_progress (append_assoc p.compositions (entry comp ∷ []) (map entry comps)) (omega arith)
        (ground arith)

  run-done :
      (comps : List Fields) (p : RunProgress)
      → All Returns (keep is_composition comps)
      → run comps p ≡ ok (done (keep is_composition comps) p)
  unfolding run_from failures
  run-done [] p h =
      ap ok (same_progress (sym (append-nil p.compositions)) (omega arith) (ground arith))
  run-done (comp ∷ comps) p h = elim (Bool-cases (is_composition comp)) [
    | inl is_one ↦
        let returns : All Returns (comp ∷ keep is_composition comps) =
          subst (All Returns) (keep_in is_composition comp comps is_one) h in
        step_ok _ (λ p'. run comps p')
          (rw is_one (recorded_lem (env.api.get_name comp) (outcome comp) p returns.0))
          (run-done comps (added comp p) returns.1
            ∙ ap ok (done-added comp (keep is_composition comps) p)
            ∙ ap (λ l. ok (done l p)) (sym (keep_in is_composition comp comps is_one)))
    | inr other ↦
        step_ok _ (λ p'. run comps p') (rw other refl)
          (run-done comps p (subst (All Returns) (keep_out is_composition comp comps other) h)
            ∙ ap (λ l. ok (done l p)) (sym (keep_out is_composition comp comps other)))
  ]

  abbrev final : RunProgress → Option GoError
  final p = final_error env find_composites render_comp_diff decimal p

  -- There is no error exactly if the rendering had none, no composite failed, and not every
  -- composition failed.
  abbrev pub Fine : RunProgress → Type 0
  Fine p =
      (render_comp_diff p.compositions (output_errors p.compositions) ≡ none)
      × (output_errors p.compositions ≡ [])
      × ((p.composition_errors ≡ 0) ⊎ (p.composition_errors ≢ length p.compositions))

  verdict_lem :
      (rendered : Option GoError) (errors : List OutputError) (failed total : ℕ)
      → (verdict env find_composites render_comp_diff decimal rendered (length errors) failed total
          ≡ none)
        ↔ ((rendered ≡ none) × (errors ≡ []) × ((failed ≡ 0) ⊎ (failed ≢ total)))
  unfolding verdict
  verdict_lem (some e) errors failed total = ground arith
  verdict_lem none [] failed total = ground arith
  verdict_lem none (e ∷ es) failed total = ground arith

  final-Fine : (p : RunProgress) → (final p ≡ none) ↔ Fine p
  unfolding final_error
  final-Fine p =
      verdict_lem _ (output_errors p.compositions) p.composition_errors (length p.compositions)

  -- Where the named composites were all found and no composition dereferences a nil pointer,
  -- DiffComposition has one entry for each object of kind Composition, in order: its result, or its
  -- error; objects of other kinds are skipped. It reports diffs exactly if a result has changes, and
  -- no error exactly if the rendering had none, no composite failed, and not every composition did.
  pub diff_composition-report :
      (comp : Fields) (comps : List Fields)
      → preflight_resource_refs env.api find_composites (comp ∷ comps) refs ≡ ok matches
      → All Returns (keep is_composition (comp ∷ comps))
      → (p : RunProgress) × (error : Option GoError) × (diff_composition env find_composites
            render_comp_diff decimal
            (comp ∷ comps)
            namespace
            refs
          ≡ ok (p.has_diffs, error))
        × (p.compositions ≡ map entry (keep is_composition (comp ∷ comps)))
        × (p.composition_errors ≡ failures (keep is_composition (comp ∷ comps)))
        × (p.has_diffs ≡ any (λ c. shows_change (outcome c)) (keep is_composition (comp ∷ comps)))
        × ((error ≡ none) ↔ Fine p)
  unfolding diff_composition
  diff_composition-report comp comps found returns =
      let p = done (keep is_composition (comp ∷ comps)) nothing_yet in
      (
        p,
        final p,
        rw (found, diff_composition)
            (step_ok _ (λ q. ok (q.has_diffs, final q))
              (run-done (comp ∷ comps) nothing_yet returns) refl),
        refl,
        omega arith,
        refl,
        final-Fine p,
      )
