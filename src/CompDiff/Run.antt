-- ===== src/CompDiff/Run.antt =====
-- All compositions: preflightResourceRefs and DiffComposition of comp_processor.go.
pub mod Reported
use crossplane_diff.Prelude.{
  ℕ, suc, Bool, true, false, not, ◌&&◌, ◌||◌, Option, none, some, List, [], ◌∷◌, ◌++◌, map, keep,
  length, ◌==◌, ltb, if◌then◌else◌,
}
use crossplane_diff.Text.{Text, codes, text_eq, join_with}
use crossplane_diff.GoMap.{GoMap, lookup, has_key, insert}
use crossplane_diff.Objects.{Fields}
use crossplane_diff.Objects.Api.{Api}
use crossplane_diff.Errors.Tree.{GoError, leaf, wrap}
use crossplane_diff.Errors.Failures.{new_output_error}
use crossplane_diff.Types.Output.{OutputError}
use crossplane_diff.Result.{Result, ok, err, panic, ◌>>=◌, wrapping}
use crossplane_diff.Ref.{NamespacedName, format}
use crossplane_diff.Selection.Discover.{FindCompositesOptions}
use crossplane_diff.CompDiff.Impact.{XrImpact, status_error, empty_summary}
use crossplane_diff.CompDiff.Process.{
  CompositionDiff, RevisionImpact, Environment, has_changes, process_single_composition,
}

-- NamespacedName.String
unfoldable pub ref_string : NamespacedName → Text
ref_string n = n.namespace ++ (b'/' ∷ n.name)

abbrev pub composition_kind : Text
composition_kind = codes "Composition"

module _ (api : Api) where
  -- Does a composite have the name and the namespace of a ref?
  unfoldable pub is_named : NamespacedName → Fields → Bool
  is_named n m = text_eq (api.get_name m) n.name && text_eq (api.get_namespace m) n.namespace

  -- The two loops that mark the refs that were matched.
  unfoldable pub mark_one : List NamespacedName → Fields → GoMap Bool → GoMap Bool
  mark_one [] m marks = marks
  mark_one (n ∷ ns) m marks =
      mark_one ns m (if is_named n m then insert (ref_string n) true marks else marks)

  unfoldable pub mark_all : List NamespacedName → List Fields → GoMap Bool → GoMap Bool
  mark_all refs [] marks = marks
  mark_all refs (m ∷ ms) marks = mark_all refs ms (mark_one refs m marks)

  module _ (find_composites : Fields → FindCompositesOptions → Result (List Fields)) where
    abbrev pub Matches : Type 0
    Matches = GoMap (List Fields) × GoMap Bool

    -- The loop over the compositions.
    unfoldable pub match_from : List NamespacedName → List Fields → Matches → Result Matches
    match_from refs [] found = ok found
    match_from refs (comp ∷ comps) (per_comp, marks) =
        (if text_eq (api.get_kind comp) composition_kind
          then wrapping
              (codes "preflight: cannot resolve --resource refs for composition "
                ++ api.get_name comp)
              (find_composites comp (record { refs = refs; namespace = [] }))
            >>= (λ ms. ok (insert (api.get_name comp) ms per_comp, mark_all refs ms marks))
          else ok (per_comp, marks))
        >>= (λ found. match_from refs comps found)

    abbrev pub unmatched : List NamespacedName → GoMap Bool → List NamespacedName
    unmatched refs marks = keep (λ n. not (has_key (ref_string n) marks)) refs

    unfoldable pub all_matched : List NamespacedName → Matches → Result (GoMap (List Fields))
    all_matched refs (per_comp, marks) = elim (unmatched refs marks) [
      | [] ↦ ok per_comp
      | n ∷ ns ↦ err (
          leaf (
            codes "--resource ref(s) not relevant to any supplied composition: ["
            ++ (join_with (codes " ") (map format (n ∷ ns))
                ++ codes
                    "] (resource not found, or it doesn't reference one of the supplied compositions)")))
    ]

    -- preflightResourceRefs
    unfoldable pub preflight_resource_refs :
        List Fields → List NamespacedName → Result (GoMap (List Fields))
    preflight_resource_refs comps [] = ok []
    preflight_resource_refs comps (n ∷ ns) =
        match_from (n ∷ ns) comps ([], []) >>= (λ found. all_matched (n ∷ ns) found)

-- The entry of a composition that failed.
abbrev pub failed_composition : Text → GoError → CompositionDiff
failed_composition name e = record {
  name = name;
  error = some e;
  composition_diff = none;
  affected_resources = empty_summary 0;
  impact_analysis = [];
  impact_analysis_skipped = false;
  masked_changes_only = false;
  revision_impact = record {
    change_scope = [];
    creates_revision = false;
    repointed_composites = 0;
  };
}

-- The variables output.Compositions, compositionErrors and hasDiffs.
pub record RunProgress : Type 0 where
  pub compositions : List CompositionDiff
  pub composition_errors : ℕ
  pub has_diffs : Bool

abbrev nothing_yet : RunProgress
nothing_yet = record { compositions = []; composition_errors = 0; has_diffs = false }

-- What is kept of one composition.
unfoldable pub recorded : Text → Result CompositionDiff → RunProgress → Result RunProgress
recorded name (ok c) p = ok (record {
  compositions = p.compositions ++ (c ∷ []);
  composition_errors = p.composition_errors;
  has_diffs = p.has_diffs || has_changes c;
})
recorded name (err e) p = ok (record {
  compositions = p.compositions ++ (failed_composition name e ∷ []);
  composition_errors = suc p.composition_errors;
  has_diffs = p.has_diffs;
})
recorded name panic p = panic

abbrev impact_error : XrImpact → Option GoError → List OutputError
impact_error i none = []
impact_error i (some e) = elim i.status [
  | status_error ↦ new_output_error (i.xr.kind ++ (b'/' ∷ i.xr.name)) e ∷ []
  | _ ↦ []
]

-- The loops that collect the errors of the composites.
unfoldable pub impact_errors : List XrImpact → List OutputError
impact_errors [] = []
impact_errors (i ∷ is) = impact_error i i.error ++ impact_errors is

unfoldable pub output_errors : List CompositionDiff → List OutputError
output_errors [] = []
output_errors (c ∷ cs) = impact_errors c.impact_analysis ++ output_errors cs

module _ {Expression Selector : Type 0} (env : Environment Expression Selector)
    (find_composites : Fields → FindCompositesOptions → Result (List Fields))
    (render_comp_diff : List CompositionDiff → List OutputError → Option GoError)
    (decimal : ℕ → Text) where
  abbrev or_no_composites : Option (List Fields) → List Fields
  or_no_composites none = []
  or_no_composites (some xrs) = xrs

  abbrev best_effort : Result (List Fields) → Result (List Fields)
  best_effort (ok xrs) = ok xrs
  best_effort (err e) = ok []
  best_effort panic = panic

  -- The composites of a composition, and whether the filtered ones are shown.
  unfoldable pub affected_xrs :
      List NamespacedName → Text → GoMap (List Fields) → Fields → Result (List Fields × Bool)
  affected_xrs [] namespace matches comp =
      best_effort (find_composites comp (record { refs = []; namespace = namespace }))
      >>= (λ xrs. ok (xrs, false))
  affected_xrs (n ∷ ns) namespace matches comp =
      ok (or_no_composites (lookup (env.api.get_name comp) matches), true)

  -- One round of the loop.
  unfoldable pub processed :
      List NamespacedName → Text → GoMap (List Fields) → Fields → Result CompositionDiff
  processed refs namespace matches comp =
      affected_xrs refs namespace matches comp
      >>= (λ affected. process_single_composition env comp affected.0 affected.1)

  unfoldable pub run_from :
      List NamespacedName
      → Text
      → GoMap (List Fields)
      → List Fields
      → RunProgress
      → Result RunProgress
  run_from refs namespace matches [] p = ok p
  run_from refs namespace matches (comp ∷ comps) p =
      (if text_eq (env.api.get_kind comp) composition_kind
        then recorded (env.api.get_name comp) (processed refs namespace matches comp) p
        else ok p)
      >>= (λ p'. run_from refs namespace matches comps p')

  -- The error after the rendering, by the rendering's error and the numbers of composites that
  -- failed, of compositions that failed and of compositions.
  unfoldable pub verdict : Option GoError → ℕ → ℕ → ℕ → Option GoError
  verdict (some e) xr_errors failed total =
      some (wrap (codes "failed to render composition diff") e)
  verdict none xr_errors failed total =
      if ltb 0 xr_errors
      then some
          (leaf (codes "impact analysis failed for " ++ (decimal xr_errors ++ codes " XR(s)")))
      else if ltb 0 failed && (failed == total)
      then some (leaf (codes "failed to process all compositions"))
      else none

  unfoldable pub final_error : RunProgress → Option GoError
  final_error p =
      let errors = output_errors p.compositions in
      verdict (render_comp_diff p.compositions errors) (length errors) p.composition_errors
        (length p.compositions)

  -- DiffComposition: whether there are diffs, and the error. The warnings that it attaches reach
  -- only the rendering.
  unfoldable pub diff_composition :
      List Fields → Text → List NamespacedName → Result (Bool × Option GoError)
  diff_composition [] namespace refs = ok (false, some (leaf (codes "no compositions provided")))
  diff_composition (comp ∷ comps) namespace refs =
      elim (preflight_resource_refs env.api find_composites (comp ∷ comps) refs) [
        | err e ↦ ok (false, some e)
        | panic ↦ panic
        | ok matches ↦
            run_from refs namespace matches (comp ∷ comps) nothing_yet
            >>= (λ p. ok (p.has_diffs, final_error p))
      ]
