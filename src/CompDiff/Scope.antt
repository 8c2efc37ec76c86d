-- ===== src/CompDiff/Scope.antt =====
-- How much of a composition differs from the cluster's: calculateCompositionDiff of
-- comp_processor.go, and the settings of processor_config.go.
use crossplane_diff.Prelude.{
  Bool, true, false, not, Option, none, some, List, [], ◌∷◌, if◌then◌else◌,
}
use crossplane_diff.Text.{Text, codes}
use crossplane_diff.Objects.{Fields, end}
use crossplane_diff.Objects.Api.{Api}
use crossplane_diff.Types.Key.{ResourceDiff, is_change}
use crossplane_diff.Result.{Result, ok, err, panic, ◌>>=◌, wrapping}
use crossplane_diff.Formatter.Lines.{DiffOptions, default_diff_options}
use crossplane_diff.Compare.Generate.{Comparer, generate_diff}
use crossplane_diff.Selection.State.{Composition}

-- ChangeScope, its three constants, and the text of each.
pub data ChangeScope : Type 0 where
  scope_none scope_metadata scope_spec : ChangeScope

unfoldable pub scope_text : ChangeScope → Text
scope_text scope_none = codes "none"
scope_text scope_metadata = codes "metadata"
scope_text scope_spec = codes "spec"

-- AnalyzeOn: its three constants and every other string, "" included.
pub data AnalyzeOn : Type 0 where
  on_spec_change on_any_change on_always : AnalyzeOn
  unrecognized : Text → AnalyzeOn

abbrev pub is_none : ChangeScope → Bool
is_none scope_none = true
is_none _ = false

abbrev pub is_spec : ChangeScope → Bool
is_spec scope_spec = true
is_spec _ = false

-- triggersAnalysis
unfoldable pub triggers_analysis : ChangeScope → AnalyzeOn → Bool
triggers_analysis scope on_always = true
triggers_analysis scope on_spec_change = is_spec scope
triggers_analysis scope on_any_change = not (is_none scope)
triggers_analysis scope (unrecognized on) = not (is_none scope)

-- compositionComparison
pub record CompositionComparison : Type 0 where
  pub diff : Option ResourceDiff
  pub scope : ChangeScope

-- changed
unfoldable pub changed : CompositionComparison → Bool
changed c = not (is_none c.scope)

-- GetComposition of the composition client, the conversion of what it returns, and the setters
-- that cleanupClusterMetadata calls, in this order, on an object.
pub record CompositionSource : Type 0 where
  pub get_composition : Text → Result Composition
  pub to_unstructured : Composition → Result Fields
  pub without_cluster_metadata : Fields → Fields

abbrev spec_or_nil : Option Fields → Fields
spec_or_nil none = end
spec_or_nil (some spec) = spec

-- The options of the two comparisons; colours and compactness do not reach them.
abbrev pub options : List Text → Bool → DiffOptions
options ignore_paths for_verdict = record {
  use_colors = default_diff_options.use_colors;
  add_prefix = default_diff_options.add_prefix;
  delete_prefix = default_diff_options.delete_prefix;
  context_prefix = default_diff_options.context_prefix;
  context_lines = default_diff_options.context_lines;
  chunk_separator = default_diff_options.chunk_separator;
  compact = default_diff_options.compact;
  ignore_paths = ignore_paths;
  for_verdict = for_verdict;
}

-- The composition that the cluster has; a composition that cannot be read is a new one.
unfoldable pub original_composition : CompositionSource → Text → Result (Option Fields)
original_composition source name = elim (source.get_composition name) [
  | ok comp ↦
      wrapping (codes "cannot convert original composition to unstructured")
        (source.to_unstructured comp)
      >>= (λ o. ok (some o))
  | err e ↦ ok none
  | panic ↦ panic
]

abbrev pub cleaned : CompositionSource → Option Fields → Option Fields
cleaned source none = none
cleaned source (some o) = some (source.without_cluster_metadata o)

module _ (api : Api) (lib : Comparer) where
  -- compositionChangeScope; a nil map and an empty one are equal.
  unfoldable pub composition_change_scope : Option Fields → Fields → Bool → ChangeScope
  composition_change_scope none proposed any_change = scope_spec
  composition_change_scope (some original) proposed any_change =
      if not any_change
      then scope_none
      else if lib.semantic_equal (spec_or_nil (api.nested_map original (codes "spec" ∷ [])))
          (spec_or_nil (api.nested_map proposed (codes "spec" ∷ [])))
      then scope_metadata
      else scope_spec

  module _ (xr_synthesis_suffix : Text) where
    -- What the comparison with every mask lifted says, where nothing is displayed.
    unfoldable pub undisplayed : Option Fields → Fields → ResourceDiff → CompositionComparison
    undisplayed original proposed unmasked = record {
      diff = none;
      scope = composition_change_scope original proposed (is_change unmasked.diff_type);
    }

    unfoldable pub unmasked_comparison : Option Fields → Fields → Result CompositionComparison
    unmasked_comparison original proposed =
        wrapping (codes "cannot calculate composition diff with masks lifted")
          (generate_diff xr_synthesis_suffix api lib original (some proposed) (options [] true))
        >>= (λ unmasked. ok (undisplayed original proposed unmasked))

    unfoldable pub displayed : Option Fields → Fields → ResourceDiff → Result CompositionComparison
    displayed original proposed d =
        let unmasked = unmasked_comparison original proposed in
        if is_change d.diff_type
        then ok (record { diff = some d; scope = composition_change_scope original proposed true })
        else unmasked

    unfoldable pub compared : List Text → Option Fields → Fields → Result CompositionComparison
    compared ignore_paths original proposed =
        wrapping (codes "cannot calculate composition diff") (
          generate_diff xr_synthesis_suffix api lib original (some proposed)
            (options ignore_paths false))
        >>= (λ comp_diff. displayed original proposed comp_diff)

    -- calculateCompositionDiff. What it leaves in its argument is the composition without the
    -- cluster's metadata.
    unfoldable pub calculate_composition_diff :
        CompositionSource → List Text → Fields → Result CompositionComparison
    calculate_composition_diff source ignore_paths new_comp =
        original_composition source (api.get_name new_comp) >>= (λ original.
          compared ignore_paths (cleaned source original)
            (source.without_cluster_metadata new_comp))
