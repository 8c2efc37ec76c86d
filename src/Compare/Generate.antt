-- ===== src/Compare/Generate.antt =====
-- GenerateDiffWithOptions and equalDiff of renderer/diff_formatter.go.
pub mod Total
use crossplane_diff.Prelude.{
  Bool, true, false, not, ◌&&◌, Option, none, some, List, [], ◌∷◌, ◌++◌, if◌then◌else◌,
}
use crossplane_diff.Text.{Text, codes, text_eq, is_empty}
use crossplane_diff.Types.Key.{
  DiffType, added, removed, modified, equal, LineDiff, ResourceViews, ResourceDiff,
}
use crossplane_diff.Types.Generated.{looks_like_generated_name, generated_display_name}
use crossplane_diff.Objects.{Fields}
use crossplane_diff.Objects.Api.{Api, Gvk}
use crossplane_diff.Errors.Tree.{GoError, leaf}
use crossplane_diff.Result.{Result, ok, err, panic, ◌>>=◌, wrapping}
use crossplane_diff.Formatter.Lines.{DiffOptions}
use crossplane_diff.Compare.Cleanup.{cleanup_for_diff}

-- equality.Semantic.DeepEqual, sigs.k8s.io/yaml's Marshal and the line diff that GetLineDiff makes
-- with diffmatchpatch.
pub record Comparer : Type 0 where
  pub semantic_equal : Fields → Fields → Bool
  pub marshal : Fields → Result Text
  pub line_diff : Text → Text → List LineDiff

abbrev pub is_nil {ℓ} : {A : Type ℓ} → List A → Bool
is_nil [] = true
is_nil (x ∷ xs) = false

module _ (xr_synthesis_suffix : Text) (api : Api) (lib : Comparer) where
  -- equalDiff: its current object is read through a pointer.
  unfoldable pub equal_diff : Option Fields → Option Fields → Result ResourceDiff
  equal_diff none desired = panic
  equal_diff (some current) desired = ok (record {
    gvk = api.group_version_kind current;
    namespace = api.get_namespace current;
    resource_name = api.get_name current;
    diff_type = equal;
    line_diffs = [];
    current = record { raw = some current; clean = none };
    desired = record { raw = desired; clean = none };
  })

  -- The namespace and the name of an added or modified resource.
  unfoldable pub diff_namespace : Option Fields → Fields → Text
  diff_namespace none desired = api.get_namespace desired
  diff_namespace (some current) desired =
      if not (is_empty (api.get_namespace current))
      then api.get_namespace current
      else api.get_namespace desired

  unfoldable pub rendered_name : Fields → Text
  rendered_name desired =
      let name = api.get_name desired in
      let generate_name = api.get_generate_name desired in
      if looks_like_generated_name xr_synthesis_suffix name generate_name
      then generated_display_name xr_synthesis_suffix name generate_name
      else if not (is_empty name)
      then name
      else if not (is_empty generate_name)
      then generate_name ++ codes "(generated)"
      else []

  unfoldable pub diff_name : Option Fields → Fields → Text
  unfolding rendered_name
  diff_name none desired = rendered_name desired
  diff_name (some current) desired =
      if not (is_empty (api.get_name current)) then api.get_name current else rendered_name desired

  -- asString
  unfoldable pub as_string : Option Fields → Result Text
  as_string none = ok []
  as_string (some clean) = lib.marshal clean

  unfoldable pub clean_of : DiffOptions → Option Fields → Option Fields
  clean_of o none = none
  clean_of o (some x) =
      some (cleanup_for_diff xr_synthesis_suffix api o.ignore_paths o.for_verdict x)

  -- The diff that is returned at the end.
  unfoldable pub described :
      DiffType → Option Fields → Option Fields → DiffOptions → List LineDiff → Result ResourceDiff
  described type current (some desired) o lines = ok (record {
    gvk = api.group_version_kind desired;
    namespace = diff_namespace current desired;
    resource_name = diff_name current desired;
    diff_type = type;
    line_diffs = lines;
    current = record { raw = current; clean = clean_of o current };
    desired = record { raw = some desired; clean = clean_of o (some desired) };
  })
  described type (some current) none o lines = ok (record {
    gvk = api.group_version_kind current;
    namespace = api.get_namespace current;
    resource_name = api.get_name current;
    diff_type = type;
    line_diffs = lines;
    current = record { raw = some current; clean = clean_of o (some current) };
    desired = record { raw = none; clean = none };
  })
  described type none none o lines = panic

  -- What follows the two texts.
  unfoldable pub from_texts :
      DiffType → Option Fields → Option Fields → DiffOptions → Text → Text → Result ResourceDiff
  from_texts type current desired o current_str desired_str =
      let lines = lib.line_diff current_str desired_str in
      if text_eq desired_str current_str
      then equal_diff current desired
      else if is_nil lines
      then equal_diff current desired
      else described type current desired o lines

  -- The comparison of the texts, from the cleaned objects on.
  unfoldable pub text_diff :
      DiffType → Option Fields → Option Fields → DiffOptions → Result ResourceDiff
  text_diff type current desired o = do
    current_str ←
        wrapping (codes "cannot marshal current object to YAML") (as_string (clean_of o current))
    desired_str ←
        wrapping (codes "cannot marshal desired object to YAML") (as_string (clean_of o desired))
    from_texts type current desired o current_str desired_str

  -- Are both cleaned objects there and equal?
  unfoldable pub cleaned_equal : DiffOptions → Fields → Fields → Bool
  cleaned_equal o current desired =
      lib.semantic_equal
        (cleanup_for_diff xr_synthesis_suffix api o.ignore_paths o.for_verdict current)
        (cleanup_for_diff xr_synthesis_suffix api o.ignore_paths o.for_verdict desired)

  -- GenerateDiffWithOptions
  unfoldable pub generate_diff : Option Fields → Option Fields → DiffOptions → Result ResourceDiff
  generate_diff none none o = err (leaf (codes "both current and desired cannot be nil"))
  generate_diff none (some desired) o = text_diff added none (some desired) o
  generate_diff (some current) none o = text_diff removed (some current) none o
  generate_diff (some current) (some desired) o =
      if lib.semantic_equal current desired
      then equal_diff (some current) (some desired)
      else if cleaned_equal o current desired
      then equal_diff (some current) (some desired)
      else text_diff modified (some current) (some desired) o
