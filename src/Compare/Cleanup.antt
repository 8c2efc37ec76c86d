-- ===== src/Compare/Cleanup.antt =====
-- cleanupForDiff of renderer/diff_formatter.go. Its log messages, and the list of modifications
-- that only they read, are left out.
pub mod Cleaned
pub mod Content
use mathlib.Core.List.{foldl}
use crossplane_diff.Prelude.{
  Bool, true, false, ◌&&◌, Option, none, some, List, [], ◌∷◌, if◌then◌else◌,
}
use crossplane_diff.Text.{Text, codes}
use crossplane_diff.Types.Generated.{looks_like_generated_name}
use crossplane_diff.Objects.{Fields, remove, is_empty_map}
use crossplane_diff.Objects.Api.{Api}
use crossplane_diff.Compare.Paths.{remove_nested_path}
use crossplane_diff.Formatter.Lines.{DiffOptions}

abbrev pub display_only_ignored_paths : List Text
display_only_ignored_paths =
    codes "metadata.annotations[kubectl.kubernetes.io/last-applied-configuration]" ∷ []

-- fieldsToRemove
abbrev pub fields_to_remove : List Text
fields_to_remove =
    codes "resourceVersion"
    ∷ codes "uid"
    ∷ codes "generation"
    ∷ codes "creationTimestamp"
    ∷ codes "managedFields"
    ∷ codes "selfLink"
    ∷ codes "ownerReferences"
    ∷ []

abbrev pub metadata_key : Text
metadata_key = codes "metadata"

abbrev pub spec_key : Text
spec_key = codes "spec"

abbrev pub crossplane_key : Text
crossplane_key = codes "crossplane"

abbrev pub resource_refs_key : Text
resource_refs_key = codes "resourceRefs"

abbrev pub status_key : Text
status_key = codes "status"

abbrev pub name_key : Text
name_key = codes "name"

-- The loop that deletes each of the fields.
unfoldable pub remove_all : List Text → Fields → Fields
remove_all [] m = m
remove_all (f ∷ fs) m = remove_all fs (remove f m)

abbrev pub or_empty : Option Text → Text
or_empty none = []
or_empty (some t) = t

module _ (api : Api) where
  -- stripPaths
  unfoldable pub strip_paths : List Text → Fields → Fields
  strip_paths [] o = o
  strip_paths (path ∷ paths) o = strip_paths paths (remove_nested_path api o path).0

  -- spec.resourceRefs. The map that the code keeps in `spec` is `spec_map`.
  unfoldable pub spec_map : Fields → Option Fields
  spec_map o = elim (api.nested_map o (spec_key ∷ [])) [
    | none ↦ none
    | some spec ↦ some (remove resource_refs_key spec)
  ]

  unfoldable pub set_spec : Fields → Option Fields → Fields
  set_spec o none = o
  set_spec o (some spec) = api.set_nested_map o spec (spec_key ∷ [])

  -- spec.crossplane.resourceRefs, and spec.crossplane if nothing else is in it. `spec` is the copy
  -- that was taken before.
  unfoldable pub clean_crossplane : Option Fields → Fields → Fields
  clean_crossplane spec o = elim (api.nested_map o (spec_key ∷ crossplane_key ∷ [])) [
    | none ↦ o
    | some c ↦
        let c' = remove resource_refs_key c in
        let o' = api.set_nested_map o c' (spec_key ∷ crossplane_key ∷ []) in
        if is_empty_map c'
        then set_spec o' (elim spec [ none ↦ none | some s ↦ some (remove crossplane_key s) ])
        else o'
  ]

module _ (xr_synthesis_suffix : Text) where
  -- stripSyntheticName; the name is none if it was not found.
  unfoldable pub strip_synthetic_name : Option Text → Text → Fields → Fields
  strip_synthetic_name none generate_name metadata = metadata
  strip_synthetic_name (some name) generate_name metadata =
      if looks_like_generated_name xr_synthesis_suffix name generate_name
      then remove name_key metadata
      else metadata

module _ (xr_synthesis_suffix : Text) (api : Api) where
  -- The metadata: the synthetic name, then the server-side fields.
  unfoldable pub clean_metadata_map : Fields → Fields
  clean_metadata_map metadata = remove_all fields_to_remove (
      strip_synthetic_name xr_synthesis_suffix (api.nested_string metadata (name_key ∷ []))
        (or_empty (api.nested_string metadata (codes "generateName" ∷ []))) metadata)

  unfoldable pub clean_metadata : Fields → Fields
  clean_metadata o = elim (api.nested_map o (metadata_key ∷ [])) [
    | none ↦ o
    | some metadata ↦ api.set_nested_map o (clean_metadata_map metadata) (metadata_key ∷ [])
  ]

  -- What follows the paths: metadata, spec, spec.crossplane and status.
  unfoldable pub clean_fields : Fields → Fields
  clean_fields o =
      let o1 = clean_metadata o in
      remove status_key (clean_crossplane api (spec_map api o1) (set_spec api o1 (spec_map api o1)))

  -- cleanupForDiff
  unfoldable pub cleanup_for_diff : List Text → Bool → Fields → Fields
  unfolding strip_paths
  cleanup_for_diff ignore_paths for_verdict o = clean_fields (
      strip_paths api ignore_paths
        (if for_verdict then o else strip_paths api display_only_ignored_paths o))
