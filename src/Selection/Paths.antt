-- ===== src/Selection/Paths.antt =====
-- The fields that Crossplane keeps in the spec of a composite, in its second version under
-- spec.crossplane and in its first under spec: the readers of composition_client.go and
-- XRUpdatePolicy of revision_selector.go.
use crossplane_diff.Prelude.{
  Bool, false, ◌||◌, Option, none, some, List, [], ◌∷◌, ◌++◌, if◌then◌else◌,
}
use crossplane_diff.Text.{Text, codes, text_eq, is_empty, join_with}
use crossplane_diff.Objects.{Fields, Items}
use crossplane_diff.Objects.Api.{Api}
use crossplane_diff.Errors.Tree.{wrap}
use crossplane_diff.Result.{Result, ok, err, panic, ◌>>=◌}

-- NestedString and NestedMap of apimachinery with their errors, ok none being "not found"; and
-- NestedSlice and NestedBool, whose errors the program drops.
pub record Accessors : Type 0 where
  pub string_at : Fields → List Text → Result (Option Text)
  pub map_at : Fields → List Text → Result (Option Fields)
  pub slice_at : Fields → List Text → Option Items
  pub bool_at : Fields → List Text → Option Bool

abbrev pub crossplane_api_ext_group_v1 : Text
crossplane_api_ext_group_v1 = codes "apiextensions.crossplane.io/v1"

abbrev pub crossplane_api_ext_group_v2 : Text
crossplane_api_ext_group_v2 = codes "apiextensions.crossplane.io/v2"

abbrev pub update_policy_automatic : Text
update_policy_automatic = codes "Automatic"

abbrev pub v1_path : List Text → List Text
v1_path path = codes "spec" ∷ path

abbrev pub v2_path : List Text → List Text
v2_path path = codes "spec" ∷ codes "crossplane" ∷ path

-- getCrossplaneRefPaths
unfoldable pub get_crossplane_ref_paths : Text → List Text → List (List Text)
get_crossplane_ref_paths api_version path =
    if text_eq api_version crossplane_api_ext_group_v1
    then v1_path path ∷ []
    else v2_path path ∷ v1_path path ∷ []

-- What one accessor makes of one path: the value, the next path, or an error.
abbrev pub or_next {ℓ} :
    {T : Type ℓ} → Text → Result (Option T) → Result (Option T) → Result (Option T)
or_next m (ok (some v)) later = ok (some v)
or_next m (ok none) later = later
or_next m (err e) later = err (wrap m e)
or_next m panic later = panic

-- The loop of nestedCrossplaneValue.
unfoldable pub first_found {ℓ} :
    {T : Type ℓ}
    → (Fields → List Text → Result (Option T))
    → Fields
    → Text
    → List (List Text)
    → Result (Option T)
first_found accessor obj m [] = ok none
first_found accessor obj m (p ∷ ps) =
    let later = first_found accessor obj m ps in or_next m (accessor obj p) later

-- nestedCrossplaneValue; the path is quoted in the error.
unfoldable pub nested_crossplane_value {ℓ} :
    {T : Type ℓ}
    → Fields
    → Text
    → Text
    → (Fields → List Text → Result (Option T))
    → List Text
    → Result (Option T)
nested_crossplane_value obj api_version type_name accessor path =
    first_found accessor obj
      (codes "field "
        ++ (34 ∷ (join_with (codes ".") path ++ (34 ∷ (codes " is not " ++ type_name)))))
      (get_crossplane_ref_paths api_version path)

module _ (at : Accessors) where
  -- nestedCrossplaneString
  unfoldable pub nested_crossplane_string : Fields → Text → List Text → Result (Option Text)
  nested_crossplane_string obj api_version path =
      nested_crossplane_value obj api_version (codes "a string") at.string_at path

  -- nestedCrossplaneMap
  unfoldable pub nested_crossplane_map : Fields → Text → List Text → Result (Option Fields)
  nested_crossplane_map obj api_version path =
      nested_crossplane_value obj api_version (codes "an object") at.map_at path

  -- What XRUpdatePolicy makes of the field.
  abbrev pub policy_or_automatic : Option Text → Text
  policy_or_automatic none = update_policy_automatic
  policy_or_automatic (some policy) = if is_empty policy then update_policy_automatic else policy

  -- XRUpdatePolicy
  unfoldable pub xr_update_policy : Fields → Text → Result Text
  xr_update_policy obj api_version =
      nested_crossplane_string obj api_version (codes "compositionUpdatePolicy" ∷ [])
      >>= (λ found. ok (policy_or_automatic found))

module _ (api : Api) where
  abbrev names_it : Option Text → Text → Bool
  names_it none name = false
  names_it (some ref_name) name = text_eq ref_name name

  unfoldable pub any_path_names : Fields → Text → List (List Text) → Bool
  any_path_names res name [] = false
  any_path_names res name (p ∷ ps) =
      names_it (api.nested_string res p) name || any_path_names res name ps

  -- resourceUsesComposition
  unfoldable pub resource_uses_composition : Fields → Text → Bool
  resource_uses_composition res name = any_path_names res name (
      get_crossplane_ref_paths crossplane_api_ext_group_v2
        (codes "compositionRef" ∷ codes "name" ∷ []))
