-- ===== src/Compare/Cleanup/Content.antt =====
-- The metadata of a cleaned object, and all of the object together.
use crossplane_diff.Prelude.{
  ◌≡◌, refl, ◌∙◌, ap, Bool, true, false, ◌&&◌, ◌||◌, Option, none, some, List, [], ◌∷◌, arith, any,
  if◌then◌else◌,
}
use crossplane_diff.Text.{Text, codes, text_eq, text_eq_self}
use crossplane_diff.Types.Generated.{looks_like_generated_name}
use crossplane_diff.Objects.{Fields, object, get, put, remove, is_empty_map, get-put, get-remove}
use crossplane_diff.Objects.Api.{Api, NestedLaws}
use crossplane_diff.Compare.Cleanup.{
  fields_to_remove, metadata_key, spec_key, status_key, name_key, or_empty, strip_synthetic_name,
  clean_metadata_map, clean_metadata, spec_map, set_spec, clean_crossplane, clean_fields,
}
use crossplane_diff.Compare.Cleanup.Cleaned.{
  get-remove_all, map_here, set_spec-frame, clean_crossplane-frame, clean_fields-spec,
  status-ne-metadata, spec-ne-metadata,
}

-- The fields of the metadata that the server sets.
abbrev server_fields : List Text
server_fields =
    codes "creationTimestamp"
    ∷ codes "generation"
    ∷ codes "managedFields"
    ∷ codes "ownerReferences"
    ∷ codes "resourceVersion"
    ∷ codes "selfLink"
    ∷ codes "uid"
    ∷ []

unfoldable pub is_server_field : Text → Bool
is_server_field k = any (λ f. text_eq f k) server_fields

-- The code's list has these fields, in another order.
server_fields_removed : (k : Text) → any (λ f. text_eq f k) fields_to_remove ≡ is_server_field k
unfolding is_server_field
server_fields_removed k = ground arith

abbrev refs_dropped : Fields → Fields
refs_dropped m = remove (codes "resourceRefs") m

-- The crossplane field of a spec without its resourceRefs, which is dropped where it is empty.
abbrev crossplane_shown : Option Fields → Fields → Fields
crossplane_shown none s = s
crossplane_shown (some c) s =
    if is_empty_map (refs_dropped c)
    then remove (codes "crossplane") s
    else put (codes "crossplane") (object (refs_dropped c)) s

abbrev pub spec_shown : Fields → Fields
spec_shown s =
    crossplane_shown (elim (get (codes "crossplane") s) [ some (object c) ↦ some c | _ ↦ none ])
      (refs_dropped s)

nested_if :
    {A : Type 0} (p q : Bool) (x : Option A)
    → (if p then none else (if q then none else x)) ≡ (if p || q then none else x)
nested_if true q x = refl
nested_if false q x = refl

module _ (xr_synthesis_suffix : Text) where
  unfoldable pub is_synthetic : Option Text → Text → Bool
  is_synthetic none generate_name = false
  is_synthetic (some name) generate_name =
      looks_like_generated_name xr_synthesis_suffix name generate_name

  get-strip_synthetic_name :
      (name : Option Text) (generate_name k : Text) (m : Fields)
      → get k (strip_synthetic_name xr_synthesis_suffix name generate_name m)
        ≡ (if text_eq name_key k && is_synthetic name generate_name then none else get k m)
  unfolding strip_synthetic_name is_synthetic
  get-strip_synthetic_name none generate_name k m = ground arith
  get-strip_synthetic_name (some name) generate_name k m = ground (arith, get-remove name_key k m)

module _ (xr_synthesis_suffix : Text) (api : Api) where
  -- Is the name one that the tool or the render binary made up?
  unfoldable pub has_synthetic_name : Fields → Bool
  has_synthetic_name m =
      is_synthetic xr_synthesis_suffix (api.nested_string m (name_key ∷ []))
        (or_empty (api.nested_string m (codes "generateName" ∷ [])))

  -- Is the field left out of the cleaned metadata?
  unfoldable pub is_hidden : Fields → Text → Bool
  unfolding has_synthetic_name
  is_hidden m k = is_server_field k || (text_eq name_key k && has_synthetic_name m)

  get-clean_metadata_map :
      (m : Fields) (k : Text)
      → get k (clean_metadata_map xr_synthesis_suffix api m)
        ≡ (if is_hidden m k then none else get k m)
  unfolding clean_metadata_map is_hidden
  get-clean_metadata_map m k =
      let name = api.nested_string m (name_key ∷ []) in
      let generate_name = or_empty (api.nested_string m (codes "generateName" ∷ [])) in
      let stripped = strip_synthetic_name xr_synthesis_suffix name generate_name m in
      (get-remove_all k fields_to_remove stripped
        ∙ ap (λ (b : Bool). if b then none else get k stripped) (server_fields_removed k))
      ∙ rw (get-strip_synthetic_name xr_synthesis_suffix name generate_name k m) (
          nested_if (is_server_field k)
            (text_eq name_key k && is_synthetic xr_synthesis_suffix name generate_name) (get k m))

module _ (xr_synthesis_suffix : Text) (api : Api) (laws : NestedLaws api) where
  clean_metadata-metadata :
      (o m : Fields)
      → get metadata_key o ≡ some (object m)
      → get metadata_key (clean_metadata xr_synthesis_suffix api o)
        ≡ some (object (clean_metadata_map xr_synthesis_suffix api m))
  unfolding clean_metadata
  clean_metadata-metadata o m at = rw (
    map_here xr_synthesis_suffix api laws o m metadata_key at,
    clean_metadata,
    laws.set_here,
    get-put,
    text_eq_self metadata_key,
  )

  clean_fields-metadata :
      (o : Fields)
      → get metadata_key (clean_fields xr_synthesis_suffix api o)
        ≡ get metadata_key (clean_metadata xr_synthesis_suffix api o)
  unfolding clean_fields
  clean_fields-metadata o =
      let o1 = clean_metadata xr_synthesis_suffix api o in
      let o2 = set_spec api o1 (spec_map api o1) in
      get-remove status_key metadata_key (clean_crossplane api (spec_map api o1) o2)
      ∙ rw status-ne-metadata (
          clean_crossplane-frame xr_synthesis_suffix api laws (spec_map api o1) o2 metadata_key
            spec-ne-metadata
          ∙ set_spec-frame xr_synthesis_suffix api laws o1 (spec_map api o1) metadata_key
              spec-ne-metadata)

  -- Where an object has metadata and a spec: the cleaned metadata is the object's without the fields
  -- that the server sets, which are creationTimestamp, generation, managedFields, ownerReferences,
  -- resourceVersion, selfLink and uid, and without the name if it is a generated one. The cleaned
  -- spec is the object's without resourceRefs, in it and in its crossplane field, and without that
  -- field where nothing is left in it.
  pub clean_fields_content :
      (o m s : Fields) (k : Text)
      → get metadata_key o ≡ some (object m)
      → get spec_key o ≡ some (object s)
      → (m' : Fields) × (get metadata_key (clean_fields xr_synthesis_suffix api o)
          ≡ some (object m'))
        × (get k m' ≡ (if is_hidden xr_synthesis_suffix api m k then none else get k m))
        × (get spec_key (clean_fields xr_synthesis_suffix api o) ≡ some (object (spec_shown s)))
  clean_fields_content o m s k atm ats = (
    clean_metadata_map xr_synthesis_suffix api m,
    clean_fields-metadata o ∙ clean_metadata-metadata o m atm,
    get-clean_metadata_map xr_synthesis_suffix api m k,
    clean_fields-spec xr_synthesis_suffix api laws o s ats,
  )
