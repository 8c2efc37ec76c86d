-- ===== src/Compare/Cleanup/Cleaned.antt =====
-- What the cleaned object holds, field by field.
use crossplane_diff.Prelude.{
  ◌≡◌, refl, ◌∙◌, sym, ap, false, Option, none, some, List, [], ◌∷◌, arith, any, Option-cases,
  Bool-cases, inl, inr, if◌then◌else◌,
}
use crossplane_diff.Text.{Text, text_eq, text_eq_self}
use crossplane_diff.Objects.{
  Fields, object, get, put, remove, is_empty_map, as_map, get-put, get-remove,
}
use crossplane_diff.Objects.Api.{Api, NestedLaws}
use crossplane_diff.Compare.Cleanup.{
  metadata_key, spec_key, crossplane_key, resource_refs_key, status_key, remove_all, clean_metadata,
  spec_map, set_spec, clean_crossplane, clean_fields,
}

pub get-remove_all :
    (k : Text) (fs : List Text) (m : Fields)
    → get k (remove_all fs m) ≡ (if any (λ f. text_eq f k) fs then none else get k m)
unfolding remove_all
get-remove_all k [] m = refl
get-remove_all k (f ∷ fs) m = ground (arith, get-remove_all k fs (remove f m), get-remove f k m)

-- The crossplane field of a cleaned spec.
abbrev pub crossplane_after : Option Fields → Fields → Fields
crossplane_after none s = s
crossplane_after (some c) s =
    if is_empty_map (remove resource_refs_key c)
    then remove crossplane_key s
    else put crossplane_key (object (remove resource_refs_key c)) s

-- spec.crossplane, if it is a map.
abbrev pub crossplane_of : Fields → Option Fields
crossplane_of s = elim (get crossplane_key s) [ none ↦ none | some v ↦ as_map v ]

crossplane_of-some :
    (s c : Fields) → crossplane_of s ≡ some c → get crossplane_key s ≡ some (object c)
crossplane_of-some s c h = ground arith

-- The spec without resourceRefs; its crossplane field without resourceRefs too, and without the
-- whole field where it holds nothing else.
abbrev pub spec_after : Fields → Fields
spec_after s = crossplane_after (crossplane_of s) (remove resource_refs_key s)

crossplane_of-remove : (s : Fields) → crossplane_of (remove resource_refs_key s) ≡ crossplane_of s
crossplane_of-remove s = rw (get-remove resource_refs_key crossplane_key s, crossplane_of, other)
  where
    other : text_eq resource_refs_key crossplane_key ≡ false
    other = unfold text_eq in refl

status-ne-spec : text_eq status_key spec_key ≡ false
unfolding text_eq
status-ne-spec = refl

pub status-ne-metadata : text_eq status_key metadata_key ≡ false
unfolding text_eq
status-ne-metadata = refl

pub spec-ne-metadata : text_eq spec_key metadata_key ≡ false
unfolding text_eq
spec-ne-metadata = refl

metadata-ne-spec : text_eq metadata_key spec_key ≡ false
unfolding text_eq
metadata-ne-spec = refl

module _ (xr_synthesis_suffix : Text) (api : Api) (laws : NestedLaws api) where
  -- nested_map at one key.
  pub map_here :
      (o m : Fields) (k : Text) → get k o ≡ some (object m) → api.nested_map o (k ∷ []) ≡ some m
  map_here o m k h = laws.map_found o m (k ∷ []) (laws.field_here o k ∙ h)

  pub clean_metadata-frame :
      (o : Fields) (k : Text)
      → text_eq metadata_key k ≡ false
      → get k (clean_metadata xr_synthesis_suffix api o) ≡ get k o
  unfolding clean_metadata
  clean_metadata-frame o k ne = elim (Option-cases (api.nested_map o (metadata_key ∷ []))) [
    | inl e ↦ rw (e, clean_metadata)
    | inr (m, e) ↦ rw (e, clean_metadata, laws.set_here, get-put, ne)
  ]

  pub set_spec-frame :
      (o : Fields) (s : Option Fields) (k : Text)
      → text_eq spec_key k ≡ false
      → get k (set_spec api o s) ≡ get k o
  unfolding set_spec
  set_spec-frame o none k ne = refl
  set_spec-frame o (some s) k ne = rw (laws.set_here, get-put, ne)

  -- nested_map at spec.crossplane gives a map that stands in the spec.
  map_crossplane :
      (o c : Fields)
      → api.nested_map o (spec_key ∷ crossplane_key ∷ []) ≡ some c
      → (s : Fields) × (get spec_key o ≡ some (object s)) × (get crossplane_key s ≡ some (object c))
  map_crossplane o c h =
      let found = laws.map_field o c (spec_key ∷ crossplane_key ∷ []) h in
      let (s, at) = laws.field_through o spec_key crossplane_key [] found in
      (
        s,
        at,
        sym (laws.field_here s crossplane_key)
            ∙ sym (laws.field_below o s spec_key crossplane_key [] at)
            ∙ found,
      )

  -- What SetNestedMap writes at spec.crossplane.
  set_crossplane :
      (o s c : Fields)
      → get spec_key o ≡ some (object s)
      → api.set_nested_map o c (spec_key ∷ crossplane_key ∷ [])
        ≡ put spec_key (object (put crossplane_key (object c) s)) o
  set_crossplane o s c at =
      laws.set_below o s c spec_key crossplane_key [] at ∙ rw (laws.set_here s c crossplane_key)

  pub clean_crossplane-frame :
      (s : Option Fields) (o : Fields) (k : Text)
      → text_eq spec_key k ≡ false
      → get k (clean_crossplane api s o) ≡ get k o
  unfolding clean_crossplane
  clean_crossplane-frame s o k ne =
      elim (Option-cases (api.nested_map o (spec_key ∷ crossplane_key ∷ []))) [
        | inl e ↦ rw (e, clean_crossplane)
        | inr (c, e) ↦
            let (sp, at, _) = map_crossplane o c e in
            elim (Bool-cases (is_empty_map (remove resource_refs_key c))) [
              | inl y ↦
                  rw
                    (
                      e,
                      clean_crossplane,
                      y,
                      set_spec-frame,
                      ne,
                      set_crossplane o sp (remove resource_refs_key c) at,
                      get-put,
                    )
                    (rw ne)
              | inr n ↦ rw (
                e,
                clean_crossplane,
                n,
                set_crossplane o sp (remove resource_refs_key c) at,
                get-put,
                ne,
              )
            ]
      ]

  -- The status is gone, and a field outside metadata, spec and status is as the ignored paths
  -- left it.
  pub clean_fields-frame :
      (o : Fields) (k : Text)
      → text_eq metadata_key k ≡ false
      → text_eq spec_key k ≡ false
      → get k (clean_fields xr_synthesis_suffix api o)
        ≡ (if text_eq status_key k then none else get k o)
  unfolding clean_fields
  clean_fields-frame o k nm ns =
      let o1 = clean_metadata xr_synthesis_suffix api o in
      let o2 = set_spec api o1 (spec_map api o1) in
      ground (
        arith,
        get-remove status_key k (clean_crossplane api (spec_map api o1) o2),
        clean_crossplane-frame (spec_map api o1) o2 k ns,
        set_spec-frame o1 (spec_map api o1) k ns,
        clean_metadata-frame o k nm,
      )

  set_spec-spec : (o s : Fields) → get spec_key (set_spec api o (some s)) ≡ some (object s)
  unfolding set_spec
  set_spec-spec o s = rw (laws.set_here, get-put, text_eq_self spec_key)

  clean_crossplane-spec :
      (o s : Fields)
      → get spec_key o ≡ some (object s)
      → get spec_key (clean_crossplane api (some s) o)
        ≡ some (object (crossplane_after (api.nested_map o (spec_key ∷ crossplane_key ∷ [])) s))
  unfolding clean_crossplane
  clean_crossplane-spec o s at =
      elim (Option-cases (api.nested_map o (spec_key ∷ crossplane_key ∷ []))) [
        | inl e ↦ rw (e, clean_crossplane) at
        | inr (c, e) ↦ elim (Bool-cases (is_empty_map (remove resource_refs_key c))) [
          | inl y ↦
              rw (e, clean_crossplane, y)
                (set_spec-spec
                  (api.set_nested_map o (remove resource_refs_key c)
                    (spec_key ∷ crossplane_key ∷ []))
                  (remove crossplane_key s))
          | inr n ↦ rw (
            e,
            clean_crossplane,
            n,
            set_crossplane o s (remove resource_refs_key c) at,
            get-put,
            text_eq_self spec_key,
          )
        ]
      ]

  crossplane_at :
      (o s : Fields)
      → get spec_key o ≡ some (object s)
      → api.nested_map o (spec_key ∷ crossplane_key ∷ []) ≡ crossplane_of s
  crossplane_at o s at =
      let field : api.nested_field o (spec_key ∷ crossplane_key ∷ []) ≡ get crossplane_key s =
        laws.field_below o s spec_key crossplane_key [] at ∙ laws.field_here s crossplane_key in
      elim (Option-cases (api.nested_map o (spec_key ∷ crossplane_key ∷ []))) [
        | inr (c, e) ↦
            let here : get crossplane_key s ≡ some (object c) =
              sym field ∙ laws.map_field o c (spec_key ∷ crossplane_key ∷ []) e in
            e ∙ rw (here, crossplane_of)
        | inl e ↦ elim (Option-cases (crossplane_of s)) [
          | inl e' ↦ e ∙ sym e'
          | inr (c, e') ↦ absurd (
              ground (
                arith,
                e,
                laws.map_found o c (spec_key ∷ crossplane_key ∷ [])
                    (field ∙ crossplane_of-some s c e'),
              ))
        ]
      ]

  spec_map-some :
      (o s : Fields)
      → get spec_key o ≡ some (object s)
      → spec_map api o ≡ some (remove resource_refs_key s)
  unfolding spec_map
  spec_map-some o s at = rw (map_here o s spec_key at, spec_map)

  -- The cleaned spec.
  pub clean_fields-spec :
      (o s : Fields)
      → get spec_key o ≡ some (object s)
      → get spec_key (clean_fields xr_synthesis_suffix api o) ≡ some (object (spec_after s))
  unfolding clean_fields
  clean_fields-spec o s at =
      let o1 = clean_metadata xr_synthesis_suffix api o in
      let s' = remove resource_refs_key s in
      let at1 : get spec_key o1 ≡ some (object s) =
        clean_metadata-frame o spec_key metadata-ne-spec ∙ at in
      let spec = spec_map-some o1 s at1 in
      let o2 = set_spec api o1 (some s') in
      let cleaned = clean_crossplane-spec o2 s' (set_spec-spec o1 s') in
      let same = crossplane_at o2 s' (set_spec-spec o1 s') ∙ crossplane_of-remove s in
      rw (get-remove, spec)
        (rw status-ne-spec (cleaned ∙ ap (λ c. some (object (crossplane_after c s'))) same))
