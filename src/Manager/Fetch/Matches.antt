-- ===== src/Manager/Fetch/Matches.antt =====
-- Which resources match a composition resource name and a generateName.
use mathlib.Core.List.{Memᴰ}
use mathlib.Core.List.Memᴰ.{head, tail}
use crossplane_diff.Prelude.{
  ◌≡◌, refl, sym, ap, ◌∙◌, subst, ◌⊎◌, inl, inr, Bool, true, ◌&&◌, ◌||◌, some, [], ◌∷◌, arith, any,
  Bool-cases, Option-cases,
}
use crossplane_diff.Text.{
  Text, text_eq, text_eq_iff, text_eq_self, is_empty, has_prefix, has_suffix,
}
use crossplane_diff.GoMap.{GoMap, lookup}
use crossplane_diff.Objects.{Fields}
use crossplane_diff.Objects.Api.{Api}
use crossplane_diff.Calculator.Single.{resource_name_annotation}
use crossplane_diff.Manager.Fetch.{name_suffix, has_matching_resource_name, is_match}

-- An annotation of some function, or Crossplane's own, gives the composition resource name.
abbrev pub Annotated : Text → GoMap Text → Type 0
Annotated name annotations =
    (key : Text) × Memᴰ (key, name) annotations × (has_suffix key name_suffix ≡ true)

lookup-Memᴰ : (k v : Text) (m : GoMap Text) → lookup k m ≡ some v → Memᴰ (k, v) m
unfolding lookup
lookup-Memᴰ k v [] e = absurd (ground (arith, e))
lookup-Memᴰ k v ((j, w) ∷ m) e = elim (Bool-cases (text_eq j k)) [
  | inl same ↦
      let key : k ≡ j = sym ((text_eq_iff j k).0 same) in
      let value : v ≡ w = ground (arith, e, same) in
      head (ap (λ (t : Text). (t, v)) key ∙ ap (λ (t : Text). (j, t)) value)
  | inr differs ↦ tail (lookup-Memᴰ k v m (ground (arith, e, differs)))
]

abbrev gives : Text → Text × Text → Bool
gives name e = has_suffix e.0 name_suffix && text_eq e.1 name

any-Annotated : (name : Text) (m : GoMap Text) → any (gives name) m ≡ true → Annotated name m
any-Annotated name [] e = absurd (ground (arith, e))
any-Annotated name ((key, value) ∷ m) e = elim (Bool-cases (gives name (key, value))) [
  | inl here ↦
      let same : name ≡ value = sym ((text_eq_iff value name).0 (ground (arith, here))) in
      (key, head (ap (λ (t : Text). (key, t)) same), ground (arith, here))
  | inr differs ↦
      let (key', at, suffixed) = any-Annotated name m (ground (arith, e, differs)) in
      (key', tail at, suffixed)
]

Annotated-any :
    (name key : Text) (m : GoMap Text)
    → Memᴰ (key, name) m
    → has_suffix key name_suffix ≡ true
    → any (gives name) m ≡ true
Annotated-any name key [] at suffixed = elim at [ ]
Annotated-any name key ((j, w) ∷ m) (head same) suffixed =
    let here : gives name (j, w) ≡ true =
      subst (λ (e : Text × Text). gives name e ≡ true) same
        (ground (arith, suffixed, text_eq_self name)) in
    ground (arith, here)
Annotated-any name key ((j, w) ∷ m) (tail at) suffixed =
    ground (arith, Annotated-any name key m at suffixed)

annotation_suffixed : has_suffix resource_name_annotation name_suffix ≡ true
unfolding has_suffix
annotation_suffixed = refl

named-Annotated :
    (name : Text) (m : GoMap Text) → has_matching_resource_name m name ≡ true → Annotated name m
unfolding has_matching_resource_name
named-Annotated name m e = elim (Bool-cases (any (gives name) m)) [
  | inl found ↦ any-Annotated name m found
  | inr missing ↦ elim (Option-cases (lookup resource_name_annotation m)) [
    | inl nothing ↦ absurd (ground (arith, e, missing, nothing))
    | inr (value, own) ↦
        let same : value ≡ name = (text_eq_iff value name).0 (ground (arith, e, missing, own)) in
        (
          resource_name_annotation,
          lookup-Memᴰ resource_name_annotation name m (own ∙ ap some same),
          annotation_suffixed,
        )
  ]
]

Annotated-named :
    (name : Text) (m : GoMap Text) → Annotated name m → has_matching_resource_name m name ≡ true
unfolding has_matching_resource_name
Annotated-named name m (key, at, suffixed) = ground (arith, Annotated-any name key m at suffixed)

module _ (api : Api) (name generate_name : Text) where
  -- The resource is annotated with the name, and its own name has the prefix, if one is asked for.
  abbrev pub Matches : Fields → Type 0
  Matches res =
      (annotations : GoMap Text) × (api.get_annotations res ≡ some annotations)
      × Annotated name annotations
      × ((is_empty generate_name ≡ true) ⊎ (has_prefix (api.get_name res) generate_name ≡ true))

  pub match-Matches : (res : Fields) → is_match api name generate_name res ≡ true → Matches res
  unfolding is_match
  match-Matches res e = elim (Option-cases (api.get_annotations res)) [
    | inl none_there ↦ absurd (ground (arith, e, none_there))
    | inr (annotations, there) ↦
        let tested : (has_matching_resource_name annotations name
              && (is_empty generate_name || has_prefix (api.get_name res) generate_name))
            ≡ true =
          ground (arith, e, there) in
        (
          annotations,
          there,
          named-Annotated name annotations (ground (arith, tested)),
          elim (Bool-cases (is_empty generate_name)) [
            | inl empty ↦ inl empty
            | inr filled ↦ inr (ground (arith, tested, filled))
          ],
        )
  ]

  pub Matches-match : (res : Fields) → Matches res → is_match api name generate_name res ≡ true
  unfolding is_match
  Matches-match res (annotations, there, annotated, inl empty) =
      rw (is_match, there, Annotated-named name annotations annotated, empty) refl
  Matches-match res (annotations, there, annotated, inr prefixed) =
      rw (is_match, there, Annotated-named name annotations annotated, prefixed) (ground arith)
