-- ===== src/Manager/Fetch/Labels.antt =====
-- What the lookup by the labels of a composite returns.
use mathlib.Core.List.{Memᴰ}
use mathlib.Core.List.Memᴰ.{head, tail}
use crossplane_diff.Prelude.{
  ◌≡◌, refl, sym, subst, inl, inr, false, ◌||◌, Option, none, some, List, [], ◌∷◌, arith, All,
  Bool-cases, Option-cases,
}
use crossplane_diff.Text.{Text, is_empty}
use crossplane_diff.GoMap.{GoMap}
use crossplane_diff.Objects.{Fields}
use crossplane_diff.Objects.Api.{Api}
use crossplane_diff.Result.{Result, ok, err, panic, ◌>>=◌}
use crossplane_diff.Manager.Fetch.Matches.{Matches, match-Matches, Matches-match}
use crossplane_diff.Manager.Fetch.{
  ResourceReads, get_composition_resource_name, is_match, find_matching_resource, listed,
  lookup_by_composite,
}

module _ (api : Api) where
  -- A resource that matches, or none where none does.
  abbrev Found : Text → Text → List Fields → Option Fields → Type 0
  Found name generate_name resources none =
      All (λ res. ¬ Matches api name generate_name res) resources
  Found name generate_name resources (some res) =
      Memᴰ res resources × Matches api name generate_name res

  found_behind :
      (name generate_name : Text) (res : Fields) (resources : List Fields) (found : Option Fields)
      → ¬ Matches api name generate_name res
      → Found name generate_name resources found
      → Found name generate_name (res ∷ resources) found
  found_behind name generate_name res resources none e h = (e, h)
  found_behind name generate_name res resources (some r) e (at, matches) = (tail at, matches)

  find_matching-Found :
      (name generate_name : Text) (resources : List Fields)
      → Found name generate_name resources (find_matching_resource api name generate_name resources)
  unfolding find_matching_resource
  find_matching-Found name generate_name [] = tt
  find_matching-Found name generate_name (res ∷ resources) =
      elim (Bool-cases (is_match api name generate_name res)) [
        | inl e ↦ rw e (head refl, match-Matches api name generate_name res e)
        | inr e ↦ rw e (
            found_behind name generate_name res resources
              (find_matching_resource api name generate_name resources)
              (λ m. absurd (ground (arith, e, Matches-match api name generate_name res m)))
              (find_matching-Found name generate_name resources))
      ]

  module _ (reads : ResourceReads) (desired : Fields) where
    abbrev generate_name : Text
    generate_name = api.get_generate_name desired

    -- The resources with the owner's labels, where they are asked for: the desired object has a
    -- composition resource name and the composite a name.
    abbrev pub Candidates : Fields → GoMap Text → List Fields → Type 0
    Candidates composite annotations resources =
        (api.get_annotations desired ≡ some annotations)
        × (is_empty (get_composition_resource_name annotations) ≡ false)
        × (is_empty (api.get_name composite) ≡ false)
        × (listed api reads composite desired ≡ ok resources)

    abbrev pub Named : GoMap Text → Fields → Type 0
    Named annotations res =
        Matches api (get_composition_resource_name annotations) generate_name res

    -- What the lookup by the composite's labels returns: one of the candidates that matches, or
    -- none where none of them does; or the error of the listing.
    abbrev pub ByLabels : Fields → Result (Option Fields) → Type 0
    ByLabels composite (ok (some res)) =
        (annotations : GoMap Text) × (resources : List Fields) × Candidates composite annotations
          resources
        × Memᴰ res resources
        × Named annotations res
    ByLabels composite (ok none) =
        (annotations : GoMap Text) (resources : List Fields)
        → Candidates composite annotations resources
        → All (λ res. ¬ Named annotations res) resources
    ByLabels composite (err e) = listed api reads composite desired ≡ err e
    ByLabels composite panic = listed api reads composite desired ≡ panic

    found-ByLabels :
        (composite : Fields) (annotations : GoMap Text) (resources : List Fields)
        (found : Option Fields)
        → Candidates composite annotations resources
        → Found (get_composition_resource_name annotations) generate_name resources found
        → ByLabels composite (ok found)
    found-ByLabels composite annotations resources (some res) c (at, m) =
        (annotations, resources, c, at, m)
    found-ByLabels composite annotations resources none c h = λ annotations' resources' c'.
        let same : annotations ≡ annotations' = ground (arith, c.0, c'.0) in
        let same_list : resources ≡ resources' = ground (arith, c.3, c'.3) in
        subst (λ (rs : List Fields). All (λ res. ¬ Named annotations' res) rs) same_list
          (subst (λ (a : GoMap Text). All (λ res. ¬ Named a res) resources) same h)

    listed-ByLabels :
        (composite : Fields) (annotations : GoMap Text) (outcome : Result (List Fields))
        → ((resources : List Fields)
            → outcome ≡ ok resources
            → Candidates composite annotations resources)
        → listed api reads composite desired ≡ outcome
        → ByLabels composite (
            outcome >>= (λ resources. ok (
              find_matching_resource api
                (get_composition_resource_name annotations)
                generate_name
                resources)))
    listed-ByLabels composite annotations (ok resources) c e =
        found-ByLabels composite annotations resources
          (find_matching_resource api (get_composition_resource_name annotations) generate_name
            resources)
          (c resources refl)
          (find_matching-Found (get_composition_resource_name annotations) generate_name resources)
    listed-ByLabels composite annotations (err f) c e = e
    listed-ByLabels composite annotations panic c e = e

    annotated-ByLabels :
        (composite : Fields) (annotations : GoMap Text)
        → api.get_annotations desired ≡ some annotations
        → ByLabels composite (lookup_by_composite api reads composite desired)
    unfolding lookup_by_composite
    annotated-ByLabels composite annotations e =
        let name = get_composition_resource_name annotations in
        elim (Bool-cases (is_empty name || is_empty (api.get_name composite))) [
          | inl h ↦
              let same : ok none ≡ lookup_by_composite api reads composite desired =
                rw (lookup_by_composite, e, h) refl in
              subst (λ (r : Result (Option Fields)). ByLabels composite r) same
                (λ annotations' resources c.
                  let same : annotations ≡ annotations' = ground (arith, e, c.0) in
                  let named : is_empty name ≡ false =
                    subst (λ (a : GoMap Text). is_empty (get_composition_resource_name a) ≡ false)
                      (sym same) c.1 in
                  absurd (ground (arith, h, named, c.2)))
          | inr h ↦
              let same : (listed api reads composite desired
                    >>= (λ resources. ok (find_matching_resource api name generate_name resources)))
                  ≡ lookup_by_composite api reads composite desired =
                rw (lookup_by_composite, e, h) refl in
              subst (λ (r : Result (Option Fields)). ByLabels composite r) same
                (listed-ByLabels composite annotations (listed api reads composite desired)
                  (λ resources l. (e, ground (arith, h), ground (arith, h), l)) refl)
        ]

    pub lookup_by_composite-ByLabels :
        (composite : Fields) → ByLabels composite (lookup_by_composite api reads composite desired)
    unfolding lookup_by_composite
    lookup_by_composite-ByLabels composite = elim (Option-cases (api.get_annotations desired)) [
      | inl e ↦
          let same : ok none ≡ lookup_by_composite api reads composite desired =
            rw (lookup_by_composite, e) refl in
          subst (λ (r : Result (Option Fields)). ByLabels composite r) same
            (λ annotations resources c. absurd (ground (arith, e, c.0)))
      | inr (annotations, e) ↦ annotated-ByLabels composite annotations e
    ]
