-- ===== src/Selection/Discover/Resolved.antt =====
-- What the lookup of the named resources finds.
use crossplane_diff.Prelude.{
  ◌≡◌, refl, subst, ◌⊎◌, inl, inr, true, false, Option, none, some, List, [], ◌∷◌, arith,
}
use crossplane_diff.Text.{Text}
use crossplane_diff.Objects.{Fields}
use crossplane_diff.Objects.Api.{Api, Gvk}
use crossplane_diff.Result.{Result, ok, err, panic, both_ok}
use crossplane_diff.Ref.{NamespacedName}
use crossplane_diff.Selection.Paths.{Accessors, resource_uses_composition}
use crossplane_diff.Selection.State.{ClusterReads}
use crossplane_diff.Selection.Find.{DefinitionClient}
use crossplane_diff.Selection.Discover.{
  CompositeTypes, Machinery, if_it_uses, try_lookup_at_gvk, or_claim, lookup_ref, prepend,
  lookup_refs,
}

module _ (api : Api) (at : Accessors) (cluster : ClusterReads) (machinery : Machinery)
    (definitions : DefinitionClient) (name : Text) where
  abbrev pub Fetched : Gvk → NamespacedName → Fields → Type 0
  Fetched gvk n obj = cluster.get_resource gvk n.namespace n.name ≡ ok obj

  -- A resource of the type is there under the name and uses the composition.
  abbrev pub Uses : Gvk → NamespacedName → Fields → Type 0
  Uses gvk n obj = Fetched gvk n obj × (resource_uses_composition api obj name ≡ true)

  -- None is there, or the one that is there does not use it.
  abbrev pub Misses : Gvk → NamespacedName → Type 0
  Misses gvk n =
      ((e : _) × (cluster.get_resource gvk n.namespace n.name ≡ err e)
        × (machinery.is_not_found e ≡ true))
      ⊎ ((obj : Fields) × Fetched gvk n obj × (resource_uses_composition api obj name ≡ false))

  abbrev pub NoClaim : CompositeTypes → NamespacedName → Type 0
  NoClaim types n = elim types.claim_gvk [ none ↦ Unit | some gvk ↦ Misses gvk n ]

  -- Each name is resolved in its turn: to the composite that uses the composition, else to the
  -- claim that does, else to nothing.
  pub data Resolved (types : CompositeTypes) : List NamespacedName → List Fields → Type 0 where
    all_done : Resolved types [] []
    composite :
        {n : NamespacedName} {ns : List NamespacedName} {obj : Fields} {found : List Fields}
        → Uses types.xr_gvk n obj
        → Resolved types ns found
        → Resolved types (n ∷ ns) (obj ∷ found)
    claim :
        {n : NamespacedName} {ns : List NamespacedName} {obj : Fields} {found : List Fields}
        (gvk : Gvk)
        → Misses types.xr_gvk n
        → types.claim_gvk ≡ some gvk
        → Uses gvk n obj
        → Resolved types ns found
        → Resolved types (n ∷ ns) (obj ∷ found)
    dropped :
        {n : NamespacedName} {ns : List NamespacedName} {found : List Fields}
        → Misses types.xr_gvk n
        → NoClaim types n
        → Resolved types ns found
        → Resolved types (n ∷ ns) found

  abbrev Outcome : Gvk → NamespacedName → Option Fields → Type 0
  Outcome gvk n none = Misses gvk n
  Outcome gvk n (some obj) = Uses gvk n obj

  used-Outcome :
      (gvk : Gvk) (n : NamespacedName) (got : Result Fields) (found : Option Fields)
      → cluster.get_resource gvk n.namespace n.name ≡ got
      → if_it_uses api at cluster machinery definitions gvk n name got ≡ ok found
      → Outcome gvk n found
  unfolding if_it_uses
  used-Outcome gvk n panic found e h = absurd (ground (arith, h))
  used-Outcome gvk n (err f) none e h = inl (f, e, ground (arith, h))
  used-Outcome gvk n (err f) (some obj) e h = absurd (ground (arith, h))
  used-Outcome gvk n (ok got) none e h = inr (got, e, ground (arith, h))
  used-Outcome gvk n (ok got) (some obj) e h =
      let uses : resource_uses_composition api got name ≡ true = ground (arith, h) in
      let same : got ≡ obj = ground (arith, h, uses) in subst (λ o. Uses gvk n o) same (e, uses)

  looked_up-Outcome :
      (gvk : Gvk) (n : NamespacedName) (found : Option Fields)
      → try_lookup_at_gvk api at cluster machinery definitions gvk n name ≡ ok found
      → Outcome gvk n found
  unfolding try_lookup_at_gvk
  looked_up-Outcome gvk n found h = used-Outcome gvk n _ found refl h

  module _ (xr_gvk : Gvk) where
    abbrev with_claim : Option Gvk → CompositeTypes
    with_claim claim_gvk = record { xr_gvk = xr_gvk; claim_gvk = claim_gvk }

    -- One name, from the outcome at the XR's type on.
    then_claim :
        (claim_gvk : Option Gvk) (n : NamespacedName) {ns : List NamespacedName}
        {found : List Fields} (first obj : Option Fields)
        → Outcome xr_gvk n first
        → or_claim api at cluster machinery definitions (with_claim claim_gvk) n name first ≡ ok obj
        → Resolved (with_claim claim_gvk) ns found
        → Resolved (with_claim claim_gvk) (n ∷ ns) (prepend obj found)
    unfolding or_claim
    then_claim claim_gvk n (some x) none h e r = absurd (ground (arith, e))
    then_claim claim_gvk n (some x) (some obj) h e r =
        composite (subst (λ o. Uses xr_gvk n o) (ground (arith, e)) h) r
    then_claim none n none none h e r = dropped h tt r
    then_claim none n none (some obj) h e r = absurd (ground (arith, e))
    then_claim (some gvk) n none none h e r = dropped h (looked_up-Outcome gvk n none e) r
    then_claim (some gvk) n none (some obj) h e r =
        claim gvk h refl (looked_up-Outcome gvk n (some obj) e) r

    -- Where no lookup failed, each name on the command line is resolved in its turn: to the XR of
    -- the composition's type that has the name, if it uses the composition, else to the claim of
    -- the name that does, else to nothing; and nothing else is found.
    pub lookup_refs-Resolved :
        (claim_gvk : Option Gvk) (refs : List NamespacedName) (found : List Fields)
        → lookup_refs api at cluster machinery definitions (with_claim claim_gvk) name refs
          ≡ ok found
        → Resolved (with_claim claim_gvk) refs found
    unfolding lookup_refs lookup_ref
    lookup_refs-Resolved claim_gvk [] found e =
        subst (λ l. Resolved (with_claim claim_gvk) [] l) (ground (arith, e)) all_done
    lookup_refs-Resolved claim_gvk (n ∷ ns) found e =
        let (obj, later, looked) = both_ok _ _ e in
        let (rest, last, earlier) = both_ok _ _ later in
        let (first, second, tried) = both_ok _ _ looked in
        subst (λ l. Resolved (with_claim claim_gvk) (n ∷ ns) l) (ground (arith, last))
          (then_claim claim_gvk n first obj (looked_up-Outcome xr_gvk n first tried) second
            (lookup_refs-Resolved claim_gvk ns rest earlier))
