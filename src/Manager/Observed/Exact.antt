-- ===== src/Manager/Observed/Exact.antt =====
-- Which resources of a tree FetchObservedResources returns.
use mathlib.Core.List.{Memᴰ}
use mathlib.Core.List.Memᴰ.{head, tail, append_left, append_right, append_cases}
use crossplane_diff.Prelude.{
  ◌≡◌, refl, sym, ap, ◌∙◌, subst, ◌↔◌, ◌⊎◌, inl, inr, true, false, Option, none, some, List, [],
  ◌∷◌, ◌++◌, arith, Bool-cases, if◌then◌else◌,
}
use crossplane_diff.Text.{Text, text_eq_iff, text_eq_self, is_empty}
use crossplane_diff.Objects.{Fields}
use crossplane_diff.Objects.Api.{Api}
use crossplane_diff.Result.{Result, ok, err, panic}
use crossplane_diff.Calculator.Single.{Node, node, Nodes, leaf, branch, Clients}
use crossplane_diff.Calculator.Removed.{children_of, has_resource_name}
use crossplane_diff.Calculator.Removed.Exact.{InNode, InNodes}
use crossplane_diff.Manager.Owners.{Ownership}
use crossplane_diff.Manager.Observed.{
  is_controlled, is_observed, collect_resources, collect_below,
  extract_composed_resources_from_tree, fetch_observed_resources,
}

module _ (api : Api) (own : Ownership) (xr_uid : Text) where
  -- The resources after a walk: those before it, and those of the tree that are observed.
  abbrev Added : (Fields → Type 0) → List Fields → List Fields → Type 0
  Added In before after =
      (o : Fields) → Memᴰ o after ↔ (Memᴰ o before ⊎ (In o × (is_observed api own xr_uid o ≡ true)))

  abbrev with_node : Fields → List Fields → List Fields
  with_node o resources = if is_observed api own xr_uid o then resources ++ (o ∷ []) else resources

  observed_as :
      (o p : Fields)
      → p ≡ o
      → is_observed api own xr_uid o ≡ true
      → is_observed api own xr_uid p ≡ true
  observed_as o p same e = subst (λ (q : Fields). is_observed api own xr_uid q ≡ true) (sym same) e

  append-Added :
      (o : Fields) (resources : List Fields)
      → is_observed api own xr_uid o ≡ true
      → Added (λ p. p ≡ o) resources (resources ++ (o ∷ []))
  append-Added o resources e p = (to, from)
    where
      last : Memᴰ p (o ∷ []) → Memᴰ p resources ⊎ ((p ≡ o) × (is_observed api own xr_uid p ≡ true))
      last (head same) = inr (same, observed_as o p same e)
      last (tail at) = elim at [ ]

      to :
          Memᴰ p (resources ++ (o ∷ []))
          → Memᴰ p resources ⊎ ((p ≡ o) × (is_observed api own xr_uid p ≡ true))
      to at = elim (append_cases resources at) [ inl at' ↦ inl at' | inr at' ↦ last at' ]

      from :
          Memᴰ p resources ⊎ ((p ≡ o) × (is_observed api own xr_uid p ≡ true))
          → Memᴰ p (resources ++ (o ∷ []))
      from (inl at) = append_left (o ∷ []) at
      from (inr (same, e')) = append_right resources (head same)

  skip-Added :
      (o : Fields) (resources : List Fields)
      → is_observed api own xr_uid o ≡ false
      → Added (λ p. p ≡ o) resources resources
  skip-Added o resources e p = (λ at. inl at, from)
    where
      from : Memᴰ p resources ⊎ ((p ≡ o) × (is_observed api own xr_uid p ≡ true)) → Memᴰ p resources
      from (inl at) = at
      from (inr (same, e')) = absurd (ground (arith, e, observed_as p o (sym same) e'))

  with_node-Added :
      (o : Fields) (resources : List Fields) → Added (λ p. p ≡ o) resources (with_node o resources)
  with_node-Added o resources = elim (Bool-cases (is_observed api own xr_uid o)) [
    | inl e ↦ rw e (append-Added o resources e)
    | inr e ↦ rw e (skip-Added o resources e)
  ]

  Added-then :
      (P Q R : Fields → Type 0) (before between after : List Fields)
      → ((o : Fields) → R o ↔ (P o ⊎ Q o))
      → Added P before between
      → Added Q between after
      → Added R before after
  Added-then P Q R before between after split first second o = (to, from)
    where
      to : Memᴰ o after → Memᴰ o before ⊎ (R o × (is_observed api own xr_uid o ≡ true))
      to at = elim ((second o).0 at) [
        | inr (q, e) ↦ inr ((split o).1 (inr q), e)
        | inl at' ↦ elim ((first o).0 at') [
          | inl at'' ↦ inl at''
          | inr (p, e) ↦ inr ((split o).1 (inl p), e)
        ]
      ]

      from : Memᴰ o before ⊎ (R o × (is_observed api own xr_uid o ≡ true)) → Memᴰ o after
      from (inl at) = (second o).1 (inl ((first o).1 (inl at)))
      from (inr (r, e)) = elim ((split o).0 r) [
        | inl p ↦ (second o).1 (inl ((first o).1 (inr (p, e))))
        | inr q ↦ (second o).1 (inr (q, e))
      ]

  mutual
    unfolding collect_resources InNode

    collect_resources-Added :
        (n : Node) (resources : List Fields)
        → Added (λ o. InNode o n) resources (collect_resources api own xr_uid n resources)
    collect_resources-Added (node o children) resources =
        Added-then (λ p. p ≡ o) (λ p. InNodes p children) (λ p. InNode p (node o children))
          resources (with_node o resources)
          (collect_below api own xr_uid children (with_node o resources)) (λ p. (λ h. h, λ h. h))
          (with_node-Added o resources) (collect_below-Added children (with_node o resources))

    collect_below-Added :
        (ns : Nodes) (resources : List Fields)
        → Added (λ o. InNodes o ns) resources (collect_below api own xr_uid ns resources)
    collect_below-Added leaf resources =
        λ o. (λ at. inl at, λ at. elim at [ inl before ↦ before | inr (below, e) ↦ absurd below ])
    collect_below-Added (branch n ns) resources =
        Added-then (λ o. InNode o n) (λ o. InNodes o ns) (λ o. InNodes o (branch n ns)) resources
          (collect_resources api own xr_uid n resources)
          (collect_below api own xr_uid ns (collect_resources api own xr_uid n resources))
          (λ o. (λ h. h, λ h. h)) (collect_resources-Added n resources)
          (collect_below-Added ns (collect_resources api own xr_uid n resources))

module _ (api : Api) (own : Ownership) where
  -- The resource is a composed one, which no owner controls, or the XR does, or any owner where the
  -- XR has no UID.
  abbrev pub IsOf : Text → Fields → Type 0
  IsOf xr_uid o =
      (has_resource_name (api.get_annotations o) ≡ true)
      × ((own.controller_uid o ≡ none)
          ⊎ ((own.controller_uid o ≡ some xr_uid) ⊎ (is_empty xr_uid ≡ true)))

  IsOf-sound : (xr_uid : Text) (o : Fields) → is_observed api own xr_uid o ≡ true → IsOf xr_uid o
  unfolding is_observed is_controlled
  IsOf-sound xr_uid o e = (ground (arith, e), of (own.controller_uid o) refl)
    where
      of :
          (c : Option Text)
          → own.controller_uid o ≡ c
          → (own.controller_uid o ≡ none)
            ⊎ ((own.controller_uid o ≡ some xr_uid) ⊎ (is_empty xr_uid ≡ true))
      of none h = inl h
      of (some uid) h = elim (Bool-cases (is_empty xr_uid)) [
        | inl empty ↦ inr (inr empty)
        | inr filled ↦
            let controlled : is_controlled xr_uid (some uid) ≡ true =
              subst (λ (c : Option Text). is_controlled xr_uid c ≡ true) h (ground (arith, e)) in
            let same : uid ≡ xr_uid =
              (text_eq_iff uid xr_uid).0 (ground (arith, filled, controlled)) in
            inr (inl (h ∙ ap some same))
      ]

  IsOf-complete : (xr_uid : Text) (o : Fields) → IsOf xr_uid o → is_observed api own xr_uid o ≡ true
  unfolding is_observed is_controlled
  IsOf-complete xr_uid o (named, inl free) = rw (is_observed, named, free) refl
  IsOf-complete xr_uid o (named, inr (inl own_uid)) =
      rw (is_observed, named, own_uid, is_controlled, text_eq_self xr_uid) (ground arith)
  IsOf-complete xr_uid o (named, inr (inr empty)) = ground (arith, named, of (own.controller_uid o))
    where
      of : (c : Option Text) → is_controlled xr_uid c ≡ true
      of none = refl
      of (some uid) = ground (arith, empty)

  -- The resources that were fetched.
  abbrev pub IsObserved : Fields → Node → Result (List Fields) → Type 0
  IsObserved xr tree (ok resources) =
      (o : Fields) → Memᴰ o resources ↔ (InNodes o (children_of tree) × IsOf (own.get_uid xr) o)
  IsObserved xr tree (err e) = ⊥
  IsObserved xr tree panic = ⊥

  -- Where the resource tree of the XR can be read, its observed resources are exactly the resources
  -- of the tree below the root, at any depth, that carry the resource-name annotation and that
  -- either no owner controls, or the XR does, or any owner does where the XR has no UID.
  pub fetch_observed_resources-IsObserved :
      (clients : Clients) (xr : Fields) (tree : Node)
      → clients.get_resource_tree xr ≡ ok tree
      → IsObserved xr tree (fetch_observed_resources api own clients xr)
  unfolding fetch_observed_resources extract_composed_resources_from_tree
  fetch_observed_resources-IsObserved clients xr tree read = rw read (λ o. (to o, from o))
    where
      to :
          (o : Fields)
          → Memᴰ o (collect_below api own (own.get_uid xr) (children_of tree) [])
          → InNodes o (children_of tree) × IsOf (own.get_uid xr) o
      to o at = elim ((collect_below-Added api own (own.get_uid xr) (children_of tree) [] o).0 at) [
        | inl none_before ↦ elim none_before [ ]
        | inr (below, e) ↦ (below, IsOf-sound (own.get_uid xr) o e)
      ]

      from :
          (o : Fields)
          → InNodes o (children_of tree) × IsOf (own.get_uid xr) o
          → Memᴰ o (collect_below api own (own.get_uid xr) (children_of tree) [])
      from o (below, of_xr) =
          (collect_below-Added api own (own.get_uid xr) (children_of tree) [] o).1
            (inr (below, IsOf-complete (own.get_uid xr) o of_xr))
