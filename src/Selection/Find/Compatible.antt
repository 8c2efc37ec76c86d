-- ===== src/Selection/Find/Compatible.antt =====
-- A composition that is found is one for the type of the resource.
use crossplane_diff.Prelude.{
  ◌≡◌, refl, subst, Bool, true, false, Option, none, some, List, [], ◌∷◌, arith, keep, All,
  Bool-cases, inl, inr,
}
use crossplane_diff.Text.{Text}
use crossplane_diff.GoMap.{GoMap}
use crossplane_diff.Objects.{Fields, is_empty_map}
use crossplane_diff.Objects.Api.{Api, Gvk}
use crossplane_diff.Result.{ok}
use crossplane_diff.Selection.Paths.{Accessors}
use crossplane_diff.Selection.Selector.{Labels}
use crossplane_diff.Selection.State.{
  Composition, ClientState, Stateful, lift, ◌>>=◌, ClusterReads, Yields, then-Yields, from-Yields,
}
use crossplane_diff.Selection.Match.{
  is_composition_compatible, only_one, fits, find_by_type_reference, select_by_labels,
  choose_by_labels, find_by_label_selector,
}
use crossplane_diff.Selection.Find.{
  DefinitionClient, checked, from_revision_or_direct, find_by_direct_reference, find_by_name,
  or_else_find, target_of, id_of, find_for, find_matching_composition,
}

abbrev OfSome {ℓ} : {A : Type ℓ} → (A → Type 0) → Option A → Type 0
OfSome P none = Unit
OfSome P (some a) = P a

kept-All {ℓ} :
    {A : Type ℓ} (P : A → Type 0) (x : A) (rest : List A) (b : Bool)
    → (b ≡ true → P x)
    → All P rest
    → All P (elim b as (λ _. List A) [ true ↦ x ∷ rest | false ↦ rest ])
kept-All P x rest true h g = (h refl, g)
kept-All P x rest false h g = g

keep-All {ℓ} :
    {A : Type ℓ} (P : A → Type 0) (test : A → Bool)
    → ((a : A) → test a ≡ true → P a)
    → (xs : List A) → All P (keep test xs)
keep-All P test h [] = tt
keep-All P test h (x ∷ xs) = kept-All P x (keep test xs) (test x) (h x) (keep-All P test h xs)

only_one-All :
    (P : Composition → Type 0) (m n : Text) (xs : List Composition)
    → All P xs
    → Yields P (lift (only_one m n xs))
unfolding only_one
only_one-All P m n [] h s a e = absurd (ground (arith, e))
only_one-All P m n (x ∷ []) h s a e = subst P (ground (arith, e)) h.0
only_one-All P m n (x ∷ y ∷ ys) h s a e = absurd (ground (arith, e))

none-OfSome : (P : Composition → Type 0) → Yields (OfSome P) (lift (ok none))
none-OfSome P s none e = tt
none-OfSome P s (some c) e = absurd (ground (arith, e))

module _ (api : Api) (cluster : ClusterReads) (target : Gvk) where
  abbrev IsFor : Composition → Type 0
  IsFor comp = is_composition_compatible api target comp ≡ true

  checked-IsFor :
      (m : Text) (comp : Composition) → Yields (OfSome IsFor) (lift (checked api m target comp))
  unfolding checked
  checked-IsFor m comp s none e = tt
  checked-IsFor m comp s (some c) e = ground (arith, e)

  revision_or_direct-IsFor :
      (name resource_id : Text) (comp : Option Composition)
      → Yields (OfSome IsFor) (from_revision_or_direct api cluster name target resource_id comp)
  unfolding from_revision_or_direct
  revision_or_direct-IsFor name resource_id (some comp) = checked-IsFor _ comp
  revision_or_direct-IsFor name resource_id none =
      then-Yields (OfSome IsFor) (λ comp. lift (checked api _ target comp)) _
        (λ comp. checked-IsFor _ comp)

  or_else-IsFor :
      (found : Option Composition) (next : Stateful Composition)
      → OfSome IsFor found
      → Yields IsFor next
      → Yields IsFor (or_else_find found next)
  unfolding or_else_find
  or_else-IsFor (some comp) next h g s a e = subst IsFor (ground (arith, e)) h
  or_else-IsFor none next h g s a e = g s a e

  module _ (at : Accessors) where
    by_type-IsFor : Yields IsFor (find_by_type_reference api at cluster target)
    unfolding find_by_type_reference
    by_type-IsFor = then-Yields IsFor _ _ (λ cached.
        only_one-All IsFor _ _ _
          (keep-All IsFor (is_composition_compatible api target) (λ c e. e) _))

    fits-IsFor :
        (selector : GoMap Text) (comp : Composition)
        → fits api at cluster target selector comp ≡ true
        → IsFor comp
    unfolding fits
    fits-IsFor selector comp e = ground (arith, e)

    wrapped-IsFor :
        (comp : Composition) → IsFor comp → Yields (OfSome IsFor) (lift (ok (some comp)))
    wrapped-IsFor comp h s none e = tt
    wrapped-IsFor comp h s (some c) e = subst IsFor (ground (arith, e)) h

    chosen-IsFor :
        (resource_id : Text) (m : Fields)
        → Yields IsFor (choose_by_labels api at cluster resource_id target m)
    unfolding choose_by_labels
    chosen-IsFor resource_id m =
        then-Yields IsFor _ _
          (λ cached. only_one-All IsFor _ _ _ (keep-All IsFor _ (fits-IsFor _) _))

    by_labels-IsFor :
        (resource_id : Text) (match_labels : Option Fields)
        → Yields (OfSome IsFor) (select_by_labels api at cluster resource_id target match_labels)
    unfolding select_by_labels
    by_labels-IsFor resource_id none s a e = none-OfSome IsFor s a e
    by_labels-IsFor resource_id (some m) s none e = tt
    by_labels-IsFor resource_id (some m) s (some c) e = elim (Bool-cases (is_empty_map m)) [
      | inl empty ↦ absurd (ground (arith, e, empty))
      | inr full ↦
          from-Yields (OfSome IsFor) (λ comp. lift (ok (some comp))) IsFor
            (choose_by_labels api at cluster resource_id target m) (chosen-IsFor resource_id m)
            wrapped-IsFor s (some c) (ground (arith, e, full))
    ]

    label_selector-IsFor :
        (xrd res : Fields) (resource_id : Text)
        → Yields (OfSome IsFor) (find_by_label_selector api at cluster xrd res target resource_id)
    unfolding find_by_label_selector
    label_selector-IsFor xrd res resource_id =
        then-Yields (OfSome IsFor) _ _ (by_labels-IsFor resource_id)

module _ {Expression Selector : Type 0} (labels : Labels Expression Selector) (api : Api)
    (at : Accessors) (cluster : ClusterReads) (definitions : DefinitionClient) where
  by_name-IsFor :
      (xrd res : Fields) (target : Gvk) (resource_id : Text) (name : Option Text)
      → Yields
          (OfSome (IsFor api cluster target))
          (find_by_name labels api at cluster xrd res target resource_id name)
  unfolding find_by_name
  by_name-IsFor xrd res target resource_id none = none-OfSome (IsFor api cluster target)
  by_name-IsFor xrd res target resource_id (some name) =
      then-Yields (OfSome (IsFor api cluster target))
        (λ comp. from_revision_or_direct api cluster name target resource_id comp) _
        (revision_or_direct-IsFor api cluster target name resource_id)

  direct-IsFor :
      (xrd res : Fields) (target : Gvk) (resource_id : Text)
      → Yields
          (OfSome (IsFor api cluster target))
          (find_by_direct_reference labels api at cluster xrd res target resource_id)
  unfolding find_by_direct_reference
  direct-IsFor xrd res target resource_id = by_name-IsFor xrd res target resource_id _

  find_for-IsFor :
      (res xrd : Fields) (target : Gvk)
      → Yields
          (IsFor api cluster target)
          (find_for labels api at cluster definitions res (xrd, target))
  unfolding find_for
  find_for-IsFor res xrd target =
      let id = id_of labels api at cluster definitions res in
      let by_type = find_by_type_reference api at cluster target in
      let rest : Stateful Composition =
        find_by_label_selector api at cluster xrd res target id
        >>= (λ selected. or_else_find selected by_type) in
      let rest_for : Yields (IsFor api cluster target) rest =
        from-Yields (IsFor api cluster target) (λ selected. or_else_find selected by_type)
          (OfSome (IsFor api cluster target)) _
          (label_selector-IsFor api cluster target at xrd res id)
          (λ selected h.
            or_else-IsFor api cluster target selected by_type h
              (by_type-IsFor api cluster target at)) in
      from-Yields (IsFor api cluster target) (λ direct. or_else_find direct rest)
        (OfSome (IsFor api cluster target)) _ (direct-IsFor xrd res target id)
        (λ direct h. or_else-IsFor api cluster target direct rest h rest_for)

  -- Every composition that FindMatchingComposition returns, by a direct reference, a revision, a
  -- label selector or the type alone, is for the type that the resource's XRD gives.
  pub find_matching_composition-IsFor :
      (res xrd : Fields) (target : Gvk)
      → target_of labels api at cluster definitions res
          (id_of labels api at cluster definitions res)
        ≡ ok (xrd, target)
      → (s : ClientState) (comp : Composition)
      → (find_matching_composition labels api at cluster definitions res s).1 ≡ ok comp
      → is_composition_compatible api target comp ≡ true
  unfolding find_matching_composition
  find_matching_composition-IsFor res xrd target h s comp e =
      find_for-IsFor res xrd target s comp (rw h at e)
