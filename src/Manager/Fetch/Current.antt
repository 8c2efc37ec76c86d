-- ===== src/Manager/Fetch/Current.antt =====
-- Which object FetchCurrentObject returns.
use crossplane_diff.Prelude.{
  ◌≡◌, ◌≢◌, ◌↔◌, refl, subst, ◌⊎◌, inl, inr, Bool, true, false, Option, none, some, arith,
  Bool-cases, Option-cases,
}
use crossplane_diff.Text.{Text, text_eq, text_eq_iff, is_empty}
use crossplane_diff.GoMap.{GoMap, lookup}
use crossplane_diff.Preserve.{label_composite}
use crossplane_diff.Objects.{Fields}
use crossplane_diff.Objects.Api.{Api}
use crossplane_diff.Errors.Tree.{GoError}
use crossplane_diff.Result.{Result, ok, err, panic}
use crossplane_diff.Manager.Fetch.{
  ResourceReads, check_composite_ownership, listed, lookup_by_composite, or_new, fetch_by_composite,
  after_lookup, fetch_current_object,
}
use crossplane_diff.Manager.Fetch.Labels.{ByLabels, lookup_by_composite-ByLabels}

module _ (api : Api) (reads : ResourceReads) (desired : Fields) where
  abbrev generate_name : Text
  generate_name = api.get_generate_name desired

  -- What the lookup by labels returns, without a composite and with one.
  abbrev pub ByOwner : Option Fields → Result (Option Fields) → Type 0
  ByOwner none (ok none) = Unit
  ByOwner none _ = ⊥
  ByOwner (some composite) (ok (some res)) = ByLabels api reads desired composite (ok (some res))
  ByOwner (some composite) (ok none) =
      ByLabels api reads desired composite (ok none)
      ⊎ ((e : GoError) × (listed api reads composite desired ≡ err e)
          × (is_empty generate_name ≡ false))
  ByOwner (some composite) (err e) =
      ByLabels api reads desired composite (err e) × (is_empty generate_name ≡ true)
  ByOwner (some composite) panic = ByLabels api reads desired composite panic

  or_new-ByOwner :
      (composite : Fields) (r : Result (Option Fields))
      → ByLabels api reads desired composite r
      → ByOwner (some composite) (or_new api reads generate_name r)
  unfolding or_new
  or_new-ByOwner composite (ok (some res)) h = h
  or_new-ByOwner composite (ok none) h = inl h
  or_new-ByOwner composite panic h = h
  or_new-ByOwner composite (err e) h = elim (Bool-cases (is_empty generate_name)) [
    | inl g ↦
        let same : err e ≡ or_new api reads generate_name (err e) = rw (or_new, g) refl in
        subst (λ (r : Result (Option Fields)). ByOwner (some composite) r) same (h, g)
    | inr g ↦
        let same : ok none ≡ or_new api reads generate_name (err e) = rw (or_new, g) refl in
        subst (λ (r : Result (Option Fields)). ByOwner (some composite) r) same (inr (e, h, g))
  ]

  fetch_by_composite-ByOwner :
      (composite : Option Fields)
      → ByOwner composite (fetch_by_composite api reads composite desired)
  unfolding fetch_by_composite
  fetch_by_composite-ByOwner none = tt
  fetch_by_composite-ByOwner (some composite) =
      or_new-ByOwner composite (lookup_by_composite api reads composite desired)
        (lookup_by_composite-ByLabels api reads desired composite)

  abbrev by_name : Result (Option Fields)
  by_name =
      reads.get_resource (api.group_version_kind desired) (api.get_namespace desired)
        (api.get_name desired)

  -- The lookup by name does not decide: there is no name, or nothing has it.
  abbrev pub Undecided : Type 0
  Undecided =
      (is_empty (api.get_name desired) ≡ true)
      ⊎ ((by_name ≡ ok none) ⊎ ((e : GoError) × (by_name ≡ err e) × (reads.is_not_found e ≡ true)))

  -- The object carries the composite label of a composite with another name than this one.
  abbrev pub OwnedByOther : Option Fields → Fields → Type 0
  OwnedByOther composite res =
      (c : Fields) × (composite ≡ some c)
      × (labels : GoMap Text) × (api.get_labels res ≡ some labels)
      × (owner : Text) × (lookup label_composite labels ≡ some owner)
      × (owner ≢ api.get_name c)

  warned-OwnedByOther :
      (composite : Option Fields) (res : Fields)
      → check_composite_ownership api res composite ≡ true
      → OwnedByOther composite res
  unfolding check_composite_ownership
  warned-OwnedByOther none res e = absurd (ground (arith, e))
  warned-OwnedByOther (some c) res e = elim (Option-cases (api.get_labels res)) [
    | inl none_there ↦ absurd (ground (arith, e, none_there))
    | inr (labels, at) ↦ elim (Option-cases (lookup label_composite labels)) [
      | inl none_there ↦ absurd (ground (arith, e, at, none_there))
      | inr (owner, owned_by) ↦ (
        c,
        refl,
        labels,
        at,
        owner,
        owned_by,
        λ same. absurd (ground (arith, e, at, owned_by, text_eq_iff owner (api.get_name c), same)),
      )
    ]
  ]

  OwnedByOther-warned :
      (composite : Option Fields) (res : Fields)
      → OwnedByOther composite res
      → check_composite_ownership api res composite ≡ true
  unfolding check_composite_ownership
  OwnedByOther-warned composite res (c, given, labels, at, owner, owned_by, differs) =
      let other : text_eq owner (api.get_name c) ≡ false =
        ground (arith, text_eq_iff owner (api.get_name c), differs) in
      rw (given, check_composite_ownership, at, owned_by, other) refl

  -- Which way the outcome of FetchCurrentObject was found, and whether the user is warned.
  pub data Outcome (composite : Option Fields) : Bool × Result (Option Fields) → Type 0 where
    named :
        {res : Fields} {warned : Bool}
        → is_empty (api.get_name desired) ≡ false
        → by_name ≡ ok (some res)
        → (warned ≡ true) ↔ OwnedByOther composite res
        → Outcome composite (warned, ok (some res))
    failed :
        {e : GoError}
        → is_empty (api.get_name desired) ≡ false
        → by_name ≡ err e
        → reads.is_not_found e ≡ false
        → Outcome composite (false, err e)
    stopped : by_name ≡ panic → Outcome composite (false, panic)
    owned :
        {r : Result (Option Fields)}
        → Undecided
        → ByOwner composite r
        → Outcome composite (false, r)

  after_lookup-Outcome :
      (composite : Option Fields) (r : Result (Option Fields))
      → is_empty (api.get_name desired) ≡ false
      → by_name ≡ r
      → Outcome composite (after_lookup api reads composite desired r)
  unfolding after_lookup
  after_lookup-Outcome composite (ok (some res)) filled e =
      named filled e (warned-OwnedByOther composite res, OwnedByOther-warned composite res)
  after_lookup-Outcome composite (ok none) filled e =
      owned (inr (inl e)) (fetch_by_composite-ByOwner composite)
  after_lookup-Outcome composite panic filled e = stopped e
  after_lookup-Outcome composite (err f) filled e = elim (Bool-cases (reads.is_not_found f)) [
    | inl n ↦ rw n (owned (inr (inr (f, e, n))) (fetch_by_composite-ByOwner composite))
    | inr n ↦ rw n (failed filled e n)
  ]

  -- FetchCurrentObject returns the object with the desired name, or the error of that lookup.
  -- Where there is no name, or nothing has it, it returns a resource with the owner's labels
  -- that matches the composition resource name and the generateName; it returns a new object
  -- only where none of them matches, where they are not asked for, or where their listing fails
  -- for an object with a generateName, and that failure otherwise. The user is warned exactly
  -- where the object was found by its name and carries the composite label of another composite.
  pub fetch_current_object-Outcome :
      (composite : Option Fields)
      → Outcome composite (fetch_current_object api reads composite desired)
  unfolding fetch_current_object
  fetch_current_object-Outcome composite = elim (Bool-cases (is_empty (api.get_name desired))) [
    | inl e ↦ rw e (owned (inl e) (fetch_by_composite-ByOwner composite))
    | inr e ↦ rw e (after_lookup-Outcome composite by_name e refl)
  ]
