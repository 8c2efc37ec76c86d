-- ===== src/Calculator/Removed/Exact.antt =====
-- What the walk finds: exactly the composed resources of the tree that were not rendered.
use crossplane_diff.Prelude.{
  ◌≡◌, refl, ◌⊎◌, inl, inr, Bool, true, false, none, some, [], arith, Bool-cases,
}
use crossplane_diff.Text.{Text, text_eq_self}
use crossplane_diff.GoMap.{GoMap, has_key, insert, Entries, Entries-insert, has_key-insert}
use crossplane_diff.Objects.{Fields}
use crossplane_diff.Objects.Api.{Api}
use crossplane_diff.Types.Key.{ResourceDiff, removed, make_diff_key_from_resource, get_diff_key}
use crossplane_diff.Result.{Result, ok, err, panic, ◌>>=◌}
use crossplane_diff.Formatter.Lines.{DiffOptions}
use crossplane_diff.Compare.Generate.{Comparer, generate_diff}
use crossplane_diff.Compare.Generate.Total.{
  ComparerLaws, IsDiffOf, generate_diff_total, removed_diff-key,
}
use crossplane_diff.Calculator.Single.{Node, node, Nodes, leaf, branch}
use crossplane_diff.Calculator.Removed.{is_gone, visit, find_removed_resources, find_below}

-- The object stands in the tree.
unfoldable mutual
  pub InNode : Fields → Node → Type 0
  InNode o (node p children) = (o ≡ p) ⊎ InNodes o children

  pub InNodes : Fields → Nodes → Type 0
  InNodes o leaf = ⊥
  InNodes o (branch n ns) = InNode o n ⊎ InNodes o ns

-- An object's API version and kind are the ones of its GroupVersionKind, as for every object with
-- a well-formed apiVersion.
abbrev pub IsKeyed : Api → Fields → Type 0
IsKeyed api o =
    (api.group_version (api.group_version_kind o) ≡ api.get_api_version o)
    × ((api.group_version_kind o).kind ≡ api.get_kind o)

module _ (xr_synthesis_suffix : Text) (api : Api) (lib : Comparer) (laws : ComparerLaws lib)
    (diff_options : DiffOptions) (rendered : GoMap Bool) (root : Nodes) where
  abbrev gone : Fields → Bool
  gone = is_gone xr_synthesis_suffix api lib diff_options rendered

  abbrev key_of : Fields → Text
  key_of = make_diff_key_from_resource api

  -- An entry of the result: the diff that removes an object of the tree, at the object's key.
  abbrev pub IsRemoval : Text → ResourceDiff → Type 0
  IsRemoval k d =
      (o : Fields) × InNodes o root
      × (gone o ≡ true)
      × (d.diff_type ≡ removed)
      × (d.current.raw ≡ some o)
      × (d.desired.raw ≡ none)
      × (k ≡ key_of o)

  -- What a part of the walk does to the diffs so far: it keeps the keys, adds removals only, and
  -- has the key of every removed object of the part.
  abbrev Walk : (Fields → Type 0) → GoMap ResourceDiff → Result (GoMap ResourceDiff) → Type 0
  Walk In r (ok r') =
      ((k : Text) → has_key k r ≡ true → has_key k r' ≡ true)
      × (Entries IsRemoval r → Entries IsRemoval r')
      × ((o : Fields) → In o → gone o ≡ true → has_key (key_of o) r' ≡ true)
  Walk In r (err e) = ⊥
  Walk In r panic = ⊥

  removal_found :
      (o : Fields)
      → (res : Result ResourceDiff)
      → generate_diff xr_synthesis_suffix api lib (some o) none diff_options ≡ res
      → IsDiffOf xr_synthesis_suffix api lib laws (some o) none res
      → (d : ResourceDiff) × (generate_diff xr_synthesis_suffix api lib (some o) none diff_options
          ≡ ok d)
        × (d.diff_type ≡ removed)
        × (d.current.raw ≡ some o)
        × (d.desired.raw ≡ none)
  removal_found o (ok d) e (type, current, desired) = (d, e, type, current, desired)
  removal_found o (err e') e h = absurd h
  removal_found o panic e h = absurd h

  -- A visit goes on below the node, with the removal of its object if it is gone.
  visit-gone :
      (o : Fields) (r : GoMap ResourceDiff)
      → IsKeyed api o
      → gone o ≡ true
      → InNodes o root
      → (d : ResourceDiff) × IsRemoval (key_of o) d
        × (visit xr_synthesis_suffix api lib diff_options rendered o r
            ≡ ok (insert (key_of o) d r, true))
  unfolding visit
  visit-gone o r keyed g at =
      let total =
        generate_diff_total xr_synthesis_suffix api lib laws (some o) none diff_options
          (inl (λ h. ground (arith, h))) in
      let (d, e, type, current, desired) = removal_found o _ refl total in
      let same : get_diff_key api d ≡ key_of o =
        removed_diff-key xr_synthesis_suffix api lib laws o diff_options keyed.0 keyed.1 e in
      (d, (o, at, g, type, current, desired, refl), rw (g, visit, e, same))

  visit_kept :
      (o : Fields) (r : GoMap ResourceDiff)
      → gone o ≡ false
      → visit xr_synthesis_suffix api lib diff_options rendered o r ≡ ok (r, true)
  unfolding visit
  visit_kept o r g = rw g

  Walk-below :
      (o : Fields) (children : Nodes) (r r1 : GoMap ResourceDiff)
      (res : Result (GoMap ResourceDiff))
      → ((k : Text) → has_key k r ≡ true → has_key k r1 ≡ true)
      → (Entries IsRemoval r → Entries IsRemoval r1)
      → (gone o ≡ true → has_key (key_of o) r1 ≡ true)
      → Walk (λ p. InNodes p children) r1 res
      → Walk (λ p. InNode p (node o children)) r res
  unfolding InNode
  Walk-below o children r r1 (ok r') keeps adds here (keeps', adds', all) = (
    λ k h. keeps' k (keeps k h),
    λ h. adds' (adds h),
    λ p at g. elim at [
      | inl e ↦ keeps' (key_of p) (rw e (here (rw e at g)))
      | inr below ↦ all p below g
    ],
  )
  Walk-below o children r r1 (err e) keeps adds here walk = walk
  Walk-below o children r r1 panic keeps adds here walk = walk

  Walk-then :
      (n : Node) (ns : Nodes) (r : GoMap ResourceDiff) (res : Result (GoMap ResourceDiff))
      → Walk (λ p. InNode p n) r res
      → ((r1 : GoMap ResourceDiff)
          → Walk
              (λ p. InNodes p ns)
              r1
              (find_below xr_synthesis_suffix api lib diff_options rendered ns r1))
      → Walk
          (λ p. InNodes p (branch n ns))
          r
          (res >>= (λ r1. find_below xr_synthesis_suffix api lib diff_options rendered ns r1))
  unfolding InNodes
  Walk-then n ns r (ok r1) (keeps, adds, all) rest =
      both (find_below xr_synthesis_suffix api lib diff_options rendered ns r1) (rest r1)
    where
      both :
          (res : Result (GoMap ResourceDiff))
          → Walk (λ p. InNodes p ns) r1 res
          → Walk (λ p. InNodes p (branch n ns)) r res
      both (ok r') (keeps', adds', all') = (
        λ k h. keeps' k (keeps k h),
        λ h. adds' (adds h),
        λ p at g. elim at [
          | inl first ↦ keeps' (key_of p) (all p first g)
          | inr later ↦ all' p later g
        ],
      )
      both (err e) h = h
      both panic h = h
  Walk-then n ns r (err e) walk rest = absurd walk
  Walk-then n ns r panic walk rest = absurd walk

  mutual
    unfolding find_removed_resources InNode

    Walk-node :
        (n : Node) (r : GoMap ResourceDiff)
        → ((o : Fields) → InNode o n → InNodes o root × IsKeyed api o)
        → Walk
            (λ p. InNode p n)
            r
            (find_removed_resources xr_synthesis_suffix api lib diff_options rendered n r)
    Walk-node (node o children) r inside = elim (Bool-cases (gone o)) [
      | inr g ↦ rw (visit_kept o r g) (
          Walk-below o children r r _ (λ k h. h) (λ h. h) (λ g'. absurd (ground (arith, g, g')))
            (Walk-nodes children r (λ p at. inside p (inr at))))
      | inl g ↦
          let (at, keyed) = inside o (inl refl) in
          let (d, removal, e) = visit-gone o r keyed g at in
          rw e (
            Walk-below o children r (insert (key_of o) d r) _
              (λ k h. ground (arith, has_key-insert (key_of o) k d r, h))
              (λ h. Entries-insert IsRemoval (key_of o) d r removal h)
              (λ g'. rw (has_key-insert (key_of o) (key_of o) d r, text_eq_self (key_of o)))
              (Walk-nodes children (insert (key_of o) d r) (λ p at'. inside p (inr at'))))
    ]

    Walk-nodes :
        (ns : Nodes) (r : GoMap ResourceDiff)
        → ((o : Fields) → InNodes o ns → InNodes o root × IsKeyed api o)
        → Walk
            (λ p. InNodes p ns)
            r
            (find_below xr_synthesis_suffix api lib diff_options rendered ns r)
    Walk-nodes leaf r inside = (λ k h. h, λ h. h, λ o at g. absurd at)
    Walk-nodes (branch n ns) r inside =
        Walk-then n ns r
          (find_removed_resources xr_synthesis_suffix api lib diff_options rendered n r)
          (Walk-node n r (λ o at. inside o (inl at)))
          (λ r1. Walk-nodes ns r1 (λ o at. inside o (inr at)))

  -- The removals that a walk from no diffs finds.
  abbrev pub IsExact : Result (GoMap ResourceDiff) → Type 0
  IsExact (ok r) =
      Entries IsRemoval r
      × ((o : Fields) → InNodes o root → gone o ≡ true → has_key (key_of o) r ≡ true)
  IsExact (err e) = ⊥
  IsExact panic = ⊥

  IsExact-of : (res : Result (GoMap ResourceDiff)) → Walk (λ p. InNodes p root) [] res → IsExact res
  IsExact-of (ok r) (keeps, adds, all) = (adds tt, all)
  IsExact-of (err e) walk = walk
  IsExact-of panic walk = walk

  -- Where the resources of the tree have well-formed API versions, the walk of the tree below the XR
  -- returns diffs: each is of type removed, of a composed
  -- resource of the tree whose key was not rendered, at that key; and every such resource has one.
  pub find_below-IsExact :
      ((o : Fields) → InNodes o root → IsKeyed api o)
      → IsExact (find_below xr_synthesis_suffix api lib diff_options rendered root [])
  find_below-IsExact keyed =
      IsExact-of (find_below xr_synthesis_suffix api lib diff_options rendered root [])
        (Walk-nodes root [] (λ o at. (at, keyed o at)))
