-- ===== src/Compare/Paths/Gone.antt =====
-- A path that was removed is gone, and the other fields of the object are as they were.
use mathlib.Core.Bool.{false≢true}
use crossplane_diff.Prelude.{
  ◌≡◌, refl, sym, subst, Bool, true, false, ◌&&◌, none, some, List, [], ◌∷◌, arith, Option-cases,
  inl, inr, if◌then◌else◌,
}
use crossplane_diff.Text.{Text, codes, text_eq, text_eq_self, contains, has_suffix, split}
use crossplane_diff.Objects.{
  Fields, Value, object, get, put, remove, has, is_empty_map, get-put, get-remove,
}
use crossplane_diff.Objects.Api.{Api, NestedLaws}
use crossplane_diff.Compare.Paths.{
  remove_field, remove_key_of, map_at, remove_map_key, remove_nested_path,
}

-- The second object is the first without the field that the path leads to: each map on the way is
-- there before and after, and has its other fields as before.
abbrev pub OnlyWithout : Text → List Text → Fields → Fields → Type 0
OnlyWithout k [] o o' = (get k o' ≡ none) × ((i : Text) → text_eq k i ≡ false → get i o' ≡ get i o)
OnlyWithout k (j ∷ p) o o' =
    ((i : Text) → text_eq k i ≡ false → get i o' ≡ get i o)
    × (m : Fields) × (m' : Fields) × (get k o ≡ some (object m))
    × (get k o' ≡ some (object m'))
    × OnlyWithout j p m m'

module _ (api : Api) (laws : NestedLaws api) where
  -- RemoveNestedField of a field that is there leaves no field there.
  removed_field :
      (p : List Text) (o : Fields) (k : Text) {v : Value}
      → api.nested_field o (k ∷ p) ≡ some v
      → api.nested_field (api.remove_nested_field o (k ∷ p)) (k ∷ p) ≡ none
  removed_field [] o k h =
      rw (laws.remove_here o k, laws.field_here (remove k o) k, get-remove k k o, text_eq_self k)
  removed_field (j ∷ p) o k h =
      let (m, at) = laws.field_through o k j p h in
      let after = put k (object (api.remove_nested_field m (j ∷ p))) o in
      let found : get k after ≡ some (object (api.remove_nested_field m (j ∷ p))) =
        rw (get-put k k (object (api.remove_nested_field m (j ∷ p))) o, text_eq_self k) in
      rw (laws.remove_below o m k j p at, laws.field_below after _ k j p found)
        (removed_field p m j (rw (laws.field_below o m k j p at) at h))

  -- RemoveNestedField of a field that is there changes no other field, at any depth.
  removed-OnlyWithout :
      (p : List Text) (o : Fields) (k : Text) {v : Value}
      → api.nested_field o (k ∷ p) ≡ some v
      → OnlyWithout k p o (api.remove_nested_field o (k ∷ p))
  removed-OnlyWithout [] o k h =
      rw (laws.remove_here o k)
        (rw (get-remove k k o, text_eq_self k) refl, λ i ne. rw (get-remove k i o, ne) refl)
  removed-OnlyWithout (j ∷ p) o k h =
      let (m, at) = laws.field_through o k j p h in
      let below = api.remove_nested_field m (j ∷ p) in
      rw (laws.remove_below o m k j p at) (
        λ i ne. rw (get-put k i (object below) o, ne) refl,
        m,
        below,
        at,
        rw (get-put k k (object below) o, text_eq_self k) refl,
        removed-OnlyWithout p m j (rw (laws.field_below o m k j p at) at h),
      )

  -- delete through the reference leaves the map without the key.
  deleted_key :
      (p : List Text) (o m : Fields) (k key : Text)
      → api.nested_field o (k ∷ p) ≡ some (object m)
      → api.nested_field (api.delete_at o (k ∷ p) key) (k ∷ p) ≡ some (object (remove key m))
  deleted_key [] o m k key h =
      let at : get k o ≡ some (object m) = rw (laws.field_here o k) at h in
      rw (
        laws.delete_here o m k key at,
        laws.field_here (put k (object (remove key m)) o) k,
        get-put k k (object (remove key m)) o,
        text_eq_self k,
      )
  deleted_key (j ∷ p) o m k key h =
      let (n, at) = laws.field_through o k j p h in
      let after = put k (object (api.delete_at n (j ∷ p) key)) o in
      let found : get k after ≡ some (object (api.delete_at n (j ∷ p) key)) =
        rw (get-put k k (object (api.delete_at n (j ∷ p) key)) o, text_eq_self k) in
      rw (laws.delete_below o n k j key p at, laws.field_below after _ k j p found)
        (deleted_key p n m j key (rw (laws.field_below o n k j p at) at h))

  abbrev FieldGone : Fields → Text → List Text → Fields × Bool → Type 0
  FieldGone o k p r = (api.nested_field r.0 (k ∷ p) ≡ none) × OnlyWithout k p o r.0

  remove_field-gone :
      (o : Fields) (k : Text) (p : List Text)
      → (remove_field api o (k ∷ p)).1 ≡ true
      → FieldGone o k p (remove_field api o (k ∷ p))
  unfolding remove_field
  remove_field-gone o k p done = elim (Option-cases (api.nested_field o (k ∷ p))) [
    | inl e ↦ absurd (false≢true (rw (e, remove_field) at done))
    | inr (v, e) ↦ rw (e, remove_field) (removed_field p o k e, removed-OnlyWithout p o k e)
  ]

  plain_path :
      (o : Fields) (path : Text)
      → (contains path (codes "[") && has_suffix path (codes "]")) ≡ false
      → (remove_nested_path api o path).1 ≡ true
      → remove_nested_path api o path ≡ remove_field api o (split b'.' path)
  unfolding remove_nested_path
  plain_path o [] plain done = absurd (false≢true done)
  plain_path o (c ∷ path) plain done = rw (plain, remove_nested_path)

  -- A path without brackets that removeNestedPath reports as removed leads nowhere afterwards, and
  -- every field that is not on the path is as it was, in the object and in each map on the way.
  pub removed_path_gone :
      (o : Fields) (path : Text) (k : Text) (p : List Text)
      → split b'.' path ≡ k ∷ p
      → (contains path (codes "[") && has_suffix path (codes "]")) ≡ false
      → (remove_nested_path api o path).1 ≡ true
      → (api.nested_field (remove_nested_path api o path).0 (k ∷ p) ≡ none)
        × OnlyWithout k p o (remove_nested_path api o path).0
  removed_path_gone o path k p parts plain done =
      let e : remove_nested_path api o path ≡ remove_field api o (k ∷ p) =
        subst (λ ps. remove_nested_path api o path ≡ remove_field api o ps) parts
          (plain_path o path plain done) in
      subst (FieldGone o k p) (sym e)
        (remove_field-gone o k p (subst (λ (r : Fields × Bool). r.1 ≡ true) e done))

  remove_key_of-gone :
      (o m : Fields) (k key : Text) (p : List Text)
      → api.nested_field o (k ∷ p) ≡ some (object m)
      → (remove_key_of api o (k ∷ p) key (some m)).1 ≡ true
      → api.nested_field (remove_key_of api o (k ∷ p) key (some m)).0 (k ∷ p)
        ≡ (if is_empty_map (remove key m) then none else some (object (remove key m)))
  unfolding remove_key_of
  remove_key_of-gone o m k key p at done =
      let deleted = deleted_key p o m k key at in
      let removed = removed_field p (api.delete_at o (k ∷ p) key) k deleted in
      ground (arith, deleted, removed)

  -- When a key of a map is reported as removed, the map that the path leads to afterwards, if there
  -- is one, does not have the key; a map with nothing else in it is removed whole.
  pub removed_key_gone :
      (o m : Fields) (k key : Text) (p : List Text)
      → api.nested_field o (k ∷ p) ≡ some (object m)
      → (remove_map_key api o (k ∷ p) key).1 ≡ true
      → (api.nested_field (remove_map_key api o (k ∷ p) key).0 (k ∷ p)
          ≡ (if is_empty_map (remove key m) then none else some (object (remove key m))))
        × (has key (remove key m) ≡ false)
  unfolding remove_map_key
  removed_key_gone o m k key p at done =
      let found : map_at api o (k ∷ p) ≡ some m = rw (at, map_at) in
      (
        rw found (remove_key_of-gone o m k key p at (rw (found, remove_map_key) at done)),
        unfold has in rw (get-remove key key m, text_eq_self key),
      )
