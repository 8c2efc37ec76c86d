-- ===== src/GoMap.antt =====
-- Go maps with string keys, as association lists in which the first entry of a key counts.
-- The program never depends on the order of a map, so none of the statements does.
use crossplane_diff.Prelude.{
  ◌≡◌, refl, ◌∙◌, subst, Bool, true, false, ◌||◌, Option, none, some, List, [], ◌∷◌, arith, is_some,
  All, Bool-cases, inl, inr, if◌then◌else◌,
}
use crossplane_diff.Text.{Text, text_eq, text_eq_iff}

abbrev pub GoMap {ℓ} : Type ℓ → Type ℓ
GoMap V = List (Text × V)

module _ {ℓ} {V : Type ℓ} where
  -- v, ok := m[k]
  unfoldable pub lookup : Text → GoMap V → Option V
  lookup k [] = none
  lookup k ((j, v) ∷ m) = let rest = lookup k m in if text_eq j k then some v else rest

  -- _, exists := m[k]
  unfoldable pub has_key : Text → GoMap V → Bool
  unfolding lookup
  has_key k m = is_some (lookup k m)

  -- m[k] = v
  unfoldable pub insert : Text → V → GoMap V → GoMap V
  insert k v [] = (k, v) ∷ []
  insert k v ((j, w) ∷ m) =
      let rest = insert k v m in if text_eq j k then (k, v) ∷ m else (j, w) ∷ rest

  -- delete(m, k)
  unfoldable pub delete : Text → GoMap V → GoMap V
  delete k [] = []
  delete k ((j, w) ∷ m) = let rest = delete k m in if text_eq j k then rest else (j, w) ∷ rest

  -- maps.Copy(dst, src)
  unfoldable pub copy : GoMap V → GoMap V → GoMap V
  unfolding insert
  copy dst [] = dst
  copy dst ((k, v) ∷ src) = copy (insert k v dst) src

  pub lookup-insert :
      (k j : Text) (v : V) (m : GoMap V)
      → lookup j (insert k v m) ≡ (if text_eq k j then some v else lookup j m)
  unfolding lookup insert
  lookup-insert k j v [] = refl
  lookup-insert k j v ((i, w) ∷ m) =
      ground (arith, text_eq_iff k j, text_eq_iff i k, text_eq_iff i j, lookup-insert k j v m)

  pub lookup-delete :
      (k j : Text) (m : GoMap V)
      → lookup j (delete k m) ≡ (if text_eq k j then none else lookup j m)
  unfolding lookup delete
  lookup-delete k j [] = ground arith
  lookup-delete k j ((i, w) ∷ m) =
      ground (arith, text_eq_iff k j, text_eq_iff i k, text_eq_iff i j, lookup-delete k j m)

  -- What a copied map answers: the source's last entry of the key, else what was there.
  unfoldable pub last_of : Text → GoMap V → Option V → Option V
  last_of j [] o = o
  last_of j ((k, v) ∷ src) o = last_of j src (if text_eq k j then some v else o)

  pub lookup-copy :
      (j : Text) (dst src : GoMap V) → lookup j (copy dst src) ≡ last_of j src (lookup j dst)
  unfolding copy last_of
  lookup-copy j dst [] = refl
  lookup-copy j dst ((k, v) ∷ src) =
      lookup-copy j (insert k v dst) src ∙ rw (lookup-insert k j v dst)

  -- Every entry satisfies a predicate.
  abbrev pub Entries {κ} : (Text → V → Type κ) → GoMap V → Type κ
  Entries P m = All (λ e. P e.0 e.1) m

  pub Entries-insert {κ} :
      (P : Text → V → Type κ) (k : Text) (v : V) (m : GoMap V)
      → P k v
      → Entries P m
      → Entries P (insert k v m)
  unfolding insert
  Entries-insert P k v [] p h = (p, tt)
  Entries-insert P k v ((j, w) ∷ m) p h = elim (Bool-cases (text_eq j k)) [
    | inl e ↦ rw e (p, h.1)
    | inr e ↦ rw e (h.0, Entries-insert P k v m p h.1)
  ]

  pub Entries-copy {κ} :
      (P : Text → V → Type κ) (dst src : GoMap V)
      → Entries P dst
      → Entries P src
      → Entries P (copy dst src)
  unfolding copy
  Entries-copy P dst [] h g = h
  Entries-copy P dst ((k, v) ∷ src) h g =
      Entries-copy P (insert k v dst) src (Entries-insert P k v dst g.0 h) g.1

  pub lookup-Entries {κ} :
      (P : Text → V → Type κ) (k : Text) (m : GoMap V) {v : V}
      → Entries P m
      → lookup k m ≡ some v
      → P k v
  unfolding lookup
  lookup-Entries P k [] h e = absurd (ground arith)
  lookup-Entries P k ((j, w) ∷ m) {v} h e = elim (Bool-cases (text_eq j k)) [
    | inl same ↦
        let here : w ≡ v = ground (arith, e, same) in
        subst (λ x. P x v) ((text_eq_iff j k).0 same) (subst (λ y. P j y) here h.0)
    | inr other ↦ lookup-Entries P k m h.1 (rw other at e)
  ]

  pub has_key-insert :
      (k j : Text) (v : V) (m : GoMap V) → has_key j (insert k v m) ≡ (text_eq k j || has_key j m)
  unfolding has_key
  has_key-insert k j v m = ground (arith, lookup-insert k j v m)

  -- A copied map has the keys of both.
  pub has_key-copy :
      (j : Text) (dst src : GoMap V) → has_key j (copy dst src) ≡ (has_key j dst || has_key j src)
  unfolding copy has_key
  has_key-copy j dst [] = ground arith
  has_key-copy j dst ((k, v) ∷ src) =
      ground (arith, has_key-copy j (insert k v dst) src, lookup-insert k j v dst)

  -- A copied map answers as before for a key that the source does not have.
  pub lookup-copy_absent :
      (j : Text) (dst src : GoMap V)
      → has_key j src ≡ false
      → lookup j (copy dst src) ≡ lookup j dst
  unfolding copy has_key
  lookup-copy_absent j dst [] h = refl
  lookup-copy_absent j dst ((k, v) ∷ src) h = elim (Bool-cases (text_eq k j)) [
    | inl e ↦ absurd (ground (arith, h, e))
    | inr e ↦
        lookup-copy_absent j (insert k v dst) src (ground (arith, h, e))
        ∙ rw (lookup-insert k j v dst, e)
  ]

  -- For a key of the source it answers with an entry of the source.
  pub lookup-copy_present {κ} :
      (P : Text → V → Type κ) (j : Text) (dst src : GoMap V)
      → Entries P src
      → has_key j src ≡ true
      → (v : V) × (lookup j (copy dst src) ≡ some v) × P j v
  unfolding copy has_key
  lookup-copy_present P j dst [] h g = absurd (ground (arith, g))
  lookup-copy_present P j dst ((k, v) ∷ src) h g = elim (Bool-cases (has_key j src)) [
    | inl e ↦ lookup-copy_present P j (insert k v dst) src h.1 e
    | inr e ↦
        let same : text_eq k j ≡ true = ground (arith, g, e) in
        (
          v,
          lookup-copy_absent j (insert k v dst) src e ∙ rw (lookup-insert k j v dst, same),
          subst (λ x. P x v) ((text_eq_iff k j).0 same) h.0,
        )
  ]
