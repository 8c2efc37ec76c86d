-- ===== src/Manager/Owners/Deduped.antt =====
-- The owner references that are left where those whose key was seen are dropped.
use mathlib.Core.List.{Memᴰ}
use mathlib.Core.List.Memᴰ.{head, tail}
use crossplane_diff.Prelude.{
  ◌≡◌, ◌≢◌, ◌↔◌, refl, sym, ◌⊎◌, inl, inr, Bool, true, false, ◌||◌, List, [], ◌∷◌, arith, map, All,
  All-weaken, Bool-cases,
}
use crossplane_diff.Text.{Text, text_eq, text_eq_iff}
use crossplane_diff.GoMap.{GoMap, lookup, insert, lookup-insert}
use crossplane_diff.Calculator.Removed.{is_rendered}
use crossplane_diff.Manager.Owners.{OwnerReference, ref_key, dedupe}

-- No two references have the same key.
abbrev pub Distinct : List OwnerReference → Type 0
Distinct [] = Unit
Distinct (ref ∷ refs) = All (λ other. ref_key ref ≢ ref_key other) refs × Distinct refs

-- Some reference of the list has the key.
abbrev pub Keyed : Text → List OwnerReference → Type 0
Keyed key refs = Memᴰ key (map ref_key refs)

abbrev Seen : GoMap Bool → Text → Type 0
Seen seen key = is_rendered seen key ≡ true

seen-insert :
    (key other : Text) (seen : GoMap Bool)
    → is_rendered (insert key true seen) other ≡ (text_eq key other || is_rendered seen other)
unfolding is_rendered
seen-insert key other seen = elim (Bool-cases (text_eq key other)) [
  | inl e ↦ rw (is_rendered, lookup-insert key other true seen, e) refl
  | inr e ↦ rw (is_rendered, lookup-insert key other true seen, e) refl
]

dedupe_seen :
    (seen : GoMap Bool) (refs : List OwnerReference)
    → All (λ ref. is_rendered seen (ref_key ref) ≡ false) (dedupe seen refs)
unfolding dedupe
dedupe_seen seen [] = tt
dedupe_seen seen (ref ∷ refs) = elim (Bool-cases (is_rendered seen (ref_key ref))) [
  | inl e ↦ rw e (dedupe_seen seen refs)
  | inr e ↦ rw e (
    e,
    All-weaken _ _ (dedupe (insert (ref_key ref) true seen) refs)
        (λ other h. ground (arith, h, seen-insert (ref_key ref) (ref_key other) seen))
        (dedupe_seen (insert (ref_key ref) true seen) refs),
  )
]

pub dedupe-Distinct : (seen : GoMap Bool) (refs : List OwnerReference) → Distinct (dedupe seen refs)
unfolding dedupe
dedupe-Distinct seen [] = tt
dedupe-Distinct seen (ref ∷ refs) = elim (Bool-cases (is_rendered seen (ref_key ref))) [
  | inl e ↦ rw e (dedupe-Distinct seen refs)
  | inr e ↦ rw e (
    All-weaken _ _ (dedupe (insert (ref_key ref) true seen) refs)
        (λ other h same. absurd (
          ground (
            arith,
            h,
            seen-insert (ref_key ref) (ref_key other) seen,
            text_eq_iff (ref_key ref) (ref_key other),
            same,
          )))
        (dedupe_seen (insert (ref_key ref) true seen) refs),
    dedupe-Distinct (insert (ref_key ref) true seen) refs,
  )
]

dedupe_covers :
    (seen : GoMap Bool) (refs : List OwnerReference) (key : Text)
    → Keyed key refs
    → Seen seen key ⊎ Keyed key (dedupe seen refs)
unfolding dedupe
dedupe_covers seen [] key at = elim at [ ]
dedupe_covers seen (ref ∷ refs) key (head same) =
    elim (Bool-cases (is_rendered seen (ref_key ref))) [
      | inl e ↦ inl (rw same e)
      | inr e ↦ inr (rw e (head same))
    ]
dedupe_covers seen (ref ∷ refs) key (tail at) = elim (Bool-cases (is_rendered seen (ref_key ref))) [
  | inl e ↦ rw e (dedupe_covers seen refs key at)
  | inr e ↦ rw e (elim (dedupe_covers (insert (ref_key ref) true seen) refs key at) [
    | inr later ↦ inr (tail later)
    | inl now ↦ elim (Bool-cases (text_eq (ref_key ref) key)) [
      | inl same ↦ inr (head (sym ((text_eq_iff (ref_key ref) key).0 same)))
      | inr differs ↦ inl (ground (arith, now, seen-insert (ref_key ref) key seen))
    ]
  ])
]

behind_head :
    (key other : Text) (keys keys' : List Text)
    → (Memᴰ key keys → Memᴰ key keys')
    → Memᴰ key (other ∷ keys)
    → Memᴰ key (other ∷ keys')
behind_head key other keys keys' later (head same) = head same
behind_head key other keys keys' later (tail at) = tail (later at)

dedupe_within :
    (seen : GoMap Bool) (refs : List OwnerReference) (key : Text)
    → Keyed key (dedupe seen refs)
    → Keyed key refs
unfolding dedupe
dedupe_within seen [] key at = at
dedupe_within seen (ref ∷ refs) key at = elim (Bool-cases (is_rendered seen (ref_key ref))) [
  | inl e ↦ tail (dedupe_within seen refs key (rw e at at))
  | inr e ↦
      behind_head key (ref_key ref) (map ref_key (dedupe (insert (ref_key ref) true seen) refs))
        (map ref_key refs) (dedupe_within (insert (ref_key ref) true seen) refs key) (rw e at at)
]

pub All-dedupe :
    (P : OwnerReference → Type 0) (seen : GoMap Bool) (refs : List OwnerReference)
    → All P refs
    → All P (dedupe seen refs)
unfolding dedupe
All-dedupe P seen [] h = tt
All-dedupe P seen (ref ∷ refs) h = elim (Bool-cases (is_rendered seen (ref_key ref))) [
  | inl e ↦ rw e (All-dedupe P seen refs h.1)
  | inr e ↦ rw e (h.0, All-dedupe P (insert (ref_key ref) true seen) refs h.1)
]

nothing-Seen : (key : Text) → ¬ Seen [] key
unfolding is_rendered lookup
nothing-Seen key seen = absurd (ground (arith, seen))

pub dedupe-keys :
    (refs : List OwnerReference) (key : Text) → Keyed key refs ↔ Keyed key (dedupe [] refs)
dedupe-keys refs key = (covered, λ at. dedupe_within [] refs key at)
  where
    covered : Keyed key refs → Keyed key (dedupe [] refs)
    covered at = elim (dedupe_covers [] refs key at) [
      | inl seen ↦ absurd (nothing-Seen key seen)
      | inr found ↦ found
    ]
