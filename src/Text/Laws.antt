-- ===== src/Text/Laws.antt =====
-- Laws of the text functions.
use crossplane_diff.Prelude.{
  ◌≡◌, refl, true, some, [], ◌∷◌, ◌++◌, ℕ, List, ◌==◌, arith, Option-cases, Bool-cases, inl, inr,
}
use crossplane_diff.Text.{Text, cut_prefix, cut, contains, split}

pub cut_prefix-nil : (s : Text) → cut_prefix s [] ≡ some s
unfolding cut_prefix
cut_prefix-nil [] = refl
cut_prefix-nil (c ∷ s) = refl

pub cut_prefix-append : (p s : Text) → cut_prefix (p ++ s) p ≡ some s
unfolding cut_prefix
cut_prefix-append [] [] = refl
cut_prefix-append [] (c ∷ s) = refl
cut_prefix-append (c ∷ p) s = ground (arith, cut_prefix-append p s)

pub cut_prefix_sound : (s p r : Text) → cut_prefix s p ≡ some r → s ≡ p ++ r
unfolding cut_prefix
cut_prefix_sound [] [] r h = ground arith
cut_prefix_sound (c ∷ s) [] r h = ground arith
cut_prefix_sound [] (d ∷ p) r h = absurd (ground arith)
cut_prefix_sound (c ∷ s) (d ∷ p) r h = ground (arith, cut_prefix_sound s p r)

pub cut_sound : (s sep b r : Text) → cut s sep ≡ some (b, r) → s ≡ b ++ (sep ++ r)
unfolding cut
cut_sound [] sep b r h = ground (arith, cut_prefix_sound [] sep r)
cut_sound (c ∷ s) sep [] r h = elim (Option-cases (cut_prefix (c ∷ s) sep)) [
  | inl e ↦ absurd (ground arith)
  | inr (a, e) ↦ ground (arith, cut_prefix_sound (c ∷ s) sep r)
]
cut_sound (c ∷ s) sep (d ∷ b) r h = elim (Option-cases (cut_prefix (c ∷ s) sep)) [
  | inl e ↦ ground (arith, cut_sound s sep b r)
  | inr (a, e) ↦ absurd (ground arith)
]

pub contains_middle : (a sep b : Text) → contains (a ++ (sep ++ b)) sep ≡ true
unfolding contains cut
contains_middle [] [] [] = refl
contains_middle [] [] (c ∷ b) = refl
contains_middle [] (c ∷ sep) b = ground (arith, cut_prefix-append (c ∷ sep) b)
contains_middle (c ∷ a) sep b = ground (arith, contains_middle a sep b)

-- A split text has a first part.
pub split-cons : (sep : ℕ) (s : Text) → (w : Text) × (ws : List Text) × (split sep s ≡ w ∷ ws)
unfolding split
split-cons sep [] = ([], [], refl)
split-cons sep (c ∷ s) =
    let (w, ws, e) = split-cons sep s in
    elim (Bool-cases (c == sep)) [
      | inl h ↦ ([], w ∷ ws, rw (h, e))
      | inr h ↦ (c ∷ w, ws, rw (h, e))
    ]
