-- ===== src/Ref/Parsed.antt =====
-- The names that Format writes are read back by Parse.
use crossplane_diff.Prelude.{
  ◌≡◌, refl, ◌≢◌, ℕ, Bool, true, false, not, [], ◌∷◌, ◌++◌, arith, all, ◌==◌,
}
use crossplane_diff.Text.{Text, split}
use crossplane_diff.Result.{ok}
use crossplane_diff.Ref.{
  is_space, trim_left, trim_right, trim_space, trim_parts, of_parts, parse, format,
}

-- No white space in the text, and no slash.
unfoldable pub no_space : Text → Bool
no_space s = all (λ c. not (is_space c)) s

unfoldable pub no_slash : Text → Bool
no_slash s = all (λ c. not (c == b'/')) s

trim_right-no_space : (s : Text) → no_space s ≡ true → trim_right s ≡ s
unfolding no_space trim_right
trim_right-no_space [] h = refl
trim_right-no_space (c ∷ s) h = ground (arith, h, trim_right-no_space s (ground (arith, h)))

trim_left-no_space : (s : Text) → no_space s ≡ true → trim_left s ≡ s
unfolding no_space trim_left
trim_left-no_space [] h = refl
trim_left-no_space (c ∷ s) h = ground (arith, h)

trim_space-no_space : (s : Text) → no_space s ≡ true → trim_space s ≡ s
unfolding trim_space
trim_space-no_space s h = rw (trim_left-no_space s h) (trim_right-no_space s h)

split-no_slash : (s : Text) → no_slash s ≡ true → split b'/' s ≡ s ∷ []
unfolding split no_slash
split-no_slash [] h = refl
split-no_slash (c ∷ s) h =
    let rest = split-no_slash s (ground (arith, h)) in ground (arith, h, rest)

split-two :
    (s t : Text)
    → no_slash s ≡ true
    → no_slash t ≡ true
    → split b'/' (s ++ (b'/' ∷ t)) ≡ s ∷ (t ∷ [])
unfolding split no_slash
split-two [] t h g = ground (arith, split-no_slash t g)
split-two (c ∷ s) t h g = let rest = split-two s t (ground (arith, h)) g in ground (arith, h, rest)

slash_is_no_space : is_space b'/' ≡ false
unfolding is_space
slash_is_no_space = refl

no_space-slash :
    (s t : Text) → no_space s ≡ true → no_space t ≡ true → no_space (s ++ (b'/' ∷ t)) ≡ true
unfolding no_space
no_space-slash [] t h g = rw slash_is_no_space g
no_space-slash (c ∷ s) t h g = ground (arith, h, no_space-slash s t (ground (arith, h)) g)

module _ (quote : Text → Text) (decimal : ℕ → Text) where
  -- A name that is not empty, with no white space and no slash in it or in its namespace, is read
  -- back as it was written: bare without a namespace, else behind it.
  pub parse-format :
      (namespace name : Text)
      → name ≢ []
      → no_space name ≡ true
      → no_space namespace ≡ true
      → no_slash name ≡ true
      → no_slash namespace ≡ true
      → parse quote decimal (format (record { namespace = namespace; name = name }))
        ≡ ok (record { namespace = namespace; name = name })
  unfolding parse format of_parts trim_parts
  parse-format ns [] ne h h' g g' = absurd (ne refl)
  parse-format [] (c ∷ s) ne h h' g g' =
      let t = trim_space-no_space (c ∷ s) h in rw (t, split-no_slash (c ∷ s) g, t)
  parse-format (d ∷ ns) (c ∷ s) ne h h' g g' = rw (
    trim_space-no_space (d ∷ (ns ++ (b'/' ∷ (c ∷ s)))) (no_space-slash (d ∷ ns) (c ∷ s) h' h),
    split-two (d ∷ ns) (c ∷ s) g' g,
    trim_space-no_space (d ∷ ns) h',
    trim_space-no_space (c ∷ s) h,
  )
