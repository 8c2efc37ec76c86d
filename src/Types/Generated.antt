-- ===== src/Types/Generated.antt =====
-- Names that the tool or the render binary made up (renderer/types/types.go).
use Prim.Native.Nat.{◌%◌}
use crossplane_diff.Prelude.{
  ℕ, ◌+◌, ◌≡◌, refl, subst, inl, inr, Bool, true, false, not, ◌&&◌, ◌||◌, none, some, [], ◌∷◌, ◌++◌,
  map, arith, ◌==◌, leb, length, all, append_assoc, Option-cases, if◌then◌else◌,
}
use crossplane_diff.Text.{
  Text, codes, text_eq, is_empty, cut_prefix, has_suffix, trim_suffix, cut, contains,
}
use crossplane_diff.Text.Laws.{cut_prefix-append, cut_prefix_sound, contains_middle}

abbrev pub generated_suffix_len : ℕ
generated_suffix_len = 12

-- strings.ToLower and hex.DecodeString on one byte.
unfoldable pub to_lower : ℕ → ℕ
to_lower c = if leb b'A' c && leb c b'Z' then c + 32 else c

unfoldable pub is_hex_digit : ℕ → Bool
is_hex_digit c =
    (leb b'0' c && leb c b'9') || (leb b'a' c && leb c b'f') || (leb b'A' c && leb c b'F')

-- isLowerHex
unfoldable pub is_lower_hex : Text → ℕ → Bool
unfolding to_lower is_hex_digit
is_lower_hex s n =
    if not (length s == n) || not (text_eq s (map to_lower s))
    then false
    else (length s % 2 == 0) && all is_hex_digit s

-- The two lines that add a missing dash.
unfoldable pub with_dash : Text → Text
with_dash gen = if has_suffix gen (codes "-") then gen else gen ++ codes "-"

-- The middle of LooksLikeGeneratedName and GeneratedDisplayName: is name the dashed generateName
-- and a suffix of 12 lowercase hex digits?
unfoldable pub has_generated_shape : Text → Text → Bool
has_generated_shape name generate_name = elim (cut_prefix name (with_dash generate_name)) [
  | some suffix ↦ is_lower_hex suffix generated_suffix_len
  | none ↦ false
]

-- The suffix that xrSynthesisSuffix hashes, a SHA-256 digest's first digits, is a parameter.
module _ (xr_synthesis_suffix : Text) where
  -- SynthesizeGeneratedName
  unfoldable pub synthesize_generated_name : Text → Text
  synthesize_generated_name parent = with_dash parent ++ xr_synthesis_suffix

  -- LooksLikeGeneratedName
  unfoldable pub looks_like_generated_name : Text → Text → Bool
  looks_like_generated_name name generate_name =
      if is_empty name
      then false
      else if not (is_empty generate_name) && has_generated_shape name generate_name
      then true
      else contains name xr_synthesis_suffix

  -- GeneratedDisplayName
  unfoldable pub generated_display_name : Text → Text → Text
  generated_display_name name generate_name =
      if not (is_empty generate_name) && has_generated_shape name generate_name
      then generate_name ++ codes "(generated)"
      else elim (cut name xr_synthesis_suffix) [
        | some (before, _) ↦ trim_suffix before (codes "-") ++ codes "-(generated)"
        | none ↦ trim_suffix name (codes "-") ++ codes "-(generated)"
      ]

has_generated_shape-append :
    (gen h : Text)
    → is_lower_hex h generated_suffix_len ≡ true
    → has_generated_shape (with_dash gen ++ h) gen ≡ true
unfolding has_generated_shape
has_generated_shape-append gen h k = ground (arith, cut_prefix-append (with_dash gen) h)

is_empty-with_dash : (gen h : Text) → is_empty (with_dash gen ++ h) ≡ false
unfolding with_dash has_suffix
is_empty-with_dash [] h = ground arith
is_empty-with_dash (c ∷ gen) h = ground arith

-- A name in the shape of the render binary, the dashed generateName and 12 lowercase hex digits,
-- is recognised as generated and shown as generateName with "(generated)".
pub generated_name-shown :
    (xr_synthesis_suffix gen h : Text)
    → is_empty gen ≡ false
    → is_lower_hex h generated_suffix_len ≡ true
    → (looks_like_generated_name xr_synthesis_suffix (with_dash gen ++ h) gen ≡ true)
      × (generated_display_name xr_synthesis_suffix (with_dash gen ++ h) gen
          ≡ gen ++ codes "(generated)")
unfolding looks_like_generated_name generated_display_name
generated_name-shown suffix gen h g k =
    ground (arith, has_generated_shape-append gen h k, is_empty-with_dash gen h)

is_empty-before_dash : (before gen h : Text) → is_empty (before ++ (with_dash gen ++ h)) ≡ false
is_empty-before_dash [] gen h = is_empty-with_dash gen h
is_empty-before_dash (c ∷ before) gen h = refl

-- A name into which a template copied a synthesized XR name is recognised as generated, whatever
-- stands around it and whatever its own generateName.
pub synthesized_name-embedded :
    (xr_synthesis_suffix before parent rest generate_name : Text)
    → looks_like_generated_name xr_synthesis_suffix
        (before ++ (synthesize_generated_name xr_synthesis_suffix parent ++ rest))
        generate_name
      ≡ true
unfolding looks_like_generated_name synthesize_generated_name
synthesized_name-embedded suffix before parent rest gen =
    let name : Text = before ++ (with_dash parent ++ (suffix ++ rest)) in
    let found : contains name suffix ≡ true =
      subst (λ t. contains t suffix ≡ true)
        (append_assoc before (with_dash parent) (suffix ++ rest))
        (contains_middle (before ++ with_dash parent) suffix rest) in
    rw append_assoc (ground (arith, found, is_empty-before_dash before parent (suffix ++ rest)))

-- A name that is recognised as generated and holds no synthesis suffix is its dashed generateName
-- and 12 lowercase hex digits: no other name is hidden from the diff.
pub looks_like_generated_name_sound :
    (xr_synthesis_suffix name generate_name : Text)
    → contains name xr_synthesis_suffix ≡ false
    → looks_like_generated_name xr_synthesis_suffix name generate_name ≡ true
    → (h : Text) × (name ≡ with_dash generate_name ++ h)
      × (is_lower_hex h generated_suffix_len ≡ true)
unfolding looks_like_generated_name has_generated_shape
looks_like_generated_name_sound suffix name gen c l =
    elim (Option-cases (cut_prefix name (with_dash gen))) [
      | inl e ↦ absurd (ground arith)
      | inr (h, e) ↦ (h, cut_prefix_sound name (with_dash gen) h e, ground arith)
    ]
