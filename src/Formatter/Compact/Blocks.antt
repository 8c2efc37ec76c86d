-- ===== src/Formatter/Compact/Blocks.antt =====
-- The blocks of changed lines that Format finds.
use crossplane_diff.Prelude.{
  ℕ, suc, ◌+◌, ◌≤◌, ◌≡◌, refl, Bool, false, ◌&&◌, ◌||◌, Option, none, some, List, [], ◌∷◌, arith,
  ◌==◌, leb, ltb, any, length, Bool-cases, inl, inr, if◌then◌else◌,
}
use crossplane_diff.Formatter.Compact.{
  ChangeBlock, LineItem, is_changed, change_blocks, blocks_pieces,
}
use crossplane_diff.Formatter.Compact.Shown.{IsApart, times, near, compact-shown}

-- Does the block hold the line?
unfoldable pub holds : ℕ → ChangeBlock → Bool
holds i b = leb b.start_idx i && leb i b.end_idx

-- Is line i, counted from `from`, a changed one?
unfoldable pub changed_at : ℕ → ℕ → List LineItem → Bool
changed_at i from [] = false
changed_at i from (l ∷ ls) = (from == i && is_changed l.type) || changed_at i (suc from) ls

abbrev in_block : ℕ → Option ChangeBlock → Bool
in_block i none = false
in_block i (some b) = holds i b

-- The block that is open ends just before the next line.
abbrev IsOpen : ℕ → Option ChangeBlock → Type 0
IsOpen n none = Unit
IsOpen n (some b) = (b.start_idx ≤ b.end_idx) × (suc b.end_idx ≡ n)

abbrev start_of : ℕ → Option ChangeBlock → ℕ
start_of n none = n
start_of n (some b) = b.start_idx

change_blocks-from :
    (i n : ℕ) (current : Option ChangeBlock) (ls : List LineItem)
    → IsOpen n current
    → any (holds i) (change_blocks n current ls) ≡ (in_block i current || changed_at i n ls)
unfolding change_blocks changed_at holds
change_blocks-from i n none [] h = refl
change_blocks-from i n (some b) [] h = ground arith
change_blocks-from i n none (l ∷ ls) h = ground (
  arith,
  change_blocks-from i (suc n) (some (record { start_idx = n; end_idx = n })) ls
      (omega arith, refl),
  change_blocks-from i (suc n) none ls tt,
)
change_blocks-from i n (some b) (l ∷ ls) h = ground (
  arith,
  change_blocks-from i (suc n) (some (record b { end_idx = n })) ls (omega arith, refl),
  change_blocks-from i (suc n) none ls tt,
)

IsApart-lower :
    (context len lo lo' : ℕ) (bs : List ChangeBlock)
    → lo' ≤ lo
    → IsApart context len lo bs
    → IsApart context len lo' bs
IsApart-lower context len lo lo' [] h a = tt
IsApart-lower context len lo lo' (b ∷ bs) h a = (omega arith, a.1, a.2, a.3)

-- With the context 1 the blocks that are found are always apart.
IsApart-from :
    (n len : ℕ) (current : Option ChangeBlock) (ls : List LineItem)
    → n + length ls ≡ len
    → IsOpen n current
    → IsApart 1 len (start_of n current) (change_blocks n current ls)
unfolding change_blocks
IsApart-from n len none [] e h = tt
IsApart-from n len (some b) [] e h = (omega arith, h.0, omega arith, tt)
IsApart-from n len none (l ∷ ls) e h = elim (Bool-cases (is_changed l.type)) [
  | inl c ↦ rw c (
      IsApart-from (suc n) len (some (record { start_idx = n; end_idx = n })) ls (omega arith)
        (omega arith, refl))
  | inr c ↦ rw c (
      IsApart-lower 1 len (suc n) n (change_blocks (suc n) none ls) (omega arith)
        (IsApart-from (suc n) len none ls (omega arith) tt))
]
IsApart-from n len (some b) (l ∷ ls) e h = elim (Bool-cases (is_changed l.type)) [
  | inl c ↦ rw c (
      IsApart-from (suc n) len (some (record b { end_idx = n })) ls (omega arith)
        (omega arith, refl))
  | inr c ↦ rw c (
    omega arith,
    h.0,
    omega arith,
    IsApart-lower 1 len (suc n) (b.end_idx + 1 + 1) (change_blocks (suc n) none ls) (omega arith)
        (IsApart-from (suc n) len none ls (omega arith) tt),
  )
]

IsApart-weaken :
    (context len lo : ℕ) (bs : List ChangeBlock)
    → context ≤ 1
    → IsApart 1 len lo bs
    → IsApart context len lo bs
IsApart-weaken context len lo [] c a = tt
IsApart-weaken context len lo (b ∷ bs) c a = (
  a.0,
  a.1,
  a.2,
  IsApart-lower context len (b.end_idx + 1 + 1) (b.end_idx + context + 1) bs (omega arith)
      (IsApart-weaken context len (b.end_idx + 1 + 1) bs c a.3),
)

-- The blocks that Format finds hold the changed lines and no other line; they are in order and
-- lie within the lines, and at least one unchanged line stands between two of them.
pub change_blocks-exact :
    (i : ℕ) (ls : List LineItem)
    → (any (holds i) (change_blocks 0 none ls) ≡ changed_at i 0 ls)
      × IsApart 1 (length ls) 0 (change_blocks 0 none ls)
change_blocks-exact i ls =
    (change_blocks-from i 0 none ls tt, IsApart-from 0 (length ls) none ls (omega arith) tt)

-- With a context of at most one line the compact format writes each line that is at most that far
-- from a change once, and no other line, whatever the diff is.
pub compact-shown_narrow :
    (context i : ℕ) (ls : List LineItem)
    → context ≤ 1
    → times i (blocks_pieces context (length ls) none 0 (change_blocks 0 none ls))
      ≡ (if ltb i (length ls) && any (near context i) (change_blocks 0 none ls) then 1 else 0)
compact-shown_narrow context i ls h =
    compact-shown context (length ls) i (change_blocks 0 none ls) (
      IsApart-weaken context (length ls) 0 (change_blocks 0 none ls) h
        (IsApart-from 0 (length ls) none ls (omega arith) tt))
