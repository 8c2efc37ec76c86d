-- ===== src/Formatter/Compact/Shown.antt =====
-- Which lines the compact format shows, when no change lies in the context behind another.
use crossplane_diff.Prelude.{
  ℕ, zero, suc, ◌+◌, ◌-◌, ◌≤◌, ◌<◌, ◌≡◌, refl, ◌∙◌, Bool, true, false, ◌&&◌, ◌||◌, Option, none,
  some, List, [], ◌∷◌, ◌++◌, arith, ◌==◌, ltb, leb, min, max, any, Bool-cases, inl, inr,
  if◌then◌else◌,
}
use crossplane_diff.Formatter.Compact.{
  ChangeBlock, Piece, line, separator, write_range, write_before, block_pieces, blocks_pieces,
}

-- How often a line is written.
unfoldable pub times : ℕ → List Piece → ℕ
times i [] = 0
times i (line j ∷ ps) = (if i == j then 1 else 0) + times i ps
times i (separator ∷ ps) = times i ps

pub times-append : (i : ℕ) (ps qs : List Piece) → times i (ps ++ qs) ≡ times i ps + times i qs
unfolding times
times-append i [] qs = omega arith
times-append i (line j ∷ ps) qs = omega (arith, times-append i ps qs)
times-append i (separator ∷ ps) qs = times-append i ps qs

-- 1 for a number from `lo` on and below `hi`, else 0.
unfoldable pub within : ℕ → ℕ → ℕ → ℕ
within lo hi i = if leb lo i && ltb i hi then 1 else 0

within-add :
    (lo mid hi i : ℕ) → lo ≤ mid → mid ≤ hi → within lo mid i + within mid hi i ≡ within lo hi i
unfolding within
within-add lo mid hi i h k = ground arith

pub times-write_range :
    (i from count hi : ℕ) → from + count ≡ hi → times i (write_range from count) ≡ within from hi i
unfolding times write_range within
times-write_range i from zero hi e = ground arith
times-write_range i from (suc count) hi e =
    ground (arith, times-write_range i (suc from) count hi (omega arith))

times-write_before :
    (i from count next hi : ℕ)
    → next ≤ from
    → from + count ≡ hi
    → times i (write_before from count next).0 ≡ within from hi i
unfolding times write_before within
times-write_before i from zero next hi h e = ground arith
times-write_before i from (suc count) next hi h e =
    ground (arith, times-write_before i (suc from) count (suc from) hi (omega arith) (omega arith))

-- Blocks in order and within the lines, each beginning at `lo` or later and followed by more than
-- `context` unchanged lines or by the end.
abbrev pub IsApart : ℕ → ℕ → ℕ → List ChangeBlock → Type 0
IsApart context len lo [] = Unit
IsApart context len lo (b ∷ bs) =
    (lo ≤ b.start_idx)
    × (b.start_idx ≤ b.end_idx)
    × (b.end_idx < len)
    × IsApart context len (b.end_idx + context + 1) bs

-- Is the line at most `context` lines away from the block?
unfoldable pub near : ℕ → ℕ → ChangeBlock → Bool
near context i b = leb b.start_idx (i + context) && leb i (b.end_idx + context)

any-near-above :
    (context len lo i : ℕ) (bs : List ChangeBlock)
    → IsApart context len lo bs
    → any (near context i) bs ≡ true
    → lo ≤ i + context
unfolding near
any-near-above context len lo i [] h n = absurd (ground arith)
any-near-above context len lo i (b ∷ bs) h n =
    ground (arith, any-near-above context len (b.end_idx + context + 1) i bs h.3)

-- A round writes each line from `from` to the end of the context behind the block once.
times-round :
    (context len i from next : ℕ) (gap : List Piece) (b : ChangeBlock)
    → times i gap ≡ 0
    → from ≤ b.start_idx
    → next ≤ from
    → b.start_idx ≤ b.end_idx
    → b.end_idx < len
    → times i (
        gap
        ++ ((write_before from (b.start_idx - from) next).0
            ++ (write_range b.start_idx (b.end_idx + 1 - b.start_idx)
                ++ write_range
                    (b.end_idx + 1)
                    (min len (b.end_idx + context + 1) - (b.end_idx + 1)))))
      ≡ within from (min len (b.end_idx + context + 1)) i
times-round context len i from next gap b g h1 h2 h3 h4 =
    let stop = min len (b.end_idx + context + 1) in
    let before = times-write_before i from (b.start_idx - from) next b.start_idx h2 (omega arith) in
    let changes =
      times-write_range i b.start_idx (b.end_idx + 1 - b.start_idx) (b.end_idx + 1) (omega arith) in
    let after = times-write_range i (b.end_idx + 1) (stop - (b.end_idx + 1)) stop (omega arith) in
    simp times-append (
      omega (
        arith,
        before,
        changes,
        after,
        within-add b.start_idx (b.end_idx + 1) stop i (omega arith) (omega arith),
        within-add from b.start_idx stop i h1 (omega arith),
      ))

-- What one round writes behind a block that it does not reach into.
block_pieces-after :
    (context len i : ℕ) (p b : ChangeBlock)
    → p.end_idx + context + 1 ≤ b.start_idx
    → b.start_idx ≤ b.end_idx
    → b.end_idx < len
    → times i (block_pieces context len (some p) (p.end_idx + context + 1) b).0
      ≡ (if leb (p.end_idx + context + 1) i && near context i b && ltb i len then 1 else 0)
unfolding block_pieces near times within
block_pieces-after context len i p b h1 h2 h3 =
    elim (Bool-cases (ltb (min len (p.end_idx + context + 1)) (b.start_idx - context))) [
      | inl e ↦
          rw (e, block_pieces)
            (times-round context len i (b.start_idx - context) 0 (separator ∷ []) b refl
                (omega arith) (omega arith) h2 h3
              ∙ ground arith)
      | inr e ↦
          rw (e, block_pieces)
            (times-round context len i (max (p.end_idx + context + 1) (b.start_idx - context))
                (p.end_idx + context + 1) [] b refl (omega arith) (omega arith) h2 h3
              ∙ ground arith)
    ]

block_pieces-first :
    (context len i : ℕ) (b : ChangeBlock)
    → b.start_idx ≤ b.end_idx
    → b.end_idx < len
    → times i (block_pieces context len none 0 b).0
      ≡ (if near context i b && ltb i len then 1 else 0)
unfolding block_pieces near times within
block_pieces-first context len i b h2 h3 =
    times-round context len i (b.start_idx - context) 0 [] b refl (omega arith) (omega arith) h2 h3
    ∙ ground arith

-- A block and those behind it: what the block shows, and what the others show from the end of its
-- context on, is what they show together.
shown_together :
    (context len lo i : ℕ) (b : ChangeBlock) (others : Bool)
    → b.start_idx ≤ b.end_idx
    → lo ≤ b.end_idx + context + 1
    → (others ≡ true → b.end_idx + context + 1 ≤ i + context)
    → (if leb lo i && near context i b && ltb i len then 1 else 0)
        + (if ltb i len && leb (b.end_idx + context + 1) i && others then 1 else 0)
      ≡ (if ltb i len && leb lo i && (near context i b || others) then 1 else 0)
unfolding near
shown_together context len lo i b true h k f = ground (arith, f refl)
shown_together context len lo i b false h k f = ground arith

abbrev next_after : ℕ → ℕ → ChangeBlock → ℕ
next_after context len p = max (p.end_idx + 1) (min len (p.end_idx + context + 1))

block_pieces-next :
    (context len next : ℕ) (prev : Option ChangeBlock) (b : ChangeBlock)
    → (block_pieces context len prev next b).1 ≡ next_after context len b
unfolding block_pieces
block_pieces-next context len next prev b = refl

blocks_pieces-after :
    (context len i : ℕ) (p : ChangeBlock) (bs : List ChangeBlock)
    → IsApart context len (p.end_idx + context + 1) bs
    → times i (blocks_pieces context len (some p) (next_after context len p) bs)
      ≡ (if ltb i len && leb (p.end_idx + context + 1) i && any (near context i) bs then 1 else 0)
unfolding blocks_pieces
blocks_pieces-after context len i p [] h = unfold times in ground arith
blocks_pieces-after context len i p (b ∷ bs) h =
    let next : next_after context len p ≡ p.end_idx + context + 1 = omega arith in
    let first = block_pieces-after context len i p b h.0 h.1 h.2 in
    let later = blocks_pieces-after context len i b bs h.3 in
    rw (next, blocks_pieces, times-append, block_pieces-next)
      (omega (
        arith,
        first,
        later,
        shown_together context len (p.end_idx + context + 1) i b (any (near context i) bs) h.1
            (omega arith) (any-near-above context len (b.end_idx + context + 1) i bs h.3),
      ))

-- If every block of changes is followed by more than the context's number of unchanged lines, or
-- by the end, a line is written once when it is at most that far from a change, else never.
pub compact-shown :
    (context len i : ℕ) (bs : List ChangeBlock)
    → IsApart context len 0 bs
    → times i (blocks_pieces context len none 0 bs)
      ≡ (if ltb i len && any (near context i) bs then 1 else 0)
unfolding blocks_pieces
compact-shown context len i [] h = unfold times in ground arith
compact-shown context len i (b ∷ bs) h =
    let first = block_pieces-first context len i b h.1 h.2 in
    let later = blocks_pieces-after context len i b bs h.3 in
    rw (times-append, blocks_pieces, block_pieces-next)
      (grind (
        arith,
        first,
        later,
        shown_together context len 0 i b (any (near context i) bs) h.1 (omega arith)
            (any-near-above context len (b.end_idx + context + 1) i bs h.3),
      ))
