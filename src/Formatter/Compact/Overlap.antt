-- ===== src/Formatter/Compact/Overlap.antt =====
-- Blocks that are closer than the context: the context behind a block is written without a look at
-- the next block.
use crossplane_diff.Prelude.{ℕ, ◌+◌, ◌-◌, ◌≤◌, ◌<◌, Option, some, List, ◌∷◌, arith, min}
use crossplane_diff.Formatter.Compact.{ChangeBlock, block_pieces, blocks_pieces}
use crossplane_diff.Formatter.Compact.Shown.{times, times-append, within, times-write_range}

-- A round writes the context behind its block, and its block.
times-after :
    (context len i next : ℕ) (prev : Option ChangeBlock) (b : ChangeBlock)
    → b.end_idx < len
    → within (b.end_idx + 1) (min len (b.end_idx + context + 1)) i
      ≤ times i (block_pieces context len prev next b).0
unfolding block_pieces
times-after context len i next prev b h =
    let stop = min len (b.end_idx + context + 1) in
    simp times-append (
      omega
        (arith, times-write_range i (b.end_idx + 1) (stop - (b.end_idx + 1)) stop (omega arith)))

times-block :
    (context len i next : ℕ) (prev : Option ChangeBlock) (b : ChangeBlock)
    → b.start_idx ≤ b.end_idx
    → within b.start_idx (b.end_idx + 1) i ≤ times i (block_pieces context len prev next b).0
unfolding block_pieces
times-block context len i next prev b h = simp times-append (
    omega (
      arith,
      times-write_range i b.start_idx (b.end_idx + 1 - b.start_idx) (b.end_idx + 1) (omega arith),
    ))

-- When a block of changes begins within the context behind the block before it, its first line is
-- written twice, whatever was written before and whatever follows.
pub overlap_written_twice :
    (context len next : ℕ) (prev : Option ChangeBlock) (p b : ChangeBlock) (bs : List ChangeBlock)
    → p.end_idx < b.start_idx
    → b.start_idx ≤ p.end_idx + context
    → b.start_idx ≤ b.end_idx
    → b.end_idx < len
    → 2 ≤ times b.start_idx (blocks_pieces context len prev next (p ∷ b ∷ bs))
unfolding blocks_pieces
overlap_written_twice context len next prev p b bs h1 h2 h3 h4 =
    let i = b.start_idx in
    let behind = times-after context len i next prev p (omega arith) in
    let block = times-block context len i (block_pieces context len prev next p).1 (some p) b h3 in
    simp times-append (unfold within in grind (arith, behind, block))
