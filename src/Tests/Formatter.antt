-- ===== src/Tests/Formatter.antt =====
-- Tests of the diff formats (cmd/diff/renderer/diff_formatter.go).
use mathlib.Core.List.{flat_map}
use crossplane_diff.Prelude.{
  All, ◌++◌, ℕ, ◌≤◌, ◌≡◌, refl, Bool, true, false, ◌&&◌, none, List, [], ◌∷◌, map, arith, any, ltb,
  if◌then◌else◌,
}
use crossplane_diff.Text.{codes, has_suffix, split}
use crossplane_diff.Types.Key.{diff_equal, diff_insert, LineDiff}
use crossplane_diff.Formatter.Lines.{
  DiffOptions, default_diff_options, full_format, process_lines, format_line, write_lines,
}
use crossplane_diff.Formatter.Lines.Full.{Chunk, IsChunk, chunk_diff, formatted, full_format-chunks}
use crossplane_diff.Formatter.Compact.{
  ChangeBlock, LineItem, line, separator, blocks_pieces, block_pieces, change_blocks,
}
use crossplane_diff.Formatter.Compact.Shown.{times, near, compact-shown}
use crossplane_diff.Formatter.Compact.Overlap.{overlap_written_twice}
use crossplane_diff.Formatter.Compact.Blocks.{holds, changed_at, change_blocks-exact}

abbrev plain : DiffOptions
plain = record default_diff_options { use_colors = false }

abbrev kept : LineDiff
kept = record { type = diff_equal; text = write_lines (codes "a: 1" ∷ codes "b: 2" ∷ []) }

-- No newline ends its second line.
abbrev unended : LineDiff
unended = record { type = diff_insert; text = codes "c: 3" ++ (10 ∷ codes "d: 4") }

full_format_runs :
    full_format (kept ∷ unended ∷ []) plain
    ≡ write_lines (codes "  a: 1" ∷ codes "  b: 2" ∷ codes "+ c: 3" ∷ codes "+ d: 4" ∷ [])
unfolding full_format process_lines format_line split has_suffix
full_format_runs = refl

full_format-chunks_example :
    (cs : List Chunk) × All IsChunk cs
    × (map chunk_diff cs ≡ kept ∷ unended ∷ [])
    × (full_format (kept ∷ unended ∷ []) plain ≡ write_lines (flat_map (formatted plain) cs))
full_format-chunks_example = full_format-chunks plain (kept ∷ unended ∷ [])

abbrev block : ℕ → ℕ → ChangeBlock
block s e = record { start_idx = s; end_idx = e }

abbrev far_apart : List ChangeBlock
far_apart = block 1 1 ∷ block 7 8 ∷ []

far_apart_pieces :
    blocks_pieces 2 10 none 0 far_apart
    ≡ line 0
      ∷ line 1
      ∷ line 2
      ∷ line 3
      ∷ separator
      ∷ line 5
      ∷ line 6
      ∷ line 7
      ∷ line 8
      ∷ line 9
      ∷ []
unfolding blocks_pieces block_pieces
far_apart_pieces = refl

-- Line 4 is written twice.
too_close_pieces :
    blocks_pieces 3 8 none 0 (block 2 2 ∷ block 4 4 ∷ [])
    ≡ line 0 ∷ line 1 ∷ line 2 ∷ line 3 ∷ line 4 ∷ line 5 ∷ line 4 ∷ line 5 ∷ line 6 ∷ line 7 ∷ []
unfolding blocks_pieces block_pieces
too_close_pieces = refl

compact-shown_example :
    times 3 (blocks_pieces 2 10 none 0 far_apart)
    ≡ (if ltb 3 10 && any (near 2 3) far_apart then 1 else 0)
compact-shown_example = compact-shown 2 10 3 far_apart (omega arith)

overlap_written_twice_example : 2 ≤ times 4 (blocks_pieces 3 8 none 0 (block 2 2 ∷ block 4 4 ∷ []))
overlap_written_twice_example =
    overlap_written_twice 3 8 0 none (block 2 2) (block 4 4) [] (omega arith) (omega arith)
      (omega arith) (omega arith)

abbrev item : Bool → LineItem
item c = record {
  type = if c then diff_insert else diff_equal;
  content = [];
  formatted = codes "x";
}

abbrev items : List LineItem
items = item false ∷ item true ∷ item true ∷ item false ∷ item true ∷ []

change_blocks_runs : change_blocks 0 none items ≡ block 1 2 ∷ block 4 4 ∷ []
unfolding change_blocks
change_blocks_runs = refl

change_blocks-exact_example : any (holds 2) (change_blocks 0 none items) ≡ changed_at 2 0 items
change_blocks-exact_example = (change_blocks-exact 2 items).0
