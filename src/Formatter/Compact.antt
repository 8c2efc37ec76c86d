-- ===== src/Formatter/Compact.antt =====
-- CompactDiffFormatter of renderer/diff_formatter.go. What the builder is given is first a list of
-- pieces, a line's index or the chunk separator, and then the text that they stand for.
pub mod Overlap
pub mod Blocks
pub mod Shown
use crossplane_diff.Prelude.{
  ℕ, zero, suc, ◌+◌, ◌-◌, min, max, Bool, true, false, ◌&&◌, Option, none, some, List, [], ◌∷◌,
  ◌++◌, get_elem?, length, ◌==◌, ltb, leb, if◌then◌else◌,
}
use crossplane_diff.Text.{Text, split}
use crossplane_diff.Types.Key.{Operation, diff_equal, LineDiff}
use crossplane_diff.Formatter.Lines.{DiffOptions, process_lines}

-- changeBlock: the first and the last index of a run of changed lines.
pub record ChangeBlock : Type 0 where
  pub start_idx : ℕ
  pub end_idx : ℕ

-- lineItem
pub record LineItem : Type 0 where
  pub type : Operation
  pub content : Text
  pub formatted : Text

abbrev pub is_changed : Operation → Bool
is_changed diff_equal = false
is_changed _ = true

abbrev or_empty : Option Text → Text
or_empty none = []
or_empty (some t) = t

-- The inner loop of Format over one diff's lines: `split_lines` is strings.Split(diff.Text, "\n"),
-- `lone` is hasTrailingNewline && len(formattedLines) == 1.
unfoldable pub items_from : ℕ → LineDiff → Bool → List Text → List LineItem
items_from i diff lone [] = []
items_from i diff lone (f ∷ fs) =
    let content : Text =
      if lone && i == 0 then [] else or_empty (get_elem? (split 10 diff.text) i) in
    record { type = diff.type; content = content; formatted = f } ∷ items_from (i + 1) diff lone fs

-- The first loop of Format: allLines.
unfoldable pub all_lines : List LineDiff → DiffOptions → List LineItem
unfolding items_from
all_lines [] o = []
all_lines (d ∷ ds) o =
    let (lines, trailing) = process_lines d o in
    items_from 0 d (trailing && length lines == 1) lines ++ all_lines ds o

-- One line of the second loop of Format: the current block, and the block that is finished.
unfoldable pub next_block : ℕ → Option ChangeBlock → LineItem → Option ChangeBlock
next_block i none line =
    if is_changed line.type then some (record { start_idx = i; end_idx = i }) else none
next_block i (some b) line = if is_changed line.type then some (record b { end_idx = i }) else none

unfoldable pub finished_block : Option ChangeBlock → LineItem → List ChangeBlock
finished_block none line = []
finished_block (some b) line = if is_changed line.type then [] else b ∷ []

-- The second loop of Format, and the last block if it is still active.
unfoldable pub change_blocks : ℕ → Option ChangeBlock → List LineItem → List ChangeBlock
unfolding next_block finished_block
change_blocks i none [] = []
change_blocks i (some b) [] = b ∷ []
change_blocks i current (line ∷ lines) =
    finished_block current line ++ change_blocks (suc i) (next_block i current line) lines

-- What is written to the builder.
pub data Piece : Type 0 where
  line : ℕ → Piece
  separator : Piece

-- `for i := from; i < from + count; i++`, each line written.
unfoldable pub write_range : ℕ → ℕ → List Piece
write_range i zero = []
write_range i (suc count) = line i ∷ write_range (suc i) count

-- The loop over the context before a block. `next` is lastPrintedIdx + 1, also in the result.
unfoldable pub write_before : ℕ → ℕ → ℕ → List Piece × ℕ
write_before i zero next = ([], next)
write_before i (suc count) next =
    let (rest, last) = write_before (suc i) count (if leb next i then suc i else next) in
    (if leb next i then line i ∷ rest else rest, last)

-- The context before a block: its first line, the separator, and lastPrintedIdx + 1.
unfoldable pub context_start : ℕ → ℕ → Option ChangeBlock → ℕ → ChangeBlock → ℕ × List Piece × ℕ
context_start context len none next b = (b.start_idx - context, [], next)
context_start context len (some prev) next b =
    if ltb (min len (prev.end_idx + context + 1)) (b.start_idx - context)
    then (b.start_idx - context, separator ∷ [], 0)
    else (max next (b.start_idx - context), [], next)

-- One round of the loop of stringBlocksWithContext. `b.end_idx + 1` is lastPrintedIdx + 1 after
-- the changes, which the context after them moves on if it holds a line.
unfoldable pub block_pieces : ℕ → ℕ → Option ChangeBlock → ℕ → ChangeBlock → List Piece × ℕ
unfolding context_start write_before write_range
block_pieces context len prev next b =
    let (from, gap, next') = context_start context len prev next b in
    let before = write_before from (b.start_idx - from) next' in
    let changes = write_range b.start_idx (b.end_idx + 1 - b.start_idx) in
    let context_end = min len (b.end_idx + context + 1) in
    let after = write_range (b.end_idx + 1) (context_end - (b.end_idx + 1)) in
    (gap ++ (before.0 ++ (changes ++ after)), max (b.end_idx + 1) context_end)

unfoldable pub blocks_pieces : ℕ → ℕ → Option ChangeBlock → ℕ → List ChangeBlock → List Piece
blocks_pieces context len prev next [] = []
blocks_pieces context len prev next (b ∷ bs) =
    let (pieces, next') = block_pieces context len prev next b in
    pieces ++ blocks_pieces context len (some b) next' bs

abbrev formatted_line : Option LineItem → Text
formatted_line none = []
formatted_line (some l) = l.formatted

unfoldable pub render : Text → List LineItem → List Piece → Text
render sep lines [] = []
render sep lines (line i ∷ ps) = formatted_line (get_elem? lines i) ++ (10 ∷ render sep lines ps)
render sep lines (separator ∷ ps) = sep ++ (10 ∷ render sep lines ps)

-- stringBlocksWithContext
unfoldable pub string_blocks_with_context : List ChangeBlock → List LineItem → DiffOptions → Text
unfolding blocks_pieces block_pieces render
string_blocks_with_context changes lines o =
    render o.chunk_separator lines (blocks_pieces o.context_lines (length lines) none 0 changes)

-- (*CompactDiffFormatter).Format
unfoldable pub compact_format : List LineDiff → DiffOptions → Text
unfolding all_lines change_blocks
compact_format diffs o =
    let lines = all_lines diffs o in
    elim (change_blocks 0 none lines) [
      | [] ↦ []
      | b ∷ bs ↦ string_blocks_with_context (b ∷ bs) lines o
    ]
