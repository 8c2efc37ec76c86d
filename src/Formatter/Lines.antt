-- ===== src/Formatter/Lines.antt =====
-- DiffOptions, formatLine, processLines and FullDiffFormatter of renderer/diff_formatter.go.
pub mod Full
use mathlib.Core.List.{flatten}
use crossplane_diff.Prelude.{
  ℕ, ◌+◌, ◌≡◌, refl, ◌∙◌, ap, Bool, true, false, ◌&&◌, ◌||◌, Option, none, some, List, [], ◌∷◌,
  ◌++◌, map, arith, ◌==◌, length, append_assoc, append-nil, All, if◌then◌else◌,
}
use crossplane_diff.Text.{Text, codes, is_empty, has_suffix, split, has_byte}
use crossplane_diff.Types.Key.{Operation, diff_delete, diff_insert, diff_equal, LineDiff}

-- DiffOptions: the fields that shape the text and the comparison. The writers, the output format
-- and MinimizeComposition are read elsewhere.
pub record DiffOptions : Type 0 where
  pub use_colors : Bool
  pub add_prefix : Text
  pub delete_prefix : Text
  pub context_prefix : Text
  pub context_lines : ℕ
  pub chunk_separator : Text
  pub compact : Bool
  pub ignore_paths : List Text
  pub for_verdict : Bool

-- DefaultDiffOptions
abbrev pub default_diff_options : DiffOptions
default_diff_options = record {
  use_colors = true;
  add_prefix = codes "+ ";
  delete_prefix = codes "- ";
  context_prefix = codes "  ";
  context_lines = 3;
  chunk_separator = codes "...";
  compact = false;
  ignore_paths = [];
  for_verdict = false;
}

-- The ANSI colours: the escape byte and the code.
abbrev pub color_red : Text
color_red = 27 ∷ codes "[31m"

abbrev pub color_green : Text
color_green = 27 ∷ codes "[32m"

abbrev pub color_reset : Text
color_reset = 27 ∷ codes "[0m"

abbrev pub newline : Text
newline = 10 ∷ []

abbrev pub prefix_of : DiffOptions → Operation → Text
prefix_of o diff_insert = o.add_prefix
prefix_of o diff_delete = o.delete_prefix
prefix_of o diff_equal = o.context_prefix

-- colorStart: empty for an unchanged line.
abbrev pub color_of : Operation → Text
color_of diff_insert = color_green
color_of diff_delete = color_red
color_of diff_equal = []

-- formatLine
unfoldable pub format_line : Text → Operation → DiffOptions → Text
format_line line type o =
    if o.use_colors && (if is_empty (color_of type) then false else true)
    then color_of type ++ (prefix_of o type ++ (line ++ color_reset))
    else prefix_of o type ++ line

-- lines[:len(lines)-1]
unfoldable pub drop_last : List Text → List Text
drop_last [] = []
drop_last (w ∷ []) = []
drop_last (w ∷ v ∷ ws) = w ∷ drop_last (v ∷ ws)

-- processLines
unfoldable pub process_lines : LineDiff → DiffOptions → List Text × Bool
unfolding drop_last
process_lines diff o =
    let trailing = has_suffix diff.text newline in
    let lines = if trailing then drop_last (split 10 diff.text) else split 10 diff.text in
    let formatted = map (λ line. format_line line diff.type o) lines in
    let more : List Text =
      if trailing && length lines == 0 then format_line [] diff.type o ∷ [] else [] in
    (formatted ++ more, trailing)

-- What the builder holds after a line and its newline, for each line.
unfoldable pub write_lines : List Text → Text
write_lines [] = []
write_lines (w ∷ ws) = w ++ (10 ∷ write_lines ws)

-- (*FullDiffFormatter).Format
unfoldable pub full_format : List LineDiff → DiffOptions → Text
unfolding write_lines
full_format [] o = []
full_format (d ∷ ds) o = write_lines (process_lines d o).0 ++ full_format ds o
