-- ===== src/Formatter/Lines/Full.antt =====
-- The full format shows every line of every chunk once, in order.
use mathlib.Core.List.{flat_map, reverse, reverse_aux-append}
use crossplane_diff.Prelude.{
  ℕ, ◌≡◌, refl, sym, ◌∙◌, ap, true, List, [], ◌∷◌, ◌++◌, map, arith, ◌==◌, length, append_assoc,
  append-nil, All, Bool-cases, inl, inr, if◌then◌else◌, false,
}
use crossplane_diff.Text.{codes, Text, cut_prefix, has_suffix, split, has_byte}
use crossplane_diff.Text.Laws.{cut_prefix-nil}
use crossplane_diff.Types.Key.{Operation, diff_insert, diff_delete, diff_equal, LineDiff}
use crossplane_diff.Formatter.Lines.{
  DiffOptions, newline, format_line, drop_last, process_lines, write_lines, full_format,
}

abbrev pub NoNewline : Text → Type 0
NoNewline s = has_byte 10 s ≡ false

split-line : (s t : Text) → NoNewline s → split 10 (s ++ (10 ∷ t)) ≡ s ∷ split 10 t
unfolding split has_byte
split-line [] t h = refl
split-line (c ∷ s) t h = ground (arith, split-line s t)

split-none : (s : Text) → NoNewline s → split 10 s ≡ s ∷ []
unfolding split has_byte
split-none [] h = refl
split-none (c ∷ s) h = ground (arith, split-none s)

split-write_lines :
    (ls : List Text) → All NoNewline ls → split 10 (write_lines ls) ≡ ls ++ ([] ∷ [])
unfolding write_lines split
split-write_lines [] h = refl
split-write_lines (l ∷ ls) h =
    split-line l (write_lines ls) h.0 ∙ ap (λ r. l ∷ r) (split-write_lines ls h.1)

drop_last-snoc : (ls : List Text) (l : Text) → drop_last (ls ++ (l ∷ [])) ≡ ls
unfolding drop_last
drop_last-snoc [] l = refl
drop_last-snoc (a ∷ []) l = refl
drop_last-snoc (a ∷ b ∷ ls) l = ap (λ r. a ∷ r) (drop_last-snoc (b ∷ ls) l)

has_suffix-snoc : (s : Text) (c : ℕ) → has_suffix (s ++ (c ∷ [])) (c ∷ []) ≡ true
unfolding has_suffix cut_prefix
has_suffix-snoc s c =
    rw (reverse_aux-append s (c ∷ []) []) (ground (arith, cut_prefix-nil (reverse s)))

write_lines-ends : (l : Text) (ls : List Text) → (t : Text) × (write_lines (l ∷ ls) ≡ t ++ newline)
unfolding write_lines
write_lines-ends l [] = (l, refl)
write_lines-ends l (m ∷ ls) =
    let (t, e) = write_lines-ends m ls in (l ++ (10 ∷ t), rw (e, append_assoc))

-- A line written with its newline, before the rest of the text.
split-lines :
    (ls : List Text) (rest : Text)
    → All NoNewline ls
    → NoNewline rest
    → split 10 (write_lines ls ++ rest) ≡ ls ++ (rest ∷ [])
unfolding write_lines
split-lines [] rest h r = split-none rest r
split-lines (l ∷ ls) rest h r =
    ap (split 10) (append_assoc l (10 ∷ write_lines ls) rest)
    ∙ split-line l (write_lines ls ++ rest) h.0
    ∙ ap (λ t. l ∷ t) (split-lines ls rest h.1 r)

-- A text that ends in another byte does not end in a newline.
no_suffix-snoc : (s : Text) (d : ℕ) → (d == 10) ≡ false → has_suffix (s ++ (d ∷ [])) newline ≡ false
unfolding has_suffix cut_prefix
no_suffix-snoc s d h = rw (reverse_aux-append s (d ∷ []) []) (ground (arith, h))

last_byte :
    (c : ℕ) (r : Text)
    → NoNewline (c ∷ r)
    → (s : Text) × (d : ℕ) × (c ∷ r ≡ s ++ (d ∷ [])) × ((d == 10) ≡ false)
unfolding has_byte
last_byte c [] h = ([], c, refl, ground (arith, h))
last_byte c (e ∷ r) h =
    let (s, d, same, other) = last_byte e r (ground (arith, h)) in
    (c ∷ s, d, ap (λ t. c ∷ t) same, other)

unended :
    (t : Text) (c : ℕ) (r : Text) → NoNewline (c ∷ r) → has_suffix (t ++ (c ∷ r)) newline ≡ false
unended t c r h =
    let (s, d, same, other) = last_byte c r h in
    rw (same, ← append_assoc t s (d ∷ [])) (no_suffix-snoc (t ++ s) d other)

-- A chunk of a line diff: its lines that a newline ends, and what is left behind the last newline.
pub record Chunk : Type 0 where
  pub type : Operation
  pub ended : List Text
  pub rest : Text

-- The lines to show: what is left is one of them, unless it is empty behind a newline.
abbrev pub shown_lines : List Text → Text → List Text
shown_lines [] rest = rest ∷ []
shown_lines (l ∷ ls) [] = l ∷ ls
shown_lines (l ∷ ls) (c ∷ r) = l ∷ (ls ++ ((c ∷ r) ∷ []))

abbrev pub IsChunk : Chunk → Type 0
IsChunk c = All NoNewline c.ended × NoNewline c.rest

abbrev pub chunk_diff : Chunk → LineDiff
chunk_diff c = record { type = c.type; text = write_lines c.ended ++ c.rest }

-- The line with the prefix of its operation, between the colours of an addition or a removal.
abbrev pub shown : DiffOptions → Operation → Text → Text
shown o diff_equal line = o.context_prefix ++ line
shown o diff_insert line =
    if o.use_colors
    then (27 ∷ codes "[32m") ++ (o.add_prefix ++ (line ++ (27 ∷ codes "[0m")))
    else o.add_prefix ++ line
shown o diff_delete line =
    if o.use_colors
    then (27 ∷ codes "[31m") ++ (o.delete_prefix ++ (line ++ (27 ∷ codes "[0m")))
    else o.delete_prefix ++ line

format_line-shown :
    (o : DiffOptions) (type : Operation) (line : Text) → format_line line type o ≡ shown o type line
unfolding format_line
format_line-shown o diff_equal line = elim (Bool-cases o.use_colors) [
  | inl e ↦ rw e refl
  | inr e ↦ rw e refl
]
format_line-shown o diff_insert line = elim (Bool-cases o.use_colors) [
  | inl e ↦ rw e refl
  | inr e ↦ rw e refl
]
format_line-shown o diff_delete line = elim (Bool-cases o.use_colors) [
  | inl e ↦ rw e refl
  | inr e ↦ rw e refl
]

map-shown :
    (o : DiffOptions) (type : Operation) (ls : List Text)
    → map (λ line. format_line line type o) ls ≡ map (shown o type) ls
map-shown o type [] = refl
map-shown o type (l ∷ ls) = rw (format_line-shown o type l, map-shown o type ls) refl

abbrev pub formatted : DiffOptions → Chunk → List Text
formatted o c = map (shown o c.type) (shown_lines c.ended c.rest)

process_lines-ended :
    (o : DiffOptions) (type : Operation) (l : Text) (ls : List Text)
    → All NoNewline (l ∷ ls)
    → (process_lines (record { type = type; text = write_lines (l ∷ ls) }) o).0
      ≡ map (λ line. format_line line type o) (l ∷ ls)
unfolding process_lines
process_lines-ended o type l ls h =
    let (t, e) = write_lines-ends l ls in
    let ends : has_suffix (write_lines (l ∷ ls)) newline ≡ true = rw e (has_suffix-snoc t 10) in
    let not_empty : (length (l ∷ ls) == 0) ≡ false = ground arith in
    rw (ends, process_lines, split-write_lines (l ∷ ls) h, drop_last-snoc (l ∷ ls) [])
      (rw not_empty (append-nil _))

empty_unended : has_suffix [] newline ≡ false
unfolding has_suffix
empty_unended = refl

process_lines-chunk :
    (o : DiffOptions) (type : Operation) (ls : List Text) (rest : Text)
    → All NoNewline ls
    → NoNewline rest
    → (process_lines (record { type = type; text = write_lines ls ++ rest }) o).0
      ≡ map (λ line. format_line line type o) (shown_lines ls rest)
unfolding process_lines write_lines
process_lines-chunk o type [] [] h r = rw (empty_unended, process_lines, split-none [] r) refl
process_lines-chunk o type [] (c ∷ rest) h r =
    rw (unended [] c rest r, process_lines, split-none (c ∷ rest) r) refl
process_lines-chunk o type (l ∷ ls) [] h r =
    ap (λ (t : Text). (process_lines (record { type = type; text = t }) o).0)
      (append-nil (write_lines (l ∷ ls)))
    ∙ process_lines-ended o type l ls h
process_lines-chunk o type (l ∷ ls) (c ∷ rest) h r =
    rw (unended (write_lines (l ∷ ls)) c rest r, process_lines, split-lines (l ∷ ls) (c ∷ rest) h r)
      (append-nil _)

-- Every text is made of lines that a newline ends and a rest.
abbrev Parts : Text → Type 0
Parts t =
    (ls : List Text) × (rest : Text) × All NoNewline ls
    × NoNewline rest
    × (write_lines ls ++ rest ≡ t)

longer : (c : ℕ) (t : Text) → (c == 10) ≡ false → Parts t → Parts (c ∷ t)
unfolding write_lines has_byte
longer c t other ([], rest, h, r, e) =
    ([], c ∷ rest, tt, ground (arith, other, r), ap (λ u. c ∷ u) e)
longer c t other (l ∷ ls, rest, h, r, e) =
    ((c ∷ l) ∷ ls, rest, (ground (arith, other, h.0), h.1), r, ap (λ u. c ∷ u) e)

parts : (t : Text) → Parts t
unfolding write_lines has_byte
parts [] = ([], [], tt, refl, refl)
parts (c ∷ t) = elim (Bool-cases (c == 10)) [
  | inr other ↦ longer c t other (parts t)
  | inl same ↦
      let (ls, rest, h, r, e) = parts t in
      let newline_byte : c ≡ 10 = ground (arith, same) in
      ([] ∷ ls, rest, (refl, h), r, ap (λ u. 10 ∷ u) e ∙ ap (λ b. b ∷ t) (sym newline_byte))
]

write_lines-append : (ls ms : List Text) → write_lines (ls ++ ms) ≡ write_lines ls ++ write_lines ms
unfolding write_lines
write_lines-append [] ms = refl
write_lines-append (l ∷ ls) ms = rw (write_lines-append ls ms, append_assoc)

abbrev chunked : Operation → Text → LineDiff
chunked type t = record { type = type; text = t }

-- The chunk of a line diff.
abbrev chunk_of : LineDiff → Chunk
chunk_of d = record { type = d.type; ended = (parts d.text).0; rest = (parts d.text).1 }

full_format-chunk :
    (d : LineDiff) (o : DiffOptions)
    → write_lines (process_lines d o).0 ≡ write_lines (formatted o (chunk_of d))
full_format-chunk d o =
    let (ls, rest, h, r, e) = parts d.text in
    ap write_lines (
      ap (λ (t : Text). (process_lines (record { type = d.type; text = t }) o).0) (sym e)
      ∙ process_lines-chunk o d.type ls rest h r
      ∙ map-shown o d.type (shown_lines ls rest))

-- Every line diff is a list of chunks: lines that a newline ends, and a rest without one.
-- The full format is each line of each chunk once, in order, the rest included unless it is empty
-- behind a newline, with the prefix of its chunk's operation, in the colour of an addition or a
-- removal if colours are asked for, and ended by a newline.
pub full_format-chunks :
    (o : DiffOptions) (ds : List LineDiff)
    → (cs : List Chunk) × All IsChunk cs
      × (map chunk_diff cs ≡ ds)
      × (full_format ds o ≡ write_lines (flat_map (formatted o) cs))
unfolding full_format flat_map write_lines
full_format-chunks o [] = ([], tt, refl, refl)
full_format-chunks o (d ∷ ds) =
    let (cs, each, same, e) = full_format-chunks o ds in
    let (ls, rest, h, r, text) = parts d.text in
    (
      chunk_of d ∷ cs,
      ((h, r), each),
      ap (λ (t : Text). chunked d.type t ∷ map chunk_diff cs) text ∙ ap (λ l. d ∷ l) same,
      ap (λ u. u ++ full_format ds o) (full_format-chunk d o)
          ∙ ap (λ u. write_lines (formatted o (chunk_of d)) ++ u) e
          ∙ sym (write_lines-append (formatted o (chunk_of d)) (flat_map (formatted o) cs)),
    )
