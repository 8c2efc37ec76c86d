-- ===== src/Formatter.antt =====
-- cmd/diff/renderer/diff_formatter.go: the text of a diff. `Lines` has one line and the full
-- format, `Compact` the format with limited context.
pub mod Lines
pub mod Compact
