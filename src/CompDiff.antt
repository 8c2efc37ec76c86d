-- ===== src/CompDiff.antt =====
-- The composition processor (cmd/diff/diffprocessor/comp_processor.go): what a changed composition
-- changes in the composites that use it, and the report of it
-- (cmd/diff/renderer/comp_diff_renderer.go).
pub mod Scope
pub mod Classify
pub mod Impact
pub mod Process
pub mod Run
