-- ===== src/Processor.antt =====
-- The diff processor (cmd/diff/diffprocessor/diff_processor.go): the pass over the input
-- resources, and the iterated rendering of one of them.
pub mod Perform
pub mod Render
pub mod Nested
pub mod Claim
