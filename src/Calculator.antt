-- ===== src/Calculator.antt =====
-- The diff calculator (cmd/diff/diffprocessor/diff_calculator.go): the diff of one resource, of an
-- XR with its composed resources, and of the resources that are to be removed.
pub mod Single
pub mod Composed
pub mod Removed
pub mod Merge
