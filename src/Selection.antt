-- ===== src/Selection.antt =====
-- Which composition a resource uses, and which resources use a composition: the clients of
-- cmd/diff/client/crossplane.
pub mod Paths
pub mod Selector
pub mod State
pub mod Definitions
pub mod Revisions
pub mod Match
pub mod Find
pub mod Discover
