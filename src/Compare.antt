-- ===== src/Compare.antt =====
-- The comparison of two objects (cmd/diff/renderer/diff_formatter.go): what is removed from them
-- before they are compared, and the diff that is made of them.
pub mod Paths
pub mod Cleanup
pub mod Generate
