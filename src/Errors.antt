-- ===== src/Errors.antt =====
-- cmd/diff/diffprocessor/errors.go: the error tree, the exit code and the structured error output.
pub mod Tree
pub mod Exit
pub mod Failures
