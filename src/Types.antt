-- ===== src/Types.antt =====
-- cmd/diff/renderer/types/types.go: the diff keys, the generated names and the output records.
pub mod Key
pub mod Generated
pub mod Output
