-- ===== src/Tests.antt =====
-- Concrete inputs: runs of the code, and the theorems at values where their hypotheses hold. One
-- child for each part of the program.
pub mod Errors
pub mod Types
pub mod Formatter
pub mod Cluster
pub mod Compare
pub mod Preserve
pub mod Calculator
pub mod Processor
pub mod Nested
pub mod Claim
pub mod Ref
pub mod Requirements
pub mod Functions
pub mod Selection
pub mod CompDiff
pub mod Owners
pub mod Manager
