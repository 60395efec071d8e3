-- ===== src/Failure.antt =====
-- The failure package: result records, the attempt loop, skips, the journal and its replay.
pub mod Result
pub mod Policy
pub mod Skips
pub mod Journal
pub mod Recover
