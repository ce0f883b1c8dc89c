-- ===== src/Checker.antt =====
-- The allocation checker (src/checker.rs): symbolic values per allocation, and the check of each
-- instruction's operands against them.
pub mod Value
pub mod State
pub mod Check
pub mod Meet
pub mod Transfer
pub mod Sound
pub mod Run
pub mod Edits
pub mod Errors
pub mod Stuck
