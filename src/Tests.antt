-- ===== src/Tests.antt =====
-- Tests, and the theorems at concrete inputs.
mod Words
mod Points
mod Moves
mod Checker
mod Vectors
mod Ranges
mod Flow
mod Analysis
mod Edits
mod Bundles
mod Slots
mod Ssa
mod Merging
mod Run
