-- ===== src/Ion.antt =====
-- Parts of the allocator proper (src/ion/mod.rs): the ranges of code, their keys and the sets of
-- them, the words that pack flags with a number, the environment, the bundles with their
-- requirements, their allocation to registers, the spill slots, and the inserted moves.
pub mod Range
pub mod Key
pub mod Links
pub mod Offsets
pub mod Overlap
pub mod Allocate
pub mod Btree
pub mod Bundle
pub mod Edits
pub mod Env
pub mod Liveness
pub mod Merge
pub mod Uses
pub mod Process
pub mod Props
pub mod Requirement
pub mod Setup
pub mod Slots
pub mod Split
