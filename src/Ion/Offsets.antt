-- ===== src/Ion/Offsets.antt =====
-- The offsets of the spill slots (src/ion/mod.rs, the second loop of `allocate_spillslots`), on u32
-- words that wrap.
pub mod Layout
use regalloc2_orig.Prelude.{
  ℕ, ◌+◌, ◌-◌, ◌^◌, Bool, if◌then◌else◌, List, [], ◌∷◌, Option, some, ◌>>=◌, u32, bit_and,
}
use regalloc2_orig.Reg.SpillSlot
use regalloc2_orig.Alloc
use regalloc2_orig.Alloc.{Allocation, none_alloc}
use regalloc2_orig.Ion.Env.{SpillSlotData}

-- `(offset + size - 1) & !(size - 1)` on u32
unfoldable pub align : ℕ → ℕ → ℕ
align offset size =
    bit_and (u32 (u32 (offset + size) + 2 ^ 32 - 1)) (2 ^ 32 - 1 - u32 (size + 2 ^ 32 - 1))

-- The second loop: each slot gets its offset. The results are the slots and the next offset.
unfoldable pub assign_offsets : Bool → ℕ → List SpillSlotData → Option (List SpillSlotData × ℕ)
unfolding align
assign_offsets named_by_last offset [] = some ([], offset)
assign_offsets named_by_last offset (d ∷ slots) = do
  let start = align offset d.size
  let slot = if named_by_last then u32 (u32 (start + d.size) + 2 ^ 32 - 1) else start
  spill ← SpillSlot.new slot d.class
  (slots, end) ← assign_offsets named_by_last (u32 (start + d.size)) slots
  some (record d { alloc = Alloc.stack spill } ∷ slots, end)
