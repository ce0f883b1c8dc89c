-- ===== src/Alloc.antt =====
-- Allocations (`Allocation` and `AllocationKind` of src/lib.rs): where an operand lives, packed
-- into a u32 as kind:2 index:29. `RoundTrip` relates the packing to the accessors.
pub mod RoundTrip
use regalloc2_orig.Prelude.{
  ℕ, ◌+◌, ◌*◌, ◌/◌, ◌%◌, ◌^◌, ◌-◌, Option, none, some, ◌>>=◌, ◌>>◌, Bool, true, false, ◌==◌,
  if◌then◌else◌, bit_and, bit_or, u32, shl32, ◌>>>◌,
}
use regalloc2_orig.Reg.{RegClass}
use regalloc2_orig.Reg.PReg
use regalloc2_orig.Reg.PReg.{PReg}
use regalloc2_orig.Reg.SpillSlot
use regalloc2_orig.Reg.SpillSlot.{SpillSlot}

pub data AllocationKind : Type 0 where
  none_kind reg_kind stack_kind : AllocationKind

pub record Allocation : Type 0 where
  pub bits : ℕ

-- `==`, derived on the packed word
abbrev pub eq : Allocation → Allocation → Bool
eq a b = a.bits == b.bits

-- `kind as u8`
abbrev pub kind_bits : AllocationKind → ℕ
kind_bits none_kind = 0
kind_bits reg_kind = 1
kind_bits stack_kind = 2

unfoldable pub new : AllocationKind → ℕ → Allocation
new kind index = record { bits = bit_or (shl32 (kind_bits kind) 29) (u32 index) }

unfoldable pub none_alloc : Allocation
unfolding new
none_alloc = new none_kind 0

unfoldable pub reg : PReg → Allocation
reg preg = new reg_kind (PReg.index preg)

unfoldable pub stack : SpillSlot → Allocation
stack slot = new stack_kind slot.bits

abbrev pub kind_of_bits : ℕ → Option AllocationKind
kind_of_bits b =
    if b == 0
    then some none_kind
    else if b == 1
    then some reg_kind
    else if b == 2
    then some stack_kind
    else none

unfoldable pub kind : Allocation → Option AllocationKind
kind a = kind_of_bits (bit_and (a.bits >>> 29) 3)

unfoldable pub index : Allocation → ℕ
index a = bit_and a.bits (2 ^ 29 - 1)

-- The outer option is the panic; the inner one is the method's result.
unfoldable pub as_reg : Allocation → Option (Option PReg)
as_reg a = do
  kind ← kind a
  elim kind [ reg_kind ↦ (do p ← PReg.from_index (index a); some (some p)) | _ ↦ some none ]

unfoldable pub as_stack : Allocation → Option (Option SpillSlot)
as_stack a = do
  kind ← kind a
  some (elim kind [ stack_kind ↦ some (record { bits = u32 (index a) }) | _ ↦ none ])

unfoldable pub class : Allocation → Option RegClass
class a = do
  kind ← kind a
  elim kind [
    | none_kind ↦ none
    | reg_kind ↦ (do r ← as_reg a; p ← r; some p.class)
    | stack_kind ↦ (do r ← as_stack a; s ← r; SpillSlot.class s)
  ]

unfoldable pub from_bits : ℕ → Allocation
from_bits bits = record { bits = bits }
