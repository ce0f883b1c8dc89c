-- ===== src/Tests/Words.antt =====
-- The packed words of src/lib.rs at concrete values.
use regalloc2_orig.Prelude.{◌≡◌, ◌<◌, ◌+◌, ◌^◌, some, none, refl, arith}
use regalloc2_orig.Reg.{float}
use regalloc2_orig.Reg.PReg
use regalloc2_orig.Reg.PReg.{PReg}
use regalloc2_orig.Reg.VReg
use regalloc2_orig.Reg.VReg.{VReg}
use regalloc2_orig.Reg.SpillSlot
use regalloc2_orig.Reg.SpillSlot.{SpillSlot}
use regalloc2_orig.Operand
use regalloc2_orig.Operand.{Operand, fixed_reg, use_, before}
use regalloc2_orig.Operand.RoundTrip.{operand_round_trip}
use regalloc2_orig.Alloc
use regalloc2_orig.Alloc.{Allocation, reg_kind, stack_kind}
use regalloc2_orig.Alloc.RoundTrip.{reg_round_trip, stack_round_trip}

-- f7, v9 of the float class, and the float slot 12.
abbrev f7 : PReg
f7 = record { hw_enc = 7; class = float }

abbrev v9 : VReg
v9 = record { bits = 19 }

abbrev slot12 : SpillSlot
slot12 = record { bits = 2 ^ 24 + 12 }

f7-IsValid : PReg.IsValid f7
f7-IsValid = omega arith

v9_class : VReg.class v9 ≡ some float
unfolding VReg.class
v9_class = refl

slot12-new : SpillSlot.new 12 float ≡ some slot12
unfolding SpillSlot.new
slot12-new = refl

packed_operand : Operand.new v9 (fixed_reg f7) use_ before ≡ some (record { bits = 0x1a70_0009 })
unfolding Operand.new VReg.class VReg.vreg
packed_operand = refl

from_index-index_example : (PReg.index f7 < 128) × (PReg.from_index (PReg.index f7) ≡ some f7)
from_index-index_example = PReg.from_index-index f7 f7-IsValid

vreg_round_trip_example :
    (v : VReg) × (VReg.new 9 float ≡ some v)
    × VReg.IsValid v
    × (VReg.vreg v ≡ 9)
    × (VReg.class v ≡ some float)
vreg_round_trip_example = VReg.vreg_round_trip 9 float (omega arith)

slot_round_trip_example :
    (s : SpillSlot) × (SpillSlot.new 12 float ≡ some s)
    × SpillSlot.IsValid s
    × (SpillSlot.index s ≡ 12)
    × (SpillSlot.class s ≡ some float)
slot_round_trip_example = SpillSlot.slot_round_trip 12 float (omega arith)

operand_round_trip_example :
    (o : Operand) × (Operand.new v9 (fixed_reg f7) use_ before ≡ some o)
    × (Operand.vreg o ≡ some v9)
    × (Operand.class o ≡ some float)
    × (Operand.policy o ≡ some (fixed_reg f7))
    × (Operand.kind o ≡ some use_)
    × (Operand.pos o ≡ some before)
operand_round_trip_example =
    operand_round_trip v9 (fixed_reg f7) use_ before float (omega arith) v9_class (f7-IsValid, refl)

reg_round_trip_example :
    (Alloc.kind (Alloc.reg f7) ≡ some reg_kind)
    × (Alloc.as_reg (Alloc.reg f7) ≡ some (some f7))
    × (Alloc.as_stack (Alloc.reg f7) ≡ some none)
    × (Alloc.class (Alloc.reg f7) ≡ some float)
reg_round_trip_example = reg_round_trip f7 f7-IsValid

stack_round_trip_example :
    (Alloc.kind (Alloc.stack slot12) ≡ some stack_kind)
    × (Alloc.as_stack (Alloc.stack slot12) ≡ some (some slot12))
    × (Alloc.as_reg (Alloc.stack slot12) ≡ some none)
    × (Alloc.class (Alloc.stack slot12) ≡ SpillSlot.class slot12)
stack_round_trip_example = stack_round_trip slot12 (omega arith)
