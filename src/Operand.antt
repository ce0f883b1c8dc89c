-- ===== src/Operand.antt =====
-- Operands (`Operand`, `OperandPolicy`, `OperandKind` and `OperandPos` of src/lib.rs): what an
-- instruction says of one mention of a register, packed into a u32 as
-- pos:2 kind:1 policy:2 class:1 preg:5 vreg:20. `RoundTrip` relates the packing to the accessors.
pub mod RoundTrip
use regalloc2_orig.Prelude.{
  ℕ, ◌+◌, ◌*◌, ◌/◌, ◌%◌, ◌^◌, ◌-◌, Option, none, some, leb, ◌>>=◌, ◌>>◌, Bool, ◌==◌, if◌then◌else◌,
  assert, bit_and, bit_or, u32, shl32, ◌>>>◌,
}
use regalloc2_orig.Reg.{RegClass, int, float, class_bits, class_of_bits, class_eq}
use regalloc2_orig.Reg.PReg
use regalloc2_orig.Reg.PReg.{PReg}
use regalloc2_orig.Reg.VReg
use regalloc2_orig.Reg.VReg.{VReg}

pub data OperandPolicy : Type 0 where
  any reg : OperandPolicy
  fixed_reg : PReg → OperandPolicy
  reuse : ℕ → OperandPolicy

pub data OperandKind : Type 0 where
  def use_ : OperandKind

pub data OperandPos : Type 0 where
  before after both : OperandPos

pub record Operand : Type 0 where
  pub bits : ℕ

-- `kind as u8` and `pos as u8`
abbrev pub kind_bits : OperandKind → ℕ
kind_bits def = 0
kind_bits use_ = 1

abbrev pub pos_bits : OperandPos → ℕ
pos_bits before = 0
pos_bits after = 1
pos_bits both = 2

-- The match on the policy in `Operand::new`: (preg_field, policy_field). The two `as u32` keep
-- what the assertions bound.
abbrev pub policy_fields : OperandPolicy → RegClass → Option (ℕ × ℕ)
policy_fields any c = some (0, 0)
policy_fields reg c = some (0, 1)
policy_fields (fixed_reg p) c = do assert (class_eq p.class c); some (u32 p.hw_enc, 2)
policy_fields (reuse which) c = do assert (leb which PReg.max); some (u32 which, 3)

unfoldable pub new : VReg → OperandPolicy → OperandKind → OperandPos → Option Operand
new vreg policy kind pos = do
  class ← VReg.class vreg
  (preg_field, policy_field) ← policy_fields policy class
  let bits = bit_or (u32 (VReg.vreg vreg)) (shl32 preg_field 20)
  let bits = bit_or bits (shl32 (class_bits class) 25)
  let bits = bit_or bits (shl32 policy_field 26)
  let bits = bit_or bits (shl32 (kind_bits kind) 28)
  some (record { bits = bit_or bits (shl32 (pos_bits pos) 29) })

unfoldable pub reg_use : VReg → Option Operand
reg_use v = new v reg use_ before

unfoldable pub reg_use_at_end : VReg → Option Operand
reg_use_at_end v = new v reg use_ both

unfoldable pub reg_def : VReg → Option Operand
reg_def v = new v reg def after

unfoldable pub reg_def_at_start : VReg → Option Operand
reg_def_at_start v = new v reg def both

unfoldable pub reg_temp : VReg → Option Operand
reg_temp v = new v reg def both

unfoldable pub reg_reuse_def : VReg → ℕ → Option Operand
reg_reuse_def v idx = new v (reuse idx) def both

unfoldable pub reg_fixed_use : VReg → PReg → Option Operand
reg_fixed_use v p = new v (fixed_reg p) use_ before

unfoldable pub reg_fixed_def : VReg → PReg → Option Operand
reg_fixed_def v p = new v (fixed_reg p) def after

unfoldable pub class : Operand → Option RegClass
class o = class_of_bits (bit_and (o.bits >>> 25) 1)

unfoldable pub vreg : Operand → Option VReg
unfolding class
vreg o = do let vreg_idx = bit_and o.bits VReg.max; class ← class o; VReg.new vreg_idx class

abbrev pub kind_of_bits : ℕ → Option OperandKind
kind_of_bits b = if b == 0 then some def else if b == 1 then some use_ else none

unfoldable pub kind : Operand → Option OperandKind
kind o = kind_of_bits (bit_and (o.bits >>> 28) 1)

abbrev pub pos_of_bits : ℕ → Option OperandPos
pos_of_bits b =
    if b == 0
    then some before
    else if b == 1
    then some after
    else if b == 2
    then some both
    else none

unfoldable pub pos : Operand → Option OperandPos
pos o = pos_of_bits (bit_and (o.bits >>> 29) 3)

unfoldable pub policy : Operand → Option OperandPolicy
unfolding class
policy o =
    let policy_field = bit_and (o.bits >>> 26) 3 in
    let preg_field = bit_and (o.bits >>> 20) PReg.max in
    if policy_field == 0
    then some any
    else if policy_field == 1
    then some reg
    else if policy_field == 2
    then (do class ← class o; p ← PReg.new preg_field class; some (fixed_reg p))
    else if policy_field == 3
    then some (reuse preg_field)
    else none

unfoldable pub from_bits : ℕ → Operand
from_bits bits = record { bits = bits }
