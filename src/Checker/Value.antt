-- ===== src/Checker/Value.antt =====
-- Abstract values and their meet (src/checker.rs, `CheckerValue`).
use regalloc2_orig.Prelude.{Bool, true, false, ◌||◌, ◌&&◌, if◌then◌else◌}
use regalloc2_orig.Reg.VReg
use regalloc2_orig.Reg.VReg.{VReg}

pub data CheckerValue : Type 0 where
  unknown conflicted : CheckerValue
  reg : VReg → Bool → CheckerValue

-- The arms in the source's order; the last but one has the guard `r1 == r2`.
unfoldable pub meet : CheckerValue → CheckerValue → CheckerValue
meet unknown other = other
meet conflicted unknown = conflicted
meet conflicted other = conflicted
meet (reg r b) unknown = reg r b
meet (reg r b) conflicted = conflicted
meet (reg r1 ref1) (reg r2 ref2) = if VReg.eq r1 r2 then reg r1 (ref1 || ref2) else conflicted

abbrev bool_eq : Bool → Bool → Bool
bool_eq true b = b
bool_eq false true = false
bool_eq false false = true

-- `==`, derived
abbrev pub eq : CheckerValue → CheckerValue → Bool
eq unknown unknown = true
eq unknown conflicted = false
eq unknown (reg r b) = false
eq conflicted unknown = false
eq conflicted conflicted = true
eq conflicted (reg r b) = false
eq (reg r b) unknown = false
eq (reg r b) conflicted = false
eq (reg r b) (reg s c) = VReg.eq r s && bool_eq b c
