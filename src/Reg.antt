-- ===== src/Reg.antt =====
-- Register classes (src/lib.rs, `RegClass`); the children model `PReg`, `VReg` and `SpillSlot`.
pub mod PReg
pub mod VReg
pub mod SpillSlot
use regalloc2_orig.Prelude.{ℕ, Bool, true, false, Option, none, some, ◌==◌, if◌then◌else◌}

pub data RegClass : Type 0 where
  int float : RegClass

pub RegClass-discrete : Discrete RegClass
RegClass-discrete = hlevel

-- `class as u8`
abbrev pub class_bits : RegClass → ℕ
class_bits int = 0
class_bits float = 1

-- `match bits { 0 => Int, 1 => Float, _ => unreachable!() }`
abbrev pub class_of_bits : ℕ → Option RegClass
class_of_bits b = if b == 0 then some int else if b == 1 then some float else none

abbrev pub class_eq : RegClass → RegClass → Bool
class_eq int int = true
class_eq int float = false
class_eq float int = false
class_eq float float = true
