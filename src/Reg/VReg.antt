-- ===== src/Reg/VReg.antt =====
-- Virtual registers (`VReg` of src/lib.rs): a number of 20 bits and a class, packed into a u32.
use regalloc2_orig.Prelude.{
  ℕ, ◌+◌, ◌*◌, ◌/◌, ◌%◌, ◌^◌, ◌≤◌, ◌<◌, ◌-◌, ◌≡◌, Option, some, arith, leb, ◌>>◌, Bool, ◌==◌,
  assert, bit_and, bit_or, u32, shl32, ◌>>>◌, Bool-cases, inl, inr, bit_or_fields, bit_or_comm,
  bit_and_mask,
}
use regalloc2_orig.Reg.{RegClass, int, float, class_bits, class_of_bits}

pub record VReg : Type 0 where
  pub bits : ℕ

-- `MAX_BITS` and `MAX`
abbrev pub max_bits : ℕ
max_bits = 20

abbrev pub max : ℕ
max = 2 ^ max_bits - 1

unfoldable pub new : ℕ → RegClass → Option VReg
new virt_reg class = do
  assert (leb virt_reg max)
  some (record { bits = bit_or (shl32 (u32 virt_reg) 1) (class_bits class) })

unfoldable pub vreg : VReg → ℕ
vreg v = v.bits >>> 1

unfoldable pub class : VReg → Option RegClass
class v = class_of_bits (bit_and v.bits 1)

unfoldable pub invalid : Option VReg
unfolding new
invalid = new max int

-- `==`, derived on the packed word
abbrev pub eq : VReg → VReg → Bool
eq v w = v.bits == w.bits

-- What `new` guarantees: 21 bits.
pub record IsValid (v : VReg) : Type 0 where
  pub bits_lt : v.bits < 2 ^ 21

bits-new :
    (n : ℕ) (c : RegClass) → n ≤ max → new n c ≡ some (record { bits = n * 2 + class_bits c })
unfolding new
bits-new n c h =
    ground (arith, bit_or_comm (n * 2) (class_bits c), bit_or_fields 1 (class_bits c) n)

-- The class is never out of range, so `class` does not panic.
pub class-some : (v : VReg) → (c : RegClass) × (class v ≡ some c) × (class_bits c ≡ v.bits % 2)
unfolding class
class-some v = elim (Bool-cases (v.bits % 2 == 0)) [
  | inl e ↦ (int, ground (arith, bit_and_mask 1 v.bits), ground arith)
  | inr e ↦ (float, ground (arith, bit_and_mask 1 v.bits), ground arith)
]

-- The accessors read back what `new` packed.
pub vreg_round_trip :
    (n : ℕ) (c : RegClass)
    → n ≤ max
    → (v : VReg) × (new n c ≡ some v) × IsValid v × (vreg v ≡ n) × (class v ≡ some c)
unfolding vreg class
vreg_round_trip n c h = (
  record { bits = n * 2 + class_bits c },
  bits-new n c h,
  ground arith,
  ground arith,
  ground (arith, bit_and_mask 1 (n * 2 + class_bits c)),
)

-- Packing the fields of a valid word gives the word back.
pub new-vreg : (v : VReg) (c : RegClass) → IsValid v → class v ≡ some c → new (vreg v) c ≡ some v
unfolding vreg class
new-vreg v c h e = ground (arith, bits-new (v.bits / 2) c, bit_and_mask 1 v.bits)

pub vreg-le : (v : VReg) → IsValid v → vreg v ≤ max
unfolding vreg
vreg-le v h = omega arith
