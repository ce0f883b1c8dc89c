-- ===== src/Reg/SpillSlot.antt =====
-- Spill slots (`SpillSlot` of src/lib.rs): a slot number of 24 bits and a class above it.
use regalloc2_orig.Prelude.{
  ℕ, ◌+◌, ◌*◌, ◌^◌, ◌≤◌, ◌<◌, ◌≡◌, Option, none, some, arith, ltb, ◌>>=◌, ◌>>◌, assert, bit_and,
  bit_or, u8, u32, shl32, ◌>>>◌, bit_or_fields, bit_and_mask,
}
use regalloc2_orig.Reg.{RegClass, class_bits, class_of_bits}

pub record SpillSlot : Type 0 where
  pub bits : ℕ

unfoldable pub new : ℕ → RegClass → Option SpillSlot
new slot class = do
  assert (ltb slot (2 ^ 24))
  some (record { bits = bit_or (u32 slot) (shl32 (class_bits class) 24) })

unfoldable pub index : SpillSlot → ℕ
index s = bit_and s.bits 0x00ff_ffff

unfoldable pub class : SpillSlot → Option RegClass
class s = class_of_bits (u8 (s.bits >>> 24))

-- The sum is of type usize, and the assertion of `new` refuses it long before it could wrap.
unfoldable pub plus : SpillSlot → ℕ → Option SpillSlot
unfolding new index class
plus s offset = do class ← class s; new (index s + offset) class

-- What `new` guarantees: 25 bits.
pub record IsValid (s : SpillSlot) : Type 0 where
  pub bits_lt : s.bits < 2 ^ 25

bits-new :
    (n : ℕ) (c : RegClass)
    → n < 2 ^ 24
    → new n c ≡ some (record { bits = n + class_bits c * 2 ^ 24 })
unfolding new
bits-new n c h = ground (arith, bit_or_fields 24 n (class_bits c))

pub slot_round_trip :
    (n : ℕ) (c : RegClass)
    → n < 2 ^ 24
    → (s : SpillSlot) × (new n c ≡ some s) × IsValid s × (index s ≡ n) × (class s ≡ some c)
unfolding index class
slot_round_trip n c h = (
  record { bits = n + class_bits c * 2 ^ 24 },
  bits-new n c h,
  ground arith,
  ground (arith, bit_and_mask 24 (n + class_bits c * 2 ^ 24)),
  ground arith,
)

-- A slot number of more than 24 bits is refused.
pub slot_refuses : (n : ℕ) (c : RegClass) → 2 ^ 24 ≤ n → new n c ≡ none
unfolding new
slot_refuses n c h = ground arith

-- `plus` stays in the class: on the slot with number `n` it gives what `new` gives for `n + k`, a
-- panic included.
pub plus-new :
    (n k : ℕ) (c : RegClass) (s : SpillSlot)
    → n < 2 ^ 24
    → new n c ≡ some s
    → plus s k ≡ new (n + k) c
unfolding plus
plus-new n k c s h e = ground (arith, slot_round_trip n c h)
