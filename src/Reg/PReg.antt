-- ===== src/Reg/PReg.antt =====
-- Physical registers (`PReg` of src/lib.rs): a hardware encoding of 5 bits and a class.
use regalloc2_orig.Prelude.{
  ℕ, ◌%◌, Bool-cases, inl, inr, ◌==◌, ◌+◌, ◌*◌, ◌/◌, ◌^◌, ◌≤◌, ◌<◌, ◌-◌, ◌≡◌, Option, some, arith,
  leb, ◌>>=◌, ◌>>◌, assert, bit_and, bit_or, u8, ◌<<<◌, ◌>>>◌, bit_or_fields, bit_or_comm,
  bit_and_mask,
}
use regalloc2_orig.Reg.{RegClass, int, float, class_bits, class_of_bits}

pub record PReg : Type 0 where
  pub hw_enc : ℕ
  pub class : RegClass

-- `MAX_BITS` and `MAX`
abbrev pub max_bits : ℕ
max_bits = 5

abbrev pub max : ℕ
max = 2 ^ max_bits - 1

unfoldable pub new : ℕ → RegClass → Option PReg
new hw_enc class = do assert (leb hw_enc max); some (record { hw_enc = u8 hw_enc; class = class })

unfoldable pub index : PReg → ℕ
index p = bit_or (class_bits p.class <<< 6) p.hw_enc

unfoldable pub from_index : ℕ → Option PReg
unfolding new
from_index index = do class ← class_of_bits (bit_and (index >>> 6) 1); new (bit_and index max) class

unfoldable pub invalid : Option PReg
unfolding new
invalid = new max int

-- What `new` guarantees.
pub record IsValid (p : PReg) : Type 0 where
  pub enc_le : p.hw_enc ≤ max

pub new-IsValid : (n : ℕ) (c : RegClass) {p : PReg} → new n c ≡ some p → IsValid p
unfolding new
new-IsValid n c h = ground arith

pub new-some : (n : ℕ) (c : RegClass) → n ≤ max → new n c ≡ some (record { hw_enc = n; class = c })
unfolding new
new-some n c h = ground arith

pub index-eq_sum : (p : PReg) → IsValid p → index p ≡ class_bits p.class * 64 + p.hw_enc
unfolding index
index-eq_sum p h = ground (
  arith,
  bit_or_comm (class_bits p.class <<< 6) p.hw_enc,
  bit_or_fields 6 p.hw_enc (class_bits p.class),
)

pub index-lt : (p : PReg) → IsValid p → index p < 128
index-lt p h = ground (arith, index-eq_sum p h)

-- Every number is taken for the index of some valid register: `from_index` does not panic.
pub from_index-some : (n : ℕ) → (p : PReg) × (from_index n ≡ some p) × IsValid p
unfolding from_index
from_index-some n = elim (Bool-cases (n / 64 % 2 == 0)) [
  | inl e ↦ (
    record { hw_enc = n % 32; class = int },
    ground (arith, bit_and_mask 1 (n / 64), bit_and_mask 5 n),
    ground arith,
  )
  | inr e ↦ (
    record { hw_enc = n % 32; class = float },
    ground (arith, bit_and_mask 1 (n / 64), bit_and_mask 5 n),
    ground arith,
  )
]

-- A register with a valid encoding has an index below 128 and comes back from it.
pub from_index-index : (p : PReg) → IsValid p → (index p < 128) × (from_index (index p) ≡ some p)
unfolding from_index
from_index-index p h = (index-lt p h, round_trip)
  where
    round_trip : from_index (index p) ≡ some p
    round_trip =
        ground (arith, index-eq_sum p h, bit_and_mask 1 (index p / 64), bit_and_mask 5 (index p))
