-- ===== src/ProgPoint/Order.antt =====
-- The index of a program point (src/lib.rs, `ProgPoint`): it is a faithful, order-preserving
-- number for the point.
use regalloc2_orig.Prelude.{
  ℕ, ◌+◌, ◌*◌, ◌/◌, ◌%◌, ◌^◌, ◌≤◌, ◌<◌, ◌≡◌, ◌↔◌, ap, ◌∙◌, ◌==◌, if◌then◌else◌, refl, some, true,
  arith, bit_or_fields, bit_or_comm, bit_and_mask,
}
use regalloc2_orig.ProgPoint.{
  InstPosition, before, after, ProgPoint, pos_bits, next, prev, to_index, from_index, lt, le,
}

-- The points whose index fits 32 bits: what the `debug_assert!` of `to_index` asks for.
pub record Fits (p : ProgPoint) : Type 0 where
  pub inst_lt : p.inst < 2 ^ 31

abbrev pub position : ProgPoint → ℕ
position p = 2 * p.inst + pos_bits p.pos

pub to_index-eq-position : (p : ProgPoint) → Fits p → to_index p ≡ some (position p)
unfolding to_index
to_index-eq-position p h =
    ground
      (arith, bit_or_comm (p.inst * 2) (pos_bits p.pos), bit_or_fields 1 (pos_bits p.pos) p.inst)

pub position-lt : (p q : ProgPoint) → (lt p q ≡ true) ↔ (position p < position q)
position-lt p q = ground arith

pub position-le : (p q : ProgPoint) → (le p q ≡ true) ↔ (position p ≤ position q)
position-le p q = ground arith

pub position_injective : (p q : ProgPoint) → position p ≡ position q → p ≡ q
position_injective p q h = ground arith

-- A point comes back from its index.
pub from_index-to_index :
    (p : ProgPoint) → Fits p → (n : ℕ) × (to_index p ≡ some n) × (from_index n ≡ some p)
unfolding from_index
from_index-to_index p h =
    (position p, to_index-eq-position p h, ground (arith, bit_and_mask 1 (position p)))

abbrev point_at : ℕ → ProgPoint
point_at n = record { inst = n / 2; pos = if n % 2 == 0 then before else after }

-- Every u32 is the index of the point that `from_index` makes of it.
pub to_index-from_index :
    (n : ℕ)
    → n < 2 ^ 32
    → (p : ProgPoint) × (from_index n ≡ some p) × Fits p × (to_index p ≡ some n)
unfolding from_index
to_index-from_index n h =
    let p = point_at n in
    let e = to_index-eq-position p (omega arith) in
    (p, ground (arith, bit_and_mask 1 n), omega arith, e ∙ ap some (ground arith))

step :
    (i : ℕ) (s : InstPosition)
    → i < 2 ^ 31
    → let p : ProgPoint = record { inst = i; pos = s } in
      (q : ProgPoint) × (next p ≡ some q) × (position q ≡ position p + 1) × (prev q ≡ some p)
unfolding next prev
step i before h = (record { inst = i; pos = after }, refl, omega arith, refl)
step i after h = (record { inst = i + 1; pos = before }, ground arith, omega arith, ground arith)

-- `next` goes to the following index, and `prev` comes back.
pub prev-next :
    (p : ProgPoint)
    → Fits p
    → (q : ProgPoint) × (next p ≡ some q) × (position q ≡ position p + 1) × (prev q ≡ some p)
prev-next p h = step p.inst p.pos h.inst_lt

-- For points whose index fits 32 bits, the derived order of points is the order of their indices.
pub le-to_index :
    (p q : ProgPoint) (a b : ℕ)
    → Fits p
    → Fits q
    → to_index p ≡ some a
    → to_index q ≡ some b
    → (le p q ≡ true) ↔ (a ≤ b)
le-to_index p q a b hp hq ea eb =
    ground (arith, to_index-eq-position p hp, to_index-eq-position q hq)
