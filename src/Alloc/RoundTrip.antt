-- ===== src/Alloc/RoundTrip.antt =====
-- What the constructors of `Allocation` pack, its accessors read back (src/lib.rs).
use regalloc2_orig.Prelude.{
  ℕ, ◌+◌, ◌*◌, ◌/◌, ◌^◌, ◌<◌, ◌≡◌, none, some, arith, bit_or_fields, bit_and_mask, bit_or_comm,
  shl32, u32,
}
use regalloc2_orig.Reg.PReg
use regalloc2_orig.Reg.PReg.{PReg}
use regalloc2_orig.Reg.SpillSlot
use regalloc2_orig.Reg.SpillSlot.{SpillSlot}
use regalloc2_orig.Alloc.{
  AllocationKind, reg_kind, stack_kind, kind_bits, new, reg, stack, kind, index, as_reg, as_stack,
  class,
}

bits-new :
    (k : AllocationKind) (n : ℕ) → n < 2 ^ 29 → new k n ≡ record { bits = kind_bits k * 2 ^ 29 + n }
unfolding new
bits-new k n h =
    ground (arith, bit_or_comm (shl32 (kind_bits k) 29) (u32 n), bit_or_fields 29 n (kind_bits k))

pub kind-new : (k : AllocationKind) (n : ℕ) → n < 2 ^ 29 → kind (new k n) ≡ some k
unfolding kind
kind-new k n h = ground (arith, bits-new k n h, bit_and_mask 2 ((new k n).bits / 2 ^ 29))

pub index-new : (k : AllocationKind) (n : ℕ) → n < 2 ^ 29 → index (new k n) ≡ n
unfolding index
index-new k n h = ground (arith, bits-new k n h, bit_and_mask 29 (new k n).bits)

-- `Allocation::reg` is read back by `kind`, `as_reg`, `as_stack` and `class`.
pub reg_round_trip :
    (p : PReg)
    → PReg.IsValid p
    → (kind (reg p) ≡ some reg_kind)
      × (as_reg (reg p) ≡ some (some p))
      × (as_stack (reg p) ≡ some none)
      × (class (reg p) ≡ some p.class)
unfolding reg as_reg as_stack class
reg_round_trip p h =
    let small : PReg.index p < 2 ^ 29 = omega (arith, PReg.index-lt p h) in
    let e = kind-new reg_kind (PReg.index p) small in
    let i = index-new reg_kind (PReg.index p) small in
    (e, rw (e, i, (PReg.from_index-index p h).1), rw e, rw (e, e, i, (PReg.from_index-index p h).1))

-- `Allocation::stack` is read back by `kind`, `as_stack`, `as_reg` and `class`.
pub stack_round_trip :
    (s : SpillSlot)
    → SpillSlot.IsValid s
    → (kind (stack s) ≡ some stack_kind)
      × (as_stack (stack s) ≡ some (some s))
      × (as_reg (stack s) ≡ some none)
      × (class (stack s) ≡ SpillSlot.class s)
unfolding stack as_reg as_stack class
stack_round_trip s h =
    let small : s.bits < 2 ^ 29 = omega arith in
    let e = kind-new stack_kind s.bits small in
    let i = index-new stack_kind s.bits small in
    (e, ground (arith, e, i), rw e, ground (arith, e, i))
