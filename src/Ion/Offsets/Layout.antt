-- ===== src/Ion/Offsets/Layout.antt =====
-- Where the spill slots lie (src/ion/mod.rs, the second loop of `allocate_spillslots`).
use regalloc2_orig.Prelude.{
  ℕ, ◌+◌, ◌-◌, ◌*◌, ◌/◌, ◌%◌, ◌^◌, ◌≤◌, ◌<◌, ◌≡◌, refl, sym, ◌∙◌, arith, Bool, true, false,
  if◌then◌else◌, List, [], ◌∷◌, some, Bool-cases, inl, inr, ltb, bit_and, bit_and_high_field, u32,
}
use mathlib.Core.Path.{ap₂}
use native.Mathlib.Nat.{one-le-pow, pow-le-pow_right}
use regalloc2_orig.Reg.SpillSlot
use regalloc2_orig.Reg.SpillSlot.{SpillSlot, slot_round_trip}
use regalloc2_orig.Alloc
use regalloc2_orig.Ion.Env.{SpillSlotData}
use regalloc2_orig.Ion.Offsets.{align, assign_offsets}

-- The start of a slot of `size` words that is next after `offset`.
pub record IsAligned (offset size start : ℕ) : Type 0 where
  pub factor : ℕ
  pub multiple : start ≡ factor * size
  pub low : offset ≤ start
  pub high : start < offset + size

align-eq_multiple :
    (k offset q r : ℕ)
    → k ≤ 31
    → offset + 2 ^ k ≤ 2 ^ 32
    → r < 2 ^ k
    → r + q * 2 ^ k ≡ offset + 2 ^ k - 1
    → align offset (2 ^ k) ≡ q * 2 ^ k
unfolding align
align-eq_multiple k offset q r l h low e =
    let one = one-le-pow k 2 in
    let most : 2 ^ k ≤ 2 ^ 31 = pow-le-pow_right {n = 2} (omega arith) l in
    ap₂ bit_and (omega arith) (omega arith)
    ∙ bit_and_high_field 32 k r q (omega arith) low (omega arith)

align_lem :
    (k offset : ℕ)
    → k ≤ 31
    → offset + 2 ^ k ≤ 2 ^ 32
    → IsAligned offset (2 ^ k) (align offset (2 ^ k))
align_lem k offset l h =
    let one = one-le-pow k 2 in
    let top : ℕ = offset + 2 ^ k - 1 in
    let e =
      align-eq_multiple k offset (top / 2 ^ k) (top % 2 ^ k) l h (omega arith) (omega arith) in
    record { factor = top / 2 ^ k; multiple = e; low = omega arith; high = omega arith }

exponent_le : (k : ℕ) → 2 ^ k ≤ 2 ^ 24 → k ≤ 31
exponent_le k h = elim (Bool-cases (ltb 24 k)) [
  | inl big ↦
      let more : 2 ^ 25 ≤ 2 ^ k = pow-le-pow_right {n = 2} (omega arith) {i = 25} (ground arith) in
      absurd (omega arith)
  | inr small ↦ ground arith
]

IsAligned-cast :
    (offset size size' : ℕ)
    → size ≡ size'
    → IsAligned offset size (align offset size)
    → IsAligned offset size' (align offset size')
IsAligned-cast offset size size' e a = rw (← e) a

-- The sizes are powers of two.
abbrev pub PowerSizes : List SpillSlotData → Type 0
PowerSizes [] = Unit
PowerSizes (d ∷ ds) = ((k : ℕ) × (d.size ≡ 2 ^ k)) × PowerSizes ds

-- Enough room for the slots: each may need its size once more to be aligned.
abbrev pub room : List SpillSlotData → ℕ
room [] = 0
room (d ∷ ds) = 2 * d.size + room ds

-- The slot's allocation is a spill slot with this number, in the slot's class.
abbrev pub IsNumbered : ℕ → SpillSlotData → SpillSlotData → Type 0
IsNumbered n d d' =
    (s : SpillSlot) × (d' ≡ record d { alloc = Alloc.stack s })
    × SpillSlot.IsValid s
    × (SpillSlot.index s ≡ n)
    × (SpillSlot.class s ≡ some d.class)

-- The second slots are the first with their places: one after another from `offset` to `end`, each
-- at a multiple of its size, and numbered by its first or its last word.
abbrev pub IsLaidOut : Bool → ℕ → List SpillSlotData → List SpillSlotData → ℕ → Type 0
IsLaidOut named_by_last offset [] [] end = offset ≡ end
IsLaidOut named_by_last offset [] (d' ∷ ds') end = ⊥
IsLaidOut named_by_last offset (d ∷ ds) [] end = ⊥
IsLaidOut named_by_last offset (d ∷ ds) (d' ∷ ds') end =
    (start : ℕ) × IsAligned offset d.size start
    × IsNumbered (if named_by_last then start + d.size - 1 else start) d d'
    × IsLaidOut named_by_last (start + d.size) ds ds' end

abbrev slot_number : Bool → ℕ → ℕ → ℕ
slot_number named_by_last start size =
    if named_by_last then u32 (u32 (start + size) + 2 ^ 32 - 1) else start

slot_number_lem :
    (named_by_last : Bool) (start size : ℕ)
    → 1 ≤ size
    → start + size ≤ 2 ^ 24
    → (slot_number named_by_last start size ≡ (if named_by_last then start + size - 1 else start))
      × (slot_number named_by_last start size < 2 ^ 24)
slot_number_lem true start size h l = (omega arith, omega arith)
slot_number_lem false start size h l = (refl, omega arith)

assign_offsets-cons :
    (named_by_last : Bool) (offset n end : ℕ) (d : SpillSlotData) (ds ds' : List SpillSlotData)
    (s : SpillSlot)
    → SpillSlot.new (slot_number named_by_last (align offset d.size) d.size) d.class ≡ some s
    → u32 (align offset d.size + d.size) ≡ n
    → assign_offsets named_by_last n ds ≡ some (ds', end)
    → assign_offsets named_by_last offset (d ∷ ds)
      ≡ some (record d { alloc = Alloc.stack s } ∷ ds', end)
unfolding assign_offsets
assign_offsets-cons named_by_last offset n end d ds ds' s made next rest =
    rw (made, next, rest) refl

-- Where the sizes are powers of two and there is room for the slots below 2 ^ 24, the loop gives
-- each slot its place: the slots do not overlap, each is at a multiple of its size and numbered in
-- its class by its first word, or its last one where the client says so, and all end where the loop
-- says.
pub assign_offsets_lem :
    (named_by_last : Bool) (offset : ℕ) (ds : List SpillSlotData)
    → PowerSizes ds
    → offset + room ds ≤ 2 ^ 24
    → (ds' : List SpillSlotData) × (end : ℕ) × (assign_offsets named_by_last offset ds
        ≡ some (ds', end))
      × IsLaidOut named_by_last offset ds ds' end
      × (offset ≤ end)
      × (end ≤ offset + room ds)
unfolding assign_offsets
assign_offsets_lem named_by_last offset [] p h = ([], offset, refl, refl, omega arith, omega arith)
assign_offsets_lem named_by_last offset (d ∷ ds) ((k, e), p) h =
    let one = one-le-pow k 2 in
    let small : k ≤ 31 = exponent_le k (omega arith) in
    let a : IsAligned offset d.size (align offset d.size) =
      IsAligned-cast offset (2 ^ k) d.size (sym e) (align_lem k offset small (omega arith)) in
    let start = align offset d.size in
    let (number, bound) = slot_number_lem named_by_last start d.size (omega arith) (omega arith) in
    let (s, made, valid, index_eq, class_eq) =
      slot_round_trip (slot_number named_by_last start d.size) d.class bound in
    let next : u32 (start + d.size) ≡ start + d.size = omega arith in
    let (ds', end, rest, laid, low, high) =
      assign_offsets_lem named_by_last (start + d.size) ds p (omega arith) in
    (
      record d { alloc = Alloc.stack s } ∷ ds',
      end,
      assign_offsets-cons named_by_last offset (start + d.size) end d ds ds' s made next rest,
      (start, a, (s, refl, valid, index_eq ∙ number, class_eq), laid),
      omega arith,
      omega arith,
    )
