-- ===== src/ProgPoint.antt =====
-- Program points (`InstPosition` and `ProgPoint` of src/lib.rs): before or after an instruction.
pub mod Order
use regalloc2_orig.Prelude.{
  ℕ, ◌+◌, ◌-◌, ◌*◌, ◌/◌, ◌%◌, ◌^◌, Option, none, some, ◌>>=◌, ◌>>◌, Bool, true, false, ◌&&◌, ◌||◌,
  ◌==◌, ltb, leb, u32, shl32, ◌>>>◌, bit_or, bit_and, if◌then◌else◌,
}
use regalloc2_orig.Index
use regalloc2_orig.Index.{Inst}

pub data InstPosition : Type 0 where
  before after : InstPosition

-- `pos as u8`
abbrev pub pos_bits : InstPosition → ℕ
pos_bits before = 0
pos_bits after = 1

pub record ProgPoint : Type 0 where
  pub inst : Inst
  pub pos : InstPosition

unfoldable pub before_inst : Inst → ProgPoint
before_inst inst = record { inst = inst; pos = before }

unfoldable pub after_inst : Inst → ProgPoint
after_inst inst = record { inst = inst; pos = after }

unfoldable pub next : ProgPoint → Option ProgPoint
next p = elim p.pos [
  | before ↦ some (record { inst = p.inst; pos = after })
  | after ↦ (do inst ← Index.next p.inst; some (record { inst = inst; pos = before }))
]

unfoldable pub prev : ProgPoint → Option ProgPoint
prev p = elim p.pos [
  | before ↦ (do inst ← Index.prev p.inst; some (record { inst = inst; pos = after }))
  | after ↦ some (record { inst = p.inst; pos = before })
]

-- The `debug_assert!` is not part of a release build.
unfoldable pub to_index : ProgPoint → Option ℕ
to_index p = do inst ← Index.index p.inst; some (bit_or (shl32 (u32 inst) 1) (pos_bits p.pos))

unfoldable pub from_index : ℕ → Option ProgPoint
from_index index = do
  let inst = Index.new (index >>> 1)
  let bit = bit_and index 1
  pos ← if bit == 0 then some before else if bit == 1 then some after else none
  some (record { inst = inst; pos = pos })

-- The derived order: by instruction, then by position.
abbrev pub lt : ProgPoint → ProgPoint → Bool
lt p q = ltb p.inst q.inst || p.inst == q.inst && ltb (pos_bits p.pos) (pos_bits q.pos)

abbrev pub le : ProgPoint → ProgPoint → Bool
le p q = ltb p.inst q.inst || p.inst == q.inst && leb (pos_bits p.pos) (pos_bits q.pos)

abbrev pub eq : ProgPoint → ProgPoint → Bool
eq p q = p.inst == q.inst && pos_bits p.pos == pos_bits q.pos
