-- ===== src/Ion/Range.antt =====
-- Ranges of code (src/ion/mod.rs, `CodeRange`).
use regalloc2_orig.Prelude.{ℕ, ◌+◌, ◌-◌, ◌%◌, ◌^◌, Option, some, ◌>>=◌, Bool, ◌&&◌, if◌then◌else◌}
use Prim.Native.Nat.{Ordering}
use regalloc2_orig.Index
use regalloc2_orig.ProgPoint
use regalloc2_orig.ProgPoint.{ProgPoint}

-- From `from` up to, and not including, `to`.
pub record CodeRange : Type 0 where
  pub from : ProgPoint
  pub to : ProgPoint

unfoldable pub is_empty : CodeRange → Bool
is_empty r = ProgPoint.eq r.from r.to

unfoldable pub contains : CodeRange → CodeRange → Bool
contains r other = ProgPoint.le r.from other.from && ProgPoint.le other.to r.to

unfoldable pub contains_point : CodeRange → ProgPoint → Bool
contains_point r other = ProgPoint.le r.from other && ProgPoint.lt other r.to

unfoldable pub overlaps : CodeRange → CodeRange → Bool
overlaps r other = ProgPoint.lt r.from other.to && ProgPoint.lt other.from r.to

-- On 64 bits: the difference wraps where `to` is before `from`.
unfoldable pub len : CodeRange → Option ℕ
len r = do
  to ← Index.index r.to.inst
  from ← Index.index r.from.inst
  some ((to + 2 ^ 64 - from) % 2 ^ 64)

unfoldable pub cmp : CodeRange → CodeRange → Ordering
cmp r other =
    if ProgPoint.le r.to other.from
    then Ordering.lt
    else if ProgPoint.le other.to r.from
    then Ordering.gt
    else Ordering.eq
