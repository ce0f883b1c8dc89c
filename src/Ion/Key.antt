-- ===== src/Ion/Key.antt =====
-- The keys of the B-tree of live ranges (src/ion/mod.rs, `LiveRangeKey`): two keys are equal where
-- their ranges overlap.
use regalloc2_orig.Prelude.{ℕ, Option, some, ◌>>=◌, Bool, ◌&&◌, ltb, leb, if◌then◌else◌}
use Prim.Native.Nat.{Ordering}
use regalloc2_orig.ProgPoint
use regalloc2_orig.Ion.Range.{CodeRange}

pub record LiveRangeKey : Type 0 where
  pub from : ℕ
  pub to : ℕ

unfoldable pub from_range : CodeRange → Option LiveRangeKey
from_range range = do
  from ← ProgPoint.to_index range.from
  to ← ProgPoint.to_index range.to
  some (record { from = from; to = to })

unfoldable pub eq : LiveRangeKey → LiveRangeKey → Bool
eq k other = ltb other.from k.to && ltb k.from other.to

unfoldable pub cmp : LiveRangeKey → LiveRangeKey → Ordering
cmp k other =
    if leb k.to other.from
    then Ordering.lt
    else if leb other.to k.from
    then Ordering.gt
    else Ordering.eq
