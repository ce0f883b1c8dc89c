-- ===== src/Tests/Ranges.antt =====
-- Ranges of code and requirements at concrete values.
use regalloc2_orig.Prelude.{false, ◌^◌, ◌≡◌, ◌↔◌, true, some, refl, arith}
use Prim.Native.Nat.{Ordering}
use regalloc2_orig.Reg.{float}
use regalloc2_orig.Reg.PReg.{PReg}
use regalloc2_orig.Reg.VReg
use regalloc2_orig.Reg.VReg.{VReg}
use regalloc2_orig.ProgPoint.{ProgPoint, before, after}
use regalloc2_orig.Ion.Range.{CodeRange, contains, contains_point, overlaps, cmp}
use regalloc2_orig.Ion.Key
use regalloc2_orig.Ion.Key.{LiveRangeKey, from_range}
use regalloc2_orig.Ion.Overlap.{overlaps_iff, contains_iff, AllBefore, cmp_lem, from_range_lem}
use regalloc2_orig.Ion.Props.{
  cached_minimal, cached_fixed, cached_spill_weight, set_cached_spill_weight_and_props,
  props_round_trip,
}
use regalloc2_orig.Ion.Requirement.{
  fixed, register, Satisfies, SatisfiesMerged, in_register, merge, merge_iff,
}

-- From before 1 to after 4, and from after 2 to before 3.
abbrev outer : CodeRange
outer = record { from = record { inst = 1; pos = before }; to = record { inst = 4; pos = after } }

abbrev inner : CodeRange
inner = record { from = record { inst = 2; pos = after }; to = record { inst = 3; pos = before } }

overlaps_iff_example :
    (overlaps outer inner ≡ true)
    ↔ ((p : ProgPoint) × (contains_point outer p ≡ true) × (contains_point inner p ≡ true))
overlaps_iff_example = overlaps_iff outer inner (omega arith) (omega arith)

contains_iff_example :
    (contains outer inner ≡ true)
    ↔ ((p : ProgPoint) → contains_point inner p ≡ true → contains_point outer p ≡ true)
contains_iff_example = contains_iff outer inner (omega arith)

cmp_lem_example :
    ((cmp outer inner ≡ Ordering.eq) ↔ (overlaps outer inner ≡ true))
    × ((cmp outer inner ≡ Ordering.eq)
        ↔ ((p : ProgPoint) × (contains_point outer p ≡ true) × (contains_point inner p ≡ true)))
    × ((cmp outer inner ≡ Ordering.lt) ↔ AllBefore outer inner)
    × ((cmp outer inner ≡ Ordering.gt) ↔ AllBefore inner outer)
cmp_lem_example = cmp_lem outer inner (omega arith) (omega arith)

from_range_lem_example :
    (k l : LiveRangeKey) × (from_range outer ≡ some k)
    × (from_range inner ≡ some l)
    × (Key.cmp k l ≡ cmp outer inner)
    × ((Key.eq k l ≡ true) ↔ (overlaps outer inner ≡ true))
    × ((Key.eq k l ≡ true) ↔ (Key.cmp k l ≡ Ordering.eq))
from_range_lem_example =
    from_range_lem outer inner (omega arith) (omega arith) (omega arith) (omega arith)

abbrev f7 : PReg
f7 = record { hw_enc = 7; class = float }

abbrev v9 : VReg
v9 = record { bits = 19 }

v9_class : VReg.class v9 ≡ some float
unfolding VReg.class
v9_class = refl

merge_iff_example :
    (Satisfies (fixed f7) (in_register f7) × Satisfies (register float) (in_register f7))
    ↔ SatisfiesMerged (merge (fixed f7) (register float)) (in_register f7)
merge_iff_example = merge_iff (fixed f7) (register float) (in_register f7)

props_round_trip_example :
    (cached_minimal (set_cached_spill_weight_and_props 3000 true false) ≡ true)
    × (cached_fixed (set_cached_spill_weight_and_props 3000 true false) ≡ false)
props_round_trip_example = props_round_trip 3000 true false (omega arith)

-- The weight does not read back: the mask keeps the bits of the two properties.
weight_lost : cached_spill_weight (set_cached_spill_weight_and_props 3000 true false) ≡ 2 ^ 31
unfolding cached_spill_weight set_cached_spill_weight_and_props
weight_lost = refl
