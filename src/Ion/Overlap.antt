-- ===== src/Ion/Overlap.antt =====
-- What the tests on ranges of code mean for the points in them (src/ion/mod.rs, `CodeRange` and
-- `LiveRangeKey`).
use regalloc2_orig.Prelude.{
  ℕ, ◌-◌, ◌/◌, ◌%◌, ◌≤◌, ◌<◌, ◌≡◌, ◌↔◌, some, true, ◌==◌, max, if◌then◌else◌, arith,
}
use Prim.Native.Nat.{Ordering}
use regalloc2_orig.ProgPoint.{ProgPoint, before, after, lt}
use regalloc2_orig.ProgPoint.Order.{position, Fits, position-lt, position-le, to_index-eq-position}
use regalloc2_orig.Ion.Range.{CodeRange, contains, contains_point, overlaps, cmp}
use regalloc2_orig.Ion.Key
use regalloc2_orig.Ion.Key.{LiveRangeKey, from_range}

-- The range has a point.
abbrev pub IsProper : CodeRange → Type 0
IsProper r = position r.from < position r.to

-- The point at a position.
abbrev at : ℕ → ProgPoint
at n = record { inst = n / 2; pos = if n % 2 == 0 then before else after }

position-at : (n : ℕ) → position (at n) ≡ n
position-at n = ground arith

contains_point_iff :
    (r : CodeRange) (p : ProgPoint)
    → (contains_point r p ≡ true) ↔ ((position r.from ≤ position p) × (position p < position r.to))
unfolding contains_point
contains_point_iff r p = ground (arith, position-le r.from p, position-lt p r.to)

pub overlaps-positions :
    (a b : CodeRange)
    → (overlaps a b ≡ true)
      ↔ ((position a.from < position b.to) × (position b.from < position a.to))
unfolding overlaps
overlaps-positions a b = ground (arith, position-lt a.from b.to, position-lt b.from a.to)

-- Two ranges that have points overlap exactly where some point is in both.
pub overlaps_iff :
    (a b : CodeRange)
    → IsProper a
    → IsProper b
    → (overlaps a b ≡ true)
      ↔ ((p : ProgPoint) × (contains_point a p ≡ true) × (contains_point b p ≡ true))
overlaps_iff a b ha hb = (
  λ o.
      let (l, r) = (overlaps-positions a b).0 o in
      let n = max (position a.from) (position b.from) in
      let e = position-at n in
      (
        at n,
        (contains_point_iff a (at n)).1 (omega arith, omega arith),
        (contains_point_iff b (at n)).1 (omega arith, omega arith),
      ),
  λ (p, ia, ib).
      let (a1, a2) = (contains_point_iff a p).0 ia in
      let (b1, b2) = (contains_point_iff b p).0 ib in
      (overlaps-positions a b).1 (omega arith, omega arith),
)

contains-positions :
    (a b : CodeRange)
    → (contains a b ≡ true)
      ↔ ((position a.from ≤ position b.from) × (position b.to ≤ position a.to))
unfolding contains
contains-positions a b = ground (arith, position-le a.from b.from, position-le b.to a.to)

-- A range contains one that has points exactly where it contains every point of it.
pub contains_iff :
    (a b : CodeRange)
    → IsProper b
    → (contains a b ≡ true)
      ↔ ((p : ProgPoint) → contains_point b p ≡ true → contains_point a p ≡ true)
contains_iff a b hb = (
  λ c p i.
      let (l, r) = (contains-positions a b).0 c in
      let (b1, b2) = (contains_point_iff b p).0 i in
      (contains_point_iff a p).1 (omega arith, omega arith),
  λ all.
      let n = position b.to - 1 in
      let e = position-at n in
      let (l, m) =
        (contains_point_iff a b.from).0
          (all b.from ((contains_point_iff b b.from).1 (omega arith, omega arith))) in
      let (u, r) =
        (contains_point_iff a (at n)).0
          (all (at n) ((contains_point_iff b (at n)).1 (omega arith, omega arith))) in
      (contains-positions a b).1 (omega arith, omega arith),
)

-- Every point of the one range is before every point of the other.
abbrev pub AllBefore : CodeRange → CodeRange → Type 0
AllBefore a b =
    (p q : ProgPoint) → contains_point a p ≡ true → contains_point b q ≡ true → lt p q ≡ true

AllBefore-positions :
    (a b : CodeRange) → IsProper a → IsProper b → (position a.to ≤ position b.from) ↔ AllBefore a b
AllBefore-positions a b ha hb = (
  λ h p q ip iq.
      let (a1, a2) = (contains_point_iff a p).0 ip in
      let (b1, b2) = (contains_point_iff b q).0 iq in (position-lt p q).1 (omega arith),
  λ all.
      let n = position a.to - 1 in
      let e = position-at n in
      let l = (position-lt (at n) b.from).0 (
        all (at n) b.from ((contains_point_iff a (at n)).1 (omega arith, omega arith))
          ((contains_point_iff b b.from).1 (omega arith, omega arith))) in
      omega arith,
)

cmp-positions :
    (a b : CodeRange)
    → IsProper a
    → IsProper b
    → ((cmp a b ≡ Ordering.eq) ↔ (overlaps a b ≡ true))
      × ((cmp a b ≡ Ordering.lt) ↔ (position a.to ≤ position b.from))
      × ((cmp a b ≡ Ordering.gt) ↔ (position b.to ≤ position a.from))
unfolding cmp
cmp-positions a b ha hb = (
  ground (arith, position-le a.to b.from, position-le b.to a.from, overlaps-positions a b),
  ground (arith, position-le a.to b.from, position-le b.to a.from),
  ground (arith, position-le a.to b.from, position-le b.to a.from),
)

-- On ranges that have points, `cmp` says `Equal` exactly where they overlap, which is where some
-- point is in both, `Less`
-- exactly where every point of the first is before every point of the second, and `Greater`
-- exactly where every point of the second is before every point of the first.
pub cmp_lem :
    (a b : CodeRange)
    → IsProper a
    → IsProper b
    → ((cmp a b ≡ Ordering.eq) ↔ (overlaps a b ≡ true))
      × ((cmp a b ≡ Ordering.eq)
          ↔ ((p : ProgPoint) × (contains_point a p ≡ true) × (contains_point b p ≡ true)))
      × ((cmp a b ≡ Ordering.lt) ↔ AllBefore a b)
      × ((cmp a b ≡ Ordering.gt) ↔ AllBefore b a)
cmp_lem a b ha hb =
    let (same, less, greater) = cmp-positions a b ha hb in
    let met = overlaps_iff a b ha hb in
    let before_ = AllBefore-positions a b ha hb in
    let after_ = AllBefore-positions b a hb ha in
    (
      same,
      (λ e. met.0 (same.0 e), λ m. same.1 (met.1 m)),
      (λ e. before_.0 (less.0 e), λ m. less.1 (before_.1 m)),
      (λ e. after_.0 (greater.0 e), λ m. greater.1 (after_.1 m)),
    )

-- The key that a range gets.
abbrev key : CodeRange → LiveRangeKey
key r = record { from = position r.from; to = position r.to }

from_range-eq-key : (r : CodeRange) → IsProper r → Fits r.to → from_range r ≡ some (key r)
unfolding from_range
from_range-eq-key r h f =
    rw (to_index-eq-position r.from (ground arith), to_index-eq-position r.to f)

-- The keys of two ranges that have points and fit 32 bits compare as the ranges do, and are equal
-- where the ranges overlap.
pub from_range_lem :
    (a b : CodeRange)
    → IsProper a
    → IsProper b
    → Fits a.to
    → Fits b.to
    → (k l : LiveRangeKey) × (from_range a ≡ some k)
      × (from_range b ≡ some l)
      × (Key.cmp k l ≡ cmp a b)
      × ((Key.eq k l ≡ true) ↔ (overlaps a b ≡ true))
      × ((Key.eq k l ≡ true) ↔ (Key.cmp k l ≡ Ordering.eq))
unfolding cmp Key.cmp Key.eq
from_range_lem a b ha hb fa fb = (
  key a,
  key b,
  from_range-eq-key a ha fa,
  from_range-eq-key b hb fb,
  ground (arith, position-le a.to b.from, position-le b.to a.from),
  ground (arith, overlaps-positions a b),
  ground arith,
)
