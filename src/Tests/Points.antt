-- ===== src/Tests/Points.antt =====
-- Program points and instruction ranges at concrete values.
use regalloc2_orig.Prelude.{ℕ, false, ◌≡◌, ◌↔◌, ◌≤◌, [], ◌∷◌, reverse, some, true, refl, arith}
use regalloc2_orig.Index.InstRange.{InstRange, forward, iter, rev}
use regalloc2_orig.Index.Iteration.{iter_visits}
use regalloc2_orig.ProgPoint
use regalloc2_orig.ProgPoint.{ProgPoint, before, after}
use regalloc2_orig.ProgPoint.Order.{from_index-to_index, le-to_index}

abbrev after_3 : ProgPoint
after_3 = record { inst = 3; pos = after }

abbrev before_4 : ProgPoint
before_4 = record { inst = 4; pos = before }

index_7 : ProgPoint.to_index after_3 ≡ some 7
unfolding ProgPoint.to_index
index_7 = refl

index_8 : ProgPoint.to_index before_4 ≡ some 8
unfolding ProgPoint.to_index
index_8 = refl

-- As `test_inst_range` in src/index.rs.
backwards : iter 6 (record { from = 0; to = 5; is_forward = false }) ≡ some (4 ∷ 3 ∷ 2 ∷ 1 ∷ 0 ∷ [])
unfolding iter
backwards = refl

iter_visits_example :
    (r : InstRange) × (forward 0 5 ≡ some r)
    × (iter 6 r ≡ some (0 ∷ 1 ∷ 2 ∷ 3 ∷ 4 ∷ []))
    × (iter 6 (rev r) ≡ some (reverse (0 ∷ 1 ∷ 2 ∷ 3 ∷ 4 ∷ [])))
iter_visits_example = iter_visits 0 5 6 (omega arith) (omega arith) (omega arith)

from_index-to_index_example :
    (n : ℕ) × (ProgPoint.to_index after_3 ≡ some n) × (ProgPoint.from_index n ≡ some after_3)
from_index-to_index_example = from_index-to_index after_3 (omega arith)

le-to_index_example : (ProgPoint.le after_3 before_4 ≡ true) ↔ (7 ≤ 8)
le-to_index_example = le-to_index after_3 before_4 7 8 (omega arith) (omega arith) index_7 index_8
