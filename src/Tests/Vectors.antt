-- ===== src/Tests/Vectors.antt =====
-- Bit vectors at concrete values.
use regalloc2_orig.Prelude.{
  ℕ, ◌≡◌, true, ◌==◌, ◌&&◌, ◌||◌, [], ◌∷◌, some, if◌then◌else◌, refl, zero, suc, ◌<◌, ◌^◌, get_or,
  count_from, arith,
}
use regalloc2_orig.BitVec.{BitVec, get, set, or, and}
use regalloc2_orig.BitVec.Sets.{member, get-eq-member, member-set}
use regalloc2_orig.BitVec.Iter.{iter, items, trailing_zeros}
use regalloc2_orig.BitVec.Iter.Order.{filter, items-iter}
use regalloc2_orig.BitVec.Combine.{member-or, get-and}

-- The sets of 1 and 3, and of 3 and 64.
abbrev small : BitVec
small = record { bits = 10 ∷ 0 ∷ [] }

abbrev large : BitVec
large = record { bits = 8 ∷ 1 ∷ 0 ∷ 0 ∷ [] }

grown : set small 130 true ≡ some (record { bits = 10 ∷ 0 ∷ 4 ∷ 0 ∷ [] })
unfolding set
grown = refl

get-eq-member_example : get large 64 ≡ some (member large 64)
get-eq-member_example = get-eq-member large 64

member-set_example :
    (v' : BitVec) × (set small 130 true ≡ some v')
    × ((i : ℕ) → get v' i ≡ some (if 130 == i then true else member small i))
member-set_example = member-set small 130 true

member-or_example :
    (v' : BitVec) × (or small large ≡ some v')
    × ((i : ℕ) → get v' i ≡ some (member small i || member large i))
member-or_example = member-or small large

get-and_example : get (and large small) 3 ≡ some (member large 3 && member small 3)
get-and_example = get-and large small 3

small_words : (i : ℕ) → get_or small.bits i 0 < 2 ^ 64
small_words zero = omega arith
small_words (suc zero) = omega arith
small_words (suc (suc i)) = omega arith

items-iter_example : items 129 (iter small) ≡ some (filter (member small) (count_from 0 128))
items-iter_example = items-iter small 129 small_words (omega arith)

small_items : items 3 (iter small) ≡ some (1 ∷ 3 ∷ [])
unfolding items iter trailing_zeros
small_items = refl
