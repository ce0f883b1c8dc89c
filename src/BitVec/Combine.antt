-- ===== src/BitVec/Combine.antt =====
-- The union and the intersection of bit vectors (src/bitvec.rs, `or` and `and`).
use regalloc2_orig.Prelude.{
  ℕ, zero, suc, ◌-◌, ◌/◌, ◌%◌, ◌≤◌, ◌≡◌, ◌&&◌, ◌||◌, ◌==◌, ltb, if◌then◌else◌, List, [], ◌∷◌, some,
  length, get_or, take, bit_or, bit_and, digit, digit-bit_or, digit-bit_and, arith, refl, ap, sym,
  ◌∙◌, Bool-cases, inl, inr, bit_or_comm, zero-bit_or, bit_and-zero, zero-bit_and,
}
use regalloc2_orig.BitVec.{BitVec, get, zip_words, or, and}
use regalloc2_orig.BitVec.Digits.{digit-le, digit-zero}
use regalloc2_orig.BitVec.Sets.{member, get-eq-member, ensure_idx_lem, get_or-past}

member_zip :
    (f : ℕ → ℕ → ℕ) (xs ys : List ℕ) (i : ℕ)
    → length ys ≤ length xs
    → ((x : ℕ) → f x 0 ≡ x)
    → get_or (zip_words f xs ys) i 0 ≡ f (get_or xs i 0) (get_or ys i 0)
unfolding zip_words
member_zip f [] [] i h unit = sym (unit 0)
member_zip f [] (y ∷ ys) i h unit = absurd (omega arith)
member_zip f (x ∷ xs) [] i h unit = sym (unit (get_or (x ∷ xs) i 0))
member_zip f (x ∷ xs) (y ∷ ys) zero h unit = refl
member_zip f (x ∷ xs) (y ∷ ys) (suc i) h unit = member_zip f xs ys i (omega arith) unit

bit_or_unit : (x : ℕ) → bit_or x 0 ≡ x
bit_or_unit x = bit_or_comm x 0 ∙ zero-bit_or x

or_test : (j a b : ℕ) → (digit j (bit_or a b) == 1) ≡ (digit j a == 1 || digit j b == 1)
or_test j a b = ground (arith, digit-bit_or j a b, digit-le j a, digit-le j b)

and_test : (j a b : ℕ) → (digit j (bit_and a b) == 1) ≡ (digit j a == 1 && digit j b == 1)
and_test j a b = ground (arith, digit-bit_and j a b, digit-le j a, digit-le j b)

or_empty :
    (v other : BitVec) (i : ℕ) → length other.bits ≡ 0 → member v i ≡ (member v i || member other i)
or_empty v other i e =
    let past = get_or-past other.bits (i / 64) (omega arith) in
    ground (arith, ap (digit (i % 64)) past, digit-zero (i % 64))

-- `or` does not panic, its loop ends, and it gives the union.
pub member-or :
    (v other : BitVec)
    → (v' : BitVec) × (or v other ≡ some v')
      × ((i : ℕ) → get v' i ≡ some (member v i || member other i))
unfolding or
member-or v other = elim (Bool-cases (length other.bits == 0)) [
  | inl e ↦ (v, rw e, λ i. get-eq-member v i ∙ ap some (or_empty v other i (ground arith)))
  | inr e ↦
      let (big, g, inside, more, words) = ensure_idx_lem v (length other.bits - 1) in
      (
        record { bits = zip_words bit_or big.bits other.bits },
        rw (e, g),
        λ i.
            get-eq-member (record { bits = zip_words bit_or big.bits other.bits }) i
            ∙ ap some (
                ap (λ w. digit (i % 64) w == 1)
                  (member_zip bit_or big.bits other.bits (i / 64) (ground arith) bit_or_unit
                    ∙ ap (λ w. bit_or w (get_or other.bits (i / 64) 0)) (words (i / 64)))
                ∙ or_test (i % 64) (get_or v.bits (i / 64) 0) (get_or other.bits (i / 64) 0)),
      )
]

-- Where the first list is the shorter.
and_zip :
    (xs ys : List ℕ) (i : ℕ)
    → length xs ≤ length ys
    → get_or (zip_words bit_and xs ys) i 0 ≡ bit_and (get_or xs i 0) (get_or ys i 0)
unfolding zip_words
and_zip [] ys i h = sym (zero-bit_and (get_or ys i 0))
and_zip (x ∷ xs) [] i h = absurd (omega arith)
and_zip (x ∷ xs) (y ∷ ys) zero h = refl
and_zip (x ∷ xs) (y ∷ ys) (suc i) h = and_zip xs ys i (omega arith)

and_take :
    (xs ys : List ℕ) (i : ℕ)
    → length ys ≤ length xs
    → get_or (zip_words bit_and (take (length ys) xs) ys) i 0
      ≡ bit_and (get_or xs i 0) (get_or ys i 0)
unfolding zip_words
and_take xs [] i h = sym (bit_and-zero (get_or xs i 0))
and_take [] (y ∷ ys) i h = absurd (omega arith)
and_take (x ∷ xs) (y ∷ ys) zero h = refl
and_take (x ∷ xs) (y ∷ ys) (suc i) h = and_take xs ys i (omega arith)

and_words :
    (xs ys : List ℕ) (i : ℕ)
    → get_or
        (zip_words bit_and (if ltb (length ys) (length xs) then take (length ys) xs else xs) ys)
        i
        0
      ≡ bit_and (get_or xs i 0) (get_or ys i 0)
and_words xs ys i = elim (Bool-cases (ltb (length ys) (length xs))) [
  | inl more ↦ rw more (and_take xs ys i (ground arith))
  | inr less ↦ rw less (and_zip xs ys i (ground arith))
]

-- `and` gives the intersection.
pub get-and : (v other : BitVec) (i : ℕ) → get (and v other) i ≡ some (member v i && member other i)
unfolding and
get-and v other i =
    get-eq-member (and v other) i
    ∙ ap some (
        ap (λ w. digit (i % 64) w == 1) (and_words v.bits other.bits (i / 64))
        ∙ and_test (i % 64) (get_or v.bits (i / 64) 0) (get_or other.bits (i / 64) 0))
