-- ===== src/BitVec/Iter/Order.antt =====
-- The list of what the iterator runs through (src/bitvec.rs).
use regalloc2_orig.Prelude.{
  ℕ, zero, suc, ◌+◌, ◌*◌, ◌/◌, ◌%◌, ◌^◌, ◌<◌, ◌≤◌, ◌≡◌, Bool, true, false, ◌==◌, leb, ltb,
  if◌then◌else◌, List, [], ◌∷◌, Option, none, some, ◌>>=◌, length, get_or, Bool-cases, ==_refl, inl,
  inr, arith, refl, ap, sym, ◌∙◌, digit, count_from,
}
use regalloc2_orig.BitVec.{BitVec}
use regalloc2_orig.BitVec.Digits.{digit-zero}
use regalloc2_orig.BitVec.Sets.{member, get_or-past}
use regalloc2_orig.BitVec.Iter.{SetBitsIter, iter, next_bit, next, items}
use regalloc2_orig.BitVec.Iter.Items.{
  word_at, left, Fits, Skipped, skip_words_lem, without, Taken, take_bit_lem,
}

abbrev pub filter : (ℕ → Bool) → List ℕ → List ℕ
filter p [] = []
filter p (x ∷ xs) = if p x then x ∷ filter p xs else filter p xs

filter_congr : (p q : ℕ → Bool) → ((j : ℕ) → p j ≡ q j) → (xs : List ℕ) → filter p xs ≡ filter q xs
filter_congr p q h [] = refl
filter_congr p q h (x ∷ xs) = rw (h x, filter_congr p q h xs) refl

-- Without a number that comes before all of the list, nothing changes.
filter-without :
    (p : ℕ → Bool) (i start n : ℕ)
    → i < start
    → filter p (count_from start n) ≡ filter (without p i) (count_from start n)
filter-without p i start zero h = refl
filter-without p i start (suc n) h =
    let other : (start == i) ≡ false = ground arith in
    elim (Bool-cases (p start)) [
      | inl e ↦ rw (e, other, filter-without p i (suc start) n (omega arith)) refl
      | inr e ↦ rw e (filter-without p i (suc start) n (omega arith))
    ]

filter-first :
    (p : ℕ → Bool) (i start n : ℕ)
    → p i ≡ true
    → ((j : ℕ) → j < i → p j ≡ false)
    → start ≤ i
    → i < start + n
    → filter p (count_from start n) ≡ i ∷ filter (without p i) (count_from start n)
filter-first p i start zero on off h l = absurd (omega arith)
filter-first p i start (suc n) on off h l = elim (Bool-cases (start == i)) [
  | inl e ↦
      let same : start ≡ i = ground arith in
      rw (same, on, ==_refl i) (ap (λ r. i ∷ r) (filter-without p i (suc i) n (omega arith)))
  | inr e ↦
      rw (off start (ground arith))
        (filter-first p i (suc start) n on off (ground arith) (omega arith))
]

filter_none : (p : ℕ → Bool) → ((j : ℕ) → p j ≡ false) → (xs : List ℕ) → filter p xs ≡ []
filter_none p h [] = refl
filter_none p h (x ∷ xs) = rw (h x) (filter_none p h xs)

-- What a call of `next` comes to.
data Nexts (it : SetBitsIter) : Option ℕ × SetBitsIter → Type 0 where
  ends : {it' : SetBitsIter} → ((j : ℕ) → left it j ≡ false) → Nexts it (none, it')
  takes : {it' : SetBitsIter} {i : ℕ} → Taken it i it' → Nexts it (some i, it')

Taken-same :
    (it it' : SetBitsIter)
    → ((k : ℕ) → word_at it' k ≡ word_at it k)
    → {i : ℕ} {last : SetBitsIter} → Taken it' i last
    → Taken it i last
Taken-same it it' h {i} t = record {
  on = rw (← h (i / 64)) t.on;
  first = λ j l. rw (← h (j / 64)) (t.first j l);
  rest = λ j. t.rest j ∙ rw (h (j / 64)) refl;
  fits = t.fits;
}

next_bit_lem :
    (it : SetBitsIter) (found : Bool × SetBitsIter) → Skipped it found → Nexts it (next_bit found)
unfolding next_bit
next_bit_lem it (false, it') s = ends (λ j. rw (s.off refl (j / 64), digit-zero (j % 64)) refl)
next_bit_lem it (true, it') s =
    takes (Taken-same it it' s.same (take_bit_lem it' s.fits (s.on refl)))

next_lem :
    (it : SetBitsIter) → Fits it → (r : Option ℕ × SetBitsIter) × (next it ≡ some r) × Nexts it r
unfolding next
next_lem it f =
    let (found, e, s) = skip_words_lem (suc (length it.words)) it f (omega arith) (omega arith) in
    (next_bit found, rw e refl, next_bit_lem it found s)

-- The bits that are left are below `n`.
items_lem :
    (n fuel : ℕ) (it : SetBitsIter)
    → Fits it
    → ((j : ℕ) → left it j ≡ true → j < n)
    → length (filter (left it) (count_from 0 n)) < fuel
    → items fuel it ≡ some (filter (left it) (count_from 0 n))
unfolding items
items_lem n zero it f b h = absurd (omega arith)
items_lem n (suc fuel) it f b h =
    let (r, e, c) = next_lem it f in rw (items, e) (go r c (items_lem n fuel))
  where
    go :
        (r : Option ℕ × SetBitsIter)
        → Nexts it r
        → ((it' : SetBitsIter)
            → Fits it'
            → ((j : ℕ) → left it' j ≡ true → j < n)
            → length (filter (left it') (count_from 0 n)) < fuel
            → items fuel it' ≡ some (filter (left it') (count_from 0 n)))
        → (do
          (bit, it') ← some r
          elim bit [ none ↦ some [] | some i ↦ (do rest ← items fuel it'; some (i ∷ rest)) ])
          ≡ some (filter (left it) (count_from 0 n))
    go (none, it') (ends z) rest = rw (filter_none (left it) z (count_from 0 n)) refl
    go (some i, it') (takes t) rest =
        let all = count_from 0 n in
        let split =
          filter-first (left it) i 0 n t.on t.first (omega arith) (omega (arith, b i t.on)) in
        let same = filter_congr (left it') (without (left it) i) t.rest all in
        let shorter : length (filter (left it') all) < fuel =
          rw same (omega (arith, ap length split)) in
        let bound : (j : ℕ) → left it' j ≡ true → j < n =
          λ j l. b j (kept j (sym (t.rest j) ∙ l)) in
        rw (rest it' t.fits bound shorter, split, same) refl
      where
        kept : (j : ℕ) → without (left it) i j ≡ true → left it j ≡ true
        kept j l = elim (Bool-cases (left it j)) [ inl e ↦ e | inr e ↦ absurd (cc) ]

word_at-iter : (v : BitVec) (k : ℕ) → word_at (iter v) k ≡ get_or v.bits k 0
unfolding iter word_at
word_at-iter v zero = elim (Bool-cases (ltb 0 (length v.bits))) [
  | inl e ↦ rw e refl
  | inr e ↦ rw (e, get_or-past v.bits 0 (ground arith)) refl
]
word_at-iter v (suc k) = ground arith

iter-Fits : (v : BitVec) → ((i : ℕ) → get_or v.bits i 0 < 2 ^ 64) → Fits (iter v)
unfolding iter
iter-Fits v w = record { words = w; current = first (ltb 0 (length v.bits)) }
  where
    first : (b : Bool) → (if b then get_or v.bits 0 0 else 0) < 2 ^ 64
    first true = w 0
    first false = omega arith

filter-length : (p : ℕ → Bool) (start n : ℕ) → length (filter p (count_from start n)) ≤ n
filter-length p start zero = omega arith
filter-length p start (suc n) = elim (Bool-cases (p start)) [
  | inl e ↦ rw e (omega (arith, filter-length p (suc start) n))
  | inr e ↦ rw e (omega (arith, filter-length p (suc start) n))
]

-- The iterator runs through the numbers whose bit is on, each once and in order.
pub items-iter :
    (v : BitVec) (fuel : ℕ)
    → ((i : ℕ) → get_or v.bits i 0 < 2 ^ 64)
    → length v.bits * 64 < fuel
    → items fuel (iter v) ≡ some (filter (member v) (count_from 0 (length v.bits * 64)))
items-iter v fuel w h =
    let n = length v.bits * 64 in
    let same : (j : ℕ) → left (iter v) j ≡ member v j = λ j. rw (word_at-iter v (j / 64)) refl in
    items_lem n fuel (iter v) (iter-Fits v w) (λ j on. inside j (sym (same j) ∙ on))
      (omega (arith, filter-length (left (iter v)) 0 n))
    ∙ ap some (filter_congr (left (iter v)) (member v) same (count_from 0 n))
  where
    inside : (j : ℕ) → member v j ≡ true → j < length v.bits * 64
    inside j on = elim (Bool-cases (leb (length v.bits) (j / 64))) [
      | inl e ↦ absurd (
          ground (
            arith,
            ap (digit (j % 64)) (get_or-past v.bits (j / 64) (ground arith)),
            digit-zero (j % 64),
          ))
      | inr e ↦ ground arith
    ]
