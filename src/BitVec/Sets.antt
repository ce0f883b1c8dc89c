-- ===== src/BitVec/Sets.antt =====
-- A bit vector as the set of the numbers whose bit is on (src/bitvec.rs).
use regalloc2_orig.Prelude
use regalloc2_orig.Prelude.{
  ℕ, zero, suc, ◌+◌, ◌-◌, ◌*◌, ◌/◌, ◌%◌, ◌^◌, ◌<◌, ◌≤◌, ◌≡◌, max, min, Bool, true, false, not, ◌&&◌,
  ◌||◌, ◌==◌, leb, ltb, if◌then◌else◌, List, [], ◌∷◌, ◌++◌, Option, none, some, ◌>>=◌, length,
  get_elem?, get_or, take, replicate, bit_or, bit_and, digit, digit-bit_or, digit-bit_and, arith,
  refl, ap, sym, ◌∙◌, Bool-cases, inl, inr, length-append, length-replicate, length-set, get_or-set,
  get_elem?-eq-get_or, get_or-replicate, length-take, bit_and-zero,
}
use regalloc2_orig.BitVec.{BitVec, double, ensure_idx, update_word, not64, set, get}
use regalloc2_orig.BitVec.Digits.{digit-le, digit-zero, digit-pow, digit-mask, bit_test}

-- The bit of `i`; past the last word it is off.
abbrev pub member : BitVec → ℕ → Bool
member v i = digit (i % 64) (get_or v.bits (i / 64) 0) == 1

pub get_or-past : (xs : List ℕ) (i : ℕ) → length xs ≤ i → get_or xs i 0 ≡ 0
get_or-past [] i h = refl
get_or-past (x ∷ xs) zero h = absurd (omega arith)
get_or-past (x ∷ xs) (suc i) h = get_or-past xs i (omega arith)

get_or-append-zeros : (xs : List ℕ) (n i : ℕ) → get_or (xs ++ replicate n 0) i 0 ≡ get_or xs i 0
get_or-append-zeros [] n i = get_or-replicate n i 0
get_or-append-zeros (x ∷ xs) n zero = refl
get_or-append-zeros (x ∷ xs) n (suc i) = get_or-append-zeros xs n i

-- The fuel of the loop is enough, and the loop ends at a length past the word.
double_lem :
    (n word target_len : ℕ)
    → 0 < target_len
    → word < target_len + n
    → (t : ℕ) × (double (suc n) word target_len ≡ some t) × (word < t) × (target_len ≤ t)
unfolding double
double_lem zero word target_len p h =
    let enough : leb target_len word ≡ false = ground arith in
    (target_len, rw enough, omega arith, omega arith)
double_lem (suc n) word target_len p h = elim (Bool-cases (leb target_len word)) [
  | inr enough ↦ (target_len, rw enough, ground arith, omega arith)
  | inl less ↦
      let (t, e, l, m) = double_lem n word (target_len * 2) (omega arith) (omega arith) in
      (t, rw less e, l, omega arith)
]

pub ensure_idx_lem :
    (v : BitVec) (word : ℕ)
    → (v' : BitVec) × (ensure_idx v word ≡ some v')
      × (word < length v'.bits)
      × (length v.bits ≤ length v'.bits)
      × ((i : ℕ) → get_or v'.bits i 0 ≡ get_or v.bits i 0)
unfolding ensure_idx
ensure_idx_lem v word =
    let start = max 2 (length v.bits) in
    let (t, e, l, m) = double_lem word word start (omega arith) (omega arith) in
    let n = t - length v.bits in
    (
      record { bits = v.bits ++ replicate n 0 },
      rw e,
      omega (arith, length-append v.bits (replicate n 0), length-replicate {A = ℕ} n 0),
      omega (arith, length-append v.bits (replicate n 0), length-replicate {A = ℕ} n 0),
      λ i. get_or-append-zeros v.bits n i,
    )

-- `get` reads the bit.
pub get-eq-member : (v : BitVec) (i : ℕ) → get v i ≡ some (member v i)
unfolding get
get-eq-member v i = elim (Bool-cases (leb (length v.bits) (i / 64))) [
  | inl past ↦ rw past (
      ap some (
        ground (
          arith,
          ap (digit (i % 64)) (get_or-past v.bits (i / 64) (ground arith)),
          digit-zero (i % 64),
        )))
  | inr there ↦
      rw (there, get_elem?-eq-get_or v.bits (i / 64) 0 (ground arith))
        (ap some (bit_test (get_or v.bits (i / 64) 0) (i % 64)))
]

update_word_lem :
    (v : BitVec) (word : ℕ) (f : ℕ → ℕ)
    → word < length v.bits
    → (v' : BitVec) × (update_word v word f ≡ some v')
      × ((i : ℕ)
          → get_or v'.bits i 0
            ≡ (if word == i then f (get_or v.bits word 0) else get_or v.bits i 0))
update_word_lem v word f h = (
  record { bits = Prelude.set v.bits word (f (get_or v.bits word 0)) },
  rw (get_elem?-eq-get_or v.bits word 0 h),
  λ i. get_or-set v.bits word i 0 (f (get_or v.bits word 0)) h,
)

-- Where one word has changed, and in it one bit.
member_update :
    (v v' : BitVec) (idx : ℕ) (w : ℕ) (x : Bool)
    → ((i : ℕ) → get_or v'.bits i 0 ≡ (if idx / 64 == i then w else get_or v.bits i 0))
    → ((j : ℕ)
        → j < 64
        → (digit j w == 1)
          ≡ (if idx % 64 == j then x else digit j (get_or v.bits (idx / 64) 0) == 1))
    → (i : ℕ) → member v' i ≡ (if idx == i then x else member v i)
member_update v v' idx w x words bits i = elim (Bool-cases (idx / 64 == i / 64)) [
  | inl e ↦
      let same : idx / 64 ≡ i / 64 = ground arith in
      rw (words (i / 64), e, bits (i % 64) (omega arith), same) (ground arith)
  | inr e ↦ rw (words (i / 64), e) (ground arith)
]

word_on :
    (w b j : ℕ) → (digit j (bit_or w (2 ^ b)) == 1) ≡ (if b == j then true else digit j w == 1)
word_on w b j = ground (arith, digit-bit_or j w (2 ^ b), digit-pow j b, digit-le j w)

word_off :
    (w b j : ℕ)
    → b < 64
    → j < 64
    → (digit j (bit_and w (not64 (2 ^ b))) == 1) ≡ (if b == j then false else digit j w == 1)
word_off w b j hb hj =
    ground (arith, digit-bit_and j w (not64 (2 ^ b)), digit-mask j b 64 hj hb, digit-le j w)

set_on :
    (v : BitVec) (idx : ℕ)
    → idx / 64 < length v.bits
    → (v' : BitVec) × (update_word v (idx / 64) (λ w. bit_or w (2 ^ (idx % 64))) ≡ some v')
      × ((i : ℕ) → member v' i ≡ (if idx == i then true else member v i))
set_on v idx h =
    let (v', e, words) = update_word_lem v (idx / 64) (λ w. bit_or w (2 ^ (idx % 64))) h in
    let w = get_or v.bits (idx / 64) 0 in
    (
      v',
      e,
      member_update v v' idx (bit_or w (2 ^ (idx % 64))) true words
          (λ j small. word_on w (idx % 64) j),
    )

off_outside :
    (v : BitVec) (idx i : ℕ)
    → length v.bits ≤ idx / 64
    → member v i ≡ (if idx == i then false else member v i)
off_outside v idx i h = elim (Bool-cases (idx == i)) [
  | inr e ↦ rw e
  | inl e ↦
      let past = get_or-past v.bits (i / 64) (ground arith) in
      ground (arith, ap (digit (i % 64)) past, digit-zero (i % 64))
]

-- `set` does not panic, its loop ends, and it gives the bit of `idx` the value and leaves every
-- other bit as it was.
pub member-set :
    (v : BitVec) (idx : ℕ) (val : Bool)
    → (v' : BitVec) × (set v idx val ≡ some v')
      × ((i : ℕ) → get v' i ≡ some (if idx == i then val else member v i))
unfolding set
member-set v idx true = elim (Bool-cases (leb (length v.bits) (idx / 64))) [
  | inr inside ↦
      let (v', e, m) = set_on v idx (ground arith) in
      (v', rw inside e, λ i. get-eq-member v' i ∙ ap some (m i))
  | inl outside ↦
      let (big, g, inside, more, words) = ensure_idx_lem v (idx / 64) in
      let (v', e, m) = set_on big idx inside in
      (
        v',
        rw (outside, g) e,
        λ i.
            get-eq-member v' i
            ∙ ap some
                (m i ∙ ap (λ w. if idx == i then true else digit (i % 64) w == 1) (words (i / 64))),
      )
]
member-set v idx false = elim (Bool-cases (ltb (idx / 64) (length v.bits))) [
  | inl inside ↦
      let w = get_or v.bits (idx / 64) 0 in
      let (v', e, words) =
        update_word_lem v (idx / 64) (λ w. bit_and w (not64 (2 ^ (idx % 64)))) (ground arith) in
      (
        v',
        rw inside e,
        λ i.
            get-eq-member v' i
            ∙ ap some (
                member_update v v' idx (bit_and w (not64 (2 ^ (idx % 64)))) false words
                  (λ j small. word_off w (idx % 64) j (omega arith) small) i),
      )
  | inr outside ↦
      (v, rw outside, λ i. get-eq-member v i ∙ ap some (off_outside v idx i (ground arith)))
]
