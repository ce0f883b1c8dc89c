-- ===== src/BitVec/Iter/Items.antt =====
-- What the iterator runs through (src/bitvec.rs): the bits that are on, in order.
use regalloc2_orig.Prelude.{
  ℕ, zero, suc, ◌+◌, ◌*◌, ◌/◌, ◌%◌, ◌^◌, ◌<◌, ◌≤◌, ◌≡◌, ◌≢◌, Bool, true, false, not, ◌&&◌, ◌==◌,
  leb, ltb, if◌then◌else◌, some, length, get_or, bit_and, Bool-cases, inl, inr, arith, refl, sym,
  ◌∙◌, digit, get_elem?-eq-get_or,
}
use regalloc2_orig.BitVec.{not64}
use regalloc2_orig.BitVec.Digits.{digit-zero, digit-cleared, bit_and-le}
use regalloc2_orig.BitVec.Sets.{get_or-past}
use regalloc2_orig.BitVec.Iter.{SetBitsIter, trailing_zeros, skip_words, take_bit}
use regalloc2_orig.BitVec.Iter.Zeros.{trailing_zeros_lem}

-- The word of the bits that the iterator has yet to come to.
unfoldable pub word_at : SetBitsIter → ℕ → ℕ
word_at it k =
    if ltb k it.word_idx then 0 else if k == it.word_idx then it.cur_word else get_or it.words k 0

-- Whether the iterator has yet to come to the bit `j`.
abbrev pub left : SetBitsIter → ℕ → Bool
left it j = digit (j % 64) (word_at it (j / 64)) == 1

-- The words are words of 64 bits.
pub record Fits (it : SetBitsIter) : Type 0 where
  pub words : (i : ℕ) → get_or it.words i 0 < 2 ^ 64
  pub current : it.cur_word < 2 ^ 64

-- What the loop over the words comes to.
pub record Skipped (it : SetBitsIter) (found : Bool × SetBitsIter) : Type 0 where
  pub same : (k : ℕ) → word_at (found.1) k ≡ word_at it k
  pub fits : Fits (found.1)
  pub on : found.0 ≡ true → (found.1).cur_word ≢ 0
  pub off : found.0 ≡ false → (k : ℕ) → word_at it k ≡ 0

abbrev after_word : SetBitsIter → SetBitsIter
after_word it = record {
  words = it.words;
  word_idx = it.word_idx + 1;
  cur_word = get_or it.words (it.word_idx + 1) 0;
}

word_at-done :
    (it : SetBitsIter)
    → it.cur_word ≡ 0
    → length it.words ≤ it.word_idx + 1
    → (k : ℕ) → word_at it k ≡ 0
unfolding word_at
word_at-done it z h k = elim (Bool-cases (ltb k it.word_idx)) [
  | inl e ↦ rw e refl
  | inr e ↦ elim (Bool-cases (k == it.word_idx)) [
    | inl s ↦ rw (e, s) z
    | inr s ↦ rw (e, s) (get_or-past it.words k (ground arith))
  ]
]

word_at-skip :
    (it : SetBitsIter) → it.cur_word ≡ 0 → (k : ℕ) → word_at (after_word it) k ≡ word_at it k
unfolding word_at
word_at-skip it z k = elim (Bool-cases (k == it.word_idx + 1)) [
  | inl s ↦ let same : k ≡ it.word_idx + 1 = ground arith in rw same (ground arith)
  | inr s ↦ rw s (ground arith)
]

pub skip_words_lem :
    (fuel : ℕ) (it : SetBitsIter)
    → Fits it
    → length it.words < it.word_idx + 1 + fuel
    → 0 < fuel
    → (found : Bool × SetBitsIter) × (skip_words fuel it ≡ some found) × Skipped it found
unfolding skip_words
skip_words_lem zero it f h p = absurd (omega arith)
skip_words_lem (suc fuel) it f h p = elim (Bool-cases (it.cur_word == 0)) [
  | inr e ↦ (
    (true, it),
    rw (skip_words, e),
    record { same = λ k. refl; fits = f; on = λ t z. ground arith; off = λ t. cc },
  )
  | inl e ↦
      let z : it.cur_word ≡ 0 = ground arith in
      elim (Bool-cases (leb (length it.words) (it.word_idx + 1))) [
        | inl past ↦ (
          (false, it),
          rw (skip_words, e, past),
          record {
            same = λ k. refl;
            fits = f;
            on = λ t. cc;
            off = λ t. word_at-done it z (ground arith);
          },
        )
        | inr inside ↦
            let (found, eq, s) =
              skip_words_lem fuel (after_word it)
                (record { words = f.words; current = f.words (it.word_idx + 1) }) (omega arith)
                (ground arith) in
            (
              found,
              rw
                  (
                    skip_words,
                    e,
                    inside,
                    get_elem?-eq-get_or it.words (it.word_idx + 1) 0 (ground arith),
                  )
                  eq,
              record {
                same = λ k. s.same k ∙ word_at-skip it z k;
                fits = s.fits;
                on = s.on;
                off = λ t k. sym (word_at-skip it z k) ∙ s.off t k;
              },
            )
      ]
]

-- One bit less.
abbrev pub without : (ℕ → Bool) → ℕ → ℕ → Bool
without p i j = p j && not (j == i)

-- The bit `i` is the first one that is left, and the one that goes.
pub record Taken (it : SetBitsIter) (i : ℕ) (it' : SetBitsIter) : Type 0 where
  pub on : left it i ≡ true
  pub first : (j : ℕ) → j < i → left it j ≡ false
  pub rest : (j : ℕ) → left it' j ≡ without (left it) i j
  pub fits : Fits it'

-- The bit `t` of the current word is on, and those below are off.
pub record Lowest (it : SetBitsIter) (t : ℕ) : Type 0 where
  pub below : t < 64
  pub on : digit t it.cur_word ≡ 1
  pub off : (j : ℕ) → j < t → digit j it.cur_word ≡ 0

-- The current word with one bit off, and the words that are not the current one.
abbrev with_current : SetBitsIter → ℕ → SetBitsIter
with_current it w = record { words = it.words; word_idx = it.word_idx; cur_word = w }

word_at-current : (it : SetBitsIter) (k : ℕ) → k ≡ it.word_idx → word_at it k ≡ it.cur_word
unfolding word_at
word_at-current it k e = rw e (ground arith)

word_at-other :
    (it : SetBitsIter) (w k : ℕ) → k ≢ it.word_idx → word_at (with_current it w) k ≡ word_at it k
unfolding word_at
word_at-other it w k n = let other : (k == it.word_idx) ≡ false = ground arith in rw other refl

word_at-past : (it : SetBitsIter) (k : ℕ) → k < it.word_idx → word_at it k ≡ 0
unfolding word_at
word_at-past it k h = let past : ltb k it.word_idx ≡ true = ground arith in rw past refl

module _ (it : SetBitsIter) (t : ℕ) (l : Lowest it t) where
  place : ℕ
  place = it.word_idx * 64 + t

  left-lowest : left it place ≡ true
  unfolding place
  left-lowest =
      let q : place / 64 ≡ it.word_idx = omega (arith, l.below) in
      let m : place % 64 ≡ t = omega (arith, l.below) in
      rw (word_at-current it (place / 64) q, m, l.on) refl

  left-below : (j : ℕ) → j < place → left it j ≡ false
  unfolding place
  left-below j h = elim (Bool-cases (ltb (j / 64) it.word_idx)) [
    | inl e ↦ rw (word_at-past it (j / 64) (ground arith), digit-zero (j % 64)) refl
    | inr e ↦
        let q : j / 64 ≡ it.word_idx = ground (arith, l.below) in
        rw (word_at-current it (j / 64) q, l.off (j % 64) (omega arith)) refl
  ]

  left-cleared :
      (w : ℕ)
      → ((j : ℕ) → j < 64 → digit j w ≡ (if j == t then 0 else digit j it.cur_word))
      → (j : ℕ) → left (with_current it w) j ≡ without (left it) place j
  unfolding place
  left-cleared w h j = elim (Bool-cases (j / 64 == it.word_idx)) [
    | inl e ↦
        let q : j / 64 ≡ it.word_idx = ground arith in
        rw
          (
            word_at-current (with_current it w) (j / 64) q,
            word_at-current it (j / 64) q,
            h (j % 64) (omega arith),
          )
          (ground (arith, l.below))
    | inr e ↦ rw (word_at-other it w (j / 64) (ground arith)) (ground (arith, l.below))
  ]

pub take_bit_lem :
    (it : SetBitsIter) → Fits it → it.cur_word ≢ 0 → Taken it ((take_bit it).0) ((take_bit it).1)
unfolding take_bit place
take_bit_lem it f nz =
    let (below, on, off) = trailing_zeros_lem 64 it.cur_word nz f.current in
    let t = trailing_zeros 64 it.cur_word in
    let l : Lowest it t = record { below = below; on = on; off = off } in
    record {
      on = left-lowest it t l;
      first = left-below it t l;
      rest =
          left-cleared it t l (bit_and it.cur_word (not64 (2 ^ t)))
            (λ j hj. digit-cleared it.cur_word t j below hj);
      fits = record {
        words = f.words;
        current = omega (arith, f.current, bit_and-le it.cur_word (not64 (2 ^ t)));
      };
    }
