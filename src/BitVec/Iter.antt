-- ===== src/BitVec/Iter.antt =====
-- The iterator over the bits that are on (src/bitvec.rs, `iter` and `SetBitsIter`).
pub mod Zeros
pub mod Items
pub mod Order
use regalloc2_orig.Prelude.{
  ℕ, zero, suc, ◌+◌, ◌*◌, ◌/◌, ◌%◌, ◌^◌, Bool, true, false, ◌==◌, leb, ltb, if◌then◌else◌, List, [],
  ◌∷◌, Option, none, some, ◌>>=◌, length, get_elem?, get_or, bit_and,
}
use regalloc2_orig.BitVec.{BitVec, bits_per_word, not64}

pub record SetBitsIter : Type 0 where
  pub words : List ℕ
  pub word_idx : ℕ
  pub cur_word : ℕ

unfoldable pub iter : BitVec → SetBitsIter
iter v = record {
  words = v.bits;
  word_idx = 0;
  cur_word = if ltb 0 (length v.bits) then get_or v.bits 0 0 else 0;
}

-- `trailing_zeros` of a word of so many bits: the number of zeros below the lowest one.
unfoldable pub trailing_zeros : ℕ → ℕ → ℕ
trailing_zeros zero w = 0
trailing_zeros (suc n) w = if w % 2 == 1 then 0 else suc (trailing_zeros n (w / 2))

-- The loop of `next`: whether a word with a bit that is on is left.
unfoldable pub skip_words : ℕ → SetBitsIter → Option (Bool × SetBitsIter)
skip_words zero it = none
skip_words (suc fuel) it = elim (it.cur_word == 0) [
  | false ↦ some (true, it)
  | true ↦ elim (leb (length it.words) (it.word_idx + 1)) [
    | true ↦ some (false, it)
    | false ↦ (do
      w ← get_elem? it.words (it.word_idx + 1)
      skip_words fuel (record { words = it.words; word_idx = it.word_idx + 1; cur_word = w }))
  ]
]

-- The lowest bit of the current word.
unfoldable pub take_bit : SetBitsIter → ℕ × SetBitsIter
take_bit it =
    let bitidx = trailing_zeros 64 it.cur_word in
    (
      it.word_idx * bits_per_word + bitidx,
      record {
        words = it.words;
        word_idx = it.word_idx;
        cur_word = bit_and it.cur_word (not64 (2 ^ bitidx));
      },
    )

unfoldable pub next_bit : Bool × SetBitsIter → Option ℕ × SetBitsIter
unfolding take_bit
next_bit (false, it) = (none, it)
next_bit (true, it) = let (i, it') = take_bit it in (some i, it')

-- The loop has a round for each word and one more.
unfoldable pub next : SetBitsIter → Option (Option ℕ × SetBitsIter)
unfolding skip_words next_bit
next it = do found ← skip_words (suc (length it.words)) it; some (next_bit found)

-- `for i in v.iter()`: what it runs through.
unfoldable pub items : ℕ → SetBitsIter → Option (List ℕ)
unfolding next
items zero it = none
items (suc fuel) it = do
  (bit, it) ← next it
  elim bit [ none ↦ some [] | some i ↦ (do rest ← items fuel it; some (i ∷ rest)) ]
