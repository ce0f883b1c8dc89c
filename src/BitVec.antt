-- ===== src/BitVec.antt =====
-- Bit vectors (src/bitvec.rs). The words are numbers below 2 ^ 64; `none` is a panic, or the fuel of
-- the loop of `ensure_idx` spent, which does not happen. `with_capacity` differs from `new` in the
-- storage it reserves only.
pub mod Digits
pub mod Sets
pub mod Combine
pub mod Iter
use regalloc2_orig.Prelude
use regalloc2_orig.Prelude.{
  ℕ, zero, suc, ◌+◌, ◌-◌, ◌*◌, ◌/◌, ◌%◌, ◌^◌, max, Bool, true, false, not, ◌==◌, leb, ltb,
  if◌then◌else◌, List, [], ◌∷◌, ◌++◌, Option, none, some, ◌>>=◌, length, get_elem?, take, replicate,
  bit_or, bit_and,
}

pub record BitVec : Type 0 where
  pub bits : List ℕ

abbrev pub bits_per_word : ℕ
bits_per_word = 64

abbrev pub new : BitVec
new = record { bits = [] }

abbrev pub with_capacity : ℕ → BitVec
with_capacity len = record { bits = [] }

-- `while word >= target_len { target_len *= 2; }`
unfoldable pub double : ℕ → ℕ → ℕ → Option ℕ
double zero word target_len = none
double (suc fuel) word target_len =
    let rest = double fuel word (target_len * 2) in
    if leb target_len word then rest else some target_len

-- `resize` to a length that is not less appends.
unfoldable pub ensure_idx : BitVec → ℕ → Option BitVec
unfolding double
ensure_idx v word = do
  target_len ← double (suc word) word (max 2 (length v.bits))
  some (record { bits = v.bits ++ replicate (target_len - length v.bits) 0 })

-- `self.bits[word] = f(self.bits[word])`
abbrev pub update_word : BitVec → ℕ → (ℕ → ℕ) → Option BitVec
update_word v word f = do
  w ← get_elem? v.bits word
  some (record { bits = Prelude.set v.bits word (f w) })

-- The complement of a word.
abbrev pub not64 : ℕ → ℕ
not64 w = 2 ^ 64 - 1 - w

unfoldable pub set : BitVec → ℕ → Bool → Option BitVec
unfolding ensure_idx
set v idx val =
    let word = idx / bits_per_word in
    let bit = idx % bits_per_word in
    if val
    then (do
      v ← if leb (length v.bits) word then ensure_idx v word else some v
      update_word v word (λ w. bit_or w (2 ^ bit)))
    else if ltb word (length v.bits)
    then update_word v word (λ w. bit_and w (not64 (2 ^ bit)))
    else some v

unfoldable pub get : BitVec → ℕ → Option Bool
get v idx =
    let word = idx / bits_per_word in
    let bit = idx % bits_per_word in
    if leb (length v.bits) word
    then some false
    else (do w ← get_elem? v.bits word; some (not (bit_and w (2 ^ bit) == 0)))

-- The loop over `self.bits.iter_mut().zip(other.bits.iter())`.
unfoldable pub zip_words : (ℕ → ℕ → ℕ) → List ℕ → List ℕ → List ℕ
zip_words f [] ys = []
zip_words f (x ∷ xs) [] = x ∷ xs
zip_words f (x ∷ xs) (y ∷ ys) = f x y ∷ zip_words f xs ys

unfoldable pub or : BitVec → BitVec → Option BitVec
unfolding ensure_idx zip_words
or v other = if length other.bits == 0 then some v else (do
  v ← ensure_idx v (length other.bits - 1)
  some (record { bits = zip_words bit_or v.bits other.bits }))

unfoldable pub and : BitVec → BitVec → BitVec
unfolding zip_words
and v other =
    let bits =
      if ltb (length other.bits) (length v.bits) then take (length other.bits) v.bits else v.bits in
    record { bits = zip_words bit_and bits other.bits }
