-- ===== src/Prelude/Bits.antt =====
-- `|`, `&`, `<<`, `>>` and `!` of the machine words as arithmetic. A word is a plain number, with
-- its range stated where it matters.
use Prim.Native.Nat.{ℕ, zero, suc, ◌+◌, ◌-◌, ◌*◌, ◌/◌, ◌%◌, ◌^◌, ◌≤◌, ◌<◌, min, max}
use Prim.Native.Nat.{bit_and, bit_or, digits, bitwise, bit_and-bitwise, bit_or-bitwise}
use mathlib.Core.Path.{◌≡◌, refl, ap, ap₂, ◌∙◌}
use mathlib.Core.Logic.{inl, inr}
use native.Mathlib.Nat.{pow-suc, one-le-pow}
use native.Mathlib.Omega.{arith}
use regalloc2_orig.Prelude.Tests.{ltb, Bool-cases}

infixl 75 ◌<<<◌ ◌>>>◌
abbrev pub ◌<<<◌ : ℕ → ℕ → ℕ
x <<< k = x * 2 ^ k

abbrev pub ◌>>>◌ : ℕ → ℕ → ℕ
x >>> k = x / 2 ^ k

-- The binary digit at place `i`.
abbrev pub digit : ℕ → ℕ → ℕ
digit zero a = a % 2
digit (suc i) a = digit i (a / 2)

-- What the native operations stand for: `join` joins two digits, and `last` gives what is left
-- where the first number has ended.
module _ (last : ℕ → ℕ) (join : ℕ → ℕ → ℕ)
    (ended : (y : ℕ) → last y ≡ last (y / 2) * 2 + join 0 (y % 2)) where
  -- One more round than there are digits changes nothing, and so no number of rounds does.
  digits_round :
      (fuel a : ℕ)
      → a ≤ fuel
      → (b : ℕ) → digits last join (suc fuel) a b ≡ digits last join fuel a b
  digits_round zero zero h b = refl
  digits_round zero (suc a) h b = absurd (omega arith)
  digits_round (suc fuel) zero h b = refl
  digits_round (suc fuel) (suc a) h b =
      omega (arith, digits_round fuel (suc a / 2) (omega arith) (b / 2))

  digits_spare :
      (spare a b fuel : ℕ) → spare + a ≡ fuel → digits last join fuel a b ≡ bitwise last join a b
  digits_spare zero a b fuel h = let e : a ≡ fuel = omega arith in rw (← e)
  digits_spare (suc spare) a b zero h = absurd (omega arith)
  digits_spare (suc spare) a b (suc fuel) h =
      digits_round fuel a (omega arith) b ∙ digits_spare spare a b fuel (omega arith)

  split_low :
      (a b : ℕ)
      → bitwise last join a b ≡ bitwise last join (a / 2) (b / 2) * 2 + join (a % 2) (b % 2)
  split_low zero b = ended b
  split_low (suc a) b =
      omega (arith, digits_spare (a - suc a / 2) (suc a / 2) (b / 2) a (omega arith))

pub bit_or_digits : (a b : ℕ) → bit_or a b ≡ bit_or (a / 2) (b / 2) * 2 + max (a % 2) (b % 2)
bit_or_digits a b =
    let split = split_low (λ y. y) max (λ y. omega arith) a b in simp bit_or-bitwise split

pub bit_and_digits : (a b : ℕ) → bit_and a b ≡ bit_and (a / 2) (b / 2) * 2 + min (a % 2) (b % 2)
bit_and_digits a b =
    let split = split_low (λ y. 0) min (λ y. omega arith) a b in simp bit_and-bitwise split

pub zero-bit_or : (b : ℕ) → bit_or 0 b ≡ b
zero-bit_or b = bit_or-bitwise 0 b

pub zero-bit_and : (b : ℕ) → bit_and 0 b ≡ 0
zero-bit_and b = bit_and-bitwise 0 b

pub bit_or_half : (a b : ℕ) → bit_or a b / 2 ≡ bit_or (a / 2) (b / 2)
bit_or_half a b = omega (arith, bit_or_digits a b)

pub bit_or_low : (a b : ℕ) → bit_or a b % 2 ≡ max (a % 2) (b % 2)
bit_or_low a b = omega (arith, bit_or_digits a b)

pub bit_and_half : (a b : ℕ) → bit_and a b / 2 ≡ bit_and (a / 2) (b / 2)
bit_and_half a b = omega (arith, bit_and_digits a b)

pub bit_and_low : (a b : ℕ) → bit_and a b % 2 ≡ min (a % 2) (b % 2)
bit_and_low a b = omega (arith, bit_and_digits a b)

-- Digit by digit.
pub digit-bit_or : (i a b : ℕ) → digit i (bit_or a b) ≡ max (digit i a) (digit i b)
digit-bit_or zero a b = bit_or_low a b
digit-bit_or (suc i) a b = rw (bit_or_half a b) (digit-bit_or i (a / 2) (b / 2))

pub digit-bit_and : (i a b : ℕ) → digit i (bit_and a b) ≡ min (digit i a) (digit i b)
digit-bit_and zero a b = bit_and_low a b
digit-bit_and (suc i) a b = rw (bit_and_half a b) (digit-bit_and i (a / 2) (b / 2))

shift_suc : (q k : ℕ) → q <<< suc k ≡ 2 * (q <<< k)
shift_suc q k = omega (arith, ap (λ (t : ℕ). q * t) (pow-suc 2 k))

half_shift : (q k : ℕ) → (q <<< suc k) / 2 ≡ q <<< k
half_shift q k = omega (arith, shift_suc q k)

-- `r | (q << k)` is a sum where `r` fits `k` bits.
pub bit_or_fields : (k r q : ℕ) → r < 2 ^ k → bit_or r (q <<< k) ≡ r + q * 2 ^ k
bit_or_fields zero zero q h = ground (arith, zero-bit_or (q * 1))
bit_or_fields zero (suc r) q h = absurd (omega arith)
bit_or_fields (suc k) r q h = omega (
  arith,
  bit_or_digits r (q <<< suc k),
  shift_suc q k,
  ap (bit_or (r / 2)) (half_shift q k),
  bit_or_fields k (r / 2) q (omega (arith, pow-suc 2 k)),
)

bit_and-zero_below : (n a : ℕ) → a ≤ n → bit_and a 0 ≡ 0
bit_and-zero_below zero zero h = refl
bit_and-zero_below zero (suc a) h = absurd (omega arith)
bit_and-zero_below (suc n) a h = elim (Bool-cases (ltb n a)) [
  | inl big ↦ omega (arith, bit_and_digits a 0, bit_and-zero_below n (a / 2) (ground arith))
  | inr small ↦ bit_and-zero_below n a (ground arith)
]

pub bit_and-zero : (a : ℕ) → bit_and a 0 ≡ 0
bit_and-zero a = bit_and-zero_below a a (omega arith)

half_mask : (k : ℕ) → (2 ^ suc k - 1) / 2 ≡ 2 ^ k - 1
half_mask k = omega (arith, pow-suc 2 k, one-le-pow k 2)

half_field : (q r k : ℕ) → (r + q * 2 ^ suc k) / 2 ≡ r / 2 + q * 2 ^ k
half_field q r k = omega (arith, shift_suc q k)

bit_and_low_field : (k r q : ℕ) → r < 2 ^ k → bit_and (r + q * 2 ^ k) (2 ^ k - 1) ≡ r
bit_and_low_field zero zero q h = bit_and-zero (0 + q * 1)
bit_and_low_field zero (suc r) q h = absurd (omega arith)
bit_and_low_field (suc k) r q h = omega (
  arith,
  bit_and_digits (r + q * 2 ^ suc k) (2 ^ suc k - 1),
  shift_suc q k,
  pow-suc 2 k,
  one-le-pow k 2,
  ap₂ bit_and (half_field q r k) (half_mask k),
  bit_and_low_field k (r / 2) q (omega (arith, pow-suc 2 k)),
)

-- A mask of `k` low bits is the remainder by `2 ^ k`.
pub bit_and_mask : (k a : ℕ) → bit_and a (2 ^ k - 1) ≡ a % 2 ^ k
bit_and_mask k a = ground (arith, one-le-pow k 2, bit_and_low_field k (a % 2 ^ k) (a / 2 ^ k))

half_high : (w k : ℕ) → (2 ^ suc w - 2 ^ suc k) / 2 ≡ 2 ^ w - 2 ^ k
half_high w k = omega (arith, pow-suc 2 w, pow-suc 2 k)

bit_and_ones : (w x : ℕ) → x < 2 ^ w → bit_and x (2 ^ w - 1) ≡ x
bit_and_ones w x h = ap (λ (y : ℕ). bit_and y (2 ^ w - 1)) (omega arith) ∙ bit_and_low_field w x 0 h

-- `a & !(2 ^ k - 1)` on a word of `w` bits drops the low `k` bits.
pub bit_and_high_field :
    (w k r q : ℕ)
    → k ≤ w
    → r < 2 ^ k
    → r + q * 2 ^ k < 2 ^ w
    → bit_and (r + q * 2 ^ k) (2 ^ w - 2 ^ k) ≡ q * 2 ^ k
bit_and_high_field w zero zero q l h b = bit_and_ones w (0 + q * 1) (omega arith) ∙ omega arith
bit_and_high_field w zero (suc r) q l h b = absurd (omega arith)
bit_and_high_field zero (suc k) r q l h b = absurd (omega arith)
bit_and_high_field (suc w) (suc k) r q l h b = omega (
  arith,
  bit_and_digits (r + q * 2 ^ suc k) (2 ^ suc w - 2 ^ suc k),
  ap₂ bit_and (half_field q r k) (half_high w k),
  shift_suc q k,
  pow-suc 2 w,
  pow-suc 2 k,
  bit_and_high_field w k (r / 2) q (omega arith) (omega (arith, pow-suc 2 k))
      (omega (arith, pow-suc 2 w, shift_suc q k)),
)

bit_or-zero_below : (n a : ℕ) → a ≤ n → bit_or a 0 ≡ a
bit_or-zero_below zero zero h = refl
bit_or-zero_below zero (suc a) h = absurd (omega arith)
bit_or-zero_below (suc n) a h = elim (Bool-cases (ltb n a)) [
  | inl big ↦ omega (arith, bit_or_digits a 0, bit_or-zero_below n (a / 2) (ground arith))
  | inr small ↦ bit_or-zero_below n a (ground arith)
]

bit_or_comm_below : (n a b : ℕ) → a ≤ n → bit_or a b ≡ bit_or b a
bit_or_comm_below zero zero b h = rw (bit_or-zero_below b b (omega arith)) (zero-bit_or b)
bit_or_comm_below zero (suc a) b h = absurd (omega arith)
bit_or_comm_below (suc n) a b h = elim (Bool-cases (ltb n a)) [
  | inl big ↦ omega (
    arith,
    bit_or_digits a b,
    bit_or_digits b a,
    bit_or_comm_below n (a / 2) (b / 2) (ground arith),
  )
  | inr small ↦ bit_or_comm_below n a b (ground arith)
]

pub bit_or_comm : (a b : ℕ) → bit_or a b ≡ bit_or b a
bit_or_comm a b = bit_or_comm_below a a b (omega arith)

-- The casts `as u8` and `as u32`, and `<<` on a u32, which drops the high bits.
abbrev pub u8 : ℕ → ℕ
u8 n = n % 2 ^ 8

abbrev pub u32 : ℕ → ℕ
u32 n = n % 2 ^ 32

abbrev pub shl32 : ℕ → ℕ → ℕ
shl32 x k = (x <<< k) % 2 ^ 32
