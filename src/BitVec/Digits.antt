-- ===== src/BitVec/Digits.antt =====
-- The binary digits of the masks that a bit vector uses.
use regalloc2_orig.Prelude.{
  ℕ, zero, suc, ◌+◌, ◌-◌, ◌*◌, ◌/◌, ◌^◌, ◌<◌, ◌≤◌, ◌≡◌, ap, ◌==◌, not, Bool-cases, inl, inr, ◌∙◌,
  if◌then◌else◌, arith, bit_and, bit_and_digits, bit_and_mask, digit, digit-bit_and, zero-bit_and,
}
use native.Mathlib.Nat.{pow-suc, one-le-pow}

pub digit-le : (i a : ℕ) → digit i a ≤ 1
digit-le zero a = omega arith
digit-le (suc i) a = digit-le i (a / 2)

pub digit-zero : (i : ℕ) → digit i 0 ≡ 0
digit-zero zero = omega arith
digit-zero (suc i) = digit-zero i

half_pow : (k : ℕ) → 2 ^ suc k / 2 ≡ 2 ^ k
half_pow k = omega (arith, pow-suc 2 k)

half_one : (1 / 2) ≡ 0
half_one = omega arith

pub digit-pow : (i k : ℕ) → digit i (2 ^ k) ≡ (if i == k then 1 else 0)
digit-pow zero zero = omega arith
digit-pow zero (suc k) = ground (arith, pow-suc 2 k)
digit-pow (suc i) zero = ground (arith, digit-zero i)
digit-pow (suc i) (suc k) = ground (arith, ap (digit i) (half_pow k), digit-pow i k)

digit-ones : (i n : ℕ) → i < n → digit i (2 ^ n - 1) ≡ 1
digit-ones i zero h = absurd (omega arith)
digit-ones zero (suc n) h = omega (arith, pow-suc 2 n, one-le-pow n 2)
digit-ones (suc i) (suc n) h =
    let e : (2 ^ suc n - 1) / 2 ≡ 2 ^ n - 1 = omega (arith, pow-suc 2 n, one-le-pow n 2) in
    omega (arith, ap (digit i) e, digit-ones i n (omega arith))

pow-le : (k n : ℕ) → k < n → 2 ^ k + 1 ≤ 2 ^ n
pow-le k zero h = absurd (omega arith)
pow-le zero (suc n) h = omega (arith, pow-suc 2 n, one-le-pow n 2)
pow-le (suc k) (suc n) h = omega (arith, pow-suc 2 n, pow-suc 2 k, pow-le k n (omega arith))

-- The digits of a mask with one digit off.
pub digit-mask :
    (i k n : ℕ) → i < n → k < n → digit i (2 ^ n - 1 - 2 ^ k) ≡ (if i == k then 0 else 1)
digit-mask i k zero h l = absurd (omega arith)
digit-mask zero zero (suc n) h l = omega (arith, pow-suc 2 n, one-le-pow n 2)
digit-mask zero (suc k) (suc n) h l =
    ground (arith, pow-suc 2 n, pow-suc 2 k, pow-le k n (omega arith))
digit-mask (suc i) zero (suc n) h l =
    let e : (2 ^ suc n - 1 - 1) / 2 ≡ 2 ^ n - 1 = omega (arith, pow-suc 2 n, one-le-pow n 2) in
    ground (arith, ap (digit i) e, digit-ones i n (omega arith))
digit-mask (suc i) (suc k) (suc n) h l =
    let e : (2 ^ suc n - 1 - 2 ^ suc k) / 2 ≡ 2 ^ n - 1 - 2 ^ k =
      omega (arith, pow-suc 2 n, pow-suc 2 k, pow-le k n (omega arith)) in
    ground (arith, ap (digit i) e, digit-mask i k n (omega arith) (omega arith))

-- A mask of one digit keeps that digit.
pub bit_and-pow : (k a : ℕ) → bit_and a (2 ^ k) ≡ digit k a * 2 ^ k
bit_and-pow zero a = omega (arith, bit_and_mask 1 a)
bit_and-pow (suc k) a = omega (
  arith,
  pow-suc 2 k,
  bit_and_digits a (2 ^ suc k),
  ap (bit_and (a / 2)) (half_pow k),
  bit_and-pow k (a / 2),
  ap (λ t. digit k (a / 2) * t) (pow-suc 2 k),
)

-- The test of one digit by a mask.
pub bit_test : (w b : ℕ) → not (bit_and w (2 ^ b) == 0) ≡ (digit b w == 1)
bit_test w b =
    let small = digit-le b w in
    elim (Bool-cases (digit b w == 0)) [
      | inl e ↦
          let z : digit b w ≡ 0 = ground arith in
          let masked : bit_and w (2 ^ b) ≡ 0 =
            bit_and-pow b w ∙ ap (λ t. t * 2 ^ b) z ∙ omega arith in
          rw (z, masked)
      | inr e ↦
          let one : digit b w ≡ 1 = ground arith in
          let masked : bit_and w (2 ^ b) ≡ 2 ^ b =
            bit_and-pow b w ∙ ap (λ t. t * 2 ^ b) one ∙ omega arith in
          let positive = one-le-pow b 2 (omega arith) in rw (one, masked) (ground arith)
    ]

bit_and-le_below : (n a b : ℕ) → a ≤ n → bit_and a b ≤ a
bit_and-le_below n zero b h = omega (arith, zero-bit_and b)
bit_and-le_below zero (suc a) b h = absurd (omega arith)
bit_and-le_below (suc n) (suc a) b h =
    omega (arith, bit_and_digits (suc a) b, bit_and-le_below n (suc a / 2) (b / 2) (omega arith))

pub bit_and-le : (a b : ℕ) → bit_and a b ≤ a
bit_and-le a b = bit_and-le_below a a b (omega arith)

-- The bits of a word with one bit cleared.
pub digit-cleared :
    (w b j : ℕ)
    → b < 64
    → j < 64
    → digit j (bit_and w (2 ^ 64 - 1 - 2 ^ b)) ≡ (if j == b then 0 else digit j w)
digit-cleared w b j hb hj =
    ground (arith, digit-bit_and j w (2 ^ 64 - 1 - 2 ^ b), digit-mask j b 64 hj hb, digit-le j w)
