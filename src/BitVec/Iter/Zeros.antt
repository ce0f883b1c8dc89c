-- ===== src/BitVec/Iter/Zeros.antt =====
-- The lowest bit of a word that is not zero.
use regalloc2_orig.Prelude.{
  ℕ, zero, suc, ◌/◌, ◌%◌, ◌^◌, ◌<◌, ◌≡◌, ◌≢◌, Bool-cases, inl, inr, ◌==◌, false, arith, digit,
}
use native.Mathlib.Nat.{pow-suc}
use regalloc2_orig.BitVec.Iter.{trailing_zeros}

-- It is a one, it is below the width, and the bits below it are zeros.
pub trailing_zeros_lem :
    (n w : ℕ)
    → w ≢ 0
    → w < 2 ^ n
    → (trailing_zeros n w < n)
      × (digit (trailing_zeros n w) w ≡ 1)
      × ((j : ℕ) → j < trailing_zeros n w → digit j w ≡ 0)
unfolding trailing_zeros
trailing_zeros_lem zero w p h = absurd (p (omega arith))
trailing_zeros_lem (suc n) w p h = elim (Bool-cases (w % 2 == 1)) [
  | inl odd ↦ rw odd (omega arith, ground arith, λ j l. absurd (omega arith))
  | inr even ↦
      let (below, on, off) =
        trailing_zeros_lem n (w / 2) (λ z. p (ground arith)) (omega (arith, pow-suc 2 n)) in
      rw even (omega arith, on, λ j l. lower even j l off)
]
  where
    lower :
        {t : ℕ}
        → (w % 2 == 1) ≡ false
        → (j : ℕ) → j < suc t
        → ((i : ℕ) → i < t → digit i (w / 2) ≡ 0)
        → digit j w ≡ 0
    lower e zero l off = ground arith
    lower e (suc j) l off = off j (omega arith)
