-- ===== src/Index/Iteration.antt =====
-- What an iteration over a range visits (src/index.rs, `InstRange` and `InstRangeIter`).
use regalloc2_orig.Prelude.{
  ℕ, zero, suc, ◌+◌, ◌-◌, ◌≤◌, ◌<◌, ◌≡◌, refl, none, some, Bool, true, false, List, [], ◌∷◌, ◌++◌,
  reverse, arith, ap, ◌∙◌,
}
use mathlib.Core.List.{reverse-append}
use regalloc2_orig.Index.{Inst, invalid}
use regalloc2_orig.Index.InstRange.{InstRange, forward, len, rev, next, iter}

-- What both constructors guarantee.
pub record IsValid (r : InstRange) : Type 0 where
  pub to_lt : r.to < invalid
  pub ordered : r.from ≤ r.to

-- `from`, `from + 1`, …, `n` numbers in all.
abbrev pub ascending : ℕ → ℕ → List ℕ
ascending from zero = []
ascending from (suc n) = from ∷ ascending (suc from) n

-- `from + n - 1`, …, `from + 1`, `from`.
abbrev pub descending : ℕ → ℕ → List ℕ
descending from zero = []
descending from (suc n) = (from + n) ∷ descending from n

len-IsValid : (r : InstRange) → IsValid r → len r ≡ some (r.to - r.from)
unfolding len
len-IsValid r h = ground arith

abbrev range : ℕ → ℕ → Bool → InstRange
range from to b = record { from = from; to = to; is_forward = b }

next-forward :
    (from to : ℕ)
    → to < invalid
    → from < to
    → next (range from to true) ≡ some (some (from, range (suc from) to true))
unfolding next
next-forward from to h k = ground arith

next-backward :
    (from to : ℕ)
    → suc to < invalid
    → from ≤ to
    → next (range from (suc to) false) ≡ some (some (to, range from to false))
unfolding next
next-backward from to h k = ground arith

next-empty : (from : ℕ) (b : Bool) → from < invalid → next (range from from b) ≡ some none
unfolding next
next-empty from b h = ground arith

iter-forward :
    (n from to fuel : ℕ)
    → to < invalid
    → from + n ≡ to
    → n < fuel
    → iter fuel (range from to true) ≡ some (ascending from n)
unfolding iter
iter-forward n from to zero h e k = absurd (omega arith)
iter-forward zero from to (suc fuel) h e k =
    let e' : from ≡ to = omega arith in rw (← e', next-empty from true (omega arith))
iter-forward (suc n) from to (suc fuel) h e k = rw (
  next-forward from to h (omega arith),
  iter-forward n (suc from) to fuel h (omega arith) (omega arith),
)

iter-backward :
    (n from to fuel : ℕ)
    → to < invalid
    → from + n ≡ to
    → n < fuel
    → iter fuel (range from to false) ≡ some (descending from n)
unfolding iter
iter-backward n from to zero h e k = absurd (omega arith)
iter-backward zero from to (suc fuel) h e k =
    let e' : from ≡ to = omega arith in rw (← e', next-empty from false (omega arith))
iter-backward (suc n) from to (suc fuel) h e k =
    let e' : to ≡ suc (from + n) = omega arith in
    rw (
      e',
      next-backward from (from + n) (omega arith) (omega arith),
      iter-backward n from (from + n) fuel (omega arith) refl (omega arith),
    )

ascending-suc : (from n : ℕ) → ascending from (suc n) ≡ ascending from n ++ (from + n) ∷ []
ascending-suc from zero = ground arith
ascending-suc from (suc n) = ground (arith, ascending-suc (suc from) n)

descending-eq-reverse : (from n : ℕ) → descending from n ≡ reverse (ascending from n)
descending-eq-reverse from zero = refl
descending-eq-reverse from (suc n) =
    rw (ascending-suc from n, reverse-append (ascending from n) ((from + n) ∷ []))
      (ap (◌∷◌ (from + n)) (descending-eq-reverse from n))

-- Iterating a forward range visits the instructions from `from` up to `to`, which it leaves out,
-- and the reversed range visits the same instructions in the opposite order. The iteration ends
-- after `to - from` rounds and nothing in it panics.
pub iter_visits :
    (from to : Inst) (fuel : ℕ)
    → from ≤ to
    → to < invalid
    → to - from < fuel
    → (r : InstRange) × (forward from to ≡ some r)
      × (iter fuel r ≡ some (ascending from (to - from)))
      × (iter fuel (rev r) ≡ some (reverse (ascending from (to - from))))
unfolding forward rev
iter_visits from to fuel h k f = (
  range from to true,
  ground arith,
  iter-forward (to - from) from to fuel k (omega arith) f,
  iter-backward (to - from) from to fuel k (omega arith) f
      ∙ ap some (descending-eq-reverse from (to - from)),
)
