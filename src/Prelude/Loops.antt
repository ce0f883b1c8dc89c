-- ===== src/Prelude/Loops.antt =====
-- Loops: the ways out of a loop's body, and the loop over a sequence that is known before it starts.
use Prim.Native.Nat.{ℕ, zero, suc}
use mathlib.Core.List.{List, [], ◌∷◌}
use mathlib.Core.Option.{Option, some}
use regalloc2_orig.Prelude.Tests.{◌>>=◌}

-- The end of a loop's body: on to the next round, or out of the function.
pub data Flow {ℓ κ} (S : Type ℓ) (R : Type κ) : Type (ℓ ⊔ κ) where
  next : S → Flow S R
  return : R → Flow S R

-- `for a in items { ... }`, with what the body changes as its state.
abbrev pub for_each {ℓ κ} : {A : Type ℓ} {S : Type κ} → (A → S → Option S) → List A → S → Option S
for_each body [] s = some s
for_each body (a ∷ items) s = do s ← body a s; for_each body items s

-- The numbers of `start..start + n`.
abbrev pub count_from : ℕ → ℕ → List ℕ
count_from start zero = []
count_from start (suc n) = start ∷ count_from (suc start) n
