-- ===== src/Moves/Semantics.antt =====
-- What a sequence of moves and a parallel move do to the contents of the allocations
-- (src/moves.rs, the comment at `ParallelMoves`).
use regalloc2_orig.Prelude.{
  ◌≡◌, refl, Option, none, some, Bool, true, if◌then◌else◌, List, [], ◌∷◌, arith, Bool-cases, inl,
  inr, ◌∙◌,
}
use regalloc2_orig.Alloc
use regalloc2_orig.Alloc.{Allocation}
use regalloc2_orig.Moves.{Move}
use regalloc2_orig.Moves.Sort.{insert_by, sort_by}

-- The source that a parallel move writes to `a`, if it writes there.
abbrev pub lookup : List Move → Allocation → Option Allocation
lookup [] a = none
lookup (m ∷ ms) a = if Alloc.eq m.1 a then some m.0 else lookup ms a

-- Each destination has one writer.
abbrev pub Distinct : List Move → Type 0
Distinct [] = Unit
Distinct (m ∷ ms) = (lookup ms m.1 ≡ none) × Distinct ms

module _ {ℓ} {V : Type ℓ} where
  abbrev pub write : (Allocation → V) → Allocation → V → Allocation → V
  write σ a v b = if Alloc.eq a b then v else σ b

  -- One move after the other.
  abbrev pub run : List Move → (Allocation → V) → Allocation → V
  run [] σ = σ
  run (m ∷ ms) σ = run ms (write σ m.1 (σ m.0))

  abbrev pub read : (Allocation → V) → Allocation → Option Allocation → V
  read σ a none = σ a
  read σ a (some s) = σ s

  -- All reads come before all writes.
  abbrev pub parallel : List Move → (Allocation → V) → Allocation → V
  parallel ms σ a = read σ a (lookup ms a)

pub eq_of_eq : (a b : Allocation) → Alloc.eq a b ≡ true → a ≡ b
eq_of_eq a b h = ground arith

pub eq_refl : (a : Allocation) → Alloc.eq a a ≡ true
eq_refl a = ground arith

-- Sorting keeps the parallel move.
module _ (le : Move → Move → Bool) where
  lookup-insert_by :
      (m : Move) (ms : List Move) (a : Allocation)
      → lookup ms m.1 ≡ none
      → lookup (insert_by le m ms) a ≡ lookup (m ∷ ms) a
  unfolding insert_by
  lookup-insert_by m [] a h = refl
  lookup-insert_by m (k ∷ ms) a h = ground (arith, lookup-insert_by m ms a)

  Distinct-insert_by :
      (m : Move) (ms : List Move)
      → lookup ms m.1 ≡ none
      → Distinct ms
      → Distinct (insert_by le m ms)
  unfolding insert_by
  Distinct-insert_by m [] h d = (refl, tt)
  Distinct-insert_by m (k ∷ ms) h d = elim (Bool-cases (le m k)) [
    | inl e ↦ rw e (h, d)
    | inr e ↦
        rw e (ground (arith, lookup-insert_by m ms k.1), Distinct-insert_by m ms (ground arith) d.1)
  ]

  pub lookup-sort_by :
      (ms : List Move) (a : Allocation) → Distinct ms → lookup (sort_by le ms) a ≡ lookup ms a
  unfolding sort_by
  lookup-sort_by [] a d = refl
  lookup-sort_by (m ∷ ms) a d =
      ground
        (arith, lookup-sort_by ms a, lookup-sort_by ms m.1, lookup-insert_by m (sort_by le ms) a)

  pub Distinct-sort_by : (ms : List Move) → Distinct ms → Distinct (sort_by le ms)
  unfolding sort_by
  Distinct-sort_by [] d = tt
  Distinct-sort_by (m ∷ ms) d =
      Distinct-insert_by m (sort_by le ms) (lookup-sort_by ms m.1 d.1 ∙ d.0)
        (Distinct-sort_by ms d.1)
