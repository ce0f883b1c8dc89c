-- ===== src/Tests/Moves.antt =====
-- A parallel move with a cycle of three and a move that hangs on it.
use regalloc2_orig.Prelude.{ℕ, ◌≡◌, List, [], ◌∷◌, some, refl, arith}
use regalloc2_orig.Alloc.{Allocation}
use regalloc2_orig.Moves.{Move, ParallelMoves, resolve}
use regalloc2_orig.Moves.Correct.{Resolves, resolve_correct}

abbrev at : ℕ → Allocation
at n = record { bits = n }

abbrev sample : ParallelMoves
sample = record {
  parallel_moves = (at 1, at 2) ∷ (at 2, at 3) ∷ (at 3, at 1) ∷ (at 1, at 5) ∷ [];
  scratch = at 9;
}

resolve-sample :
    resolve sample
    ≡ some ((at 1, at 5) ∷ (at 1, at 9) ∷ (at 3, at 1) ∷ (at 2, at 3) ∷ (at 9, at 2) ∷ [])
unfolding resolve
resolve-sample = refl

resolve_correct_example : (seq : List Move) × (resolve sample ≡ some seq) × Resolves ℕ sample seq
resolve_correct_example = resolve_correct ℕ sample (refl, (refl, (refl, (refl, tt)))) (ground arith)
