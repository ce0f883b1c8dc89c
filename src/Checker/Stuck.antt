-- ===== src/Checker/Stuck.antt =====
-- Where the analysis stops at the entry block (src/checker.rs, `analyze`).
use regalloc2_orig.Prelude.{ℕ, suc, ◌≡◌, refl, List, [], ◌∷◌, some, get_elem?}
use regalloc2_orig.Index.{Block}
use regalloc2_orig.Function.{Function}
use regalloc2_orig.Checker.State
use regalloc2_orig.Checker.State.{CheckerState, CheckerInst, empty, meet_with}
use regalloc2_orig.Checker.Run.{Checker, update_all, flow, analyze_block, analyze_loop, analyze}

-- Each of the blocks has the initial state.
abbrev pub Initial : List CheckerState → List Block → Type 0
Initial bb_in [] = Unit
Initial bb_in (b ∷ bs) = (get_elem? bb_in b ≡ some empty) × Initial bb_in bs

flow-empty :
    (succs : List Block) (bb_in : List CheckerState) (queue : List Block)
    → Initial bb_in succs
    → flow empty succs bb_in queue ≡ some (bb_in, queue)
unfolding flow meet_with State.eq
flow-empty [] bb_in queue i = refl
flow-empty (b ∷ bs) bb_in queue i = rw (i.0) (flow-empty bs bb_in queue i.1)

-- Where the entry block's instructions leave no allocation with a value, and its successors still
-- have the initial state, `analyze` ends after the entry block and leaves every block's state as it
-- was: no other block is visited.
pub analyze-eq-Initial :
    (f : Function) (c : Checker) (st : CheckerState) (insts : List CheckerInst) (n : ℕ)
    → get_elem? c.bb_in f.entry_block ≡ some st
    → get_elem? c.bb_insts f.entry_block ≡ some insts
    → update_all st insts ≡ some empty
    → Initial c.bb_in (f.block_succs f.entry_block)
    → analyze (suc (suc n)) f c ≡ some c
unfolding analyze analyze_loop analyze_block
analyze-eq-Initial f c st insts n s i u e =
    rw (s, i, u, flow-empty (f.block_succs f.entry_block) c.bb_in [] e)
