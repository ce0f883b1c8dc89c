-- ===== src/Checker/Run.antt =====
-- The run of the checker (src/checker.rs, `Checker`). The maps `bb_in` and `bb_insts`, whose keys
-- are the blocks 0, 1, ..., are lists by block number; so `find_errors` lists its errors by block
-- number, where the source's order is that of a hash map.
use regalloc2_orig.Prelude.{
  ℕ, zero, suc, Bool, true, false, ltb, List, [], ◌∷◌, ◌++◌, Option, none, some, ◌>>=◌, ◌>>◌,
  assert, get_elem?, set, drop, replicate, if◌then◌else◌,
}
use regalloc2_orig.Index.{Inst, Block}
use regalloc2_orig.ProgPoint
use regalloc2_orig.ProgPoint.{ProgPoint, before, after, before_inst, after_inst}
use regalloc2_orig.Function.{Function, Edit, Output, inst_allocs, items}
use regalloc2_orig.Checker.State
use regalloc2_orig.Checker.State.{
  CheckerState, CheckerInst, move, op, block_params, empty, meet_with, update,
}
use regalloc2_orig.Checker.Check.{CheckerError, Outcome, ok, err, panic, check}

pub record Checker : Type 0 where
  pub bb_in : List CheckerState
  pub bb_insts : List (List CheckerInst)

unfoldable pub new : Function → Checker
new f = record { bb_in = replicate f.blocks empty; bb_insts = replicate f.blocks [] }

-- `bb_insts.get_mut(&block).unwrap().push(inst)`
abbrev pub push : List (List CheckerInst) → Block → CheckerInst → Option (List (List CheckerInst))
push bb_insts block inst = do
  insts ← get_elem? bb_insts block
  some (set bb_insts block (insts ++ (inst ∷ [])))

abbrev pub edit_inst : Block → Edit → CheckerInst
edit_inst block (Edit.move from to) = move to from
edit_inst block (Edit.block_params vregs allocs) = block_params block vregs allocs

-- The loop; the list is what is left of the edits from `idx`.
unfoldable pub handle_loop :
    Block
    → ProgPoint
    → List (ProgPoint × Edit)
    → ℕ
    → List (List CheckerInst)
    → Option (ℕ × List (List CheckerInst))
handle_loop block pos [] idx bb_insts = some (idx, bb_insts)
handle_loop block pos ((edit_pos, edit) ∷ edits) idx bb_insts =
    if ProgPoint.le edit_pos pos
    then (elim (ProgPoint.lt edit_pos pos) [
      | true ↦ handle_loop block pos edits (suc idx) bb_insts
      | false ↦ (do
        bb_insts ← push bb_insts block (edit_inst block edit)
        handle_loop block pos edits (suc idx) bb_insts)
    ])
    else some (idx, bb_insts)

unfoldable pub handle_edits :
    Block → Output → ℕ → ProgPoint → List (List CheckerInst) → Option (ℕ × List (List CheckerInst))
unfolding handle_loop
handle_edits block out idx pos bb_insts = handle_loop block pos (drop idx out.edits) idx bb_insts

-- What `prepare` carries from one instruction to the next.
pub record Prepared : Type 0 where
  pub last_inst : Option Inst
  pub insert_idx : ℕ
  pub bb_insts : List (List CheckerInst)

abbrev in_order : Option Inst → Inst → Bool
in_order none inst = true
in_order (some last) inst = ltb last inst

unfoldable pub prepare_inst : Function → Output → Block → Inst → Prepared → Option Prepared
unfolding handle_edits inst_allocs before_inst after_inst
prepare_inst f out block inst p = do
  assert (in_order p.last_inst inst)
  (insert_idx, bb_insts) ← handle_edits block out p.insert_idx (before_inst inst) p.bb_insts
  allocs ← inst_allocs out inst
  bb_insts ← push bb_insts block (op inst (f.inst_operands inst) allocs)
  (insert_idx, bb_insts) ← handle_edits block out insert_idx (after_inst inst) bb_insts
  some (record { last_inst = some inst; insert_idx = insert_idx; bb_insts = bb_insts })

unfoldable pub prepare_insts : Function → Output → Block → List Inst → Prepared → Option Prepared
unfolding prepare_inst
prepare_insts f out block [] p = some p
prepare_insts f out block (inst ∷ insts) p = do
  p ← prepare_inst f out block inst p
  prepare_insts f out block insts p

-- The blocks from `block` on, `n` of them.
unfoldable pub prepare_blocks : Function → Output → ℕ → Block → Prepared → Option Prepared
unfolding prepare_insts
prepare_blocks f out zero block p = some p
prepare_blocks f out (suc n) block p = do
  insts ← items (f.block_insns block)
  p ← prepare_insts f out block insts p
  prepare_blocks f out n (suc block) p

unfoldable pub prepare : Function → Checker → Output → Option Checker
unfolding prepare_blocks
prepare f c out = do
  p ←
      prepare_blocks f out f.blocks 0
        (record { last_inst = none; insert_idx = 0; bb_insts = c.bb_insts })
  some (record { bb_in = c.bb_in; bb_insts = p.bb_insts })

unfoldable pub update_all : CheckerState → List CheckerInst → Option CheckerState
update_all st [] = some st
update_all st (inst ∷ insts) = do st ← update st inst; update_all st insts

-- The loop over the successors: the states at the blocks' entries, and the queue.
unfoldable pub flow :
    CheckerState
    → List Block
    → List CheckerState
    → List Block
    → Option (List CheckerState × List Block)
unfolding meet_with State.eq
flow state [] bb_in queue = some (bb_in, queue)
flow state (succ ∷ succs) bb_in queue = do
  cur_succ_in ← get_elem? bb_in succ
  let new_state = meet_with state cur_succ_in
  elim (State.eq new_state cur_succ_in) [
    | true ↦ flow state succs bb_in queue
    | false ↦ flow state succs (set bb_in succ new_state) (queue ++ (succ ∷ []))
  ]

-- One round of the loop of `analyze`, and the rounds until the queue is empty.
unfoldable pub analyze_block :
    Function → Block → Checker → List Block → Option (Checker × List Block)
unfolding update_all flow
analyze_block f block c queue = do
  state ← get_elem? c.bb_in block
  insts ← get_elem? c.bb_insts block
  state ← update_all state insts
  (bb_in, queue) ← flow state (f.block_succs block) c.bb_in queue
  some (record { bb_in = bb_in; bb_insts = c.bb_insts }, queue)

unfoldable pub analyze_loop : ℕ → Function → Checker → List Block → Option Checker
unfolding analyze_block
analyze_loop zero f c queue = none
analyze_loop (suc fuel) f c [] = some c
analyze_loop (suc fuel) f c (block ∷ queue) = do
  (c, queue) ← analyze_block f block c queue
  analyze_loop fuel f c queue

unfoldable pub analyze : ℕ → Function → Checker → Option Checker
unfolding analyze_loop
analyze fuel f c = analyze_loop fuel f c (f.entry_block ∷ [])

-- `if let Err(e) = ... { errors.push(e); }`
abbrev pub errors_of : Outcome → Option (List CheckerError)
errors_of ok = some []
errors_of (err e) = some (e ∷ [])
errors_of panic = none

-- The errors of a block from its entry state on.
unfoldable pub block_errors : CheckerState → List CheckerInst → Option (List CheckerError)
unfolding check update
block_errors st [] = some []
block_errors st (inst ∷ insts) = do
  es ← errors_of (check st before inst)
  st ← update st inst
  fs ← errors_of (check st after inst)
  gs ← block_errors st insts
  some (es ++ (fs ++ gs))

unfoldable pub errors_from :
    List CheckerState → List (List CheckerInst) → Option (List CheckerError)
unfolding block_errors
errors_from [] bb_insts = some []
errors_from (input ∷ inputs) [] = none
errors_from (input ∷ inputs) (insts ∷ bb_insts) = do
  es ← block_errors input insts
  fs ← errors_from inputs bb_insts
  some (es ++ fs)

-- The errors that are found; none is `Ok(())`.
unfoldable pub find_errors : Checker → Option (List CheckerError)
unfolding errors_from
find_errors c = errors_from c.bb_in c.bb_insts

-- The states printed afterwards go to the log only.
unfoldable pub run : ℕ → Function → Checker → Option (List CheckerError)
unfolding analyze find_errors
run fuel f c = do c ← analyze fuel f c; find_errors c
