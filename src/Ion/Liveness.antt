-- ===== src/Ion/Liveness.antt =====
-- The liveness of an instruction's operands (src/ion/mod.rs, the body of the loop over the
-- instructions of `compute_liveness`). Each function that follows a linked list takes the fuel of its
-- loops.
pub mod Blocks
pub mod Fixups
pub mod Loops
use regalloc2_orig.Prelude.{
  ℕ, ◌+◌, Bool, true, false, not, ◌&&◌, ◌==◌, ltb, if◌then◌else◌, List, [], ◌∷◌, ◌++◌, Option, none,
  some, ◌>>=◌, length, get_elem?, u32, for_each, count_from,
}
use regalloc2_orig.Index
use regalloc2_orig.Index.{Inst, Block}
use regalloc2_orig.ProgPoint
use regalloc2_orig.ProgPoint.{ProgPoint, before_inst, after_inst}
use regalloc2_orig.Reg.VReg
use regalloc2_orig.Reg.VReg.{VReg}
use regalloc2_orig.Reg.PReg.{PReg}
use regalloc2_orig.Operand
use regalloc2_orig.Operand.{Operand, OperandPos, reuse}
use regalloc2_orig.BitVec
use regalloc2_orig.BitVec.{BitVec}
use regalloc2_orig.Cfg.{CfgInfo, put}
use regalloc2_orig.Function.{Function}
use regalloc2_orig.Ion.Range.{CodeRange}
use regalloc2_orig.Ion.Env.{LiveRange, Use, Def, VRegData, Env, at, set_range, set_vreg}
use regalloc2_orig.Ion.Allocate.{add_liverange_to_preg}
use regalloc2_orig.Ion.Uses.{insert_use_into_liverange_and_update_stats}
use regalloc2_orig.Ion.Uses.AddRange.{add_liverange_to_vreg}

-- What the pass carries along.
pub record Pass : Type 0 where
  pub env : Env
  pub live : BitVec
  pub vreg_ranges : List ℕ
  pub num_ranges : ℕ

-- `add_liverange_to_vreg` on the state of the pass.
abbrev pub add_range : ℕ → ℕ → CodeRange → Pass → Option (Pass × ℕ)
add_range fuel vreg range p = do
  (env, num_ranges, lr) ← add_liverange_to_vreg fuel p.env (Index.new vreg) range p.num_ranges
  some (record p { env = env; num_ranges = num_ranges }, lr)

-- The position of a definition.
abbrev pub def_pos : OperandPos → Inst → ProgPoint
def_pos Operand.before inst = before_inst inst
def_pos Operand.both inst = before_inst inst
def_pos Operand.after inst = after_inst inst

-- The position of a use, before what moves it.
abbrev pub use_pos : OperandPos → Inst → ProgPoint
use_pos Operand.before inst = before_inst inst
use_pos Operand.both inst = after_inst inst
use_pos Operand.after inst = after_inst inst

-- The range of a vreg that is defined; a trivial one where the definition is dead.
unfoldable pub range_of_def : ℕ → ℕ → ProgPoint → Pass → Option (Pass × ℕ)
range_of_def fuel vreg pos p = do
  lr ← get_elem? p.vreg_ranges vreg
  if Index.is_invalid lr
      then (do to ← ProgPoint.next pos; add_range fuel vreg (record { from = pos; to = to }) p)
      else some (p, lr)

unfoldable pub process_def : ℕ → ProgPoint → Inst → ℕ → Operand → Pass → Option Pass
unfolding range_of_def
process_def fuel block_entry inst i operand p = do
  at_pos ← Operand.pos operand
  let pos = def_pos at_pos inst
  let def = u32 (length p.env.defs)
  let d : Def = record { operand = operand; pos = pos; slot = i }
  let env = record p.env { defs = p.env.defs ++ d ∷ [] }
  vreg ← Operand.vreg operand
  let v = VReg.vreg vreg
  env ← set_vreg env v (λ data_. record data_ { reg = vreg; def = def })
  (p, lr) ← range_of_def fuel v pos (record p { env = env })
  r ← at p.env.ranges lr
  env ←
      if ProgPoint.eq r.range.from block_entry
      then set_range p.env lr (λ r. record r { range = record { from = pos; to = r.range.to } })
      else some p.env
  env ← set_range env lr (λ r. record r { def = def })
  live ← BitVec.set p.live v false
  vreg_ranges ← put p.vreg_ranges v Index.invalid
  some (record p { env = env; live = live; vreg_ranges = vreg_ranges })

-- What moves a use: an input that is reused, and a branch.
abbrev pub moved_use : Option ℕ → Bool → ProgPoint → Inst → ℕ → ProgPoint → ProgPoint
moved_use reused_input is_branch block_exit inst i pos =
    if is_branch
    then block_exit
    else elim reused_input [ none ↦ pos | some k ↦ if k == i then pos else after_inst inst ]

unfoldable pub process_use :
    ℕ → ProgPoint → ProgPoint → Option ℕ → Bool → Inst → ℕ → Operand → Pass → Option Pass
process_use fuel block_entry block_exit reused_input is_branch inst i operand p = do
  at_pos ← Operand.pos operand
  let pos = moved_use reused_input is_branch block_exit inst i (use_pos at_pos inst)
  let u = u32 (length p.env.uses)
  let d : Use = record { operand = operand; pos = pos; slot = i; next_use = Index.invalid }
  let env = record p.env { uses = p.env.uses ++ d ∷ [] }
  to ← ProgPoint.next pos
  vreg ← Operand.vreg operand
  let v = VReg.vreg vreg
  (p, lr) ← add_range fuel v (record { from = block_entry; to = to }) (record p { env = env })
  vreg_ranges ← put p.vreg_ranges v lr
  env ← insert_use_into_liverange_and_update_stats fuel p.env lr u
  live ← BitVec.set p.live v true
  some (record p { env = env; live = live; vreg_ranges = vreg_ranges })

-- The first input that an output reuses.
unfoldable pub find_reused : List Operand → Option (Option ℕ)
find_reused [] = some none
find_reused (op ∷ ops) = do
  policy ← Operand.policy op
  elim policy [ reuse i ↦ some (some i) | _ ↦ find_reused ops ]

unfoldable pub process_operand :
    ℕ → Function → ProgPoint → ProgPoint → Option ℕ → Inst → ℕ → Pass → Option Pass
unfolding process_def process_use
process_operand fuel f block_entry block_exit reused_input inst i p = do
  operand ← get_elem? (f.inst_operands inst) i
  kind ← Operand.kind operand
  elim kind [
    | Operand.def ↦ process_def fuel block_entry inst i operand p
    | Operand.use_ ↦
        process_use fuel block_entry block_exit reused_input (f.is_branch inst) inst i operand p
  ]

-- The range of a clobber.
unfoldable pub add_clobber : Inst → PReg → Env → Option Env
add_clobber inst clobber env = do
  next_inst ← Index.next inst
  add_liverange_to_preg env (record { from = before_inst inst; to = before_inst next_inst }) clobber

unfoldable pub process_inst : ℕ → Function → ProgPoint → ProgPoint → Inst → Pass → Option Pass
unfolding process_operand find_reused add_clobber
process_inst fuel f block_entry block_exit inst p = do
  let clobbers = f.inst_clobbers inst
  let env =
      if ltb 0 (length clobbers)
      then record p.env { clobbers = p.env.clobbers ++ inst ∷ [] }
      else p.env
  env ← for_each (add_clobber inst) clobbers env
  reused_input ← find_reused (f.inst_operands inst)
  for_each (process_operand fuel f block_entry block_exit reused_input inst)
      (count_from 0 (length (f.inst_operands inst))) (record p { env = env })
