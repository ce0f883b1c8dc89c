-- ===== src/Ion/Setup.antt =====
-- What the allocator sets up before its passes, and the hot code (src/ion/mod.rs:
-- `create_pregs_and_vregs`, `add_vreg`, `compute_hot_code`, `init`). `regs` is that of the machine
-- environment; the fuel is that of the loops over linked lists.
use regalloc2_orig.Prelude.{
  ℕ, ◌==◌, leb, if◌then◌else◌, List, [], ◌∷◌, ◌++◌, Option, none, some, ◌>>=◌, length, replicate,
  u32, for_each, count_from,
}
use regalloc2_orig.Index
use regalloc2_orig.Index.{Inst, Block}
use regalloc2_orig.ProgPoint
use regalloc2_orig.ProgPoint.{ProgPoint}
use regalloc2_orig.Reg.{int}
use regalloc2_orig.Reg.PReg.{PReg}
use regalloc2_orig.Reg.VReg
use regalloc2_orig.Reg.VReg.{VReg}
use regalloc2_orig.Alloc.{none_alloc}
use regalloc2_orig.Cfg.{CfgInfo}
use regalloc2_orig.Function.{Function}
use regalloc2_orig.Ion.Range.{CodeRange}
use regalloc2_orig.Ion.Key
use regalloc2_orig.Ion.Btree
use regalloc2_orig.Ion.Env.{VRegData, Env, at}
use regalloc2_orig.Ion.Bundle.{create_liverange}
use regalloc2_orig.Ion.Liveness.Blocks.{compute_liveness}
use regalloc2_orig.Ion.Merge.Vregs.{merge_vreg_bundles, queue_bundles}

unfoldable pub add_vreg : VRegData → Env → Env × ℕ
add_vreg data_ env = (record env { vregs = env.vregs ++ data_ ∷ [] }, Index.new (length env.vregs))

-- The allocations of an instruction's operands.
unfoldable pub create_allocs : Function → Inst → Env → Env
create_allocs f inst env = record env {
  inst_alloc_offsets = env.inst_alloc_offsets ++ u32 (length env.allocs) ∷ [];
  allocs = env.allocs ++ replicate (length (f.inst_operands (Index.new inst))) none_alloc;
}

unfoldable pub create_pregs_and_vregs : Function → List PReg → Env → Option Env
unfolding add_vreg create_allocs
create_pregs_and_vregs f regs env = do
  env ←
      for_each
        (λ preg env.
          some (record env { pregs = env.pregs ++ record { reg = preg; allocations = [] } ∷ [] }))
        regs env
  env ←
      for_each
        (λ idx env. do
          reg ← VReg.new idx int
          some (
              (add_vreg
                (record {
                  reg = reg;
                  def = Index.invalid;
                  blockparam = Index.invalid;
                  first_range = Index.invalid;
                })
                env).0))
        (count_from 0 f.num_vregs) env
  for_each (λ inst env. some (create_allocs f inst env)) (count_from 0 f.insts) env

-- `filter(|b| b.index() >= block.index()).max()`
unfoldable pub max_backedge : List Block → Block → Option (Option Block)
max_backedge [] block = some none
max_backedge (pred ∷ preds) block = do
  k ← Index.index pred
  rest ← max_backedge preds block
  some (
      if leb block k
      then elim rest [ none ↦ some pred | some b ↦ some (if leb pred b then b else pred) ]
      else rest)

-- The header and the back edge of the innermost loop so far.
unfoldable pub hot_block :
    Function → CfgInfo → Block → (Block × Block) × Env → Option ((Block × Block) × Env)
unfolding max_backedge
hot_block f info block ((header, backedge), env) = do
  found ← max_backedge (f.block_preds block) block
  let loop : Block × Block = elim found [ none ↦ (header, backedge) | some b ↦ (block, b) ]
  if block == loop.1
      then (do
        from ← at info.block_entry (loop.0)
        exit ← at info.block_exit (loop.1)
        to ← ProgPoint.next exit
        let range : CodeRange = record { from = from; to = to }
        let (env, lr) = create_liverange env range
        key ← Key.from_range range
        some (loop, record env { hot_code = Btree.insert key lr env.hot_code }))
      else some (loop, env)

unfoldable pub compute_hot_code : Function → CfgInfo → Env → Option Env
unfolding hot_block
compute_hot_code f info env = do
  done ← for_each (hot_block f info) (count_from 0 f.blocks) ((Index.invalid, Index.invalid), env)
  some (done.1)

unfoldable pub init : ℕ → Function → CfgInfo → List PReg → Env → Option Env
unfolding create_pregs_and_vregs compute_hot_code
init fuel f info regs env = do
  env ← create_pregs_and_vregs f regs env
  env ← compute_liveness fuel f info env
  env ← compute_hot_code f info env
  env ← merge_vreg_bundles fuel f env
  queue_bundles fuel f env
