-- ===== src/Cfg.antt =====
-- The analyses of the control flow graph (src/cfg.rs). `none` is a panic, or the fuel of the
-- postorder's and the dominator tree's loops spent.
use regalloc2_orig.Prelude.{
  ℕ, zero, suc, Bool, ltb, ◌==◌, if◌then◌else◌, List, [], ◌∷◌, Option, some, ◌>>=◌, ◌>>◌, assert,
  length, get_elem?, set, replicate, u32,
}
use regalloc2_orig.Index
use regalloc2_orig.Index.{Inst, Block}
use regalloc2_orig.Index.InstRange
use regalloc2_orig.ProgPoint
use regalloc2_orig.ProgPoint.{ProgPoint}
use regalloc2_orig.Reg.VReg
use regalloc2_orig.Reg.VReg.{VReg}
use regalloc2_orig.Operand
use regalloc2_orig.Operand.{Operand}
use regalloc2_orig.Function.{Function, items}
use regalloc2_orig.Postorder
use regalloc2_orig.Domtree

pub record CfgInfo : Type 0 where
  pub postorder : List Block
  pub domtree : List Block
  pub insn_block : List Block
  pub vreg_def_inst : List Inst
  pub vreg_def_blockparam : List (Block × ℕ)
  pub block_entry : List ProgPoint
  pub block_exit : List ProgPoint
  pub pred_pos : List ℕ

-- `items[i] = value`
abbrev pub put {ℓ} : {A : Type ℓ} → List A → ℕ → A → Option (List A)
put items i value = do assert (ltb i (length items)); some (set items i value)

-- The parameters of a block, from the one with number `i` on.
unfoldable pub add_params : Block → ℕ → List VReg → List (Block × ℕ) → Option (List (Block × ℕ))
add_params block i [] table = some table
add_params block i (param ∷ params) table = do
  table ← put table (VReg.vreg param) (block, u32 i)
  add_params block (suc i) params table

unfoldable pub add_defs : Inst → List Operand → List Inst → Option (List Inst)
add_defs inst [] table = some table
add_defs inst (operand ∷ operands) table = do
  kind ← Operand.kind operand
  table ← elim kind [
    | Operand.def ↦ (do vreg ← Operand.vreg operand; put table (VReg.vreg vreg) inst)
    | Operand.use_ ↦ some table
  ]
  add_defs inst operands table

-- The instructions of a block: `insn_block` and `vreg_def_inst`.
unfoldable pub add_insts :
    Function → Block → List Inst → List Block → List Inst → Option (List Block × List Inst)
unfolding add_defs
add_insts f block [] insn_block vreg_def_inst = some (insn_block, vreg_def_inst)
add_insts f block (inst ∷ insts) insn_block vreg_def_inst = do
  i ← Index.index inst
  insn_block ← put insn_block i block
  vreg_def_inst ← add_defs inst (f.inst_operands inst) vreg_def_inst
  add_insts f block insts insn_block vreg_def_inst

-- The predecessors of a block that has several, from the one with number `i` on; an edge that is
-- critical panics.
unfoldable pub add_preds : Function → ℕ → List Block → List ℕ → Option (List ℕ)
add_preds f i [] pred_pos = some pred_pos
add_preds f i (pred ∷ preds) pred_pos = do
  assert (length (f.block_succs pred) == 1)
  p ← Index.index pred
  pred_pos ← put pred_pos p i
  add_preds f (suc i) preds pred_pos

-- The body of the loop over the blocks.
unfoldable pub add_block : Function → Block → CfgInfo → Option CfgInfo
unfolding add_params add_insts add_preds
add_block f block info = do
  vreg_def_blockparam ← add_params block 0 (f.block_params block) info.vreg_def_blockparam
  insts ← items (f.block_insns block)
  (insn_block, vreg_def_inst) ← add_insts f block insts info.insn_block info.vreg_def_inst
  i ← Index.index block
  first ← InstRange.first (f.block_insns block)
  block_entry ← put info.block_entry i (ProgPoint.before_inst first)
  last ← InstRange.last (f.block_insns block)
  block_exit ← put info.block_exit i (ProgPoint.after_inst last)
  pred_pos ←
      if ltb 1 (length (f.block_preds block))
      then add_preds f 0 (f.block_preds block) info.pred_pos
      else some info.pred_pos
  some (record info {
    insn_block = insn_block;
    vreg_def_inst = vreg_def_inst;
    vreg_def_blockparam = vreg_def_blockparam;
    block_entry = block_entry;
    block_exit = block_exit;
    pred_pos = pred_pos;
  })

-- The loop over the `count` blocks from number `i` on.
unfoldable pub add_blocks : Function → ℕ → ℕ → CfgInfo → Option CfgInfo
unfolding add_block
add_blocks f zero i info = some info
add_blocks f (suc count) i info = do
  info ← add_block f (Index.new i) info
  add_blocks f count (suc i) info

-- The fuel is that of the loops of `postorder::calculate` and of `domtree::calculate`.
unfoldable pub new : ℕ → ℕ → Function → Option CfgInfo
unfolding add_blocks
new order_fuel tree_fuel f = do
  postorder ← Postorder.calculate order_fuel f.blocks f.entry_block f.block_succs
  domtree ← Domtree.calculate tree_fuel f.blocks f.block_preds postorder f.entry_block
  add_blocks f f.blocks 0 (record {
    postorder = postorder;
    domtree = domtree;
    insn_block = replicate f.insts Index.invalid;
    vreg_def_inst = replicate f.num_vregs Index.invalid;
    vreg_def_blockparam = replicate f.num_vregs (Index.invalid, 0);
    block_entry = replicate f.blocks (ProgPoint.before_inst Index.invalid);
    block_exit = replicate f.blocks (ProgPoint.before_inst Index.invalid);
    pred_pos = replicate f.blocks 0;
  })

unfoldable pub dominates : ℕ → CfgInfo → Block → Block → Option Bool
dominates fuel info a b = Domtree.dominates fuel info.domtree a b

unfoldable pub pred_position : CfgInfo → Block → Option ℕ
pred_position info block = do i ← Index.index block; get_elem? info.pred_pos i
