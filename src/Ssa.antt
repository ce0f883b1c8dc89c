-- ===== src/Ssa.antt =====
-- The validation of the client's function (src/ssa.rs). `none` is a panic, `next` is `Ok` or the way
-- on, and `return` is `Err`.
pub mod Checks
pub mod Defs
pub mod Single
use regalloc2_orig.Prelude.{
  ℕ, zero, suc, ◌+◌, Bool, true, false, not, ◌||◌, ◌==◌, ltb, if◌then◌else◌, List, [], ◌∷◌, Option,
  none, some, ◌>>=◌, ◌>>◌, assert, length, get_elem?, set, replicate, Flow, next, return,
}
use regalloc2_orig.Index
use regalloc2_orig.Index.{Inst, Block}
use regalloc2_orig.Index.InstRange
use regalloc2_orig.Reg.VReg
use regalloc2_orig.Reg.VReg.{VReg}
use regalloc2_orig.Operand
use regalloc2_orig.Operand.{Operand}
use regalloc2_orig.Function.{Function, items, RegAllocError, ssa, bb, branch}
use regalloc2_orig.Cfg
use regalloc2_orig.Cfg.{CfgInfo}

-- A result with the state to go on with, or an error.
abbrev pub Result {ℓ} : Type ℓ → Type ℓ
Result S = Option (Flow S RegAllocError)

-- `?` on a result
infixl 5 ◌>>?◌
abbrev pub ◌>>?◌ {ℓ κ} : {S : Type ℓ} {T : Type κ} → Result S → (S → Result T) → Result T
none >>? f = none
some (return e) >>? f = some (return e)
some (next s) >>? f = f s

-- `if defined[vreg] { return Err(error); } defined[vreg] = true;`
unfoldable pub define : VReg → Inst → List Bool → Result (List Bool)
define vreg inst defined = do
  seen ← get_elem? defined (VReg.vreg vreg)
  some (if seen then return (ssa vreg inst) else next (set defined (VReg.vreg vreg) true))

unfoldable pub define_params : List VReg → List Bool → Result (List Bool)
unfolding define
define_params [] defined = some (next defined)
define_params (p ∷ ps) defined =
    define p Index.invalid defined >>? λ defined. define_params ps defined

-- The block that defines a vreg.
unfoldable pub def_block : CfgInfo → VReg → Option Block
def_block info vreg = do
  inst ← get_elem? info.vreg_def_inst (VReg.vreg vreg)
  if Index.is_valid inst
      then get_elem? info.insn_block inst
      else (do (block, i) ← get_elem? info.vreg_def_blockparam (VReg.vreg vreg); some block)

unfoldable pub check_use : ℕ → CfgInfo → Block → Inst → VReg → List Bool → Result (List Bool)
unfolding def_block
check_use fuel info block inst vreg defined = do
  from ← def_block info vreg
  if Index.is_invalid from then some (return (ssa vreg inst)) else (do
    dominates ← Cfg.dominates fuel info from block
    some (if not dominates then return (ssa vreg inst) else next defined))

unfoldable pub check_operand : ℕ → CfgInfo → Block → Inst → Operand → List Bool → Result (List Bool)
unfolding check_use define
check_operand fuel info block inst operand defined = do
  kind ← Operand.kind operand
  vreg ← Operand.vreg operand
  elim kind [
    | Operand.use_ ↦ check_use fuel info block inst vreg defined
    | Operand.def ↦ define vreg inst defined
  ]

unfoldable pub check_operands :
    ℕ → CfgInfo → Block → Inst → List Operand → List Bool → Result (List Bool)
unfolding check_operand
check_operands fuel info block inst [] defined = some (next defined)
check_operands fuel info block inst (o ∷ os) defined =
    check_operand fuel info block inst o defined >>? λ defined.
    check_operands fuel info block inst os defined

unfoldable pub check_insts :
    ℕ → Function → CfgInfo → Block → List Inst → List Bool → Result (List Bool)
unfolding check_operands
check_insts fuel f info block [] defined = some (next defined)
check_insts fuel f info block (inst ∷ insts) defined =
    check_operands fuel info block inst (f.inst_operands inst) defined >>? λ defined.
    check_insts fuel f info block insts defined

-- The body of the first loop over the blocks, and the loop over the `count` blocks from `i` on.
unfoldable pub check_block : ℕ → Function → CfgInfo → Block → List Bool → Result (List Bool)
unfolding define_params check_insts
check_block fuel f info block defined = define_params (f.block_params block) defined >>? λ defined.
    do insts ← items (f.block_insns block); check_insts fuel f info block insts defined

unfoldable pub check_blocks : ℕ → Function → CfgInfo → ℕ → ℕ → List Bool → Result (List Bool)
unfolding check_block
check_blocks fuel f info zero i defined = some (next defined)
check_blocks fuel f info (suc count) i defined =
    check_block fuel f info (Index.new i) defined >>? λ defined.
    check_blocks fuel f info count (suc i) defined

-- The number of arguments that the successors of a block expect together.
unfoldable pub expected_args : Function → List Block → ℕ
expected_args f [] = 0
expected_args f (s ∷ ss) = length (f.block_params s) + expected_args f ss

unfoldable pub check_end : Function → Block → Inst → Inst → Result (Unit {0})
unfolding expected_args
check_end f block last inst =
    if inst == last
    then (if not (f.is_branch inst || f.is_ret inst)
        then some (return (bb block))
        else if f.is_branch inst
        then (if not (length (f.inst_operands inst) == expected_args f (f.block_succs block))
            then some (return (branch inst))
            else some (next tt))
        else some (next tt))
    else if f.is_branch inst || f.is_ret inst
    then some (return (bb block))
    else some (next tt)

unfoldable pub check_ends : Function → Block → List Inst → Result (Unit {0})
unfolding check_end
check_ends f block [] = some (next tt)
check_ends f block (inst ∷ insts) =
    (do last ← InstRange.last (f.block_insns block); check_end f block last inst) >>? λ u.
    check_ends f block insts

-- The second loop over the blocks.
unfoldable pub check_all_ends : Function → ℕ → ℕ → Result (Unit {0})
unfolding check_ends
check_all_ends f zero i = some (next tt)
check_all_ends f (suc count) i =
    (do insts ← items (f.block_insns (Index.new i)); check_ends f (Index.new i) insts) >>? λ u.
    check_all_ends f count (suc i)

-- The fuel is that of the loop of `dominates`.
unfoldable pub validate_ssa : ℕ → Function → CfgInfo → Result (Unit {0})
unfolding check_blocks check_all_ends
validate_ssa fuel f info =
    check_blocks fuel f info f.blocks 0 (replicate f.num_vregs false) >>? λ defined.
    check_all_ends f f.blocks 0 >>? λ u.
    some
      (if ltb 0 (length (f.block_params f.entry_block)) then return (bb f.entry_block) else next tt)
