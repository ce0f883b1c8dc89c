-- ===== src/Ssa/Single.antt =====
-- What `validate_ssa` accepts defines each vreg once (src/ssa.rs).
use regalloc2_orig.Prelude.{
  ℕ, zero, suc, ◌≡◌, refl, ◌∙◌, Bool, true, false, ltb, if◌then◌else◌, List, [], ◌∷◌, ◌++◌, some,
  ◌>>=◌, length, replicate, arith, next, return, bind_some,
}
use regalloc2_orig.Index
use regalloc2_orig.Index.{Inst, Block}
use regalloc2_orig.Reg.VReg.{VReg}
use regalloc2_orig.Operand.{Operand}
use regalloc2_orig.Function.{Function, items, bb}
use regalloc2_orig.Cfg.{CfgInfo}
use regalloc2_orig.Moves.Stable.{NoDuplicates}
use regalloc2_orig.Ssa.{
  Result, ◌>>?◌, define_params, check_operand, check_operands, check_insts, check_block,
  check_blocks, check_all_ends, validate_ssa,
}
use regalloc2_orig.Ssa.Checks.{
  bind_inv, next_inv, params-Steps, Defines, Defines-append, operand-Defines, same-Steps,
}
use regalloc2_orig.Ssa.Defs.{
  operand_defs, operands_defs, insts_defs, params_defs, block_defs, blocks_defs, Steps-append,
  Steps-NoDuplicates,
}

operands-Defines :
    (fuel : ℕ) (info : CfgInfo) (block : Block) (inst : Inst) (os : List Operand) (d d' : List Bool)
    → check_operands fuel info block inst os d ≡ some (next d')
    → Defines (operands_defs os) d d'
unfolding check_operands
operands-Defines fuel info block inst [] d d' h = ([], refl, same-Steps d d' h)
operands-Defines fuel info block inst (o ∷ os) d d' h =
    let (d1, here, rest) =
      next_inv (check_operand fuel info block inst o d)
        (λ d. check_operands fuel info block inst os d) d' h in
    Defines-append (operand_defs o) (operands_defs os) d d1 d'
      (operand-Defines fuel info block inst o d d1 here)
      (operands-Defines fuel info block inst os d1 d' rest)

insts-Defines :
    (fuel : ℕ) (f : Function) (info : CfgInfo) (block : Block) (is : List Inst) (d d' : List Bool)
    → check_insts fuel f info block is d ≡ some (next d')
    → Defines (insts_defs f is) d d'
unfolding check_insts
insts-Defines fuel f info block [] d d' h = ([], refl, same-Steps d d' h)
insts-Defines fuel f info block (i ∷ is) d d' h =
    let (d1, here, rest) =
      next_inv (check_operands fuel info block i (f.inst_operands i) d)
        (λ d. check_insts fuel f info block is d) d' h in
    Defines-append (operands_defs (f.inst_operands i)) (insts_defs f is) d d1 d'
      (operands-Defines fuel info block i (f.inst_operands i) d d1 here)
      (insts-Defines fuel f info block is d1 d' rest)

block-Defines :
    (fuel : ℕ) (f : Function) (info : CfgInfo) (block : Block) (d d' : List Bool)
    → check_block fuel f info block d ≡ some (next d')
    → Defines (block_defs f block) d d'
unfolding check_block
block-Defines fuel f info block d d' h =
    let (d1, here, rest) =
      next_inv (define_params (f.block_params block) d)
        (λ d. (do insts ← items (f.block_insns block); check_insts fuel f info block insts d)) d'
        h in
    let (is, e, run) =
      bind_inv (items (f.block_insns block)) (λ insts. check_insts fuel f info block insts d1)
        (next d') rest in
    let (ds, e', s) = insts-Defines fuel f info block is d1 d' run in
    let ps = params_defs (f.block_params block) in
    (
      ps ++ ds,
      bind_some (λ insts. do ds ← insts_defs f insts; some (ps ++ ds)) e
          ∙ bind_some (λ ds. some (ps ++ ds)) e',
      Steps-append d d1 d' ps ds (params-Steps (f.block_params block) d d1 here) s,
    )

blocks-Defines :
    (fuel : ℕ) (f : Function) (info : CfgInfo) (count i : ℕ) (d d' : List Bool)
    → check_blocks fuel f info count i d ≡ some (next d')
    → Defines (blocks_defs f count i) d d'
unfolding check_blocks
blocks-Defines fuel f info zero i d d' h = ([], refl, same-Steps d d' h)
blocks-Defines fuel f info (suc count) i d d' h =
    let (d1, here, rest) =
      next_inv (check_block fuel f info (Index.new i) d)
        (λ d. check_blocks fuel f info count (suc i) d) d' h in
    Defines-append (block_defs f (Index.new i)) (blocks_defs f count (suc i)) d d1 d'
      (block-Defines fuel f info (Index.new i) d d1 here)
      (blocks-Defines fuel f info count (suc i) d1 d' rest)

-- Where `validate_ssa` accepts a function, the vregs that its blocks define, as parameters or by
-- instructions, can be read, none of them is defined twice, and the entry block has no parameters.
pub validate_ssa-single :
    (fuel : ℕ) (f : Function) (info : CfgInfo)
    → validate_ssa fuel f info ≡ some (next tt)
    → (ds : List ℕ) × (blocks_defs f f.blocks 0 ≡ some ds)
      × NoDuplicates ds
      × (f.block_params f.entry_block ≡ [])
unfolding validate_ssa
validate_ssa-single fuel f info h =
    let start = replicate f.num_vregs false in
    let finish : Result (Unit {0}) = some (
      if ltb 0 (length (f.block_params f.entry_block))
      then return (bb f.entry_block)
      else next tt) in
    let (d, defs, rest) =
      next_inv (check_blocks fuel f info f.blocks 0 start)
        (λ d. check_all_ends f f.blocks 0 >>? λ u. finish) tt h in
    let (u, ends, last) = next_inv (check_all_ends f f.blocks 0) (λ u. finish) tt rest in
    let (ds, e, s) = blocks-Defines fuel f info f.blocks 0 start d defs in
    (ds, e, Steps-NoDuplicates start d ds s, no_params (f.block_params f.entry_block) last)
  where
    no_params :
        (ps : List VReg)
        → Path
            (Result (Unit {0}))
            (some (if ltb 0 (length ps) then return (bb f.entry_block) else next tt))
            (some (next tt))
        → ps ≡ []
    no_params [] h = refl
    no_params (p ∷ ps) h = absurd (refused (ltb 0 (length (p ∷ ps))) (ground arith) h)
      where
        refused :
            (t : Bool)
            → t ≡ true
            → Path
                (Result (Unit {0}))
                (some (if t then return (bb f.entry_block) else next tt))
                (some (next tt))
            → ⊥
        refused true e h = cc
        refused false e h = cc
