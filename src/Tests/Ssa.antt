-- ===== src/Tests/Ssa.antt =====
-- The validation of a function with one block and one instruction, which defines vreg 0 and returns.
use regalloc2_orig.Prelude.{ℕ, ◌-◌, ◌^◌, ◌≡◌, refl, true, false, List, [], ◌∷◌, none, some, next}
use regalloc2_orig.Index.InstRange
use regalloc2_orig.Index.InstRange.{InstRange}
use regalloc2_orig.Operand
use regalloc2_orig.Operand.{Operand}
use regalloc2_orig.ProgPoint
use regalloc2_orig.Function.{Function}
use regalloc2_orig.Reg.VReg
use regalloc2_orig.Postorder
use regalloc2_orig.Domtree
use regalloc2_orig.Cfg
use regalloc2_orig.Cfg.{CfgInfo}
use regalloc2_orig.Moves.Stable.{NoDuplicates}
use regalloc2_orig.Ssa.{validate_ssa}
use regalloc2_orig.Ssa.Defs.{blocks_defs}
use regalloc2_orig.Ssa.Single.{validate_ssa-single}

abbrev f : Function
f = record {
  insts = 1;
  blocks = 1;
  entry_block = 0;
  block_insns = λ b. record { from = 0; to = 1; is_forward = true };
  block_succs = λ b. [];
  block_preds = λ b. [];
  block_params = λ b. [];
  is_call = λ i. false;
  is_ret = λ i. true;
  is_branch = λ i. false;
  is_safepoint = λ i. false;
  is_move = λ i. none;
  inst_operands = λ i. record { bits = 0 } ∷ [];
  inst_clobbers = λ i. [];
  num_vregs = 1;
  spillslot_size = λ c v. 1;
  multi_spillslot_named_by_last_slot = false;
}

abbrev info : CfgInfo
info = record {
  postorder = 0 ∷ [];
  domtree = 0 ∷ [];
  insn_block = 0 ∷ [];
  vreg_def_inst = 0 ∷ [];
  vreg_def_blockparam = (2 ^ 32 - 1, 0) ∷ [];
  block_entry = record { inst = 0; pos = ProgPoint.before } ∷ [];
  block_exit = record { inst = 0; pos = ProgPoint.after } ∷ [];
  pred_pos = 0 ∷ [];
}

computed : Cfg.new 9 9 f ≡ some info
unfolding Cfg.new InstRange.len InstRange.iter InstRange.next InstRange.first InstRange.last
    InstRange.rest Operand.kind Operand.vreg Operand.class VReg.new VReg.vreg ProgPoint.before_inst
    ProgPoint.after_inst Postorder.calculate Domtree.calculate
computed = refl

accepted : validate_ssa 9 f info ≡ some (next tt)
unfolding validate_ssa InstRange.len InstRange.iter InstRange.next InstRange.first InstRange.last
    InstRange.rest Operand.kind Operand.vreg Operand.class VReg.new VReg.vreg
accepted = refl

validate_ssa-single_example :
    (ds : List ℕ) × (blocks_defs f f.blocks 0 ≡ some ds)
    × NoDuplicates ds
    × (f.block_params f.entry_block ≡ [])
validate_ssa-single_example = validate_ssa-single 9 f info accepted
