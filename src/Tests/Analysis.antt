-- ===== src/Tests/Analysis.antt =====
-- The checker's analysis where the entry block defines nothing.
use regalloc2_orig.Prelude.{zero, suc, ◌+◌, ◌^◌, ◌≡◌, false, List, [], ◌∷◌, none, some, refl}
use regalloc2_orig.Index.{Block}
use regalloc2_orig.Reg.VReg
use regalloc2_orig.Alloc
use regalloc2_orig.Alloc.{Allocation}
use regalloc2_orig.Operand
use regalloc2_orig.Operand.{Operand}
use regalloc2_orig.Function.{Function}
use regalloc2_orig.Checker.State.{empty, op, update}
use regalloc2_orig.Checker.Check.{unknown_value_in_allocation}
use regalloc2_orig.Checker.Run.{Checker, analyze, run, update_all}
use regalloc2_orig.Checker.Stuck.{analyze-eq-Initial}

-- Block 0 goes to 1, and 1 to 2. Block 1 defines register 1, in p3, and block 2 uses it there.
abbrev next_block : Block → List Block
next_block zero = 1 ∷ []
next_block (suc zero) = 2 ∷ []
next_block (suc (suc b)) = []

abbrev function : Function
function = record {
  insts = 3;
  blocks = 3;
  entry_block = 0;
  block_insns = λ b. record { from = b; to = suc b; is_forward = false };
  block_succs = next_block;
  block_preds = λ b. [];
  block_params = λ b. [];
  is_call = λ i. false;
  is_ret = λ i. false;
  is_branch = λ i. false;
  is_safepoint = λ i. false;
  is_move = λ i. none;
  inst_operands = λ i. [];
  inst_clobbers = λ i. [];
  num_vregs = 2;
  spillslot_size = λ c v. 1;
  multi_spillslot_named_by_last_slot = false;
}

abbrev p3 : Allocation
p3 = record { bits = 2 ^ 29 + 3 }

abbrev use_1 : Operand
use_1 = record { bits = 1 + 2 ^ 28 }

abbrev def_1 : Operand
def_1 = record { bits = 1 + 2 ^ 29 }

abbrev checker : Checker
checker = record {
  bb_in = empty ∷ empty ∷ empty ∷ [];
  bb_insts =
      (op 0 [] [] ∷ [])
      ∷ (op 1 (def_1 ∷ []) (p3 ∷ []) ∷ [])
      ∷ (op 2 (use_1 ∷ []) (p3 ∷ []) ∷ [])
      ∷ [];
}

nothing_defined : update_all empty (op 0 [] [] ∷ []) ≡ some empty
unfolding update_all update
nothing_defined = refl

analyze-eq-Initial_example : analyze 3 function checker ≡ some checker
analyze-eq-Initial_example =
    analyze-eq-Initial function checker empty (op 0 [] [] ∷ []) 1 refl refl nothing_defined
      (refl, tt)

-- So the use in block 2 is rejected, though block 1 defines its register where the use reads it.
rejected_use : run 3 function checker ≡ some (unknown_value_in_allocation 2 use_1 p3 ∷ [])
unfolding run Operand.policy Operand.pos Operand.kind Operand.vreg VReg.new Alloc.none_alloc
rejected_use = refl
