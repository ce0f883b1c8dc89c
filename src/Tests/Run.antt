-- ===== src/Tests/Run.antt =====
-- The passes of the allocator on a function of one block: the first instruction defines the virtual
-- register 0, the second one reads it and returns.
use regalloc2_orig.Prelude.{
  get_elem?, ◌≤◌, Bool-cases, inl, inr, arith, ℕ, ◌-◌, ◌+◌, ◌^◌, ◌==◌, ◌≡◌, true, false,
  if◌then◌else◌, refl, List, [], ◌∷◌, Option, none, some, ◌>>=◌,
}
use regalloc2_orig.Index.InstRange
use regalloc2_orig.Index.InstRange.{InstRange}
use regalloc2_orig.BitVec
use regalloc2_orig.BitVec.Iter
use regalloc2_orig.Ion.Liveness
use regalloc2_orig.Ion.Key
use regalloc2_orig.Ion.Btree
use regalloc2_orig.Ion.Props
use regalloc2_orig.Ion.Range
use regalloc2_orig.Ion.Requirement
use regalloc2_orig.Ion.Requirement.{from_operand}
use regalloc2_orig.Ion.Uses.{insert_use_into_liverange_and_update_stats, distribute_liverange_uses}
use regalloc2_orig.Ion.Uses.AddRange.{add_liverange_to_vreg}
use regalloc2_orig.Ion.Merge.{insert_liverange_into_bundle}
use regalloc2_orig.Ion.Merge.Vregs.{merge_vreg_bundles, queue_bundles}
use regalloc2_orig.Ion.Bundle.{
  create_liverange, create_bundle, compute_bundle_prio, recompute_bundle_properties,
  compute_requirement,
}
use regalloc2_orig.Ion.Allocate.{try_to_allocate_bundle_to_reg, assign_bundle}
use regalloc2_orig.ProgPoint
use regalloc2_orig.Reg.{int}
use regalloc2_orig.Reg.PReg
use regalloc2_orig.Reg.PReg.{PReg}
use regalloc2_orig.Reg.VReg
use regalloc2_orig.Reg.VReg.{VReg}
use regalloc2_orig.Operand
use regalloc2_orig.Operand.{Operand}
use regalloc2_orig.Alloc
use regalloc2_orig.Function.{Function}
use regalloc2_orig.Cfg.{CfgInfo}
use regalloc2_orig.Ion.Env.{Env, at}
use regalloc2_orig.Ion.Setup.{init}
use regalloc2_orig.Ion.Liveness.Blocks.{compute_liveness}
use regalloc2_orig.Ion.Liveness.Blocks.{scan_loop}
use regalloc2_orig.Ion.Liveness.Loops.{Listed, NotBelow, scan_loop_lem}
use regalloc2_orig.Ion.Process.{process_bundles}
use regalloc2_orig.Tests.Bundles.{env}

abbrev operands : ℕ → List Operand
operands inst =
    if inst == 0
    then record { bits = 2 ^ 29 + 2 ^ 26 } ∷ []
    else record { bits = 2 ^ 28 + 2 ^ 26 } ∷ []

abbrev f : Function
f = record {
  insts = 2;
  blocks = 1;
  entry_block = 0;
  block_insns = λ b. record { from = 0; to = 2; is_forward = true };
  block_succs = λ b. [];
  block_preds = λ b. [];
  block_params = λ b. [];
  is_call = λ i. false;
  is_ret = λ i. i == 1;
  is_branch = λ i. false;
  is_safepoint = λ i. false;
  is_move = λ i. none;
  inst_operands = operands;
  inst_clobbers = λ i. [];
  num_vregs = 1;
  spillslot_size = λ c r. 1;
  multi_spillslot_named_by_last_slot = false;
}

abbrev info : CfgInfo
info = record {
  postorder = 0 ∷ [];
  domtree = 0 ∷ [];
  insn_block = 0 ∷ 0 ∷ [];
  vreg_def_inst = 0 ∷ [];
  vreg_def_blockparam = (2 ^ 32 - 1, 0) ∷ [];
  block_entry = ProgPoint.before_inst 0 ∷ [];
  block_exit = ProgPoint.after_inst 1 ∷ [];
  pred_pos = 0 ∷ [];
}

abbrev r0 : PReg
r0 = record { hw_enc = 0; class = int }

-- The environment before the passes.
abbrev start : Env
start = record env { ranges = []; bundles = []; uses = []; vregs = []; pregs = [] }

-- What the passes up to the queue leave, and what the main loop makes of it.
ready : Option Env
unfolding init
ready = init 9 f info (r0 ∷ []) start

processed : Option Env
unfolding process_bundles ready
processed = do env ← ready; process_bundles 9 9 2 ((r0 ∷ []) ∷ [] ∷ []) 0 env

-- The bundle of the virtual register gets the register.
placed : (do env ← processed; b ← at env.bundles 0; some b.allocation) ≡ some (Alloc.reg r0)
unfolding processed VReg.new VReg.vreg VReg.class compute_liveness ProgPoint.next ProgPoint.prev
    ProgPoint.to_index ProgPoint.after_inst ProgPoint.before_inst Iter.items Iter.iter
    Iter.trailing_zeros InstRange.last InstRange.first InstRange.len InstRange.next InstRange.rest
    InstRange.rev InstRange.iter Liveness.process_inst Operand.policy Operand.kind Operand.pos
    Operand.vreg Operand.class add_liverange_to_vreg distribute_liverange_uses
    insert_use_into_liverange_and_update_stats create_liverange create_bundle BitVec.set BitVec.or
    BitVec.get merge_vreg_bundles insert_liverange_into_bundle queue_bundles compute_bundle_prio
    recompute_bundle_properties Props.set_cached_spill_weight_and_props compute_requirement
    from_operand Requirement.merge try_to_allocate_bundle_to_reg Key.from_range Btree.get
    Btree.insert Range.len Range.contains_point PReg.index PReg.from_index Alloc.reg Alloc.as_reg
    Alloc.kind Alloc.index Alloc.new assign_bundle
placed = refl

-- A loop of two blocks: block 1 comes first in the postorder, and it is the predecessor of block 0.
abbrev looping : Function
looping = record f { blocks = 2; block_preds = λ b. if b == 0 then 1 ∷ [] else 0 ∷ [] }

abbrev order : List ℕ
order = 1 ∷ 0 ∷ []

abbrev numbers : List (Option ℕ)
numbers = some 1 ∷ some 0 ∷ []

order-Listed : Listed looping order numbers 1
order-Listed k b h e = elim (Bool-cases (b == 0)) [
  | inl z ↦ rw z ((some 0, refl), tt)
  | inr z ↦ rw z ((some 1, refl), tt)
]

scan_loop_lem_example :
    (m : ℕ) × (scan_loop 2 looping order numbers 1 1 ≡ some m)
    × (m ≤ 1)
    × ((k : ℕ) (b : ℕ)
        → m ≤ k
        → k ≤ 1
        → get_elem? order k ≡ some b
        → NotBelow numbers m (looping.block_preds b))
scan_loop_lem_example = scan_loop_lem looping order numbers 1 (omega arith) order-Listed

back_edge : scan_loop 2 looping order numbers 1 1 ≡ some 0
unfolding scan_loop
back_edge = refl
