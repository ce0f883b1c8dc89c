-- ===== src/Ion/Merge/Vregs.antt =====
-- The bundles of the virtual registers, and what is joined (src/ion/mod.rs, `merge_vreg_bundles`);
-- the queue of the bundles (`queue_bundles`). The numbers of virtual registers and of instructions
-- are those of the loops `0..n`.
use regalloc2_orig.Prelude.{
  ℕ, zero, suc, true, false, ◌==◌, if◌then◌else◌, List, [], ◌∷◌, ◌++◌, Option, none, some, ◌>>=◌,
  ◌>>◌, assert, length, get_elem?, u32, for_each, count_from,
}
use regalloc2_orig.Index
use regalloc2_orig.Index.{Inst, Block}
use regalloc2_orig.Reg.VReg
use regalloc2_orig.Reg.VReg.{VReg}
use regalloc2_orig.Operand
use regalloc2_orig.Operand.{Operand, reuse}
use regalloc2_orig.Function.{Function}
use regalloc2_orig.Ion.Env.{SpillSet, Env, at, set_bundle}
use regalloc2_orig.Ion.Bundle.{create_bundle, compute_bundle_prio, recompute_bundle_properties}
use regalloc2_orig.Ion.Merge.{
  bundle_of, merge_bundles, try_merge_reused_register, insert_liverange_into_bundle,
}

-- The loop over the ranges of a vreg.
unfoldable pub insert_ranges : ℕ → Env → ℕ → ℕ → Option Env
insert_ranges zero env bundle range = none
insert_ranges (suc fuel) env bundle range = elim (Index.is_valid range) [
  | false ↦ some env
  | true ↦ (do
    env ← insert_liverange_into_bundle (suc fuel) env bundle range
    r ← at env.ranges range
    insert_ranges fuel env bundle r.next_in_reg)
]

unfoldable pub bundle_vreg : ℕ → ℕ → Env → Option Env
unfolding insert_ranges
bundle_vreg fuel vreg env = do
  v ← at env.vregs vreg
  if Index.is_valid v.first_range
      then (let (env, bundle) = create_bundle env in insert_ranges fuel env bundle v.first_range)
      else some env

-- The attempt for an operand that reuses an input.
unfoldable pub merge_reused : ℕ → List Operand → Operand → Env → Option Env
merge_reused fuel operands operand env = do
  policy ← Operand.policy operand
  elim policy [
    | reuse input_idx ↦ (do
      kind ← Operand.kind operand
      assert (elim kind [ Operand.def ↦ true | Operand.use_ ↦ false ])
      pos ← Operand.pos operand
      assert (elim pos [ Operand.after ↦ true | _ ↦ false ])
      input ← get_elem? operands input_idx
      input_vreg ← Operand.vreg input
      output_vreg ← Operand.vreg operand
      try_merge_reused_register fuel env (VReg.vreg input_vreg) (VReg.vreg output_vreg))
    | _ ↦ some env
  ]

-- The attempt for two vregs whose bundles the code looks up, and which it asserts to be there.
unfoldable pub merge_of : ℕ → Env → ℕ → ℕ → Option Env
merge_of fuel env from_vreg to_vreg = do
  to_bundle ← bundle_of env to_vreg
  assert (Index.is_valid to_bundle)
  from_bundle ← bundle_of env from_vreg
  assert (Index.is_valid from_bundle)
  (env, merged) ← merge_bundles fuel env from_bundle to_bundle
  some env

unfoldable pub merge_inst : ℕ → Function → Inst → Env → Option Env
unfolding merge_reused merge_of
merge_inst fuel f inst env = do
  let operands = f.inst_operands inst
  env ← for_each (merge_reused fuel operands) operands env
  elim (f.is_move inst) [
    | none ↦ some env
    | some (src_vreg, dst_vreg) ↦ merge_of fuel env (VReg.vreg dst_vreg) (VReg.vreg src_vreg)
  ]

unfoldable pub merge_blockparam : ℕ → ℕ × Block × Block × ℕ → Env → Option Env
unfolding merge_of
merge_blockparam fuel (from_vreg, from_block, to_block, to_vreg) env =
    merge_of fuel env from_vreg to_vreg

unfoldable pub merge_vreg_bundles : ℕ → Function → Env → Option Env
unfolding bundle_vreg merge_inst merge_blockparam
merge_vreg_bundles fuel f env = do
  env ← for_each (bundle_vreg fuel) (count_from 0 (length env.vregs)) env
  env ← for_each (merge_inst fuel f) (count_from 0 f.insts) env
  for_each (merge_blockparam fuel) env.blockparam_outs env

-- The part for a bundle that is seen for the first time.
unfoldable pub queue_bundle : ℕ → Function → ℕ → VReg → Env → Option Env
queue_bundle fuel f bundle reg env = do
  let ssidx = Index.new (length env.spillsets)
  class ← VReg.class reg
  let spillset : SpillSet = record {
    bundles = [];
    slot = Index.invalid;
    size = u32 (f.spillslot_size class reg);
    class = class;
    reg_hint = none;
  }
  let env = record env { spillsets = env.spillsets ++ spillset ∷ [] }
  env ← set_bundle env bundle (λ b. record b { spillset = ssidx })
  prio ← compute_bundle_prio fuel env bundle
  env ← set_bundle env bundle (λ b. record b { prio = prio })
  env ← recompute_bundle_properties fuel env bundle
  some (record env { allocation_queue = env.allocation_queue ++ (prio, bundle) ∷ [] })

-- The loop that follows `next_in_bundle`.
unfoldable pub queue_ranges : ℕ → Function → VReg → Env → ℕ → Option Env
unfolding queue_bundle
queue_ranges zero f reg env lr = none
queue_ranges (suc fuel) f reg env lr = elim (Index.is_valid lr) [
  | false ↦ some env
  | true ↦ (do
    r ← at env.ranges lr
    b ← at env.bundles r.bundle
    env ← if b.first_range == lr then queue_bundle (suc fuel) f r.bundle reg env else some env
    queue_ranges fuel f reg env r.next_in_bundle)
]

unfoldable pub queue_bundles : ℕ → Function → Env → Option Env
unfolding queue_ranges
queue_bundles fuel f env =
    for_each (λ vreg env. do v ← at env.vregs vreg; queue_ranges fuel f v.reg env v.first_range)
      (count_from 0 (length env.vregs)) env
