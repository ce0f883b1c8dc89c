-- ===== src/Tests/Bundles.antt =====
-- Bundles and registers at concrete values: bundle 0 has the range of the instructions
-- 0 and 1, and one use; register 0 has the range of instruction 4.
use regalloc2_orig.Prelude.{ℕ, ◌+◌, ◌-◌, ◌^◌, ◌≡◌, ◌↔◌, inl, refl, arith, [], ◌∷◌, Option, some}
use regalloc2_orig.Reg.{int}
use regalloc2_orig.Reg.PReg
use regalloc2_orig.Reg.PReg.{PReg}
use regalloc2_orig.Reg.VReg
use regalloc2_orig.Reg.VReg.{VReg}
use regalloc2_orig.Operand
use regalloc2_orig.Operand.{Operand}
use regalloc2_orig.ProgPoint
use regalloc2_orig.ProgPoint.{ProgPoint}
use regalloc2_orig.Alloc
use regalloc2_orig.Alloc.{none_alloc}
use regalloc2_orig.Ion.Range.{CodeRange}
use regalloc2_orig.Ion.Key
use regalloc2_orig.Ion.Key.{LiveRangeKey}
use regalloc2_orig.Ion.Btree.{LiveRangeSet, first, later}
use regalloc2_orig.Ion.Requirement
use regalloc2_orig.Ion.Requirement.{Requirement, Place, Satisfies, SatisfiesMerged}
use regalloc2_orig.Ion.Env.{LiveRange, Use, LiveBundle, VRegData, PRegData, Env, end, item}
use regalloc2_orig.Ion.Bundle.{compute_requirement}
use regalloc2_orig.Ion.Bundle.Satisfied.{
  AllSatisfied, no_uses, use_req, no_def, RangeReqs, no_ranges, range_reqs,
}
use regalloc2_orig.Ion.Bundle.Required.{HasReqs, compute_requirement_iff}
use regalloc2_orig.Ion.Allocate.{allocated, try_to_allocate_bundle_to_reg, evict_bundle}
use regalloc2_orig.Ion.Allocate.Ranges.{HasRanges, no_entries, entry}
use regalloc2_orig.Ion.Allocate.Scan.{AllKnown}
use regalloc2_orig.Ion.Allocate.Correct.{CanTry, Outcome, try_to_allocate_bundle_to_reg_lem}
use regalloc2_orig.Ion.Allocate.Undo.{requeued, allocate-evict}

abbrev pub nowhere : ℕ
nowhere = 2 ^ 32 - 1

abbrev pub range_of : ℕ → ℕ → CodeRange
range_of a b = record {
  from = record { inst = a; pos = ProgPoint.before };
  to = record { inst = b; pos = ProgPoint.before };
}

abbrev pub live : CodeRange → ℕ → ℕ → LiveRange
live range bundle first_use = record {
  range = range;
  vreg = 0;
  bundle = bundle;
  uses_spill_weight = 0;
  num_fixed_uses_and_flags = 0;
  first_use = first_use;
  last_use = nowhere;
  def = nowhere;
  next_in_bundle = nowhere;
  next_in_reg = nowhere;
}

abbrev pub bundle_at : ℕ → LiveBundle
bundle_at i = record {
  first_range = i;
  last_range = i;
  spillset = nowhere;
  allocation = none_alloc;
  prio = 2;
  spill_weight_and_props = 0;
}

abbrev r0 : PReg
r0 = record { hw_enc = 0; class = int }

abbrev p0 : PRegData
p0 = record { reg = r0; allocations = (record { from = 8; to = 10 }, 1) ∷ [] }

-- A use in a register of the class `int`.
abbrev pub in_reg : Use
in_reg = record {
  operand = record { bits = 2 ^ 28 + 2 ^ 26 };
  pos = record { inst = 1; pos = ProgPoint.before };
  slot = 0;
  next_use = nowhere;
}

abbrev pub v0 : VRegData
v0 = record { reg = record { bits = 0 }; def = nowhere; blockparam = nowhere; first_range = 0 }

abbrev pub env : Env
env = record {
  ranges = live (range_of 0 2) 0 0 ∷ live (range_of 4 5) 1 nowhere ∷ [];
  bundles = bundle_at 0 ∷ bundle_at 1 ∷ [];
  spillsets = [];
  uses = in_reg ∷ [];
  defs = [];
  vregs = v0 ∷ [];
  pregs = p0 ∷ [];
  allocation_queue = [];
  spillslots = [];
  slots_by_size = [];
  num_spillslots = 0;
  allocs = [];
  inst_alloc_offsets = [];
  blockparam_outs = [];
  blockparam_ins = [];
  spilled_bundles = [];
  hot_code = [];
  clobbers = [];
  liveins = [];
  multi_fixed_reg_fixups = [];
  inserted_moves = [];
}

abbrev pub entries : LiveRangeSet
entries = (record { from = 0; to = 4 }, 0) ∷ []

pub key_eq : Key.from_range (range_of 0 2) ≡ some (record { from = 0; to = 4 })
unfolding Key.from_range ProgPoint.to_index
key_eq = refl

abbrev has_ranges : HasRanges 2 env 0 entries
has_ranges = record {
  bundle_data = bundle_at 0;
  ranges = (0, live (range_of 0 2) 0 0) ∷ [];
  bundle_eq = refl;
  chain = item refl refl (end refl);
  entries = entry key_eq no_entries;
  enough = omega arith;
}

known : AllKnown env.ranges p0.allocations
known k i first = (live (range_of 4 5) 1 nowhere, refl)
known k i (later h) = elim h [ ]

index-r0 : PReg.index r0 ≡ 0
unfolding PReg.index
index-r0 = refl

abbrev can_try : CanTry 2 env 0 (PReg.index r0) p0 entries
can_try = record {
  has_ranges = has_ranges;
  preg_eq = rw index-r0 refl;
  bundle_disjoint = (omega arith, tt, tt);
  preg_disjoint = (omega arith, tt, tt);
  known = known;
}

try_to_allocate_bundle_to_reg_lem_example :
    Outcome env 0
      (bundle_at 0)
      (PReg.index r0)
      p0
      entries
      (try_to_allocate_bundle_to_reg 2 env 0 (PReg.index r0))
try_to_allocate_bundle_to_reg_lem_example =
    try_to_allocate_bundle_to_reg_lem 2 env 0 (PReg.index r0) p0 entries can_try

allocate-evict_example :
    (env' : Env) × (try_to_allocate_bundle_to_reg 2 env 0 (PReg.index r0)
      ≡ some (allocated (Alloc.reg r0), env'))
    × (evict_bundle 2 env' 0 ≡ some (requeued env 0 (bundle_at 0)))
allocate-evict_example =
    allocate-evict 2 env 0 p0 entries can_try (record { enc_le = omega arith })
      ((inl (omega arith), tt), tt)

req_eq : Requirement.from_operand in_reg.operand ≡ some (Requirement.register int)
unfolding Requirement.from_operand Operand.policy Operand.class
req_eq = refl

class_eq : VReg.class v0.reg ≡ some int
unfolding VReg.class
class_eq = refl

abbrev range_reqs_0 : RangeReqs 2 env (live (range_of 0 2) 0 0) [] (Requirement.register int ∷ [])
range_reqs_0 = record {
  items = (0, in_reg) ∷ [];
  chain = item refl refl (end refl);
  enough = omega arith;
  use_reqs = use_req req_eq no_uses;
  def_reqs = no_def refl;
}

abbrev has_reqs : HasReqs 2 env 0 int (Requirement.register int ∷ [])
has_reqs = record {
  bundle_data = bundle_at 0;
  first = live (range_of 0 2) 0 0;
  vreg_data = v0;
  ranges = (0, live (range_of 0 2) 0 0) ∷ [];
  bundle_eq = refl;
  first_eq = refl;
  vreg_eq = refl;
  class_eq = class_eq;
  chain = item refl refl (end refl);
  enough = omega arith;
  reqs = range_reqs range_reqs_0 no_ranges;
}

compute_requirement_iff_example :
    (result : Option Requirement) × (compute_requirement 2 env 0 ≡ some result)
    × ((place : Place)
        → (Satisfies (Requirement.any int) place
            × AllSatisfied (Requirement.register int ∷ []) place)
          ↔ SatisfiesMerged result place)
compute_requirement_iff_example =
    compute_requirement_iff 2 env 0 int (Requirement.register int ∷ []) has_reqs
