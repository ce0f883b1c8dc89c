-- ===== src/Ion/Allocate.antt =====
-- Giving bundles to registers and taking them back (src/ion/mod.rs). Each function that follows a
-- linked list takes the fuel of its loops.
pub mod Correct
pub mod Ranges
pub mod Scan
pub mod Undo
use regalloc2_orig.Prelude.{
  Flow, next, return, ℕ, ◌+◌, Bool, false, ◌||◌, ◌==◌, max, if◌then◌else◌, List, [], ◌∷◌, ◌++◌,
  Option, none, some, ◌>>=◌, get_elem?, set,
}
use regalloc2_orig.Index
use regalloc2_orig.Index.{Inst}
use regalloc2_orig.Reg.PReg
use regalloc2_orig.Reg.PReg.{PReg}
use regalloc2_orig.Alloc
use regalloc2_orig.Alloc.{Allocation, none_alloc}
use regalloc2_orig.Ion.Range.{CodeRange}
use regalloc2_orig.Ion.Key
use regalloc2_orig.Ion.Key.{LiveRangeKey}
use regalloc2_orig.Ion.Btree
use regalloc2_orig.Ion.Btree.{LiveRangeSet}
use regalloc2_orig.Ion.Props.{cached_spill_weight}
use regalloc2_orig.Ion.Bundle.{bundle_link, finish, create_liverange}
use regalloc2_orig.Ion.Env.{LiveRange, PRegData, Env, at, walk}

-- A change of the allocations of one register.
abbrev pub update_preg : (LiveRangeSet → LiveRangeSet) → ℕ → List PRegData → Option (List PRegData)
update_preg f reg pregs = do
  i ← Index.index reg
  preg ← get_elem? pregs i
  some (set pregs i (record preg { allocations = f preg.allocations }))

unfoldable pub add_liverange_to_preg : Env → CodeRange → PReg → Option Env
add_liverange_to_preg env range reg = do
  let preg_idx = Index.new (PReg.index reg)
  let (env, lr) = create_liverange env range
  key ← Key.from_range range
  pregs ← update_preg (Btree.insert key lr) preg_idx env.pregs
  some (record env { pregs = pregs })

pub data AllocRegResult : Type 0 where
  allocated : Allocation → AllocRegResult
  conflict : List ℕ → AllocRegResult
  conflict_with_fixed : AllocRegResult

abbrev pub member : ℕ → List ℕ → Bool
member b [] = false
member b (c ∷ cs) = b == c || member b cs

abbrev pub push_new : List ℕ → ℕ → List ℕ
push_new conflicts b = if member b conflicts then conflicts else conflicts ++ b ∷ []

-- What a range meets in the set, for the first loop: to return is to say `ConflictWithFixed`.
unfoldable pub meet_range : List LiveRange → List ℕ → Option ℕ → Option (Flow (List ℕ) (Unit {0}))
meet_range ranges conflicts none = some (next conflicts)
meet_range ranges conflicts (some preg_range) = do
  p ← at ranges preg_range
  some (if Index.is_valid p.vreg then next (push_new conflicts p.bundle) else return tt)

unfoldable pub find_conflict :
    List LiveRange → LiveRangeSet → ℕ → LiveRange → List ℕ → Option (Flow (List ℕ) (Unit {0}))
unfolding meet_range
find_conflict ranges allocations i r conflicts = do
  key ← Key.from_range r.range
  meet_range ranges conflicts (Btree.get key allocations)

-- The bodies of the loops that add the ranges of a bundle to a register and remove them.
abbrev pub change_range :
    (LiveRangeKey → ℕ → LiveRangeSet → LiveRangeSet)
    → ℕ
    → ℕ
    → LiveRange
    → List PRegData
    → Option (Flow (List PRegData) ⊥)
change_range f reg i r pregs = do
  key ← Key.from_range r.range
  pregs ← update_preg (f key i) reg pregs
  some (next pregs)

unfoldable pub insert_range : ℕ → ℕ → LiveRange → List PRegData → Option (Flow (List PRegData) ⊥)
insert_range reg i r pregs = change_range Btree.insert reg i r pregs

unfoldable pub remove_range : ℕ → ℕ → LiveRange → List PRegData → Option (Flow (List PRegData) ⊥)
remove_range reg i r pregs = change_range (λ k i. Btree.remove k) reg i r pregs

-- The part after the first loop that found no conflict.
unfoldable pub assign_bundle : ℕ → Env → ℕ → ℕ → Option (AllocRegResult × Env)
unfolding walk insert_range
assign_bundle fuel env bundle reg = do
  p ← at env.pregs reg
  let alloc = Alloc.reg p.reg
  b ← at env.bundles bundle
  end ← walk env.ranges bundle_link (insert_range reg) fuel b.first_range env.pregs
  some (
    allocated alloc,
    record env {
      bundles = set env.bundles bundle (record b { allocation = alloc });
      pregs = finish end;
    },
  )

unfoldable pub try_to_allocate_bundle_to_reg : ℕ → Env → ℕ → ℕ → Option (AllocRegResult × Env)
unfolding walk find_conflict
try_to_allocate_bundle_to_reg fuel env bundle reg = do
  b ← at env.bundles bundle
  p ← at env.pregs reg
  end ← walk env.ranges bundle_link (find_conflict env.ranges p.allocations) fuel b.first_range []
  elim end [
    | return u ↦ some (conflict_with_fixed, env)
    | next conflicts ↦ elim conflicts [
      | [] ↦ assign_bundle fuel env bundle reg
      | c ∷ cs ↦ some (conflict (c ∷ cs), env)
    ]
  ]

unfoldable pub evict_bundle : ℕ → Env → ℕ → Option Env
unfolding walk remove_range
evict_bundle fuel env bundle = do
  b ← at env.bundles bundle
  r ← Alloc.as_reg b.allocation
  elim r [
    | none ↦ some env
    | some preg ↦ (do
      let preg_idx = Index.new (PReg.index preg)
      end ← walk env.ranges bundle_link (remove_range preg_idx) fuel b.first_range env.pregs
      some (record env {
        bundles = set env.bundles bundle (record b { allocation = none_alloc });
        pregs = finish end;
        allocation_queue = env.allocation_queue ++ (b.prio, bundle) ∷ [];
      }))
  ]

unfoldable pub bundle_spill_weight : Env → ℕ → Option ℕ
bundle_spill_weight env bundle = do
  b ← at env.bundles bundle
  some (cached_spill_weight b.spill_weight_and_props)

-- `max()` and `unwrap_or(0)`
unfoldable pub maximum_spill_weight_in_bundle_set : Env → List ℕ → Option ℕ
unfolding bundle_spill_weight
maximum_spill_weight_in_bundle_set env [] = some 0
maximum_spill_weight_in_bundle_set env (b ∷ bs) = do
  w ← bundle_spill_weight env b
  rest ← maximum_spill_weight_in_bundle_set env bs
  some (max w rest)

-- The sums are of type usize; an offset that is out of bounds panics.
unfoldable pub get_alloc : Env → Inst → ℕ → Option Allocation
get_alloc env inst slot = do
  offset ← at env.inst_alloc_offsets inst
  get_elem? env.allocs (offset + slot)

unfoldable pub set_alloc : Env → Inst → ℕ → Allocation → Option Env
set_alloc env inst slot alloc = do
  offset ← at env.inst_alloc_offsets inst
  old ← get_elem? env.allocs (offset + slot)
  some (record env { allocs = set env.allocs (offset + slot) alloc })
