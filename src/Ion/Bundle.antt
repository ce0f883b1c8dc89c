-- ===== src/Ion/Bundle.antt =====
-- Live ranges and bundles: how they are made, what their ranges and uses ask for, their priority and
-- their spill weight (src/ion/mod.rs). Each function that follows a linked list takes the fuel of its
-- loops.
pub mod Required
pub mod Satisfied
use regalloc2_orig.Prelude.{
  Flow, next, return, ℕ, ◌+◌, ◌/◌, Bool, true, false, ◌==◌, ltb, if◌then◌else◌, [], ◌∷◌, ◌++◌,
  Option, none, some, ◌>>=◌, length, get_elem?, set, u32,
}
use regalloc2_orig.Index
use regalloc2_orig.Index.{Inst}
use regalloc2_orig.ProgPoint
use regalloc2_orig.ProgPoint.{ProgPoint}
use regalloc2_orig.Reg.VReg
use regalloc2_orig.Operand
use regalloc2_orig.Operand.{Operand, fixed_reg}
use regalloc2_orig.Alloc.{none_alloc}
use regalloc2_orig.Ion.Range
use regalloc2_orig.Ion.Range.{CodeRange, contains_point}
use regalloc2_orig.Ion.Props.{cached_minimal, set_cached_spill_weight_and_props}
use regalloc2_orig.Ion.Requirement.{Requirement, merge, from_operand}
use regalloc2_orig.Ion.Env.{LiveRange, Use, LiveBundle, Env, at, walk}

-- The link of the ranges of a bundle.
abbrev pub bundle_link : LiveRange → ℕ
bundle_link r = r.next_in_bundle

-- What a loop leaves that does not return from its function.
abbrev pub finish {ℓ} : {S : Type ℓ} → Flow S ⊥ → S
finish (next s) = s
finish (return r) = absurd r

unfoldable pub create_liverange : Env → CodeRange → Env × ℕ
create_liverange env range =
    let lr : LiveRange = record {
      range = range;
      vreg = Index.invalid;
      bundle = Index.invalid;
      uses_spill_weight = 0;
      num_fixed_uses_and_flags = 0;
      first_use = Index.invalid;
      last_use = Index.invalid;
      def = Index.invalid;
      next_in_bundle = Index.invalid;
      next_in_reg = Index.invalid;
    } in
    (record env { ranges = env.ranges ++ lr ∷ [] }, Index.new (length env.ranges))

unfoldable pub create_bundle : Env → Env × ℕ
create_bundle env =
    let bundle : LiveBundle = record {
      first_range = Index.invalid;
      last_range = Index.invalid;
      spillset = Index.invalid;
      allocation = none_alloc;
      prio = 0;
      spill_weight_and_props = 0;
    } in
    (record env { bundles = env.bundles ++ bundle ∷ [] }, Index.new (length env.bundles))

abbrev pub covers : ProgPoint → ℕ → LiveRange → Unit {0} → Option (Flow (Unit {0}) ℕ)
covers pos i r s = some (if contains_point r.range pos then return i else next s)

unfoldable pub find_vreg_liverange_for_pos : ℕ → Env → ℕ → ProgPoint → Option (Option ℕ)
unfolding walk
find_vreg_liverange_for_pos fuel env vreg pos = do
  v ← at env.vregs vreg
  found ← walk env.ranges (λ r. r.next_in_reg) (covers pos) fuel v.first_range tt
  some (elim found [ next s ↦ none | return i ↦ some i ])

unfoldable pub compute_bundle_prio : ℕ → Env → ℕ → Option ℕ
unfolding walk
compute_bundle_prio fuel env bundle = do
  b ← at env.bundles bundle
  end ←
      walk env.ranges bundle_link
        (λ i r total. do n ← Range.len r.range; some (next (u32 (total + u32 n)))) fuel
        b.first_range 0
  some (finish end)

-- `needed = needed.merge(req)?`
abbrev pub merge_operand : Requirement → Operand → Option (Flow Requirement (Unit {0}))
merge_operand needed op = do
  req ← from_operand op
  some (elim (merge needed req) [ none ↦ return tt | some r ↦ next r ])

abbrev pub merge_def : Env → LiveRange → Requirement → Option (Flow Requirement (Unit {0}))
merge_def env r needed =
    if Index.is_valid r.def
    then (do d ← get_elem? env.defs r.def; merge_operand needed d.operand)
    else some (next needed)

unfoldable pub merge_range :
    ℕ → Env → ℕ → LiveRange → Requirement → Option (Flow Requirement (Unit {0}))
unfolding walk
merge_range fuel env i r needed = do
  flow ← merge_def env r needed
  elim flow [
    | return u ↦ some (return u)
    | next needed ↦
        walk env.uses (λ u. u.next_use) (λ i u needed. merge_operand needed u.operand) fuel
          r.first_use needed
  ]

-- The outer option is the panic; the inner one is the function's result.
unfoldable pub compute_requirement : ℕ → Env → ℕ → Option (Option Requirement)
unfolding walk merge_range
compute_requirement fuel env bundle = do
  b ← at env.bundles bundle
  first ← at env.ranges b.first_range
  v ← at env.vregs first.vreg
  class ← VReg.class v.reg
  end ←
      walk env.ranges bundle_link (merge_range fuel env) fuel b.first_range (Requirement.any class)
  some (elim end [ next needed ↦ some needed | return u ↦ none ])

abbrev is_fixed : Operand → Option Bool
is_fixed op = do policy ← Operand.policy op; some (elim policy [ fixed_reg p ↦ true | _ ↦ false ])

-- The body of the loop over the uses, which breaks at one that is fixed.
abbrev pub fixed_use : ℕ → Use → Unit {0} → Option (Flow (Unit {0}) (Unit {0}))
fixed_use i u s = do fixed ← is_fixed u.operand; some (if fixed then return tt else next s)

-- The properties `minimal` and `fixed`, from the first range.
unfoldable pub bundle_properties : ℕ → Env → LiveRange → Option (Bool × Bool)
unfolding walk
bundle_properties fuel env first = if Index.is_invalid first.vreg then some (true, true) else (do
  def_fixed ←
      if Index.is_valid first.def
      then (do d ← get_elem? env.defs first.def; is_fixed d.operand)
      else some false
  end ← walk env.uses (λ u. u.next_use) fixed_use fuel first.first_use tt
  let fixed : Bool = elim end [ return u ↦ true | next s ↦ def_fixed ]
  minimal ←
      if Index.is_invalid first.next_in_bundle
      then (do last ← ProgPoint.prev first.range.to; some (first.range.from.inst == last.inst))
      else some false
  some (minimal, fixed))

-- The spill weight where the bundle is not minimal.
unfoldable pub total_spill_weight : ℕ → Env → LiveBundle → Option ℕ
unfolding walk
total_spill_weight fuel env b = do
  end ←
      walk env.ranges bundle_link
        (λ i r total. some (
          next
            (u32 (u32 (total + (if Index.is_valid r.def then 2000 else 0)) + r.uses_spill_weight))))
        fuel b.first_range 0
  let total = finish end
  some (if ltb 0 b.prio then total / b.prio else total)

unfoldable pub recompute_bundle_properties : ℕ → Env → ℕ → Option Env
unfolding bundle_properties total_spill_weight
recompute_bundle_properties fuel env bundle = do
  b ← at env.bundles bundle
  first ← at env.ranges b.first_range
  (minimal, fixed) ← bundle_properties fuel env first
  weight ←
      if minimal then some (if fixed then 2000000 else 1000000) else total_spill_weight fuel env b
  let props = set_cached_spill_weight_and_props weight minimal fixed
  some (record env {
    bundles = set env.bundles bundle (record b { spill_weight_and_props = props });
  })

unfoldable pub minimal_bundle : Env → ℕ → Option Bool
minimal_bundle env bundle = do
  b ← at env.bundles bundle
  some (cached_minimal b.spill_weight_and_props)
