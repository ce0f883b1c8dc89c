-- ===== src/Ion/Bundle/Required.antt =====
-- The requirement of a bundle is that of all its operands (src/ion/mod.rs, `compute_requirement`).
use regalloc2_orig.Prelude.{
  Flow, next, return, ℕ, ◌<◌, ◌≡◌, ◌↔◌, refl, ap, ◌∙◌, List, [], ◌∷◌, ◌++◌, Option, none, some,
  ◌>>=◌, length,
}
use regalloc2_orig.Reg.{RegClass}
use regalloc2_orig.Reg.VReg
use regalloc2_orig.Ion.Requirement.{Requirement, Place, Satisfies, SatisfiesMerged, merge}
use regalloc2_orig.Ion.Env.{
  LiveRange, LiveBundle, VRegData, Env, Chain, over, walk, walk-eq-over, at,
}
use regalloc2_orig.Ion.Bundle.{bundle_link, merge_def, merge_range, compute_requirement}
use regalloc2_orig.Ion.Bundle.Satisfied.{
  merge_all, AllSatisfied, merge_all_iff, merge_all-append, as_flow, merge_operand-eq, DefReqs,
  no_def, def_req, use_link, RangeReqs, AllReqs, no_ranges, range_reqs, merge_use, over-uses,
}

merge_def-eq :
    (env : Env) (r : LiveRange) (ds : List Requirement) (needed : Requirement)
    → DefReqs env r ds
    → merge_def env r needed ≡ some (as_flow (merge_all needed ds))
merge_def-eq env r [] needed (no_def e) = rw e refl
merge_def-eq env r (q ∷ []) needed (def_req {d} v g e) =
    rw (v, g)
      (merge_operand-eq needed q d.operand e ∙ ap (λ m. some (as_flow m)) (unit (merge needed q)))
  where
    unit : (m : Option Requirement) → m ≡ (do r ← m; some r)
    unit none = refl
    unit (some r) = refl
merge_def-eq env r (q ∷ p ∷ ds) needed h = elim h [ ]

merge_range-eq :
    (fuel : ℕ) (env : Env) (i : ℕ) (r : LiveRange) (ds us : List Requirement) (needed : Requirement)
    → RangeReqs fuel env r ds us
    → merge_range fuel env i r needed ≡ some (as_flow (merge_all needed (ds ++ us)))
unfolding merge_range
merge_range-eq fuel env i r ds us needed h =
    rw (merge_def-eq env r ds needed h.def_reqs, merge_all-append needed ds us)
      (by_merge (merge_all needed ds))
  where
    uses : Requirement → Option (Flow Requirement (Unit {0}))
    uses needed = walk env.uses use_link merge_use fuel r.first_use needed

    by_merge :
        (m : Option Requirement)
        → (elim (as_flow m) as (λ x. Option (Flow Requirement (Unit {0}))) [
          | return u ↦ some (return u)
          | next r ↦ uses r
        ])
          ≡ some (as_flow (do r ← m; merge_all r us))
    by_merge none = refl
    by_merge (some n) =
        walk-eq-over env.uses use_link merge_use fuel r.first_use h.items n h.chain h.enough
        ∙ over-uses env.uses h.items us n h.use_reqs

over-ranges :
    (fuel : ℕ) (env : Env) (rs : List (ℕ × LiveRange)) (qs : List Requirement)
    (needed : Requirement)
    → AllReqs fuel env rs qs
    → over env.ranges bundle_link (merge_range fuel env) rs needed
      ≡ some (as_flow (merge_all needed qs))
unfolding over
over-ranges fuel env [] [] needed no_ranges = refl
over-ranges fuel env [] (q ∷ qs) needed h = elim h [ ]
over-ranges fuel env ((i, r) ∷ rs) qs needed (range_reqs {ds} {us} {qs = ps} h rest) =
    rw (merge_range-eq fuel env i r ds us needed h, merge_all-append needed (ds ++ us) ps)
      (by_merge (merge_all needed (ds ++ us)) (λ n. over-ranges fuel env rs ps n rest))
  where
    by_merge :
        (m : Option Requirement)
        → ((n : Requirement)
            → over env.ranges bundle_link (merge_range fuel env) rs n
              ≡ some (as_flow (merge_all n ps)))
        → (elim (as_flow m) as (λ x. Option (Flow Requirement (Unit {0}))) [
          | return u ↦ some (return u)
          | next n ↦ over env.ranges bundle_link (merge_range fuel env) rs n
        ])
          ≡ some (as_flow (do n ← m; merge_all n ps))
    by_merge none rest = refl
    by_merge (some n) rest = rest n

-- A bundle whose ranges and uses form lists that end: its class and the requirements of its
-- definitions and uses.
pub record HasReqs (fuel : ℕ) (env : Env) (bundle : ℕ) (class : RegClass) (qs : List Requirement)
    : Type 0 where
  pub bundle_data : LiveBundle
  pub first : LiveRange
  pub vreg_data : VRegData
  pub ranges : List (ℕ × LiveRange)
  pub bundle_eq : at env.bundles bundle ≡ some bundle_data
  pub first_eq : at env.ranges bundle_data.first_range ≡ some first
  pub vreg_eq : at env.vregs first.vreg ≡ some vreg_data
  pub class_eq : VReg.class vreg_data.reg ≡ some class
  pub chain : Chain env.ranges bundle_link bundle_data.first_range ranges
  pub enough : length ranges < fuel
  pub reqs : AllReqs fuel env ranges qs

-- The requirement of a bundle is found, or found not to exist, and a place satisfies it exactly where the place is
-- in the class of the bundle and satisfies the requirement of every definition and use of its
-- ranges. So where there is none, no place does.
pub compute_requirement_iff :
    (fuel : ℕ) (env : Env) (bundle : ℕ) (class : RegClass) (qs : List Requirement)
    → HasReqs fuel env bundle class qs
    → (result : Option Requirement) × (compute_requirement fuel env bundle ≡ some result)
      × ((place : Place)
          → (Satisfies (Requirement.any class) place × AllSatisfied qs place)
            ↔ SatisfiesMerged result place)
unfolding compute_requirement
compute_requirement_iff fuel env bundle class qs h =
    let needed = Requirement.any class in
    let loop =
      walk-eq-over env.ranges bundle_link (merge_range fuel env) fuel h.bundle_data.first_range
        h.ranges needed h.chain h.enough
      ∙ over-ranges fuel env h.ranges qs needed h.reqs in
    (
      merge_all needed qs,
      rw (h.bundle_eq, h.first_eq, h.vreg_eq, h.class_eq, loop) (result (merge_all needed qs)),
      λ place. merge_all_iff needed qs place,
    )
  where
    result :
        (m : Option Requirement)
        → some (elim (as_flow m) as (λ x. Option Requirement) [ next n ↦ some n | return u ↦ none ])
          ≡ some m
    result none = refl
    result (some n) = refl
