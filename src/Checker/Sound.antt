-- ===== src/Checker/Sound.antt =====
-- What the operand checks accept (src/checker.rs, `check`).
use regalloc2_orig.Prelude.{
  ◌≡◌, Bool, true, false, not, if◌then◌else◌, List, [], ◌∷◌, some, get_elem?,
}
use regalloc2_orig.Index.{Inst}
use regalloc2_orig.ProgPoint.{InstPosition}
use regalloc2_orig.Reg.VReg
use regalloc2_orig.Reg.VReg.{VReg}
use regalloc2_orig.Alloc
use regalloc2_orig.Alloc.{Allocation, reg_kind}
use regalloc2_orig.Operand
use regalloc2_orig.Operand.{Operand, OperandPos, OperandPolicy, any, fixed_reg, reuse, use_}
use regalloc2_orig.Checker.Value.{reg}
use regalloc2_orig.Checker.State.{CheckerState, value}
use regalloc2_orig.Checker.Check.{Outcome, ok, with_value, check_val, is_here, is_def}

-- The allocation is of the sort that the policy asks for.
abbrev pub Fits : OperandPolicy → Allocation → List Allocation → Type 0
Fits any a allocs = Unit
Fits Operand.OperandPolicy.reg a allocs = Alloc.kind a ≡ some reg_kind
Fits (fixed_reg p) a allocs = a ≡ Alloc.reg p
Fits (reuse i) a allocs = (Alloc.kind a ≡ some reg_kind) × (get_elem? allocs i ≡ some a)

-- The allocation of a use is there, holds the operand's virtual register, and fits its policy.
pub record Meets (st : CheckerState) (allocs : List Allocation) (o : Operand) (a : Allocation)
    : Type 0 where
  pub vreg : VReg
  pub policy : OperandPolicy
  pub is_ref : Bool
  pub vreg_eq : Operand.vreg o ≡ some vreg
  pub policy_eq : Operand.policy o ≡ some policy
  pub present : Alloc.eq a Alloc.none_alloc ≡ false
  pub holds : value st a ≡ reg vreg is_ref
  pub fits : Fits policy a allocs

-- Every use that is read at `pos` is met.
abbrev pub AllMeet :
    CheckerState → InstPosition → List Allocation → List Operand → List Allocation → Type 0
AllMeet st pos all [] allocs = Unit
AllMeet st pos all (o ∷ os) [] = Unit
AllMeet st pos all (o ∷ os) (a ∷ as_) =
    ((p : OperandPos) × (Operand.pos o ≡ some p)
      × (is_here p pos ≡ true → Operand.kind o ≡ some use_ → Meets st all o a))
    × AllMeet st pos all os as_

-- The body of the loop for one operand, at its position.
abbrev at_pos :
    CheckerState
    → InstPosition
    → Inst
    → List Allocation
    → Operand
    → Allocation
    → OperandPos
    → Outcome
at_pos st pos inst all o a p =
    if not (is_here p pos)
    then ok
    else (with_value (Operand.kind o)
        λ k. if is_def k then ok else check_val inst o a (value st a) all)
