-- ===== src/Checker/Check.antt =====
-- The check of an instruction's operands (src/checker.rs, `check`, `check_val`, `check_policy`).
use regalloc2_orig.Prelude.{
  Bool, true, false, not, ◌&&◌, if◌then◌else◌, List, [], ◌∷◌, Option, none, some, get_elem?,
}
use regalloc2_orig.Index.{Inst}
use regalloc2_orig.ProgPoint.{InstPosition, before, after}
use regalloc2_orig.Reg.VReg
use regalloc2_orig.Reg.VReg.{VReg}
use regalloc2_orig.Alloc
use regalloc2_orig.Alloc.{Allocation, AllocationKind, reg_kind, none_kind, stack_kind}
use regalloc2_orig.Operand
use regalloc2_orig.Operand.{
  Operand, OperandKind, OperandPos, OperandPolicy, def, use_, any, fixed_reg, reuse,
}
use regalloc2_orig.Checker.Value.{CheckerValue, unknown, conflicted, reg}
use regalloc2_orig.Checker.State.{CheckerState, CheckerInst, move, op, block_params, value}

pub data CheckerError : Type 0 where
  missing_allocation : (inst : Inst) (op : Operand) → CheckerError
  unknown_value_in_allocation : (inst : Inst) (op : Operand) (alloc : Allocation) → CheckerError
  conflicted_value_in_allocation : (inst : Inst) (op : Operand) (alloc : Allocation) → CheckerError
  incorrect_value_in_allocation :
      (inst : Inst) (op : Operand) (alloc : Allocation) (actual : VReg) → CheckerError
  policy_violated : (inst : Inst) (op : Operand) (alloc : Allocation) → CheckerError
  allocation_is_not_reg : (inst : Inst) (op : Operand) (alloc : Allocation) → CheckerError
  allocation_is_not_fixed_reg : (inst : Inst) (op : Operand) (alloc : Allocation) → CheckerError
  allocation_is_not_reuse :
      (inst : Inst) (op : Operand) (alloc expected_alloc : Allocation) → CheckerError

-- A call's result, or its panic.
pub data Outcome : Type 0 where
  ok : Outcome
  err : CheckerError → Outcome
  panic : Outcome

-- `?` and the sequence of two statements.
infixl 5 ◌>>◌
abbrev pub ◌>>◌ : Outcome → Outcome → Outcome
ok >> k = k
err e >> k = err e
panic >> k = panic

-- What a call that may panic hands on.
abbrev pub with_value {ℓ} : {A : Type ℓ} → Option A → (A → Outcome) → Outcome
with_value none k = panic
with_value (some a) k = k a

-- `if test { return Err(e); }`
abbrev pub reject : Bool → CheckerError → Outcome
reject true e = err e
reject false e = ok

abbrev pub is_reg_kind : AllocationKind → Bool
is_reg_kind none_kind = false
is_reg_kind reg_kind = true
is_reg_kind stack_kind = false

-- The match on the policy.
abbrev pub policy_rule : Inst → Operand → Allocation → List Allocation → OperandPolicy → Outcome
policy_rule inst operand alloc allocs any = ok
policy_rule inst operand alloc allocs Operand.OperandPolicy.reg =
    with_value (Alloc.kind alloc)
      λ kind. reject (not (is_reg_kind kind)) (allocation_is_not_reg inst operand alloc)
policy_rule inst operand alloc allocs (fixed_reg preg) =
    reject (not (Alloc.eq alloc (Alloc.reg preg))) (allocation_is_not_fixed_reg inst operand alloc)
policy_rule inst operand alloc allocs (reuse idx) = with_value (Alloc.kind alloc) λ kind.
    (reject (not (is_reg_kind kind)) (allocation_is_not_reg inst operand alloc)
      >> with_value (get_elem? allocs idx) λ expected.
        reject (not (Alloc.eq alloc expected))
          (allocation_is_not_reuse inst operand alloc expected))

unfoldable pub check_policy : Inst → Operand → Allocation → List Allocation → Outcome
check_policy inst operand alloc allocs =
    with_value (Operand.policy operand) (policy_rule inst operand alloc allocs)

-- The match on the value; the guard of its third arm reads the operand's register.
abbrev pub check_value : Inst → Operand → Allocation → CheckerValue → Outcome
check_value inst operand alloc unknown = err (unknown_value_in_allocation inst operand alloc)
check_value inst operand alloc conflicted = err (conflicted_value_in_allocation inst operand alloc)
check_value inst operand alloc (reg r b) =
    with_value (Operand.vreg operand)
      λ vreg. reject (not (VReg.eq r vreg)) (incorrect_value_in_allocation inst operand alloc r)

unfoldable pub check_val : Inst → Operand → Allocation → CheckerValue → List Allocation → Outcome
unfolding check_policy
check_val inst operand alloc val allocs =
    reject (Alloc.eq alloc Alloc.none_alloc) (missing_allocation inst operand)
    >> check_value inst operand alloc val
    >> check_policy inst operand alloc allocs

-- `operands.iter().any(|op| matches!(op.policy(), OperandPolicy::Reuse(_)))`
unfoldable pub has_reused_input : List Operand → Option Bool
has_reused_input [] = some false
has_reused_input (o ∷ os) = elim (Operand.policy o) [
  | none ↦ none
  | some (reuse idx) ↦ some true
  | some other ↦ has_reused_input os
]

-- The match on `(op.pos(), pos)`.
abbrev pub is_here : OperandPos → InstPosition → Bool
is_here OperandPos.before before = true
is_here OperandPos.before after = false
is_here OperandPos.after before = false
is_here OperandPos.after after = true
is_here OperandPos.both before = true
is_here OperandPos.both after = true

abbrev pub is_def : OperandKind → Bool
is_def def = true
is_def use_ = false

-- The loop over `operands.iter().zip(allocs.iter())`; `all` is the whole of `allocs`.
unfoldable pub check_operands :
    CheckerState → InstPosition → Inst → List Allocation → List Operand → List Allocation → Outcome
unfolding check_val value
check_operands st pos inst all [] allocs = ok
check_operands st pos inst all (o ∷ os) [] = ok
check_operands st pos inst all (o ∷ os) (a ∷ as_) =
    (with_value (Operand.pos o) λ p.
      if not (is_here p pos)
      then ok
      else (with_value (Operand.kind o)
          λ k. if is_def k then ok else check_val inst o a (value st a) all))
    >> check_operands st pos inst all os as_

abbrev pub is_after : InstPosition → Bool
is_after before = false
is_after after = true

unfoldable pub check : CheckerState → InstPosition → CheckerInst → Outcome
unfolding has_reused_input check_operands
check st pos (op inst operands allocs) = with_value (has_reused_input operands) λ reused.
    if reused && is_after pos then ok else check_operands st pos inst allocs operands allocs
check st pos (move into from) = ok
check st pos (block_params block vregs allocs) = ok
