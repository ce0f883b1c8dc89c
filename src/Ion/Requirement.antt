-- ===== src/Ion/Requirement.antt =====
-- What the operands of a bundle ask of its allocation (src/ion/mod.rs, `Requirement`).
use regalloc2_orig.Prelude.{
  ◌≡◌, ◌↔◌, Option, none, some, ◌>>=◌, ◌==◌, Bool, not, ◌&&◌, if◌then◌else◌, ℕ, arith, refl,
}
use regalloc2_orig.Reg.{RegClass, class_eq}
use regalloc2_orig.Reg.PReg.{PReg}
use regalloc2_orig.Reg.VReg
use regalloc2_orig.Reg.VReg.{VReg}
use regalloc2_orig.Operand
use regalloc2_orig.Operand.{Operand, OperandPolicy, OperandKind, OperandPos, fixed_reg, reuse}
use regalloc2_orig.Operand.RoundTrip.{Accepts, operand_round_trip}

pub data Requirement : Type 0 where
  fixed : PReg → Requirement
  register : RegClass → Requirement
  any : RegClass → Requirement

abbrev pub spill_weight_from_policy : OperandPolicy → ℕ
spill_weight_from_policy Operand.OperandPolicy.any = 1000
spill_weight_from_policy Operand.OperandPolicy.reg = 2000
spill_weight_from_policy (fixed_reg p) = 2000
spill_weight_from_policy (reuse i) = 0

abbrev pub class : Requirement → RegClass
class (fixed preg) = preg.class
class (register c) = c
class (any c) = c

abbrev pub preg_eq : PReg → PReg → Bool
preg_eq p q = p.hw_enc == q.hw_enc && class_eq p.class q.class

-- The arms in the source's order.
abbrev merge_same_class : Requirement → Requirement → Option Requirement
merge_same_class (fixed p) (any d) = some (fixed p)
merge_same_class (register c) (any d) = some (register c)
merge_same_class (any c) (any d) = some (any c)
merge_same_class (any c) (fixed q) = some (fixed q)
merge_same_class (any c) (register d) = some (register d)
merge_same_class (register c) (fixed q) = some (fixed q)
merge_same_class (fixed p) (register d) = some (fixed p)
merge_same_class (register c) (register d) = some (register c)
merge_same_class (fixed p) (fixed q) = if preg_eq p q then some (fixed p) else none

unfoldable pub merge : Requirement → Requirement → Option Requirement
merge a b = if not (class_eq (class a) (class b)) then none else merge_same_class a b

-- `op.class()` is read where the policy does not fix a register.
abbrev requirement_of : Option RegClass → OperandPolicy → Option Requirement
requirement_of c (fixed_reg p) = some (fixed p)
requirement_of c Operand.OperandPolicy.reg = do c ← c; some (register c)
requirement_of c (reuse i) = do c ← c; some (register c)
requirement_of c Operand.OperandPolicy.any = do c ← c; some (any c)

unfoldable pub from_operand : Operand → Option Requirement
from_operand op = do policy ← Operand.policy op; requirement_of (Operand.class op) policy

-- Where a value can live.
pub data Place : Type 0 where
  in_register : PReg → Place
  on_stack : RegClass → Place

abbrev pub Satisfies : Requirement → Place → Type 0
Satisfies (fixed p) (in_register q) = q ≡ p
Satisfies (register c) (in_register q) = q.class ≡ c
Satisfies (any c) (in_register q) = q.class ≡ c
Satisfies (any c) (on_stack d) = d ≡ c
Satisfies (fixed p) (on_stack d) = ⊥
Satisfies (register c) (on_stack d) = ⊥

-- No place satisfies what requirements merge to where they do not merge.
abbrev pub SatisfiesMerged : Option Requirement → Place → Type 0
SatisfiesMerged none place = ⊥
SatisfiesMerged (some r) place = Satisfies r place

-- A place satisfies two requirements exactly where they merge, and it satisfies what they merge
-- to. So two requirements that do not merge have no place in common.
pub merge_iff :
    (a b : Requirement) (place : Place)
    → (Satisfies a place × Satisfies b place) ↔ SatisfiesMerged (merge a b) place
unfolding merge
merge_iff (fixed x) (fixed y) (in_register q) = ground arith
merge_iff (fixed x) (fixed y) (on_stack d) = ground arith
merge_iff (fixed x) (register y) (in_register q) = ground arith
merge_iff (fixed x) (register y) (on_stack d) = ground arith
merge_iff (fixed x) (any y) (in_register q) = ground arith
merge_iff (fixed x) (any y) (on_stack d) = ground arith
merge_iff (register x) (fixed y) (in_register q) = ground arith
merge_iff (register x) (fixed y) (on_stack d) = ground arith
merge_iff (register x) (register y) (in_register q) = ground arith
merge_iff (register x) (register y) (on_stack d) = ground arith
merge_iff (register x) (any y) (in_register q) = ground arith
merge_iff (register x) (any y) (on_stack d) = ground arith
merge_iff (any x) (fixed y) (in_register q) = ground arith
merge_iff (any x) (fixed y) (on_stack d) = ground arith
merge_iff (any x) (register y) (in_register q) = ground arith
merge_iff (any x) (register y) (on_stack d) = ground arith
merge_iff (any x) (any y) (in_register q) = ground arith
merge_iff (any x) (any y) (on_stack d) = ground arith

-- The requirement of an operand as `Operand::new` packs it.
abbrev pub expected : OperandPolicy → RegClass → Requirement
expected (fixed_reg p) c = fixed p
expected Operand.OperandPolicy.reg c = register c
expected (reuse i) c = register c
expected Operand.OperandPolicy.any c = any c

pub from_operand-new :
    (v : VReg) (p : OperandPolicy) (k : OperandKind) (s : OperandPos) (c : RegClass)
    → VReg.IsValid v
    → VReg.class v ≡ some c
    → Accepts c p
    → (o : Operand) × (Operand.new v p k s ≡ some o) × (from_operand o ≡ some (expected p c))
unfolding from_operand
from_operand-new v p k s c ok e a =
    let (o, made, vr, cl, po, ki, ps) = operand_round_trip v p k s c ok e a in
    (o, made, rw (po, cl) (expected_of p c))
  where
    expected_of :
        (p : OperandPolicy) (c : RegClass) → requirement_of (some c) p ≡ some (expected p c)
    expected_of (fixed_reg p) c = refl
    expected_of Operand.OperandPolicy.reg c = refl
    expected_of (reuse i) c = refl
    expected_of Operand.OperandPolicy.any c = refl
