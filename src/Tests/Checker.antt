-- ===== src/Tests/Checker.antt =====
-- The checker at concrete states.
use regalloc2_orig.Prelude.{◌+◌, ◌^◌, ◌≡◌, ◌↔◌, refl, true, false, if◌then◌else◌, [], ◌∷◌, some}
use regalloc2_orig.ProgPoint.{before, after}
use regalloc2_orig.Reg.VReg
use regalloc2_orig.Reg.VReg.{VReg}
use regalloc2_orig.Alloc
use regalloc2_orig.Alloc.{Allocation}
use regalloc2_orig.Operand
use regalloc2_orig.Operand.{Operand}
use regalloc2_orig.Checker.Value.{unknown, conflicted, reg, meet}
use regalloc2_orig.Checker.State.{CheckerState, move, op, block_params, get, value, meet_with}
use regalloc2_orig.Checker.Check.{ok, err, unknown_value_in_allocation, check}
use regalloc2_orig.Checker.Meet.{DistinctKeys, meet_semilattice, value-meet_with}
use regalloc2_orig.Checker.Transfer.{
  Defines, no_operands, a_use, a_def, after_defs, zip, Leads, update_lem,
}
use regalloc2_orig.ProgPoint.{ProgPoint}
use regalloc2_orig.Function.{Edit, Output}
use regalloc2_orig.Checker.Run.{Checker, handle_edits, find_errors}
use regalloc2_orig.Checker.Edits.{handle_edits_lem}
use regalloc2_orig.Checker.Errors.{AllPass, find_errors_iff}

-- Virtual registers 1 and 2 of the integer class, and the physical registers 3 and 4.
abbrev v1 : VReg
v1 = record { bits = 2 }

abbrev v2 : VReg
v2 = record { bits = 4 }

abbrev p3 : Allocation
p3 = record { bits = 2 ^ 29 + 3 }

abbrev p4 : Allocation
p4 = record { bits = 2 ^ 29 + 4 }

-- A use of register 1 and a definition of register 2, both in any place.
abbrev use_1 : Operand
use_1 = record { bits = 1 + 2 ^ 28 }

abbrev def_2 : Operand
def_2 = record { bits = 2 + 2 ^ 29 }

abbrev left : CheckerState
left = record { allocations = (p3, reg v1 false) ∷ (p4, reg v1 false) ∷ [] }

abbrev right : CheckerState
right = record { allocations = (p4, reg v2 false) ∷ [] }

meet_semilattice_example :
    (meet (reg v1 true) (reg v2 false) ≡ meet (reg v2 false) (reg v1 true))
    × (meet (reg v1 true) (meet (reg v2 false) unknown)
        ≡ meet (meet (reg v1 true) (reg v2 false)) unknown)
    × (meet (reg v1 true) (reg v1 true) ≡ reg v1 true)
    × (meet unknown (reg v1 true) ≡ reg v1 true)
    × (meet conflicted (reg v1 true) ≡ conflicted)
meet_semilattice_example = meet_semilattice (reg v1 true) (reg v2 false) unknown

value-meet_with_example :
    ((a : Allocation) → value (meet_with left right) a ≡ meet (value left a) (value right a))
    × DistinctKeys (meet_with left right).allocations
unfolding get
value-meet_with_example = value-meet_with left right (refl, (refl, tt)) (refl, tt)

defines : Defines (use_1 ∷ def_2 ∷ []) (p3 ∷ p4 ∷ []) ((v2, p4) ∷ [])
unfolding Operand.kind Operand.vreg VReg.new
defines = a_use refl (a_def refl refl no_operands)

update_lem_example :
    Leads left (move p4 p3) (λ a. if Alloc.eq p4 a then value left p3 else value left a)
    × Leads left
        (op 7 (use_1 ∷ def_2 ∷ []) (p3 ∷ p4 ∷ []))
        (λ a. after_defs ((v2, p4) ∷ []) a (value left a))
    × Leads left
        (block_params 1 (v2 ∷ []) (p3 ∷ p4 ∷ []))
        (λ a. after_defs (zip (v2 ∷ []) (p3 ∷ p4 ∷ [])) a (value left a))
update_lem_example =
    update_lem left 7 p4 p3 (use_1 ∷ def_2 ∷ []) (p3 ∷ p4 ∷ []) ((v2, p4) ∷ []) 1 (v2 ∷ []) defines

-- The use of register 1 is accepted where p3 holds it, and not where p3 is not there.
accepted : check left before (op 7 (use_1 ∷ def_2 ∷ []) (p3 ∷ p4 ∷ [])) ≡ ok
unfolding check Operand.policy Operand.pos Operand.kind Alloc.none_alloc Operand.vreg VReg.new
accepted = refl

rejected :
    check right before (op 7 (use_1 ∷ def_2 ∷ []) (p3 ∷ p4 ∷ []))
    ≡ err (unknown_value_in_allocation 7 use_1 p3)
unfolding check Operand.policy Operand.pos Operand.kind Alloc.none_alloc
rejected = refl

-- An edit before the point, one at it, and one after it; the first block is the one that is filled.
abbrev point : ProgPoint
point = record { inst = 3; pos = before }

abbrev output : Output
output = record {
  num_spillslots = 0;
  edits =
      (record { inst = 2; pos = after }, Edit.move p4 p3)
      ∷ (point, Edit.move p3 p4)
      ∷ (record { inst = 3; pos = after }, Edit.move p4 p3)
      ∷ [];
  allocs = [];
  inst_alloc_offsets = [];
}

handle_edits_lem_example :
    handle_edits 0 output 0 point ([] ∷ [] ∷ []) ≡ some (2, (move p4 p3 ∷ []) ∷ [] ∷ [])
handle_edits_lem_example =
    handle_edits_lem 0 point output ((record { inst = 2; pos = after }, Edit.move p4 p3) ∷ [])
      (Edit.move p3 p4 ∷ []) ((record { inst = 3; pos = after }, Edit.move p4 p3) ∷ []) 0
      ([] ∷ [] ∷ []) [] refl (refl, tt) refl refl

abbrev checker : Checker
checker = record {
  bb_in = left ∷ [];
  bb_insts = (op 7 (use_1 ∷ def_2 ∷ []) (p3 ∷ p4 ∷ []) ∷ []) ∷ [];
}

find_errors_iff_example : (find_errors checker ≡ some []) ↔ AllPass checker.bb_in checker.bb_insts
find_errors_iff_example = find_errors_iff checker
