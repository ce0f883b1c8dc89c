-- ===== src/Checker/Transfer.antt =====
-- The transfer functions of the checker's state (src/checker.rs, `update`).
use regalloc2_orig.Prelude.{◌≡◌, refl, false, ◌∙◌, ap, if◌then◌else◌, List, [], ◌∷◌, some, arith}
use regalloc2_orig.Index.{Inst, Block}
use regalloc2_orig.Reg.VReg.{VReg}
use regalloc2_orig.Alloc
use regalloc2_orig.Alloc.{Allocation}
use regalloc2_orig.Operand
use regalloc2_orig.Operand.{Operand, OperandKind, def, use_}
use regalloc2_orig.Checker.Value.{CheckerValue, reg}
use regalloc2_orig.Checker.State.{
  CheckerState, CheckerInst, move, op, block_params, update_params, insert, value, update,
  update_defs,
}
use regalloc2_orig.Checker.Meet.{get-insert}

value-insert :
    (m : List (Allocation × CheckerValue)) (a b : Allocation) (v : CheckerValue)
    → value (record { allocations = insert a v m }) b
      ≡ (if Alloc.eq a b then v else value (record { allocations = m }) b)
unfolding value
value-insert m a b v = ground (arith, get-insert a b v m)

-- A definition that an instruction makes: a virtual register into an allocation.
abbrev pub Definition : Type 0
Definition = VReg × Allocation

-- The value that a list of definitions, in order, leaves in `a`: that of the last one into `a`.
abbrev pub after_defs : List Definition → Allocation → CheckerValue → CheckerValue
after_defs [] a old = old
after_defs ((v, b) ∷ ds) a old = after_defs ds a (if Alloc.eq b a then reg v false else old)

-- The definitions of an instruction, in the order of its operands.
pub data Defines : List Operand → List Allocation → List Definition → Type 0 where
  no_operands : {as_ : List Allocation} → Defines [] as_ []
  no_allocs : {o : Operand} {os : List Operand} → Defines (o ∷ os) [] []
  a_use :
      {o : Operand} {os : List Operand} {a : Allocation} {as_ : List Allocation}
      {ds : List Definition}
      → Operand.kind o ≡ some use_
      → Defines os as_ ds
      → Defines (o ∷ os) (a ∷ as_) ds
  a_def :
      {o : Operand} {os : List Operand} {a : Allocation} {as_ : List Allocation}
      {ds : List Definition} {v : VReg}
      → Operand.kind o ≡ some def
      → Operand.vreg o ≡ some v
      → Defines os as_ ds
      → Defines (o ∷ os) (a ∷ as_) ((v, a) ∷ ds)

update_defs_lem :
    {os : List Operand} {as_ : List Allocation} {ds : List Definition} (st : CheckerState)
    → Defines os as_ ds
    → (st' : CheckerState) × (update_defs os as_ st ≡ some st')
      × ((a : Allocation) → value st' a ≡ after_defs ds a (value st a))
unfolding update_defs
update_defs_lem st no_operands = (st, refl, λ a. refl)
update_defs_lem st no_allocs = (st, refl, λ a. refl)
update_defs_lem st (a_use k d) = rw k (update_defs_lem st d)
update_defs_lem st (a_def {a = b} {ds = ds} {v = v} k w d) =
    let (st', e, h) =
      update_defs_lem (record { allocations = insert b (reg v false) st.allocations }) d in
    (
      st',
      rw (k, w) e,
      λ a. h a ∙ ap (after_defs ds a) (value-insert st.allocations b a (reg v false)),
    )

-- The definitions of block parameters.
abbrev pub zip : List VReg → List Allocation → List Definition
zip [] as_ = []
zip (v ∷ vs) [] = []
zip (v ∷ vs) (a ∷ as_) = (v, a) ∷ zip vs as_

update_params_lem :
    (vs : List VReg) (as_ : List Allocation) (st : CheckerState) (a : Allocation)
    → value (update_params vs as_ st) a ≡ after_defs (zip vs as_) a (value st a)
unfolding update_params
update_params_lem [] as_ st a = refl
update_params_lem (v ∷ vs) [] st a = refl
update_params_lem (v ∷ vs) (b ∷ as_) st a =
    update_params_lem vs as_ (record { allocations = insert b (reg v false) st.allocations }) a
    ∙ ap (after_defs (zip vs as_) a) (value-insert st.allocations b a (reg v false))

-- What an instruction of the checker leaves in the allocations.
abbrev pub Leads : CheckerState → CheckerInst → (Allocation → CheckerValue) → Type 0
Leads st inst after =
    (st' : CheckerState) × (update st inst ≡ some st') × ((a : Allocation) → value st' a ≡ after a)

-- `update` does not panic where the definitions of the operands can be read. A move copies the
-- value of `from` into `into` and leaves every other allocation. An instruction, and the parameters
-- of a block, leave in each allocation the register that the last definition there defines, and
-- elsewhere what was there. (For the parameters, the comment of the module gives the meet of the
-- incoming allocations instead.)
pub update_lem :
    (st : CheckerState) (inst : Inst) (into from : Allocation) (operands : List Operand)
    (allocs : List Allocation) (ds : List Definition) (block : Block) (vregs : List VReg)
    → Defines operands allocs ds
    → Leads st (move into from) (λ a. if Alloc.eq into a then value st from else value st a)
      × Leads st (op inst operands allocs) (λ a. after_defs ds a (value st a))
      × Leads st
          (block_params block vregs allocs)
          (λ a. after_defs (zip vregs allocs) a (value st a))
unfolding update
update_lem st inst into from operands allocs ds block vregs d = (
  (
    record { allocations = insert into (value st from) st.allocations },
    refl,
    λ a. value-insert st.allocations into a (value st from),
  ),
  update_defs_lem st d,
  (update_params vregs allocs st, refl, λ a. update_params_lem vregs allocs st a),
)
