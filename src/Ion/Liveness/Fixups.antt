-- ===== src/Ion/Liveness/Fixups.antt =====
-- Operands of one virtual register that are fixed to several registers at one point (src/ion/mod.rs,
-- the cleanup pass of `compute_liveness`). Each function that follows a linked list takes the fuel of
-- its loops.
use regalloc2_orig.Prelude.{
  ℕ, zero, suc, Bool, true, false, ◌==◌, if◌then◌else◌, List, [], ◌∷◌, ◌++◌, Option, none, some,
  ◌>>=◌, length, get_elem?, for_each, count_from,
}
use regalloc2_orig.Index
use regalloc2_orig.Index.{Inst}
use regalloc2_orig.ProgPoint
use regalloc2_orig.ProgPoint.{ProgPoint}
use regalloc2_orig.Reg.PReg
use regalloc2_orig.Reg.PReg.{PReg}
use regalloc2_orig.Reg.VReg.{VReg}
use regalloc2_orig.Operand
use regalloc2_orig.Operand.{Operand, OperandPolicy, fixed_reg}
use regalloc2_orig.Ion.Env.{LiveRange, Env, at, update_at, set_use}
use regalloc2_orig.Ion.Liveness.{add_clobber}

-- What the closure carries along for one range.
pub record Fixups : Type 0 where
  pub last_point : Option ProgPoint
  pub seen_fixed_for_vreg : List VReg
  pub first_preg : List ℕ
  pub extra_clobbers : List (PReg × Inst)
  pub fixups : List (ProgPoint × ℕ × ℕ)

-- `iter().position(|r| *r == vreg)`
unfoldable pub position : VReg → List VReg → Option ℕ
position vreg [] = none
position vreg (r ∷ rs) =
    if r.bits == vreg.bits then some 0 else (do i ← position vreg rs; some (suc i))

-- A point other than the last one starts anew.
abbrev pub at_point : ProgPoint → Fixups → Fixups
at_point pos x =
    let same : Bool = elim x.last_point [ none ↦ true | some p ↦ ProgPoint.eq pos p ] in
    if same
    then record x { last_point = some pos }
    else record x { last_point = some pos; seen_fixed_for_vreg = []; first_preg = [] }

-- An operand that is fixed to a register.
unfoldable pub fix_operand : ProgPoint → PReg → Operand → Fixups → Option (Operand × Fixups)
unfolding position
fix_operand pos preg op x = do
  vreg ← Operand.vreg op
  let preg_idx = Index.new (PReg.index preg)
  elim (position vreg x.seen_fixed_for_vreg) [
    | some idx ↦ (do
      orig_preg ← get_elem? x.first_preg idx
      kind ← Operand.kind op
      at_pos ← Operand.pos op
      op ← Operand.new vreg Operand.reg kind at_pos
      some (
        op,
        record x {
          fixups = x.fixups ++ (pos, orig_preg, preg_idx) ∷ [];
          extra_clobbers = x.extra_clobbers ++ (preg, pos.inst) ∷ [];
        },
      ))
    | none ↦ some (
      op,
      record x {
        seen_fixed_for_vreg = x.seen_fixed_for_vreg ++ vreg ∷ [];
        first_preg = x.first_preg ++ preg_idx ∷ [];
      },
    )
  ]

unfoldable pub fixup_multi_fixed_vregs : ProgPoint → Operand → Fixups → Option (Operand × Fixups)
unfolding fix_operand
fixup_multi_fixed_vregs pos op x = do
  policy ← Operand.policy op
  elim policy [
    | fixed_reg preg ↦ fix_operand pos preg op (at_point pos x)
    | _ ↦ some (op, at_point pos x)
  ]

-- The loop over the uses of a range.
unfoldable pub fixup_uses : ℕ → Env → ℕ → Fixups → Option (Env × Fixups)
unfolding fixup_multi_fixed_vregs
fixup_uses zero env use_iter x = none
fixup_uses (suc fuel) env use_iter x = elim (Index.is_valid use_iter) [
  | false ↦ some (env, x)
  | true ↦ (do
    u ← at env.uses use_iter
    (op, x) ← fixup_multi_fixed_vregs u.pos u.operand x
    env ← set_use env use_iter (λ u. record u { operand = op })
    fixup_uses fuel env u.next_use x)
]

-- The definition of a vreg, if it is in the range.
unfoldable pub fixup_def : Env → ℕ → LiveRange → Fixups → Option (Env × Fixups)
unfolding fixup_multi_fixed_vregs
fixup_def env vreg r x =
    if Index.is_valid r.def
    then (do
      v ← get_elem? env.vregs vreg
      d ← at env.defs v.def
      (op, x) ← fixup_multi_fixed_vregs d.pos d.operand x
      defs ← update_at env.defs v.def (λ d. record d { operand = op })
      some (record env { defs = defs }, x))
    else some (env, x)

-- The loop over the ranges of a vreg.
unfoldable pub fixup_ranges : ℕ → ℕ → ℕ → Env → Option Env
unfolding fixup_uses fixup_def
fixup_ranges zero vreg iter env = none
fixup_ranges (suc fuel) vreg iter env = elim (Index.is_valid iter) [
  | false ↦ some env
  | true ↦ (do
    r ← at env.ranges iter
    (env, x) ← fixup_def env vreg r (record {
      last_point = none;
      seen_fixed_for_vreg = [];
      first_preg = [];
      extra_clobbers = [];
      fixups = env.multi_fixed_reg_fixups;
    })
    (env, x) ← fixup_uses (suc fuel) env r.first_use x
    env ←
        for_each (λ c env. add_clobber (c.1) (c.0) env) x.extra_clobbers
          (record env { multi_fixed_reg_fixups = x.fixups })
    r ← at env.ranges iter
    fixup_ranges fuel vreg r.next_in_reg env)
]

unfoldable pub fixup_vregs : ℕ → Env → Option Env
unfolding fixup_ranges
fixup_vregs fuel env =
    for_each (λ vreg env. do v ← get_elem? env.vregs vreg; fixup_ranges fuel vreg v.first_range env)
      (count_from 0 (length env.vregs)) env
