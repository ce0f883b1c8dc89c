-- ===== src/Ion/Uses.antt =====
-- The uses of a live range and the ranges of a virtual register (src/ion/mod.rs,
-- `add_liverange_to_vreg` and what it calls). Each function that follows a linked list takes the fuel
-- of its loops; u32 arithmetic wraps.
pub mod AddRange
pub mod Scan
pub mod Insert
pub mod Ends
pub mod Place
pub mod Order
use regalloc2_orig.Prelude.{
  ℕ, zero, suc, ◌+◌, ◌-◌, ◌^◌, Bool, true, false, not, ◌&&◌, ◌==◌, ltb, if◌then◌else◌, List, [],
  ◌∷◌, Option, none, some, ◌>>=◌, ◌>>◌, assert, get_elem?, u32,
}
use regalloc2_orig.Index
use regalloc2_orig.ProgPoint
use regalloc2_orig.ProgPoint.{ProgPoint}
use regalloc2_orig.Operand
use regalloc2_orig.Operand.{Operand, OperandPolicy, fixed_reg}
use regalloc2_orig.Ion.Range.{CodeRange, contains_point}
use regalloc2_orig.Ion.Props.{inc_num_fixed_uses, dec_num_fixed_uses}
use regalloc2_orig.Ion.Requirement.{spill_weight_from_policy}
use regalloc2_orig.Ion.Env.{LiveRange, Use, VRegData, Env, at, set_range, set_use, set_vreg}
use regalloc2_orig.Ion.Bundle.{create_liverange}

-- The count of fixed uses, if the policy is `FixedReg`.
abbrev pub count_fixed : (ℕ → ℕ) → OperandPolicy → LiveRange → LiveRange
count_fixed f (fixed_reg p) r = record r { num_fixed_uses_and_flags = f r.num_fixed_uses_and_flags }
count_fixed f policy r = r

unfoldable pub update_liverange_stats_on_remove_use : Env → ℕ → ℕ → Option Env
update_liverange_stats_on_remove_use env from u = do
  usedata ← at env.uses u
  policy ← Operand.policy usedata.operand
  set_range env from (λ r. record (count_fixed dec_num_fixed_uses policy r) {
    uses_spill_weight = u32 (r.uses_spill_weight + 2 ^ 32 - spill_weight_from_policy policy);
  })

-- The scan for the position: the last use that is not after `insert_pos`, and the one that follows.
unfoldable pub find_use : ℕ → List Use → ProgPoint → ℕ → ℕ → Option (ℕ × ℕ)
find_use zero uses insert_pos prev iter = none
find_use (suc fuel) uses insert_pos prev iter = elim (Index.is_valid iter) [
  | false ↦ some (prev, iter)
  | true ↦ (do
    u ← get_elem? uses iter
    elim (ProgPoint.lt insert_pos u.pos) [
      | true ↦ some (prev, iter)
      | false ↦ find_use fuel uses insert_pos iter u.next_use
    ])
]

-- The links of a use that the scan has placed.
unfoldable pub link_use : Env → ℕ → ℕ → ℕ → ℕ → Option Env
link_use env into u prev iter = do
  env ← set_use env u (λ d. record d { next_use = iter })
  env ←
      if Index.is_valid prev
      then set_use env prev (λ d. record d { next_use = u })
      else set_range env into (λ r. record r { first_use = u })
  if Index.is_invalid iter then set_range env into (λ r. record r { last_use = u }) else some env

-- The part of `insert_use_into_liverange_and_update_stats` that changes the list.
unfoldable pub insert_use : ℕ → Env → ℕ → ℕ → Option Env
unfolding find_use link_use
insert_use fuel env into u = do
  d ← at env.uses u
  r ← at env.ranges into
  env ← set_use env u (λ d. record d { next_use = Index.invalid })
  if Index.is_invalid r.first_use
      then set_range env into (λ r. record r { first_use = u; last_use = u })
      else (do
        tail ← at env.uses r.last_use
        if ProgPoint.lt tail.pos d.pos
            then (do
              env ← set_use env r.last_use (λ d. record d { next_use = u })
              set_range env into (λ r. record r { last_use = u }))
            else (do
              (prev, iter) ← find_use fuel env.uses d.pos Index.invalid r.first_use
              link_use env into u prev iter))

unfoldable pub insert_use_into_liverange_and_update_stats : ℕ → Env → ℕ → ℕ → Option Env
unfolding insert_use
insert_use_into_liverange_and_update_stats fuel env into u = do
  env ← insert_use fuel env into u
  d ← at env.uses u
  policy ← Operand.policy d.operand
  set_range env into (λ r. record (count_fixed inc_num_fixed_uses policy r) {
    uses_spill_weight = u32 (r.uses_spill_weight + spill_weight_from_policy policy);
  })

-- A use leaves the list of `from`: the links, and the counts.
unfoldable pub remove_use : Env → ℕ → ℕ → ℕ → ℕ → Option Env
unfolding update_liverange_stats_on_remove_use
remove_use env from prev iter after_iter = do
  env ←
      if Index.is_valid prev
      then set_use env prev (λ d. record d { next_use = after_iter })
      else set_range env from (λ r. record r { first_use = after_iter })
  r ← at env.ranges from
  env ←
      if iter == r.last_use
      then set_range env from (λ r. record r { last_use = prev })
      else some env
  update_liverange_stats_on_remove_use env from iter

-- The loop over the uses of `from`.
unfoldable pub distribute_uses : ℕ → Env → ℕ → ℕ → CodeRange → ℕ → ℕ → Option Env
unfolding remove_use insert_use_into_liverange_and_update_stats
distribute_uses zero env from into into_range prev iter = none
distribute_uses (suc fuel) env from into into_range prev iter = elim (Index.is_valid iter) [
  | false ↦ some env
  | true ↦ (do
    d ← at env.uses iter
    elim (ProgPoint.le into_range.to d.pos) [
      | true ↦ some env
      | false ↦ elim (contains_point into_range d.pos) [
        | true ↦ (do
          env ← remove_use env from prev iter d.next_use
          env ← insert_use_into_liverange_and_update_stats (suc fuel) env into iter
          distribute_uses fuel env from into into_range prev d.next_use)
        | false ↦ distribute_uses fuel env from into into_range iter d.next_use
      ]
    ])
]

unfoldable pub distribute_liverange_uses : ℕ → Env → ℕ → ℕ → ℕ → Option Env
unfolding distribute_uses
distribute_liverange_uses fuel env vreg from into = do
  f ← at env.ranges from
  i ← at env.ranges into
  assert (f.vreg == i.vreg)
  env ← distribute_uses fuel env from into i.range Index.invalid f.first_use
  f' ← at env.ranges from
  if Index.is_valid f'.def
      then (do
        v ← at env.vregs vreg
        d ← at env.defs v.def
        if contains_point f.range d.pos
            then set_range env into (λ r. record r { def = v.def })
            else some env)
      else some env
