-- ===== src/Ion/Process.antt =====
-- The main loop of the allocator (src/ion/mod.rs: `process_bundles`, `process_bundle`
-- and the queue). Each function takes the fuel of its loops;
-- `regs_by_class` is that of the machine environment, and the counters are left out.
pub mod Retry
use regalloc2_orig.Prelude.{
  Flow, next, return, ℕ, zero, suc, ◌+◌, ◌*◌, ◌%◌, Bool, true, false, not, ◌&&◌, ◌||◌, ◌==◌, leb,
  ltb, if◌then◌else◌, List, [], ◌∷◌, ◌++◌, Option, none, some, ◌>>=◌, ◌>>◌, assert, length,
  get_elem?, for_each, count_from,
}
use regalloc2_orig.Index
use regalloc2_orig.Reg.{class_bits}
use regalloc2_orig.Reg.PReg
use regalloc2_orig.Reg.PReg.{PReg}
use regalloc2_orig.Reg.VReg
use regalloc2_orig.Alloc
use regalloc2_orig.Alloc.{Allocation}
use regalloc2_orig.Ion.Requirement.{Requirement, fixed, register, any, preg_eq}
use regalloc2_orig.Ion.Env.{Env, at, update_at}
use regalloc2_orig.Ion.Bundle.{compute_requirement, minimal_bundle}
use regalloc2_orig.Ion.Allocate.{
  AllocRegResult, allocated, conflict, conflict_with_fixed, try_to_allocate_bundle_to_reg,
  evict_bundle, bundle_spill_weight, maximum_spill_weight_in_bundle_set,
}
use regalloc2_orig.Ion.Split.Requeue.{split_and_requeue_bundle}

-- The derived order of the entries of the queue: by priority, then by bundle.
abbrev pub entry_le : ℕ × ℕ → ℕ × ℕ → Bool
entry_le (p, b) (q, c) = ltb p q || p == q && leb b c

-- The greatest entry, and the others.
unfoldable pub take_greatest : ℕ × ℕ → List (ℕ × ℕ) → (ℕ × ℕ) × List (ℕ × ℕ)
take_greatest e [] = (e, [])
take_greatest e (f ∷ fs) =
    let (g, rest) = take_greatest f fs in if entry_le g e then (e, f ∷ fs) else (g, e ∷ rest)

-- `BinaryHeap::pop`, which gives the greatest entry.
unfoldable pub pop : List (ℕ × ℕ) → Option (ℕ × List (ℕ × ℕ))
unfolding take_greatest
pop [] = none
pop (e ∷ es) = let (g, rest) = take_greatest e es in some (g.1, rest)

-- The register of an allocation as the hint of the bundle's spill set.
unfoldable pub set_hint : Env → ℕ → Allocation → Option Env
set_hint env bundle alloc = do
  b ← at env.bundles bundle
  reg ← Alloc.as_reg alloc
  preg ← reg
  spillsets ← update_at env.spillsets b.spillset (λ s. record s { reg_hint = some preg })
  some (record env { spillsets = spillsets })

-- The register of round `i`, or none where the round is skipped.
unfoldable pub candidate : List PReg → Option PReg → ℕ → ℕ → Option (Option PReg)
candidate regs none bundle i = do
  k ← Index.index bundle
  reg ← get_elem? regs ((i + k) % length regs)
  some (some reg)
candidate regs (some hint) bundle zero = some (some hint)
candidate regs (some hint) bundle (suc i) = do
  k ← Index.index bundle
  reg ← get_elem? regs ((i + k) % length regs)
  some (if preg_eq reg hint then none else some reg)

-- `lowest_cost_conflict_set`
unfoldable pub lower_cost : Env → Option (List ℕ) → List ℕ → Option (Option (List ℕ))
lower_cost env none bundles = some (some bundles)
lower_cost env (some lowest) bundles = do
  w ← maximum_spill_weight_in_bundle_set env bundles
  v ← maximum_spill_weight_in_bundle_set env lowest
  some (some (if ltb w v then bundles else lowest))

-- What a try comes to, in the loop over the registers: to return is to have the bundle allocated.
unfoldable pub after_try :
    Env → ℕ → Option (List ℕ) → AllocRegResult → Option (Flow (Option (List ℕ)) Env)
unfolding set_hint lower_cost
after_try env bundle lowest (allocated alloc) = do
  env ← set_hint env bundle alloc
  some (return env)
after_try env bundle lowest (conflict bundles) = do
  lowest ← lower_cost env lowest bundles
  some (next lowest)
after_try env bundle lowest conflict_with_fixed = some (next lowest)

-- The loop over the registers of a class.
unfoldable pub scan_regs :
    ℕ
    → Env
    → ℕ
    → List PReg
    → Option PReg
    → List ℕ
    → Option (List ℕ)
    → Option (Flow (Option (List ℕ)) Env)
unfolding candidate after_try
scan_regs fuel env bundle regs hint_reg [] lowest = some (next lowest)
scan_regs fuel env bundle regs hint_reg (i ∷ is) lowest = do
  preg ← candidate regs hint_reg bundle i
  elim preg [
    | none ↦ scan_regs fuel env bundle regs hint_reg is lowest
    | some preg ↦ (do
      (result, env') ← try_to_allocate_bundle_to_reg fuel env bundle (Index.new (PReg.index preg))
      flow ← after_try env' bundle lowest result
      elim flow [
        | return env ↦ some (return env)
        | next lowest ↦ scan_regs fuel env bundle regs hint_reg is lowest
      ])
  ]

-- A try for a fixed register.
unfoldable pub after_fixed_try : Env → ℕ → AllocRegResult → Option (Flow (List ℕ) Env)
unfolding set_hint
after_fixed_try env bundle (allocated alloc) = do env ← set_hint env bundle alloc; some (return env)
after_fixed_try env bundle (conflict bundles) = some (next bundles)
after_fixed_try env bundle conflict_with_fixed = some (next [])

-- The tries that a requirement asks for: the bundle has its place, or what it conflicts with.
unfoldable pub probe :
    ℕ → List (List PReg) → Env → ℕ → Option PReg → Requirement → Option (Flow (List ℕ) Env)
unfolding scan_regs after_fixed_try
probe fuel regs_by_class env bundle hint_reg (fixed preg) = do
  (result, env) ← try_to_allocate_bundle_to_reg fuel env bundle (Index.new (PReg.index preg))
  after_fixed_try env bundle result
probe fuel regs_by_class env bundle hint_reg (register class) = do
  regs ← get_elem? regs_by_class (class_bits class)
  let loop_count : ℕ = elim hint_reg [ some hint ↦ length regs + 1 | none ↦ length regs ]
  flow ← scan_regs fuel env bundle regs hint_reg (count_from 0 loop_count) none
  some (elim flow [
    | return env ↦ return env
    | next lowest ↦ next (elim lowest [ none ↦ [] | some bundles ↦ bundles ])
  ])
probe fuel regs_by_class env bundle hint_reg (any class) =
    some (return (record env { spilled_bundles = env.spilled_bundles ++ bundle ∷ [] }))

-- The loop of `process_bundle`: it returns, or it breaks with the first conflicting bundle.
unfoldable pub attempt :
    ℕ
    → ℕ
    → List (List PReg)
    → ℕ
    → Option PReg
    → Requirement
    → ℕ
    → Env
    → Option (Flow (Env × Option ℕ) Env)
unfolding probe
attempt zero fuel regs_by_class bundle hint_reg req attempts env = none
attempt (suc rounds) fuel regs_by_class bundle hint_reg req attempts env = do
  let attempts = attempts + 1
  flow ← probe fuel regs_by_class env bundle hint_reg req
  elim flow [
    | return env ↦ some (return env)
    | next bundles ↦ (do
      give_up ←
          if leb 2 attempts
          then (do minimal ← minimal_bundle env bundle; some (not minimal))
          else some false
      elim give_up [
        | true ↦ some (next (env, none))
        | false ↦ elim bundles [
          | [] ↦ some (next (env, none))
          | c ∷ cs ↦ (do
            theirs ← maximum_spill_weight_in_bundle_set env (c ∷ cs)
            ours ← bundle_spill_weight env bundle
            elim (leb ours theirs) [
              | true ↦ some (next (env, some c))
              | false ↦ (do
                env ← for_each (λ b env. evict_bundle fuel env b) (c ∷ cs) env
                attempt rounds fuel regs_by_class bundle hint_reg req attempts env)
            ])
        ]
      ])
  ]

-- Requirements that conflict leave no try.
unfoldable pub try_bundle :
    ℕ
    → List (List PReg)
    → ℕ
    → Option PReg
    → Env
    → Option Requirement
    → Option (Flow (Env × Option ℕ) Env)
unfolding attempt
try_bundle fuel regs_by_class bundle hint_reg env none = some (next (env, none))
try_bundle fuel regs_by_class bundle hint_reg env (some req) =
    attempt fuel fuel regs_by_class bundle hint_reg req 0 env

-- The split of a bundle that has no place.
unfoldable pub split_unplaced : ℕ → ℕ → ℕ → Flow (Env × Option ℕ) Env → Option Env
split_unplaced fuel insts bundle (return env) = some env
split_unplaced fuel insts bundle (next (env, none)) =
    split_and_requeue_bundle fuel insts env bundle Index.invalid
split_unplaced fuel insts bundle (next (env, some c)) =
    split_and_requeue_bundle fuel insts env bundle c

unfoldable pub process_bundle : ℕ → ℕ → List (List PReg) → ℕ → Env → Option Env
unfolding try_bundle split_unplaced
process_bundle fuel insts regs_by_class bundle env = do
  req ← compute_requirement fuel env bundle
  b ← at env.bundles bundle
  s ← at env.spillsets b.spillset
  flow ← try_bundle fuel regs_by_class bundle s.reg_hint env req
  split_unplaced fuel insts bundle flow

-- The loop over the queue; it panics where it goes on for too long.
unfoldable pub process_bundles : ℕ → ℕ → ℕ → List (List PReg) → ℕ → Env → Option Env
unfolding pop process_bundle
process_bundles zero fuel insts regs_by_class count env = none
process_bundles (suc rounds) fuel insts regs_by_class count env = elim (pop env.allocation_queue) [
  | none ↦ some env
  | some (bundle, rest) ↦ (do
    env ← process_bundle fuel insts regs_by_class bundle (record env { allocation_queue = rest })
    let count = count + 1
    assert (leb count (insts * 50))
    process_bundles rounds fuel insts regs_by_class count env)
]
