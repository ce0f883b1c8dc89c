-- ===== src/Ion/Merge.antt =====
-- Bundles joined before the allocation (src/ion/mod.rs, `merge_bundles`, `merge_vreg_bundles` and
-- what they call). Each function that follows a linked list takes the fuel of its loops.
pub mod Chains
pub mod Clear
pub mod Correct
pub mod Interleave
pub mod Loop
pub mod Outcome
pub mod Step
pub mod Vregs
use regalloc2_orig.Prelude.{
  Flow, next, return, ℕ, zero, suc, Bool, true, false, not, ◌&&◌, ◌||◌, ◌==◌, if◌then◌else◌, List,
  [], ◌∷◌, ◌++◌, Option, none, some, ◌>>=◌, ◌>>◌, assert, length, get_elem?, set, u32,
}
use regalloc2_orig.Index
use regalloc2_orig.Index.{Inst, Block}
use regalloc2_orig.ProgPoint
use regalloc2_orig.Reg.{class_eq}
use regalloc2_orig.Reg.VReg
use regalloc2_orig.Reg.VReg.{VReg}
use regalloc2_orig.Operand
use regalloc2_orig.Operand.{Operand, reuse}
use regalloc2_orig.Function.{Function}
use regalloc2_orig.Ion.Range.{CodeRange}
use regalloc2_orig.Ion.Env.{
  LiveRange, LiveBundle, SpillSet, VRegData, Env, at, set_range, set_bundle,
}
use regalloc2_orig.Ion.Bundle.{
  create_bundle, find_vreg_liverange_for_pos, compute_bundle_prio, recompute_bundle_properties,
}

-- The search for an overlap, with the rounds that are left of 200: whether there is none.
unfoldable pub check_apart : ℕ → List LiveRange → ℕ → ℕ → Option Bool
check_apart zero ranges iter0 iter1 = some (not (Index.is_valid iter0 && Index.is_valid iter1))
check_apart (suc left) ranges iter0 iter1 = elim (Index.is_valid iter0 && Index.is_valid iter1) [
  | false ↦ some true
  | true ↦ (do
    r0 ← get_elem? ranges iter0
    r1 ← get_elem? ranges iter1
    elim (ProgPoint.le r1.range.to r0.range.from) [
      | true ↦ check_apart left ranges iter0 r1.next_in_bundle
      | false ↦ elim (ProgPoint.le r0.range.to r1.range.from) [
        | true ↦ check_apart left ranges r0.next_in_bundle iter1
        | false ↦ some false
      ]
    ])
]

-- `next_range_iter`: whether the next range is the one of the first chain.
abbrev pub takes_first : List LiveRange → ℕ → ℕ → Option Bool
takes_first ranges iter0 iter1 =
    if Index.is_valid iter0
    then (if Index.is_valid iter1
        then (do
          r0 ← get_elem? ranges iter0
          r1 ← get_elem? ranges iter1
          some (ProgPoint.le r0.range.from r1.range.from))
        else some true)
    else some false

-- The links and the bundle of the next range.
unfoldable pub link_next : Env → ℕ → ℕ → ℕ → Option Env
link_next env to prev lr = do
  env ←
      if Index.is_valid prev
      then set_range env prev (λ r. record r { next_in_bundle = lr })
      else set_bundle env to (λ b. record b { first_range = lr })
  env ← set_bundle env to (λ b. record b { last_range = lr })
  set_range env lr (λ r. record r { bundle = to })

-- The loop over both chains.
unfoldable pub merge_chains : ℕ → Env → ℕ → ℕ → ℕ → ℕ → Option Env
unfolding link_next
merge_chains zero env to iter0 iter1 prev = none
merge_chains (suc fuel) env to iter0 iter1 prev =
    elim (Index.is_valid iter0 || Index.is_valid iter1) [
      | false ↦ some env
      | true ↦ (do
        first ← takes_first env.ranges iter0 iter1
        let lr = if first then iter0 else iter1
        r ← at env.ranges lr
        env ← link_next env to prev lr
        merge_chains fuel env to (if first then r.next_in_bundle else iter0)
            (if first then iter1 else r.next_in_bundle) lr)
    ]

-- The loop that sets the bundle of all ranges of a chain.
unfoldable pub set_bundles : ℕ → Env → ℕ → ℕ → Option Env
set_bundles zero env bundle iter = none
set_bundles (suc fuel) env bundle iter = elim (Index.is_valid iter) [
  | false ↦ some env
  | true ↦ (do
    env ← set_range env iter (λ r. record r { bundle = bundle })
    r ← at env.ranges iter
    set_bundles fuel env bundle r.next_in_bundle)
]

abbrev pub clear_bundle : Env → ℕ → Option Env
clear_bundle env bundle =
    set_bundle env bundle
      (λ b. record b { first_range = Index.invalid; last_range = Index.invalid })

-- The part after the test for an overlap.
unfoldable pub join_bundles : ℕ → Env → ℕ → ℕ → Option Env
unfolding merge_chains set_bundles
join_bundles fuel env from to = do
  f ← at env.bundles from
  t ← at env.bundles to
  if not (Index.is_valid f.first_range)
      then some env
      else if not (Index.is_valid t.first_range)
      then (do
        env ←
            set_bundle env to
              (λ b. record b { first_range = f.first_range; last_range = f.last_range })
        env ← clear_bundle env from
        set_bundles fuel env from f.first_range)
      else (do
        env ← merge_chains fuel env to f.first_range t.first_range Index.invalid
        clear_bundle env from)

-- The class of a bundle, which is that of its first range's vreg.
unfoldable pub first_class_eq : Env → LiveBundle → LiveBundle → Option Bool
first_class_eq env f t = do
  r0 ← at env.ranges f.first_range
  r1 ← at env.ranges t.first_range
  v0 ← at env.vregs r0.vreg
  v1 ← at env.vregs r1.vreg
  c0 ← VReg.class v0.reg
  c1 ← VReg.class v1.reg
  some (class_eq c0 c1)

unfoldable pub merge_bundles : ℕ → Env → ℕ → ℕ → Option (Env × Bool)
merge_bundles fuel env from to = if from == to then some (env, true) else (do
  f ← at env.bundles from
  t ← at env.bundles to
  same ← first_class_eq env f t
  if not same then some (env, false) else (do
    apart ← check_apart 200 env.ranges f.first_range t.first_range
    if not apart
        then some (env, false)
        else (do env ← join_bundles fuel env from to; some (env, true))))

-- The bundle of a vreg's first range.
abbrev pub bundle_of : Env → ℕ → Option ℕ
bundle_of env vreg = do v ← at env.vregs vreg; r ← at env.ranges v.first_range; some r.bundle

unfoldable pub try_merge_reused_register : ℕ → Env → ℕ → ℕ → Option Env
unfolding merge_bundles
try_merge_reused_register fuel env from to = do
  v ← at env.vregs to
  d ← at env.defs v.def
  elim d.pos.pos [
    | ProgPoint.before ↦ some env
    | ProgPoint.after ↦ (do
      use_lr_at_def ← find_vreg_liverange_for_pos fuel env from d.pos
      elim use_lr_at_def [
        | some lr ↦ some env
        | none ↦ (do
          from_bundle ← bundle_of env from
          to_bundle ← bundle_of env to
          (env, merged) ← merge_bundles fuel env from_bundle to_bundle
          some env)
      ])
  ]

-- The search for the place of a range, as it is written: it stops at a range that ends before.
unfoldable pub find_place : ℕ → List LiveRange → CodeRange → ℕ → ℕ → Option ℕ
find_place zero ranges range iter after = none
find_place (suc fuel) ranges range iter after = elim (Index.is_valid iter) [
  | false ↦ some after
  | true ↦ (do
    r ← get_elem? ranges iter
    elim (ProgPoint.le r.range.to range.from) [
      | true ↦ some after
      | false ↦ find_place fuel ranges range r.next_in_bundle iter
    ])
]

unfoldable pub insert_liverange_into_bundle : ℕ → Env → ℕ → ℕ → Option Env
unfolding find_place
insert_liverange_into_bundle fuel env bundle lr = do
  env ← set_range env lr (λ r. record r { next_in_bundle = Index.invalid; bundle = bundle })
  b ← at env.bundles bundle
  if not (Index.is_valid b.first_range)
      then set_bundle env bundle (λ b. record b { first_range = lr; last_range = lr })
      else (do
        first ← at env.ranges b.first_range
        r ← at env.ranges lr
        if ProgPoint.le first.range.to r.range.from
            then (do
              env ← set_range env b.last_range (λ r. record r { next_in_bundle = lr })
              set_bundle env bundle (λ b. record b { last_range = lr }))
            else (do
              insert_after ← find_place fuel env.ranges r.range b.first_range Index.invalid
              if Index.is_valid insert_after
                  then (do
                    env ← set_range env insert_after (λ r. record r { next_in_bundle = lr })
                    if b.last_range == insert_after
                        then set_bundle env bundle (λ b. record b { last_range = lr })
                        else some env)
                  else (do
                    env ← set_range env lr (λ r. record r { next_in_bundle = b.first_range })
                    set_bundle env bundle (λ b. record b { first_range = lr }))))
