-- ===== src/Ion/Split/Requeue.antt =====
-- The split of a bundle at points, and the queue (src/ion/mod.rs, `split_and_requeue_bundle`). Each
-- function that follows a linked list takes the fuel of its loops; what is left of the split points
-- stands for the index into them.
use regalloc2_orig.Prelude.{
  ℕ, zero, suc, ◌+◌, ◌-◌, ◌^◌, true, false, if◌then◌else◌, List, [], ◌∷◌, ◌++◌, Option, none, some,
  ◌>>=◌, for_each, u32,
}
use regalloc2_orig.Index
use regalloc2_orig.ProgPoint
use regalloc2_orig.ProgPoint.{ProgPoint, before_inst}
use regalloc2_orig.Operand
use regalloc2_orig.Operand.{OperandPolicy, fixed_reg}
use regalloc2_orig.Ion.Range.{CodeRange}
use regalloc2_orig.Ion.Props.{num_fixed_uses, set_num_fixed_uses}
use regalloc2_orig.Ion.Requirement.{spill_weight_from_policy}
use regalloc2_orig.Ion.Env.{Use, Env, at, set_range, set_bundle, set_use}
use regalloc2_orig.Ion.Bundle.{
  create_liverange, create_bundle, compute_bundle_prio, recompute_bundle_properties,
}
use regalloc2_orig.Ion.Split.{find_split_points}

-- `while ... split_points[split_idx] <= point { split_idx += 1; }`
unfoldable pub skip_points : ProgPoint → List ProgPoint → List ProgPoint
skip_points point [] = []
skip_points point (p ∷ ps) =
    let rest = skip_points point ps in if ProgPoint.le p point then rest else p ∷ ps

-- What the loops carry along: the split points that are left, the new bundles, the current bundle.
pub record SplitState : Type 0 where
  pub env : Env
  pub points : List ProgPoint
  pub new_bundles : List ℕ
  pub cur_bundle : ℕ

-- A bundle with the spill set of the one that is split.
unfoldable pub create_split_bundle : Env → ℕ → Option (Env × ℕ)
create_split_bundle env bundle = do
  let (env, new_bundle) = create_bundle env
  b ← at env.bundles bundle
  env ← set_bundle env new_bundle (λ c. record c { spillset = b.spillset })
  some (env, new_bundle)

-- The part before a range: a new bundle, if a split comes first.
unfoldable pub start_range : ℕ → ProgPoint → SplitState → Option SplitState
unfolding create_split_bundle
start_range bundle from s = elim s.points [
  | [] ↦ some s
  | p ∷ ps ↦ elim (ProgPoint.le p from) [
    | false ↦ some s
    | true ↦ (do
      (env, cur_bundle) ← create_split_bundle s.env bundle
      some (record {
        env = env;
        points = ps;
        new_bundles = s.new_bundles ++ cur_bundle ∷ [];
        cur_bundle = cur_bundle;
      }))
  ]
]

-- The range as the last one of the current bundle.
unfoldable pub link_range : Env → ℕ → ℕ → Option Env
link_range env cur_bundle iter = do
  env ← set_range env iter (λ r. record r { bundle = cur_bundle })
  c ← at env.bundles cur_bundle
  env ←
      if Index.is_valid c.first_range
      then set_range env c.last_range (λ r. record r { next_in_bundle = iter })
      else set_bundle env cur_bundle (λ c. record c { first_range = iter })
  set_bundle env cur_bundle (λ c. record c { last_range = iter })

-- The uses before the split point.
pub record FirstUses : Type 0 where
  pub last_use_in_first_range : ℕ
  pub fixed_uses : ℕ
  pub spill_weight : ℕ
  pub use_iter : ℕ

abbrev pub one_if_fixed : OperandPolicy → ℕ
one_if_fixed (fixed_reg p) = 1
one_if_fixed policy = 0

unfoldable pub scan_uses : ℕ → List Use → ProgPoint → FirstUses → Option FirstUses
scan_uses zero uses split_point u = none
scan_uses (suc fuel) uses split_point u = elim (Index.is_valid u.use_iter) [
  | false ↦ some u
  | true ↦ (do
    d ← at uses u.use_iter
    elim (ProgPoint.le split_point d.pos) [
      | true ↦ some u
      | false ↦ (do
        policy ← Operand.policy d.operand
        scan_uses fuel uses split_point (record {
          last_use_in_first_range = u.use_iter;
          fixed_uses = u32 (u.fixed_uses + one_if_fixed policy);
          spill_weight = u32 (u.spill_weight + spill_weight_from_policy policy);
          use_iter = d.next_use;
        }))
    ])
]

-- The rest of the uses goes to the rest of the range.
unfoldable pub move_uses : Env → ℕ → ℕ → FirstUses → Option Env
move_uses env iter rest_lr u =
    if Index.is_valid u.use_iter
    then (do
      r ← at env.ranges iter
      env ← set_range env rest_lr (λ l. record l { first_use = u.use_iter; last_use = r.last_use })
      env ← set_range env iter (λ l. record l { last_use = u.last_use_in_first_range })
      env ←
          if Index.is_valid u.last_use_in_first_range
          then set_use env u.last_use_in_first_range (λ d. record d { next_use = Index.invalid })
          else set_range env iter (λ l. record l { first_use = Index.invalid })
      let rest_fixed = u32 (num_fixed_uses r.num_fixed_uses_and_flags + 2 ^ 32 - u.fixed_uses)
      env ← set_range env rest_lr (λ l. record l {
        num_fixed_uses_and_flags = set_num_fixed_uses l.num_fixed_uses_and_flags rest_fixed;
        uses_spill_weight = u32 (r.uses_spill_weight + 2 ^ 32 - u.spill_weight);
      })
      set_range env iter (λ l. record l {
        num_fixed_uses_and_flags = set_num_fixed_uses l.num_fixed_uses_and_flags u.fixed_uses;
        uses_spill_weight = u.spill_weight;
      }))
    else some env

unfoldable pub move_def : Env → ℕ → ℕ → ProgPoint → Option Env
move_def env iter rest_lr split_point = do
  r ← at env.ranges iter
  if Index.is_valid r.def
      then (do
        d ← at env.defs r.def
        if ProgPoint.le split_point d.pos
            then (do
              env ← set_range env iter (λ l. record l { def = Index.invalid })
              set_range env rest_lr (λ l. record l { def = r.def }))
            else some env)
      else some env

-- One split of the range `iter`: the rest of it, in a bundle of its own.
unfoldable pub split_at : ℕ → ℕ → ℕ → ProgPoint → SplitState → Option (SplitState × ℕ × CodeRange)
unfolding scan_uses move_uses move_def create_split_bundle
split_at fuel bundle iter split_point s = do
  r ← at s.env.ranges iter
  let rest_range : CodeRange = record { from = split_point; to = r.range.to }
  env ←
      set_range s.env iter
        (λ l. record l { range = record { from = l.range.from; to = split_point } })
  let (env, rest_lr) = create_liverange env rest_range
  env ← set_range env rest_lr (λ l. record l { vreg = r.vreg; next_in_reg = r.next_in_reg })
  env ← set_range env iter (λ l. record l { next_in_reg = rest_lr })
  u ← scan_uses fuel env.uses split_point (record {
    last_use_in_first_range = Index.invalid;
    fixed_uses = 0;
    spill_weight = 0;
    use_iter = r.first_use;
  })
  env ← move_uses env iter rest_lr u
  env ← move_def env iter rest_lr split_point
  (env, rest_bundle) ← create_split_bundle env bundle
  env ← set_bundle env rest_bundle (λ c. record c { first_range = rest_lr; last_range = rest_lr })
  env ← set_range env rest_lr (λ l. record l { bundle = rest_bundle })
  some (
    record {
      env = env;
      points = s.points;
      new_bundles = s.new_bundles ++ rest_bundle ∷ [];
      cur_bundle = rest_bundle;
    },
    rest_lr,
    rest_range,
  )

-- The loop over the split points in a range.
unfoldable pub split_points_in :
    ℕ → ℕ → ℕ → CodeRange → List ProgPoint → SplitState → Option SplitState
unfolding split_at
split_points_in fuel bundle iter range [] s = some (record s { points = [] })
split_points_in fuel bundle iter range (p ∷ ps) s = elim (ProgPoint.lt p range.to) [
  | false ↦ some (record s { points = p ∷ ps })
  | true ↦ elim (ProgPoint.le p range.from) [
    | true ↦ split_points_in fuel bundle iter range ps s
    | false ↦ (do
      (s, rest_lr, rest_range) ← split_at fuel bundle iter p s
      split_points_in fuel bundle rest_lr rest_range ps s)
  ]
]

-- The loop over the ranges.
unfoldable pub split_ranges : ℕ → ℕ → ℕ → SplitState → Option SplitState
unfolding start_range skip_points link_range split_points_in
split_ranges zero bundle iter s = none
split_ranges (suc fuel) bundle iter s = elim (Index.is_valid iter) [
  | false ↦ some s
  | true ↦ (do
    r ← at s.env.ranges iter
    env ← set_range s.env iter (λ l. record l { next_in_bundle = Index.invalid })
    s ← start_range bundle r.range.from (record s { env = env })
    let points = skip_points r.range.from s.points
    env ← link_range s.env s.cur_bundle iter
    s ← split_points_in (suc fuel) bundle iter r.range points (record s { env = env })
    split_ranges fuel bundle r.next_in_bundle s)
]

-- A bundle goes into the queue.
unfoldable pub requeue : ℕ → ℕ → Env → Option Env
requeue fuel bundle env = do
  prio ← compute_bundle_prio fuel env bundle
  env ← set_bundle env bundle (λ b. record b { prio = prio })
  env ← recompute_bundle_properties fuel env bundle
  some (record env { allocation_queue = env.allocation_queue ++ (prio, bundle) ∷ [] })

unfoldable pub split_and_requeue_bundle : ℕ → ℕ → Env → ℕ → ℕ → Option Env
unfolding skip_points split_ranges requeue
split_and_requeue_bundle fuel insts env bundle first_conflicting_bundle = do
  split_points ← find_split_points fuel insts env bundle first_conflicting_bundle
  b ← at env.bundles bundle
  bundle_start ←
      if Index.is_valid b.first_range
      then (do r ← at env.ranges b.first_range; some r.range.from)
      else some (before_inst (Index.new 0))
  env ←
      set_bundle env bundle
        (λ b. record b { first_range = Index.invalid; last_range = Index.invalid })
  s ← split_ranges fuel bundle b.first_range (record {
    env = env;
    points = skip_points bundle_start split_points;
    new_bundles = [];
    cur_bundle = bundle;
  })
  for_each (requeue fuel) (bundle ∷ s.new_bundles) s.env
