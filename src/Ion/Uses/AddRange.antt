-- ===== src/Ion/Uses/AddRange.antt =====
-- A range that becomes live for a virtual register (src/ion/mod.rs, `add_liverange_to_vreg`).
use regalloc2_orig.Prelude.{
  ℕ, zero, suc, true, false, ◌&&◌, ltb, if◌then◌else◌, Option, none, some, ◌>>=◌, ◌+◌,
}
use regalloc2_orig.Index
use regalloc2_orig.ProgPoint
use regalloc2_orig.Ion.Range.{CodeRange}
use regalloc2_orig.Ion.Env.{Env, at, set_range, set_vreg}
use regalloc2_orig.Ion.Bundle.{create_liverange}
use regalloc2_orig.Ion.Uses.{distribute_liverange_uses}

abbrev pub coalesce_limit : ℕ
coalesce_limit = 100000

-- What the search has found: the last range that comes before, and the range that is extended.
pub record Found : Type 0 where
  pub insert_after : ℕ
  pub merged : ℕ
  pub prev : ℕ

-- `existing.range` extended so that it covers the new range.
unfoldable pub extend : CodeRange → CodeRange → CodeRange
extend range existing = record {
  from = if ProgPoint.lt range.from existing.from then range.from else existing.from;
  to = if ProgPoint.lt existing.to range.to then range.to else existing.to;
}

-- The merge of the range `iter` into `merged`, up to its removal from the list of the vreg.
unfoldable pub merge_into : ℕ → Env → ℕ → ℕ → ℕ → Option Env
merge_into fuel env vreg iter merged = do
  existing ← at env.ranges iter
  m ← at env.ranges merged
  env ←
      if ProgPoint.lt m.range.to existing.range.to
      then set_range env merged
          (λ r. record r { range = record { from = r.range.from; to = existing.range.to } })
      else some env
  env ←
      if Index.is_valid existing.def
      then set_range env merged (λ r. record r { def = existing.def })
      else some env
  distribute_liverange_uses fuel env vreg iter merged

unfoldable pub unlink : Env → ℕ → ℕ → ℕ → Option Env
unlink env vreg prev after_iter =
    if Index.is_valid prev
    then set_range env prev (λ r. record r { next_in_reg = after_iter })
    else set_vreg env vreg (λ v. record v { first_range = after_iter })

-- The search loop.
unfoldable pub find_ranges : ℕ → Env → ℕ → CodeRange → ℕ → Found → ℕ → Option (Env × Found)
unfolding extend merge_into unlink
find_ranges zero env vreg range num_ranges found iter = none
find_ranges (suc fuel) env vreg range num_ranges found iter = elim (Index.is_valid iter) [
  | false ↦ some (env, found)
  | true ↦ (do
    existing ← at env.ranges iter
    elim (ProgPoint.le existing.range.to range.from && ltb num_ranges coalesce_limit) [
      | true ↦
          find_ranges fuel env vreg range num_ranges
            (record found { insert_after = iter; prev = iter }) existing.next_in_reg
      | false ↦ elim (ProgPoint.le range.to existing.range.from) [
        | true ↦ some (env, found)
        | false ↦ elim (Index.is_invalid found.merged) [
          | true ↦ (do
            env ← set_range env iter (λ r. record r { range = extend range r.range })
            find_ranges fuel env vreg range num_ranges (record found { merged = iter; prev = iter })
                existing.next_in_reg)
          | false ↦ (do
            env ← merge_into (suc fuel) env vreg iter found.merged
            removed ← at env.ranges iter
            env ← unlink env vreg found.prev removed.next_in_reg
            find_ranges fuel env vreg range num_ranges found removed.next_in_reg)
        ]
      ]
    ])
]

-- The part that creates a range.
unfoldable pub add_new_range : Env → ℕ → CodeRange → ℕ → Option (Env × ℕ)
add_new_range env vreg range insert_after = do
  let (env, lr) = create_liverange env range
  env ← set_range env lr (λ r. record r { vreg = vreg })
  env ←
      if Index.is_valid insert_after
      then (do
        r ← at env.ranges insert_after
        env ← set_range env lr (λ l. record l { next_in_reg = r.next_in_reg })
        set_range env insert_after (λ r. record r { next_in_reg = lr }))
      else (do
        v ← at env.vregs vreg
        env ← set_range env lr (λ l. record l { next_in_reg = v.first_range })
        set_vreg env vreg (λ v. record v { first_range = lr }))
  some (env, lr)

-- The environment, the count of ranges, and the range that contains the given one.
unfoldable pub add_liverange_to_vreg : ℕ → Env → ℕ → CodeRange → ℕ → Option (Env × ℕ × ℕ)
unfolding find_ranges add_new_range
add_liverange_to_vreg fuel env vreg range num_ranges = do
  v ← at env.vregs vreg
  let start : Found = record {
    insert_after = Index.invalid;
    merged = Index.invalid;
    prev = Index.invalid;
  }
  (env, found) ← find_ranges fuel env vreg range num_ranges start v.first_range
  if Index.is_invalid found.merged
      then (do
        (env, lr) ← add_new_range env vreg range found.insert_after
        some (env, num_ranges + 1, lr))
      else some (env, num_ranges, found.merged)
