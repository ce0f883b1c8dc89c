-- ===== src/Ion/Split.antt =====
-- Where a bundle is split (src/ion/mod.rs, `find_split_points` and `find_all_use_split_points`). Each
-- function that follows a linked list takes the fuel of its loops. What is left of the sorted list of
-- clobbering instructions stands for the index into it.
pub mod Requeue
use regalloc2_orig.Prelude.{
  Flow, next, return, ℕ, ◌-◌, ◌+◌, ◌^◌, ◌%◌, Bool, true, false, ◌&&◌, if◌then◌else◌, List, [], ◌∷◌,
  ◌++◌, Option, none, some, ◌>>=◌, get_elem?,
}
use regalloc2_orig.Index
use regalloc2_orig.Index.{Inst}
use regalloc2_orig.ProgPoint
use regalloc2_orig.ProgPoint.{ProgPoint, before_inst, after_inst}
use regalloc2_orig.Moves.Sort.{sort_by}
use regalloc2_orig.Ion.Range.{CodeRange}
use regalloc2_orig.Ion.Key
use regalloc2_orig.Ion.Btree
use regalloc2_orig.Ion.Env.{LiveRange, Use, Env, at, walk}
use regalloc2_orig.Ion.Bundle.{bundle_link, finish}

-- The start of the first range of a bundle and the end of its last one, or else the given points.
unfoldable pub bundle_limits : Env → ℕ → ProgPoint → ProgPoint → Option (ProgPoint × ProgPoint)
bundle_limits env bundle start stop = do
  b ← at env.bundles bundle
  from ←
      if Index.is_valid b.first_range
      then (do r ← at env.ranges b.first_range; some r.range.from)
      else some start
  to ←
      if Index.is_valid b.last_range
      then (do r ← at env.ranges b.last_range; some r.range.to)
      else some stop
  some (from, to)

-- The limits of the conflicting bundle, if there is one.
unfoldable pub conflict_limits : Env → ℕ → Option (Option ProgPoint × Option ProgPoint)
conflict_limits env conflicting =
    if Index.is_valid conflicting
    then (do
      c ← at env.bundles conflicting
      first ← at env.ranges c.first_range
      last ← at env.ranges c.last_range
      some (some first.range.from, some last.range.to))
    else some (none, none)

-- `splits.push(point)`, if the test holds.
abbrev pub push_if : Bool → List ProgPoint → ProgPoint → List ProgPoint
push_if test splits point = if test then splits ++ point ∷ [] else splits

-- The changes between cold and hot code in a range.
unfoldable pub hot_splits : Env → CodeRange → List ProgPoint → Option (List ProgPoint)
hot_splits env our_range splits = do
  key ← Key.from_range our_range
  elim (Btree.get key env.hot_code) [
    | none ↦ some splits
    | some hot_range_idx ↦ (do
      hot ← at env.ranges hot_range_idx
      let splits = push_if (ProgPoint.lt our_range.from hot.range.from) splits hot.range.from
      some (push_if (ProgPoint.lt hot.range.to our_range.to) splits hot.range.to))
  ]

-- The loop over the clobbering instructions up to the end of a range.
unfoldable pub scan_clobbers :
    CodeRange → ProgPoint → List Inst → List ProgPoint → List Inst × List ProgPoint
scan_clobbers our_range bundle_start [] splits = ([], splits)
scan_clobbers our_range bundle_start (cur_clobber ∷ clobbers) splits =
    let pos = before_inst cur_clobber in
    elim (ProgPoint.le our_range.to pos) [
      | true ↦ (cur_clobber ∷ clobbers, splits)
      | false ↦ scan_clobbers our_range bundle_start clobbers (
          if ProgPoint.lt pos our_range.from
          then splits
          else push_if (ProgPoint.lt bundle_start pos) splits pos)
    ]

abbrev pub none_or : Option ProgPoint → (ProgPoint → Bool) → Bool
none_or none test = true
none_or (some p) test = test p

-- What does not change in the loop: the limits of the bundle and of the conflicting one.
pub record Limits : Type 0 where
  pub bundle_start : ProgPoint
  pub bundle_end : ProgPoint
  pub conflict_from : Option ProgPoint
  pub conflict_to : Option ProgPoint

pub record SplitScan : Type 0 where
  pub cold_hot_splits : List ProgPoint
  pub clobber_splits : List ProgPoint
  pub last_before_conflict : Option ProgPoint
  pub first_after_conflict : Option ProgPoint
  pub clobbers_left : List Inst

unfoldable pub update_with_pos : Limits → ProgPoint → SplitScan → Option SplitScan
update_with_pos l pos s = do
  let before = before_inst pos.inst
  middle ← ProgPoint.next before
  before_next_inst ← ProgPoint.next middle
  next_inst ← Index.next pos.inst
  let last =
      if ProgPoint.lt l.bundle_start before
        && none_or l.conflict_from (λ c. ProgPoint.lt before c)
        && none_or s.last_before_conflict (λ p. ProgPoint.lt p before)
      then some before
      else s.last_before_conflict
  let first =
      if ProgPoint.lt before_next_inst l.bundle_end
        && none_or l.conflict_to (λ c. ProgPoint.le c pos)
        && none_or s.first_after_conflict (λ p. ProgPoint.lt p pos)
      then some (before_inst next_inst)
      else s.first_after_conflict
  some (record s { last_before_conflict = last; first_after_conflict = first })

-- The body of the loop over the ranges.
unfoldable pub scan_range : ℕ → Env → Limits → ℕ → LiveRange → SplitScan → Option (Flow SplitScan ⊥)
unfolding hot_splits scan_clobbers update_with_pos walk
scan_range fuel env l our_iter r s = do
  cold_hot ← hot_splits env r.range s.cold_hot_splits
  let (left, clobber) = scan_clobbers r.range l.bundle_start s.clobbers_left s.clobber_splits
  let s = record s { cold_hot_splits = cold_hot; clobber_splits = clobber; clobbers_left = left }
  s ←
      if Index.is_valid r.def
      then (do d ← get_elem? env.defs r.def; update_with_pos l d.pos s)
      else some s
  walk env.uses (λ u. u.next_use) (λ i u s. do s ← update_with_pos l u.pos s; some (next s)) fuel
      r.first_use s

-- The body of the loop over the uses in `find_all_use_split_points`.
unfoldable pub split_use : ProgPoint → ℕ → Use → List ProgPoint → Option (Flow (List ProgPoint) ⊥)
split_use bundle_start i u splits = do
  let before_use_inst = before_inst u.pos.inst
  middle ← ProgPoint.next before_use_inst
  after_use_inst ← ProgPoint.next middle
  let splits = push_if (ProgPoint.lt bundle_start before_use_inst) splits before_use_inst
  some (next (splits ++ after_use_inst ∷ []))

unfoldable pub split_range :
    ℕ
    → Env
    → ProgPoint
    → ProgPoint
    → ℕ
    → LiveRange
    → List ProgPoint
    → Option (Flow (List ProgPoint) ⊥)
unfolding split_use walk
split_range fuel env bundle_start bundle_end i r splits = do
  splits ←
      if Index.is_valid r.def
      then (do
        d ← get_elem? env.defs r.def
        next_inst ← Index.next d.pos.inst
        let def_end = before_inst next_inst
        let splits = push_if (ProgPoint.lt bundle_start d.pos) splits d.pos
        some (push_if (ProgPoint.lt def_end bundle_end) splits def_end))
      else some splits
  walk env.uses (λ u. u.next_use) (split_use bundle_start) fuel r.first_use splits

unfoldable pub find_all_use_split_points : ℕ → ℕ → Env → ℕ → Option (List ProgPoint)
unfolding split_range sort_by walk
find_all_use_split_points fuel insts env bundle = do
  b ← at env.bundles bundle
  (bundle_start, bundle_end) ←
      if Index.is_valid b.first_range
      then (do
        first ← at env.ranges b.first_range
        last ← at env.ranges b.last_range
        some (first.range.from, last.range.to))
      else some (before_inst (Index.new 0), after_inst (Index.new ((insts + 2 ^ 64 - 1) % 2 ^ 64)))
  done ←
      walk env.ranges bundle_link (split_range fuel env bundle_start bundle_end) fuel b.first_range
        []
  some (sort_by ProgPoint.le (finish done))

unfoldable pub find_split_points : ℕ → ℕ → Env → ℕ → ℕ → Option (List ProgPoint)
unfolding bundle_limits conflict_limits scan_range find_all_use_split_points walk
find_split_points fuel insts env bundle conflicting = do
  b ← at env.bundles bundle
  (conflict_from, conflict_to) ← conflict_limits env conflicting
  (bundle_start, bundle_end) ←
      bundle_limits env bundle (before_inst (Index.new 0)) (before_inst (Index.new insts))
  let l : Limits = record {
    bundle_start = bundle_start;
    bundle_end = bundle_end;
    conflict_from = conflict_from;
    conflict_to = conflict_to;
  }
  let s : SplitScan = record {
    cold_hot_splits = [];
    clobber_splits = [];
    last_before_conflict = none;
    first_after_conflict = none;
    clobbers_left = env.clobbers;
  }
  done ← walk env.ranges bundle_link (scan_range fuel env l) fuel b.first_range s
  let s = finish done
  elim s.cold_hot_splits [
    | p ∷ ps ↦ some (p ∷ ps)
    | [] ↦ elim s.clobber_splits [
      | p ∷ ps ↦ some (p ∷ ps)
      | [] ↦ elim s.first_after_conflict [
        | some p ↦ some (p ∷ [])
        | none ↦ elim s.last_before_conflict [
          | some p ↦ some (p ∷ [])
          | none ↦ find_all_use_split_points fuel insts env bundle
        ]
      ]
    ]
  ]
