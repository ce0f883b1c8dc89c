-- ===== src/Ion/Allocate/Correct.antt =====
-- What it means to give a bundle to a register and to take it back (src/ion/mod.rs,
-- `try_to_allocate_bundle_to_reg` and `evict_bundle`).
use regalloc2_orig.Prelude.{
  next, ℕ, ◌≡◌, ◌⊎◌, inl, inr, refl, ap, ◌∙◌, List, [], ◌∷◌, ◌++◌, Option, some, set, arith,
}
use regalloc2_orig.Index
use regalloc2_orig.Reg.PReg
use regalloc2_orig.Reg.PReg.{PReg}
use regalloc2_orig.Alloc
use regalloc2_orig.Alloc.{Allocation, none_alloc}
use regalloc2_orig.Alloc.RoundTrip.{reg_round_trip}
use regalloc2_orig.Ion.Btree
use regalloc2_orig.Ion.Btree.{LiveRangeSet, IsDisjoint, AllApart, change_all}
use regalloc2_orig.Ion.Btree.Disjoint.{
  AllApart-sym, IsDisjoint-append, insert_all-eq-append, remove_all-append,
}
use regalloc2_orig.Ion.Env.{LiveBundle, PRegData, Env, walk, walk-eq-over, at, at-some}
use regalloc2_orig.Ion.Bundle.{bundle_link}
use regalloc2_orig.Ion.Allocate.{
  allocated, conflict, conflict_with_fixed, AllocRegResult, find_conflict, insert_range,
  remove_range, assign_bundle, try_to_allocate_bundle_to_reg, evict_bundle,
}
use regalloc2_orig.Ion.Allocate.Ranges.{HasRanges, change_range-over}
use regalloc2_orig.Ion.Allocate.Scan.{AllKnown, AllBlock, BlocksFixed, scan_lem, scan-apart}

-- The environment where the bundle with the data `b` has this allocation, and the register with the
-- data `p` these entries.
abbrev pub assigned : Env → ℕ → LiveBundle → Allocation → ℕ → PRegData → LiveRangeSet → Env
assigned env bundle b alloc reg p m = record env {
  bundles = set env.bundles bundle (record b { allocation = alloc });
  pregs = set env.pregs reg (record p { allocations = m });
}

-- A bundle and a register: the ranges of the bundle do not overlap each other, those registered for
-- the register neither, and these are ranges of the environment.
pub record CanTry (fuel : ℕ) (env : Env) (bundle reg : ℕ) (p : PRegData) (es : LiveRangeSet)
    : Type 0 where
  pub has_ranges : HasRanges fuel env bundle es
  pub preg_eq : at env.pregs reg ≡ some p
  pub bundle_disjoint : IsDisjoint es
  pub preg_disjoint : IsDisjoint p.allocations
  pub known : AllKnown env.ranges p.allocations

module _ (fuel : ℕ) (env : Env) (bundle reg : ℕ) (p : PRegData) (es : LiveRangeSet)
    (c : CanTry fuel env bundle reg p es) where
  abbrev b : LiveBundle
  b = c.has_ranges.bundle_data

  insert_all :
      AllApart es p.allocations
      → walk env.ranges bundle_link (insert_range reg) fuel b.first_range env.pregs
        ≡ some (next (set env.pregs reg (record p { allocations = p.allocations ++ es })))
  unfolding insert_range
  insert_all a =
      let h = c.has_ranges in
      let (v, g) = at-some env.pregs reg p c.preg_eq in
      walk-eq-over env.ranges bundle_link (insert_range reg) fuel b.first_range h.ranges env.pregs
        h.chain h.enough
      ∙ change_range-over Btree.insert env.ranges reg h.ranges es env.pregs p h.entries v g
      ∙ ap (λ m. some (next (set env.pregs reg (record p { allocations = m }))))
          (insert_all-eq-append es p.allocations c.bundle_disjoint a)

  assign_bundle_lem :
      AllApart es p.allocations
      → assign_bundle fuel env bundle reg
        ≡ some (
          allocated (Alloc.reg p.reg),
          assigned env bundle b (Alloc.reg p.reg) reg p (p.allocations ++ es),
        )
  unfolding assign_bundle
  assign_bundle_lem a = rw (c.preg_eq, c.has_ranges.bundle_eq, insert_all a) refl

pub allocates :
    (fuel : ℕ) (env : Env) (bundle reg : ℕ) (p : PRegData) (es : LiveRangeSet)
    (c : CanTry fuel env bundle reg p es)
    → AllApart es p.allocations
    → try_to_allocate_bundle_to_reg fuel env bundle reg
      ≡ some (
        allocated (Alloc.reg p.reg),
        assigned env bundle c.has_ranges.bundle_data (Alloc.reg p.reg) reg p (p.allocations ++ es),
      )
unfolding try_to_allocate_bundle_to_reg
allocates fuel env bundle reg p es c a =
    let h = c.has_ranges in
    let loop =
      walk-eq-over env.ranges bundle_link (find_conflict env.ranges p.allocations) fuel
        h.bundle_data.first_range h.ranges [] h.chain h.enough
      ∙ scan-apart env.ranges es p.allocations h.ranges es [] h.entries a in
    rw (h.bundle_eq, c.preg_eq, loop) (assign_bundle_lem fuel env bundle reg p es c a)

-- What an attempt says, on the entries `m` of the register.
abbrev pub Outcome :
    Env → ℕ → LiveBundle → ℕ → PRegData → LiveRangeSet → Option (AllocRegResult × Env) → Type 0
Outcome env bundle b reg p es result =
    (AllApart es p.allocations
      × (result
          ≡ some (
            allocated (Alloc.reg p.reg),
            assigned env bundle b (Alloc.reg p.reg) reg p (p.allocations ++ es),
          ))
      × IsDisjoint (p.allocations ++ es))
    ⊎ ((c : ℕ) × (cs : List ℕ) × (result ≡ some (conflict (c ∷ cs), env))
        × AllBlock env.ranges es p.allocations (c ∷ cs))
    ⊎ ((result ≡ some (conflict_with_fixed, env)) × BlocksFixed env.ranges es p.allocations)

-- The attempt to give a bundle to a register returns. Either no range of the bundle overlaps one of
-- the register: then the bundle gets the register, the register the ranges of the bundle, and
-- the register's ranges still do not overlap each other. Or the environment is as before, and the
-- result lists bundles that each have a range in the way, or says that a range of no vreg is.
pub try_to_allocate_bundle_to_reg_lem :
    (fuel : ℕ) (env : Env) (bundle reg : ℕ) (p : PRegData) (es : LiveRangeSet)
    (c : CanTry fuel env bundle reg p es)
    → Outcome env bundle c.has_ranges.bundle_data reg p es
        (try_to_allocate_bundle_to_reg fuel env bundle reg)
unfolding try_to_allocate_bundle_to_reg
try_to_allocate_bundle_to_reg_lem fuel env bundle reg p es c =
    let h = c.has_ranges in
    let loop =
      walk-eq-over env.ranges bundle_link (find_conflict env.ranges p.allocations) fuel
        h.bundle_data.first_range h.ranges [] h.chain h.enough in
    elim (scan_lem env.ranges es p.allocations h.ranges es [] h.entries (λ k i e. e) c.known tt) [
      | inl (a, e) ↦ inl (
        a,
        allocates fuel env bundle reg p es c a,
        IsDisjoint-append p.allocations es c.preg_disjoint c.bundle_disjoint
            (AllApart-sym es p.allocations a),
      )
      | inr (inl (d, ds, e, blocks)) ↦
          inr (inl (d, ds, rw (h.bundle_eq, c.preg_eq, loop ∙ e) refl, blocks))
      | inr (inr (e, blocks)) ↦ inr (inr (rw (h.bundle_eq, c.preg_eq, loop ∙ e) refl, blocks))
    ]

-- Where the register `preg` of a bundle has the entries `m` and those of the bundle, which overlap
-- neither each other nor `m`, eviction leaves `m`, takes the allocation from the bundle and puts
-- the bundle in the queue with its priority.
pub evict_bundle_lem :
    (fuel : ℕ) (env : Env) (bundle : ℕ) (preg : PReg) (p : PRegData) (es m : LiveRangeSet)
    (h : HasRanges fuel env bundle es)
    → h.bundle_data.allocation ≡ Alloc.reg preg
    → PReg.IsValid preg
    → at env.pregs (PReg.index preg) ≡ some p
    → p.allocations ≡ m ++ es
    → IsDisjoint es
    → AllApart es m
    → evict_bundle fuel env bundle
      ≡ some (record (assigned env bundle h.bundle_data none_alloc (PReg.index preg) p m) {
        allocation_queue = env.allocation_queue ++ (h.bundle_data.prio, bundle) ∷ [];
      })
unfolding evict_bundle remove_range
evict_bundle_lem fuel env bundle preg p es m h alloc ok got whole d a =
    let reg = PReg.index preg in
    let small : Index.new reg ≡ reg = omega (arith, PReg.index-lt preg ok) in
    let (v, g) = at-some env.pregs reg p got in
    let loop =
      walk-eq-over env.ranges bundle_link (remove_range reg) fuel h.bundle_data.first_range h.ranges
        env.pregs h.chain h.enough
      ∙ change_range-over (λ k i. Btree.remove k) env.ranges reg h.ranges es env.pregs p h.entries v
          g
      ∙ ap (λ m. some (next (set env.pregs reg (record p { allocations = m }))))
          (ap (change_all (λ k i. Btree.remove k) es) whole ∙ remove_all-append es m d a) in
    rw (h.bundle_eq, alloc, (reg_round_trip preg ok).1, small, loop) refl
