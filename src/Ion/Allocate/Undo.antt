-- ===== src/Ion/Allocate/Undo.antt =====
-- Eviction undoes an allocation (src/ion/mod.rs, `try_to_allocate_bundle_to_reg` and
-- `evict_bundle`).
use regalloc2_orig.Prelude.{ℕ, ◌≡◌, refl, ◌∙◌, [], ◌∷◌, ◌++◌, some, set, set_self, set-set}
use regalloc2_orig.Reg.PReg
use regalloc2_orig.Reg.PReg.{PReg}
use regalloc2_orig.Alloc
use regalloc2_orig.Alloc.{Allocation, none_alloc}
use regalloc2_orig.Ion.Btree.{LiveRangeSet, AllApart}
use regalloc2_orig.Ion.Env.{LiveBundle, PRegData, Env, at-some, at-set_self}
use regalloc2_orig.Ion.Allocate.{allocated, try_to_allocate_bundle_to_reg, evict_bundle}
use regalloc2_orig.Ion.Allocate.Ranges.{HasRanges}
use regalloc2_orig.Ion.Allocate.Correct.{assigned, CanTry, allocates, evict_bundle_lem}

-- The environment after an eviction that undid an allocation: the bundle has none, and waits in the
-- queue again.
abbrev pub requeued : Env → ℕ → LiveBundle → Env
requeued env bundle b = record env {
  bundles = set env.bundles bundle (record b { allocation = none_alloc });
  allocation_queue = env.allocation_queue ++ (b.prio, bundle) ∷ [];
}

module _ (fuel : ℕ) (env : Env) (bundle : ℕ) (p : PRegData) (es : LiveRangeSet)
    (c : CanTry fuel env bundle (PReg.index p.reg) p es) where
  abbrev after : Env
  after =
      assigned env bundle c.has_ranges.bundle_data (Alloc.reg p.reg) (PReg.index p.reg) p
        (p.allocations ++ es)

  abbrev ranges_after : HasRanges fuel after bundle es
  ranges_after =
      let h = c.has_ranges in
      record {
        bundle_data = record h.bundle_data { allocation = Alloc.reg p.reg };
        ranges = h.ranges;
        bundle_eq =
            at-set_self env.bundles bundle h.bundle_data
              (record h.bundle_data { allocation = Alloc.reg p.reg }) h.bundle_eq;
        chain = h.chain;
        entries = h.entries;
        enough = h.enough;
      }

  evict-after :
      PReg.IsValid p.reg
      → AllApart es p.allocations
      → evict_bundle fuel after bundle ≡ some (requeued env bundle c.has_ranges.bundle_data)
  evict-after ok a =
      let reg = PReg.index p.reg in
      let b = c.has_ranges.bundle_data in
      let p1 : PRegData = record p { allocations = p.allocations ++ es } in
      let (v, g) = at-some env.pregs reg p c.preg_eq in
      evict_bundle_lem fuel after bundle p.reg p1 es p.allocations ranges_after refl ok
        (at-set_self env.pregs reg p p1 c.preg_eq) refl c.bundle_disjoint a
      ∙ rw
          (
            set-set env.pregs reg p1 p,
            set_self env.pregs reg p g,
            set-set env.bundles bundle (record b { allocation = Alloc.reg p.reg })
                (record b { allocation = none_alloc }),
          )
          refl

-- Where no range of a bundle overlaps one of the register, the bundle can be given to the register,
-- and to evict it then leaves the registers as they were before, the bundle without an allocation
-- and in the queue.
pub allocate-evict :
    (fuel : ℕ) (env : Env) (bundle : ℕ) (p : PRegData) (es : LiveRangeSet)
    (c : CanTry fuel env bundle (PReg.index p.reg) p es)
    → PReg.IsValid p.reg
    → AllApart es p.allocations
    → (env' : Env) × (try_to_allocate_bundle_to_reg fuel env bundle (PReg.index p.reg)
        ≡ some (allocated (Alloc.reg p.reg), env'))
      × (evict_bundle fuel env' bundle ≡ some (requeued env bundle c.has_ranges.bundle_data))
allocate-evict fuel env bundle p es c ok a = (
  after fuel env bundle p es c,
  allocates fuel env bundle (PReg.index p.reg) p es c a,
  evict-after fuel env bundle p es c ok a,
)
