-- ===== src/Ion/Allocate/Ranges.antt =====
-- The loops over the ranges of a bundle, as changes of the set of a register (src/ion/mod.rs,
-- `try_to_allocate_bundle_to_reg` and `evict_bundle`).
use regalloc2_orig.Prelude.{
  next, ℕ, ◌<◌, ◌≡◌, sym, ap, ◌∙◌, true, List, [], ◌∷◌, some, length, get_elem?, set, set_self,
  set-set, get_elem?-set_self, lt-length_of_get_elem?,
}
use regalloc2_orig.Index
use regalloc2_orig.Ion.Key
use regalloc2_orig.Ion.Key.{LiveRangeKey}
use regalloc2_orig.Ion.Btree.{LiveRangeSet, change_all}
use regalloc2_orig.Ion.Env.{LiveRange, LiveBundle, PRegData, Env, Chain, over, at}
use regalloc2_orig.Ion.Bundle.{bundle_link}
use regalloc2_orig.Ion.Allocate.{change_range}

-- The entries that the ranges of a bundle make in a set: each key with the range's number.
pub data Entries : List (ℕ × LiveRange) → LiveRangeSet → Type 0 where
  no_entries : Entries [] []
  entry :
      {i : ℕ} {r : LiveRange} {k : LiveRangeKey} {rs : List (ℕ × LiveRange)} {es : LiveRangeSet}
      → Key.from_range r.range ≡ some k
      → Entries rs es
      → Entries ((i, r) ∷ rs) ((k, i) ∷ es)

-- A bundle whose ranges form a list that ends, have these entries, and are fewer than the fuel.
pub record HasRanges (fuel : ℕ) (env : Env) (bundle : ℕ) (es : LiveRangeSet) : Type 0 where
  pub bundle_data : LiveBundle
  pub ranges : List (ℕ × LiveRange)
  pub bundle_eq : at env.bundles bundle ≡ some bundle_data
  pub chain : Chain env.ranges bundle_link bundle_data.first_range ranges
  pub entries : Entries ranges es
  pub enough : length ranges < fuel

pub change_range-over :
    (f : LiveRangeKey → ℕ → LiveRangeSet → LiveRangeSet) (items : List LiveRange) (reg : ℕ)
    (rs : List (ℕ × LiveRange)) (es : LiveRangeSet) (pregs : List PRegData) (p : PRegData)
    → Entries rs es
    → Index.is_valid reg ≡ true
    → get_elem? pregs reg ≡ some p
    → over items bundle_link (change_range f reg) rs pregs
      ≡ some (next (set pregs reg (record p { allocations = change_all f es p.allocations })))
unfolding over
change_range-over f items reg [] [] pregs p no_entries v g =
    ap (λ xs. some (next xs)) (sym (set_self pregs reg p g))
change_range-over f items reg [] (x ∷ es) pregs p h v g = elim h [ ]
change_range-over f items reg (x ∷ rs) [] pregs p h v g = elim h [ ]
change_range-over f items reg ((i, r) ∷ rs) ((k, j) ∷ es) pregs p (entry e h) v g =
    let p1 : PRegData = record p { allocations = f k i p.allocations } in
    rw (e, v, g)
      (change_range-over f items reg rs es (set pregs reg p1) p1 h v
          (get_elem?-set_self pregs reg p1 (lt-length_of_get_elem? pregs reg p g))
        ∙ ap (λ xs. some (next xs))
            (set-set pregs reg p1
              (record p { allocations = change_all f es (f k i p.allocations) })))
