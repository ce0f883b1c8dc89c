-- ===== src/Ion/Slots/Fit.antt =====
-- A spill set and a slot: the test and the allocation (src/ion/mod.rs, `spillslot_can_fit_spillset`
-- and `allocate_spillset_to_spillslot`).
use regalloc2_orig.Prelude.{
  next, return, ℕ, ◌≡◌, ◌⊎◌, inl, inr, refl, sym, ap, ◌∙◌, true, false, List, [], ◌∷◌, ◌++◌, some,
  bind_some, if◌then◌else◌, set,
}
use regalloc2_orig.Ion.Key
use regalloc2_orig.Ion.Key.{LiveRangeKey}
use regalloc2_orig.Ion.Btree
use regalloc2_orig.Ion.Btree.{
  LiveRangeSet, HasEntry, first, later, IsDisjoint, AllApart, change_all, matches,
}
use regalloc2_orig.Ion.Btree.Disjoint.{
  AllApart-sym, AllApart-append, IsDisjoint-append, insert_all-eq-append, change_all-append,
}
use regalloc2_orig.Ion.Btree.Search.{
  AreOverlapping, AreOverlapping-mono, contains_key-cases, HasEntry-append_left,
  HasEntry-append_right,
}
use regalloc2_orig.Ion.Env.{LiveRange, SpillSet, SpillSlotData, Env, over, walk-eq-over, at}
use regalloc2_orig.Ion.Bundle.{bundle_link}
use regalloc2_orig.Ion.Slots.{
  meets_slot, bundles_fit, spillslot_can_fit_spillset, add_to_slot, add_bundles,
  allocate_spillset_to_spillslot,
}
use regalloc2_orig.Ion.Allocate.Ranges.{HasRanges, Entries, entry}

-- The entries of all ranges of some bundles.
pub data BundleEntries (fuel : ℕ) (env : Env) : List ℕ → LiveRangeSet → Type 0 where
  no_bundles : BundleEntries fuel env [] []
  bundle_entries :
      {b : ℕ} {bs : List ℕ} {es fs : LiveRangeSet}
      → HasRanges fuel env b es
      → BundleEntries fuel env bs fs
      → BundleEntries fuel env (b ∷ bs) (es ++ fs)

meets_slot-miss :
    (m : LiveRangeSet) (i : ℕ) (r : LiveRange) (k : LiveRangeKey)
    → Key.from_range r.range ≡ some k
    → Btree.contains_key k m ≡ false
    → meets_slot m i r tt ≡ some (next tt)
unfolding meets_slot
meets_slot-miss m i r k q e =
    bind_some (λ key. some (if Btree.contains_key key m then return tt else next tt)) q ∙ rw e refl

meets_slot-hit :
    (m : LiveRangeSet) (i : ℕ) (r : LiveRange) (k : LiveRangeKey)
    → Key.from_range r.range ≡ some k
    → Btree.contains_key k m ≡ true
    → meets_slot m i r tt ≡ some (return tt)
unfolding meets_slot
meets_slot-hit m i r k q e =
    bind_some (λ key. some (if Btree.contains_key key m then return tt else next tt)) q ∙ rw e refl

over-meets :
    (items : List LiveRange) (m : LiveRangeSet) (rs : List (ℕ × LiveRange)) (es : LiveRangeSet)
    → Entries rs es
    → (AllApart es m × (over items bundle_link (meets_slot m) rs tt ≡ some (next tt)))
      ⊎ (AreOverlapping es m × (over items bundle_link (meets_slot m) rs tt ≡ some (return tt)))
unfolding over
over-meets items m [] [] h = inl (tt, refl)
over-meets items m [] (x ∷ es) h = elim h [ ]
over-meets items m (x ∷ rs) [] h = elim h [ ]
over-meets items m ((i, r) ∷ rs) ((k, j) ∷ es) (entry q h) = elim (contains_key-cases k m) [
  | inl (e, apart) ↦ elim (over-meets items m rs es h) [
    | inl (a, o) ↦ inl ((apart, a), rw (meets_slot-miss m i r k q e) o)
    | inr (w, o) ↦ inr (
      AreOverlapping-mono es ((k, i) ∷ es) m (λ l n e. later e) w,
      rw (meets_slot-miss m i r k q e) o,
    )
  ]
  | inr (e, (l, n, there, overlap)) ↦ inr (
    record {
      key = k;
      other = l;
      number = i;
      other_number = n;
      key_in = first;
      other_in = there;
      overlap = overlap;
    },
    rw (meets_slot-hit m i r k q e) refl,
  )
]

bundles_fit_lem :
    (fuel : ℕ) (env : Env) (m : LiveRangeSet) (bs : List ℕ) (es : LiveRangeSet)
    → BundleEntries fuel env bs es
    → (AllApart es m × (bundles_fit fuel env m bs ≡ some true))
      ⊎ (AreOverlapping es m × (bundles_fit fuel env m bs ≡ some false))
unfolding bundles_fit
bundles_fit_lem fuel env m [] [] h = inl (tt, refl)
bundles_fit_lem fuel env m [] (x ∷ es) h = elim h [ ]
bundles_fit_lem fuel env m (b ∷ bs) all (bundle_entries {es} {fs} h rest) =
    let loop =
      walk-eq-over env.ranges bundle_link (meets_slot m) fuel h.bundle_data.first_range h.ranges tt
        h.chain h.enough in
    elim (over-meets env.ranges m h.ranges es h.entries) [
      | inl (a, o) ↦ elim (bundles_fit_lem fuel env m bs fs rest) [
        | inl (a', o') ↦ inl (AllApart-append es fs m a a', rw (h.bundle_eq, loop ∙ o) o')
        | inr (w, o') ↦ inr (
          AreOverlapping-mono fs (es ++ fs) m (λ k i e. HasEntry-append_right k i es fs e) w,
          rw (h.bundle_eq, loop ∙ o) o',
        )
      ]
      | inr (w, o) ↦ inr (
        AreOverlapping-mono es (es ++ fs) m (λ k i e. HasEntry-append_left k i es fs e) w,
        rw (h.bundle_eq, loop ∙ o) refl,
      )
    ]

over-adds :
    (items : List LiveRange) (rs : List (ℕ × LiveRange)) (es m : LiveRangeSet)
    → Entries rs es
    → over items bundle_link add_to_slot rs m ≡ some (next (change_all Btree.insert es m))
unfolding over add_to_slot
over-adds items [] [] m h = refl
over-adds items [] (x ∷ es) m h = elim h [ ]
over-adds items (x ∷ rs) [] m h = elim h [ ]
over-adds items ((i, r) ∷ rs) ((k, j) ∷ es) m (entry q h) =
    rw q (over-adds items rs es (Btree.insert k i m) h)

add_bundles_lem :
    (fuel : ℕ) (env : Env) (bs : List ℕ) (es m : LiveRangeSet)
    → BundleEntries fuel env bs es
    → add_bundles fuel env bs m ≡ some (change_all Btree.insert es m)
unfolding add_bundles
add_bundles_lem fuel env [] [] m h = refl
add_bundles_lem fuel env [] (x ∷ es) m h = elim h [ ]
add_bundles_lem fuel env (b ∷ bs) all m (bundle_entries {es} {fs} h rest) =
    let loop =
      walk-eq-over env.ranges bundle_link add_to_slot fuel h.bundle_data.first_range h.ranges m
        h.chain h.enough
      ∙ over-adds env.ranges h.ranges es m h.entries in
    rw (h.bundle_eq, loop)
      (add_bundles_lem fuel env bs fs (change_all Btree.insert es m) rest
        ∙ ap some (sym (change_all-append Btree.insert es fs m)))

-- A spill set and a slot: the ranges of the bundles in the set do not overlap each other, and those
-- in the slot do not.
pub record CanPlace (fuel : ℕ) (env : Env) (spillset slot : ℕ) (s : SpillSet) (d : SpillSlotData)
    (es : LiveRangeSet) : Type 0 where
  pub set_eq : at env.spillsets spillset ≡ some s
  pub slot_eq : at env.spillslots slot ≡ some d
  pub entries : BundleEntries fuel env s.bundles es
  pub set_disjoint : IsDisjoint es
  pub slot_disjoint : IsDisjoint d.ranges

-- The environment where the set has the slot, and the slot these ranges.
abbrev pub placed : Env → ℕ → ℕ → SpillSet → SpillSlotData → LiveRangeSet → Env
placed env spillset slot s d m = record env {
  spillsets = set env.spillsets spillset (record s { slot = slot });
  spillslots = set env.spillslots slot (record d { ranges = m });
}

-- The test says whether the ranges of the set overlap those of the slot. Where it says that they do
-- not, the allocation of the set to the slot returns, it adds the ranges to those of the slot, and
-- no two of the slot's ranges overlap. Where it says no, a range of the set overlaps one of the slot.
pub spillslot_fit_lem :
    (fuel : ℕ) (env : Env) (spillset slot : ℕ) (s : SpillSet) (d : SpillSlotData)
    (es : LiveRangeSet)
    → CanPlace fuel env spillset slot s d es
    → ((spillslot_can_fit_spillset fuel env slot spillset ≡ some true)
        × (allocate_spillset_to_spillslot fuel env spillset slot
            ≡ some (placed env spillset slot s d (d.ranges ++ es)))
        × IsDisjoint (d.ranges ++ es))
      ⊎ ((spillslot_can_fit_spillset fuel env slot spillset ≡ some false)
          × AreOverlapping es d.ranges)
unfolding spillslot_can_fit_spillset allocate_spillset_to_spillslot
spillslot_fit_lem fuel env spillset slot s d es c =
    elim (bundles_fit_lem fuel env d.ranges s.bundles es c.entries) [
      | inl (a, e) ↦
          let added =
            add_bundles_lem fuel env s.bundles es d.ranges c.entries
            ∙ ap some (insert_all-eq-append es d.ranges c.set_disjoint a) in
          inl (
            rw (c.set_eq, c.slot_eq) e,
            rw (c.set_eq, c.slot_eq, added) refl,
            IsDisjoint-append d.ranges es c.slot_disjoint c.set_disjoint
                (AllApart-sym es d.ranges a),
          )
      | inr (w, e) ↦ inr (rw (c.set_eq, c.slot_eq) e, w)
    ]
