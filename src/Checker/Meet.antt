-- ===== src/Checker/Meet.antt =====
-- The lattice of abstract values and the meet of two states (src/checker.rs, `meet`, `merge_map`).
use regalloc2_orig.Prelude.{
  ◌≡◌, sym, refl, true, ◌∙◌, ap, if◌then◌else◌, List, [], ◌∷◌, Option, none, some, arith,
  Bool-cases, inl, inr,
}
use regalloc2_orig.Alloc
use regalloc2_orig.Alloc.{Allocation}
use regalloc2_orig.Checker.Value.{CheckerValue, unknown, conflicted, reg, meet}
use regalloc2_orig.Checker.State.{CheckerState, get, insert, value, merge_map, meet_with}

meet_comm : (a b : CheckerValue) → meet a b ≡ meet b a
unfolding meet
meet_comm a b = ground arith

meet_assoc : (a b c : CheckerValue) → meet a (meet b c) ≡ meet (meet a b) c
unfolding meet
meet_assoc unknown b c = refl
meet_assoc conflicted unknown c = refl
meet_assoc conflicted conflicted c = ground arith
meet_assoc conflicted (reg r b) c = ground arith
meet_assoc (reg r b) unknown c = refl
meet_assoc (reg r b) conflicted c = ground arith
meet_assoc (reg r b) (reg s d) unknown = ground arith
meet_assoc (reg r b) (reg s d) conflicted = ground arith
meet_assoc (reg r b) (reg s d) (reg t e) = ground arith

-- `meet` is the meet of a semilattice: commutative, associative and idempotent. `Unknown` is its
-- top, and `Conflicted` its bottom.
pub meet_semilattice :
    (a b c : CheckerValue)
    → (meet a b ≡ meet b a)
      × (meet a (meet b c) ≡ meet (meet a b) c)
      × (meet a a ≡ a)
      × (meet unknown a ≡ a)
      × (meet conflicted a ≡ conflicted)
unfolding meet
meet_semilattice a b c = (meet_comm a b, meet_assoc a b c, ground arith, ground arith, ground arith)

-- Each key has one entry.
abbrev pub DistinctKeys : List (Allocation × CheckerValue) → Type 0
DistinctKeys [] = Unit
DistinctKeys ((k, v) ∷ kvs) = (get k kvs ≡ none) × DistinctKeys kvs

pub get-insert :
    (a b : Allocation) (v : CheckerValue) (m : List (Allocation × CheckerValue))
    → get b (insert a v m) ≡ (if Alloc.eq a b then some v else get b m)
unfolding get insert
get-insert a b v [] = refl
get-insert a b v ((k, w) ∷ m) = ground (arith, get-insert a b v m)

pub DistinctKeys-insert :
    (a : Allocation) (v : CheckerValue) (m : List (Allocation × CheckerValue))
    → DistinctKeys m
    → DistinctKeys (insert a v m)
unfolding get insert
DistinctKeys-insert a v [] d = (refl, tt)
DistinctKeys-insert a v ((k, w) ∷ m) d = elim (Bool-cases (Alloc.eq k a)) [
  | inl e ↦ rw e (ground (arith, d.0), d.1)
  | inr e ↦ rw e (ground (arith, get-insert a k v m, d.0), DistinctKeys-insert a v m d.1)
]

meet-unknown : (a : CheckerValue) → meet a unknown ≡ a
unfolding meet
meet-unknown a = ground arith

eq_of_eq : (a b : Allocation) → Alloc.eq a b ≡ true → a ≡ b
eq_of_eq a b h = ground arith

-- The value that an entry, or its absence, stands for.
abbrev or_unknown : Option CheckerValue → CheckerValue
or_unknown none = unknown
or_unknown (some v) = v

value-eq-or_unknown :
    (st : CheckerState) (a : Allocation) → value st a ≡ or_unknown (get a st.allocations)
unfolding value
value-eq-or_unknown st a = ground arith

merge_map_lem :
    (into from : List (Allocation × CheckerValue)) (b : Allocation)
    → DistinctKeys from
    → or_unknown (get b (merge_map into from))
      ≡ meet (or_unknown (get b into)) (or_unknown (get b from))
unfolding merge_map
merge_map_lem into [] b d = sym (meet-unknown (or_unknown (get b into)))
merge_map_lem into ((k, v) ∷ from) b d =
    let merged = meet (or_unknown (get k into)) v in
    merge_map_lem (insert k merged into) from b d.1 ∙ (elim (Bool-cases (Alloc.eq k b)) [
      | inl e ↦
          let same : k ≡ b = eq_of_eq k b e in
          let absent : get b from ≡ none = ap (λ (x : Allocation). get x from) (sym same) ∙ d.0 in
          rw (get-insert k b merged into, e, absent, meet-unknown merged)
            (ap (λ (x : Allocation). meet (or_unknown (get x into)) v) same)
      | inr e ↦ rw (get-insert k b merged into, e) refl
    ])

DistinctKeys-merge_map :
    (into from : List (Allocation × CheckerValue))
    → DistinctKeys into
    → DistinctKeys (merge_map into from)
unfolding merge_map
DistinctKeys-merge_map into [] d = d
DistinctKeys-merge_map into ((k, v) ∷ from) d =
    DistinctKeys-merge_map (insert k (meet (or_unknown (get k into)) v) into) from
      (DistinctKeys-insert k (meet (or_unknown (get k into)) v) into d)

-- Joining two states whose maps have one entry for each key gives every allocation the meet of the
-- values that it has in the two, where an allocation with no entry has the value `Unknown`; and
-- the map that results has one entry for each key.
pub value-meet_with :
    (st other : CheckerState)
    → DistinctKeys st.allocations
    → DistinctKeys other.allocations
    → ((a : Allocation) → value (meet_with st other) a ≡ meet (value st a) (value other a))
      × DistinctKeys (meet_with st other).allocations
unfolding meet_with
value-meet_with st other ds d = (
  λ a.
      rw
        (
          value-eq-or_unknown (record { allocations = merge_map st.allocations other.allocations })
              a,
          value-eq-or_unknown st a,
          value-eq-or_unknown other a,
        )
        (merge_map_lem st.allocations other.allocations a d),
  DistinctKeys-merge_map st.allocations other.allocations ds,
)
