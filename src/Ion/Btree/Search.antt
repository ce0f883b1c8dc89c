-- ===== src/Ion/Btree/Search.antt =====
-- What a search in a set of live ranges finds (src/ion/mod.rs, `LiveRangeSet`).
use regalloc2_orig.Prelude.{
  ◌⊎◌, ◌++◌, true, false, refl, ℕ, ◌≡◌, Bool, Bool-cases, inl, inr, [], ◌∷◌, none, some,
  if◌then◌else◌,
}
use regalloc2_orig.Ion.Key.{LiveRangeKey}
use regalloc2_orig.Ion.Btree.{
  contains_key, LiveRangeSet, matches, get, contains_key, ApartFrom, HasEntry, first, later,
}
use regalloc2_orig.Ion.Btree.Disjoint.{Apart-of_matches}

pub ApartFrom-of_get : (k : LiveRangeKey) (m : LiveRangeSet) → get k m ≡ none → ApartFrom k m
unfolding get
ApartFrom-of_get k [] e = tt
ApartFrom-of_get k ((l, i) ∷ es) e = elim (Bool-cases (matches k l)) [
  | inl h ↦ absurd (found (matches k l) h e)
  | inr h ↦ (Apart-of_matches k l h, ApartFrom-of_get k es (passed (matches k l) h e))
]
  where
    found : (b : Bool) → b ≡ true → (if b then some i else get k es) ≡ none → ⊥
    found true h e = cc
    found false h e = cc

    passed : (b : Bool) → b ≡ false → (if b then some i else get k es) ≡ none → get k es ≡ none
    passed true h e = cc
    passed false h e = e

-- What a search finds overlaps.
pub HasEntry-of_get :
    (k : LiveRangeKey) (m : LiveRangeSet) (i : ℕ)
    → get k m ≡ some i
    → (l : LiveRangeKey) × (matches k l ≡ true) × HasEntry l i m
unfolding get
HasEntry-of_get k [] i e = cc
HasEntry-of_get k ((l, j) ∷ es) i e = elim (Bool-cases (matches k l)) [
  | inl h ↦ (l, h, here (matches k l) h e)
  | inr h ↦ let (l', h', m) = HasEntry-of_get k es i (passed (matches k l) h e) in (l', h', later m)
]
  where
    at_index : (a : ℕ) → a ≡ i → HasEntry l i ((l, a) ∷ es)
    at_index a q = rw q first

    here :
        (b : Bool)
        → b ≡ true
        → (if b then some j else get k es) ≡ some i
        → HasEntry l i ((l, j) ∷ es)
    here true h e = at_index j cc
    here false h e = absurd cc

    passed : (b : Bool) → b ≡ false → (if b then some j else get k es) ≡ some i → get k es ≡ some i
    passed true h e = absurd cc
    passed false h e = e

-- A key of the first set overlaps one of the second.
pub record AreOverlapping (es m : LiveRangeSet) : Type 0 where
  pub key : LiveRangeKey
  pub other : LiveRangeKey
  pub number : ℕ
  pub other_number : ℕ
  pub key_in : HasEntry key number es
  pub other_in : HasEntry other other_number m
  pub overlap : matches key other ≡ true

pub contains_key-cases :
    (k : LiveRangeKey) (m : LiveRangeSet)
    → ((contains_key k m ≡ false) × ApartFrom k m)
      ⊎ ((contains_key k m ≡ true)
          × ((l : LiveRangeKey) × (j : ℕ) × HasEntry l j m × (matches k l ≡ true)))
unfolding contains_key
contains_key-cases k [] = inl (refl, tt)
contains_key-cases k ((l, j) ∷ es) = elim (Bool-cases (matches k l)) [
  | inl h ↦ inr (rw h refl, (l, j, first, h))
  | inr h ↦ rest h (contains_key-cases k es)
]
  where
    rest :
        matches k l ≡ false
        → ((contains_key k es ≡ false) × ApartFrom k es)
          ⊎ ((contains_key k es ≡ true)
              × ((l : LiveRangeKey) × (j : ℕ) × HasEntry l j es × (matches k l ≡ true)))
        → ((contains_key k ((l, j) ∷ es) ≡ false) × ApartFrom k ((l, j) ∷ es))
          ⊎ ((contains_key k ((l, j) ∷ es) ≡ true)
              × ((l' : LiveRangeKey) × (j' : ℕ) × HasEntry l' j' ((l, j) ∷ es)
                  × (matches k l' ≡ true)))
    rest h (inl (e, a)) = inl (rw h e, (Apart-of_matches k l h, a))
    rest h (inr (e, (l', j', m, o))) = inr (rw h e, (l', j', later m, o))

pub HasEntry-append_left :
    (k : LiveRangeKey) (i : ℕ) (es fs : LiveRangeSet) → HasEntry k i es → HasEntry k i (es ++ fs)
HasEntry-append_left k i [] fs h = elim h [ ]
HasEntry-append_left k i (e ∷ es) fs first = first
HasEntry-append_left k i (e ∷ es) fs (later h) = later (HasEntry-append_left k i es fs h)

pub HasEntry-append_right :
    (k : LiveRangeKey) (i : ℕ) (es fs : LiveRangeSet) → HasEntry k i fs → HasEntry k i (es ++ fs)
HasEntry-append_right k i [] fs h = h
HasEntry-append_right k i ((l, j) ∷ es) fs h = later (HasEntry-append_right k i es fs h)

pub AreOverlapping-mono :
    (es fs m : LiveRangeSet)
    → ((k : LiveRangeKey) (i : ℕ) → HasEntry k i es → HasEntry k i fs)
    → AreOverlapping es m
    → AreOverlapping fs m
AreOverlapping-mono es fs m sub w = record {
  key = w.key;
  other = w.other;
  number = w.number;
  other_number = w.other_number;
  key_in = sub w.key w.number w.key_in;
  other_in = w.other_in;
  overlap = w.overlap;
}
