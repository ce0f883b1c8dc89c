-- ===== src/Ion/Btree.antt =====
-- The B-trees of live ranges (src/ion/mod.rs, `LiveRangeSet`), that is what the code uses of
-- `BTreeMap<LiveRangeKey, LiveRangeIndex>`: a search stops at an entry whose key compares `Equal`.
-- The entries stand in no particular order, so a statement about all lists holds whichever of
-- several such entries a search finds.
pub mod Disjoint
pub mod Search
use regalloc2_orig.Prelude.{
  ℕ, ◌<◌, ◌≤◌, ◌≡◌, ◌⊎◌, refl, sym, ◌∙◌, ap, arith, Bool, Bool-cases, true, false, List, [], ◌∷◌,
  ◌++◌, Option, none, some, if◌then◌else◌,
}
use regalloc2_orig.Moves.Stable.{append-nil, append_assoc}
use Prim.Native.Nat.{Ordering}
use regalloc2_orig.Ion.Key
use regalloc2_orig.Ion.Key.{LiveRangeKey}
-- The B-trees of live ranges (src/ion/mod.rs, `LiveRangeSet`), that is what the code uses of
-- `BTreeMap<LiveRangeKey, LiveRangeIndex>`: a search stops at an entry whose key compares `Equal`.
-- The entries stand in no particular order, so a statement about all lists holds whichever of
-- several such entries a search finds.
use regalloc2_orig.Prelude.{
  ℕ, ◌<◌, ◌≤◌, ◌≡◌, ◌⊎◌, refl, sym, ◌∙◌, ap, arith, Bool, true, false, List, [], ◌∷◌, ◌++◌, Option,
  none, some, if◌then◌else◌,
}
use regalloc2_orig.Moves.Stable.{append-nil, append_assoc}
use Prim.Native.Nat.{Ordering}
use regalloc2_orig.Ion.Key
use regalloc2_orig.Ion.Key.{LiveRangeKey}

abbrev pub LiveRangeSet : Type 0
LiveRangeSet = List (LiveRangeKey × ℕ)

abbrev pub matches : LiveRangeKey → LiveRangeKey → Bool
matches k l = elim (Key.cmp k l) [ Ordering.eq ↦ true | _ ↦ false ]

unfoldable pub get : LiveRangeKey → LiveRangeSet → Option ℕ
get k [] = none
get k ((l, i) ∷ es) = if matches k l then some i else get k es

unfoldable pub contains_key : LiveRangeKey → LiveRangeSet → Bool
contains_key k [] = false
contains_key k ((l, i) ∷ es) = if matches k l then true else contains_key k es

-- An entry with an equal key keeps its key and gets the new value.
unfoldable pub insert : LiveRangeKey → ℕ → LiveRangeSet → LiveRangeSet
insert k i [] = (k, i) ∷ []
insert k i ((l, j) ∷ es) = if matches k l then (l, i) ∷ es else (l, j) ∷ insert k i es

unfoldable pub remove : LiveRangeKey → LiveRangeSet → LiveRangeSet
remove k [] = []
remove k ((l, j) ∷ es) = if matches k l then es else (l, j) ∷ remove k es

-- Two keys have no position in common.
abbrev pub Apart : LiveRangeKey → LiveRangeKey → Type 0
Apart k l = (k.to ≤ l.from) ⊎ (l.to ≤ k.from)

abbrev pub IsProperKey : LiveRangeKey → Type 0
IsProperKey k = k.from < k.to

-- `k` is apart from each key of the set.
abbrev pub ApartFrom : LiveRangeKey → LiveRangeSet → Type 0
ApartFrom k [] = Unit
ApartFrom k ((l, i) ∷ es) = Apart k l × ApartFrom k es

-- The keys of the set are proper and apart from each other.
abbrev pub IsDisjoint : LiveRangeSet → Type 0
IsDisjoint [] = Unit
IsDisjoint ((k, i) ∷ es) = IsProperKey k × ApartFrom k es × IsDisjoint es

-- Each key of the first set is apart from each key of the second.
abbrev pub AllApart : LiveRangeSet → LiveRangeSet → Type 0
AllApart [] m = Unit
AllApart ((k, i) ∷ es) m = ApartFrom k m × AllApart es m

-- The entries of the first set one after another.
abbrev pub change_all :
    (LiveRangeKey → ℕ → LiveRangeSet → LiveRangeSet) → LiveRangeSet → LiveRangeSet → LiveRangeSet
change_all f [] m = m
change_all f ((k, i) ∷ es) m = change_all f es (f k i m)

-- An entry of the set.
pub data HasEntry (k : LiveRangeKey) (i : ℕ) : LiveRangeSet → Type 0 where
  first : {es : LiveRangeSet} → HasEntry k i ((k, i) ∷ es)
  later :
      {l : LiveRangeKey} {j : ℕ} {es : LiveRangeSet} → HasEntry k i es → HasEntry k i ((l, j) ∷ es)
