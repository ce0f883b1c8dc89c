-- ===== src/Ion/Btree/Disjoint.antt =====
-- Sets of live ranges whose keys are apart (src/ion/mod.rs, `LiveRangeSet`).
use regalloc2_orig.Prelude.{ℕ, ◌≡◌, refl, sym, ◌∙◌, ap, arith, true, false, [], ◌∷◌, ◌++◌, none}
use regalloc2_orig.Moves.Stable.{append-nil, append_assoc}
use regalloc2_orig.Ion.Key
use regalloc2_orig.Ion.Key.{LiveRangeKey}
use regalloc2_orig.Ion.Btree.{
  LiveRangeSet, matches, get, insert, remove, Apart, IsProperKey, ApartFrom, IsDisjoint, AllApart,
  change_all,
}

pub matches-Apart : (k l : LiveRangeKey) → Apart k l → matches k l ≡ false
unfolding Key.cmp
matches-Apart k l a = ground arith

pub Apart-of_matches : (k l : LiveRangeKey) → matches k l ≡ false → Apart k l
unfolding Key.cmp
Apart-of_matches k l e = ground arith

pub matches_self : (k : LiveRangeKey) → IsProperKey k → matches k k ≡ true
unfolding Key.cmp
matches_self k p = ground arith

pub Apart-sym : (k l : LiveRangeKey) → Apart k l → Apart l k
Apart-sym k l a = ground arith

pub get-ApartFrom : (k : LiveRangeKey) (m : LiveRangeSet) → ApartFrom k m → get k m ≡ none
unfolding get
get-ApartFrom k [] a = refl
get-ApartFrom k ((l, i) ∷ es) a = rw (matches-Apart k l a.0) (get-ApartFrom k es a.1)

pub insert-ApartFrom :
    (k : LiveRangeKey) (i : ℕ) (m : LiveRangeSet) → ApartFrom k m → insert k i m ≡ m ++ (k, i) ∷ []
unfolding insert
insert-ApartFrom k i [] a = refl
insert-ApartFrom k i ((l, j) ∷ es) a =
    rw (matches-Apart k l a.0) (ap (λ xs. (l, j) ∷ xs) (insert-ApartFrom k i es a.1))

-- What a search past keys that are apart finds: the entry itself.
pub remove-append :
    (k : LiveRangeKey) (i : ℕ) (m es : LiveRangeSet)
    → IsProperKey k
    → ApartFrom k m
    → remove k (m ++ (k, i) ∷ es) ≡ m ++ es
unfolding remove
remove-append k i [] es p a = rw (matches_self k p) refl
remove-append k i ((l, j) ∷ m) es p a =
    rw (matches-Apart k l a.0) (ap (λ xs. (l, j) ∷ xs) (remove-append k i m es p a.1))

pub ApartFrom-append :
    (k : LiveRangeKey) (m es : LiveRangeSet)
    → ApartFrom k m
    → ApartFrom k es
    → ApartFrom k (m ++ es)
ApartFrom-append k [] es a b = b
ApartFrom-append k ((l, j) ∷ m) es a b = (a.0, ApartFrom-append k m es a.1 b)

pub AllApart-cons :
    (es m : LiveRangeSet) (k : LiveRangeKey) (i : ℕ)
    → AllApart es m
    → ApartFrom k es
    → AllApart es ((k, i) ∷ m)
AllApart-cons [] m k i a b = tt
AllApart-cons ((l, j) ∷ es) m k i a b = ((Apart-sym k l b.0, a.0), AllApart-cons es m k i a.1 b.1)

pub AllApart-snoc :
    (es m : LiveRangeSet) (k : LiveRangeKey) (i : ℕ)
    → AllApart es m
    → ApartFrom k es
    → AllApart es (m ++ (k, i) ∷ [])
AllApart-snoc [] m k i a b = tt
AllApart-snoc ((l, j) ∷ es) m k i a b =
    (ApartFrom-append l m ((k, i) ∷ []) a.0 (Apart-sym k l b.0, tt), AllApart-snoc es m k i a.1 b.1)

pub AllApart-sym : (es m : LiveRangeSet) → AllApart es m → AllApart m es
AllApart-sym es [] a = tt
AllApart-sym es ((k, i) ∷ m) a = (first es a, AllApart-sym es m (others es a))
  where
    first : (es : LiveRangeSet) → AllApart es ((k, i) ∷ m) → ApartFrom k es
    first [] a = tt
    first ((l, j) ∷ es) a = (Apart-sym l k a.0.0, first es a.1)

    others : (es : LiveRangeSet) → AllApart es ((k, i) ∷ m) → AllApart es m
    others [] a = tt
    others ((l, j) ∷ es) a = (a.0.1, others es a.1)

pub IsDisjoint-append :
    (m es : LiveRangeSet) → IsDisjoint m → IsDisjoint es → AllApart m es → IsDisjoint (m ++ es)
IsDisjoint-append [] es d e a = e
IsDisjoint-append ((k, i) ∷ m) es d e a =
    (d.0, ApartFrom-append k m es d.1 a.0, IsDisjoint-append m es d.2 e a.1)

pub insert_all-eq-append :
    (es m : LiveRangeSet) → IsDisjoint es → AllApart es m → change_all insert es m ≡ m ++ es
insert_all-eq-append [] m d a = sym (append-nil m)
insert_all-eq-append ((k, i) ∷ es) m d a = rw (insert-ApartFrom k i m a.0) (
    insert_all-eq-append es (m ++ (k, i) ∷ []) d.2 (AllApart-snoc es m k i a.1 d.1)
    ∙ append_assoc m ((k, i) ∷ []) es)

pub remove_all-append :
    (es m : LiveRangeSet)
    → IsDisjoint es
    → AllApart es m
    → change_all (λ k i. remove k) es (m ++ es) ≡ m
remove_all-append [] m d a = append-nil m
remove_all-append ((k, i) ∷ es) m d a =
    rw (remove-append k i m es d.0 a.0) (remove_all-append es m d.2 a.1)

pub AllApart-append :
    (es fs m : LiveRangeSet) → AllApart es m → AllApart fs m → AllApart (es ++ fs) m
AllApart-append [] fs m a b = b
AllApart-append ((k, i) ∷ es) fs m a b = (a.0, AllApart-append es fs m a.1 b)

pub change_all-append :
    (f : LiveRangeKey → ℕ → LiveRangeSet → LiveRangeSet) (es fs m : LiveRangeSet)
    → change_all f (es ++ fs) m ≡ change_all f fs (change_all f es m)
change_all-append f [] fs m = refl
change_all-append f ((k, i) ∷ es) fs m = change_all-append f es fs (f k i m)
