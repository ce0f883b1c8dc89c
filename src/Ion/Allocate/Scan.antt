-- ===== src/Ion/Allocate/Scan.antt =====
-- The loop that looks for conflicts (src/ion/mod.rs, `try_to_allocate_bundle_to_reg`).
use regalloc2_orig.Prelude.{
  Flow, next, return, ℕ, ◌≡◌, ◌⊎◌, inl, inr, refl, ap, ◌∙◌, Bool, true, false, Bool-cases,
  if◌then◌else◌, List, [], ◌∷◌, ◌++◌, Option, none, some, bind_some, Option-cases,
}
use regalloc2_orig.Index
use regalloc2_orig.Moves.Stable.{All}
use regalloc2_orig.Ion.Key
use regalloc2_orig.Ion.Key.{LiveRangeKey}
use regalloc2_orig.Ion.Btree.{LiveRangeSet, AllApart, HasEntry, matches, get, first, later}
use regalloc2_orig.Ion.Btree.Disjoint.{get-ApartFrom}
use regalloc2_orig.Ion.Btree.Search.{ApartFrom-of_get, HasEntry-of_get}
use regalloc2_orig.Ion.Env.{LiveRange, over, at}
use regalloc2_orig.Ion.Bundle.{bundle_link}
use regalloc2_orig.Ion.Allocate.{find_conflict, meet_range, member, push_new}
use regalloc2_orig.Ion.Allocate.Ranges.{Entries, entry}

-- The numbers in the set are those of ranges.
abbrev pub AllKnown : List LiveRange → LiveRangeSet → Type 0
AllKnown items m =
    (k : LiveRangeKey) (i : ℕ) → HasEntry k i m → (r : LiveRange) × (at items i ≡ some r)

-- A key of `es` overlaps one of `m`, which is there for the range `r`.
pub record Overlaps (items : List LiveRange) (es m : LiveRangeSet) (r : LiveRange) : Type 0 where
  pub key : LiveRangeKey
  pub other : LiveRangeKey
  pub number : ℕ
  pub other_number : ℕ
  pub key_in : HasEntry key number es
  pub other_in : HasEntry other other_number m
  pub overlap : matches key other ≡ true
  pub range_eq : at items other_number ≡ some r

-- A range of bundle `b` is in the way.
abbrev pub Blocks : List LiveRange → LiveRangeSet → LiveRangeSet → ℕ → Type 0
Blocks items es m b =
    (r : LiveRange) × (Index.is_valid r.vreg ≡ true) × (r.bundle ≡ b) × Overlaps items es m r

-- A range that belongs to no vreg is in the way.
abbrev pub BlocksFixed : List LiveRange → LiveRangeSet → LiveRangeSet → Type 0
BlocksFixed items es m = (r : LiveRange) × (Index.is_valid r.vreg ≡ false) × Overlaps items es m r

abbrev pub AllBlock : List LiveRange → LiveRangeSet → LiveRangeSet → List ℕ → Type 0
AllBlock items es m cs = All (λ b. Blocks items es m b) cs

AllBlock-push_new :
    (items : List LiveRange) (es m : LiveRangeSet) (cs : List ℕ) (b : ℕ)
    → Blocks items es m b
    → AllBlock items es m cs
    → AllBlock items es m (push_new cs b)
AllBlock-push_new items es m cs b h a = by_test (member b cs)
  where
    snoc : (xs : List ℕ) → AllBlock items es m xs → AllBlock items es m (xs ++ b ∷ [])
    snoc [] a = (h, tt)
    snoc (x ∷ xs) a = (a.0, snoc xs a.1)

    by_test : (t : Bool) → AllBlock items es m (if t then cs else cs ++ b ∷ [])
    by_test true = a
    by_test false = snoc cs a

push_new-nonempty : (cs : List ℕ) (b : ℕ) → (c : ℕ) × (cs' : List ℕ) × (push_new cs b ≡ c ∷ cs')
push_new-nonempty [] b = (b, [], refl)
push_new-nonempty (c ∷ cs) b = by_test (member b (c ∷ cs))
  where
    by_test :
        (t : Bool) → (d : ℕ) × (ds : List ℕ) × ((if t then c ∷ cs else (c ∷ cs) ++ b ∷ []) ≡ d ∷ ds)
    by_test true = (c, cs, refl)
    by_test false = (c, cs ++ b ∷ [], refl)

-- The body of the loop on a range with key `k`, in each case.
module _ (items : List LiveRange) (m : LiveRangeSet) (i : ℕ) (r : LiveRange) (cs : List ℕ)
    (k : LiveRangeKey) (q : Key.from_range r.range ≡ some k) where
  find_conflict-miss : get k m ≡ none → find_conflict items m i r cs ≡ some (next cs)
  unfolding find_conflict meet_range
  find_conflict-miss g = bind_some (λ key. meet_range items cs (get key m)) q ∙ rw g refl

  find_conflict-hit :
      (n : ℕ) (p : LiveRange)
      → get k m ≡ some n
      → at items n ≡ some p
      → find_conflict items m i r cs
        ≡ some (if Index.is_valid p.vreg then next (push_new cs p.bundle) else return tt)
  unfolding find_conflict meet_range
  find_conflict-hit n p g e =
      bind_some (λ key. meet_range items cs (get key m)) q
      ∙ rw g (
          bind_some
            (λ p. some (if Index.is_valid p.vreg then next (push_new cs p.bundle) else return tt))
            e)

-- What the loop says: no key of `es` overlaps the set, or bundles are in the way, or a range that
-- belongs to no vreg is.
abbrev pub Scanned :
    List LiveRange
    → LiveRangeSet
    → LiveRangeSet
    → LiveRangeSet
    → List ℕ
    → Option (Flow (List ℕ) (Unit {0}))
    → Type 0
Scanned items all es m cs result =
    (AllApart es m × (result ≡ some (next cs)))
    ⊎ ((c : ℕ) × (cs' : List ℕ) × (result ≡ some (next (c ∷ cs'))) × AllBlock items all m (c ∷ cs'))
    ⊎ ((result ≡ some (return tt)) × BlocksFixed items all m)

module _ (items : List LiveRange) (all m : LiveRangeSet) where
  abbrev scan : List (ℕ × LiveRange) → List ℕ → Option (Flow (List ℕ) (Unit {0}))
  scan rs cs = over items bundle_link (find_conflict items m) rs cs

  -- After a hit on a bundle some bundle is in the way.
  after_hit :
      (es : LiveRangeSet) (cs : List ℕ) (b : ℕ) (result : Option (Flow (List ℕ) (Unit {0})))
      → AllBlock items all m (push_new cs b)
      → Scanned items all es m (push_new cs b) result
      → (es' : LiveRangeSet) → Scanned items all es' m cs result
  after_hit es cs b result a (inl (apart, e)) es' =
      let (c, cs', q) = push_new-nonempty cs b in
      inr (inl (c, cs', e ∙ ap (λ xs. some (next xs)) q, cast (push_new cs b) (c ∷ cs') q a))
    where
      cast : (xs ys : List ℕ) → xs ≡ ys → AllBlock items all m xs → AllBlock items all m ys
      cast xs ys q a = rw (← q) a
  after_hit es cs b result a (inr other) es' = inr other

  -- After a range that finds nothing.
  after_miss :
      (k : LiveRangeKey) (i : ℕ) (es : LiveRangeSet) (cs : List ℕ)
      (result : Option (Flow (List ℕ) (Unit {0})))
      → get k m ≡ none
      → Scanned items all es m cs result
      → Scanned items all ((k, i) ∷ es) m cs result
  after_miss k i es cs result g (inl (apart, e)) = inl ((ApartFrom-of_get k m g, apart), e)
  after_miss k i es cs result g (inr other) = inr other

  pub scan_lem :
      (rs : List (ℕ × LiveRange)) (es : LiveRangeSet) (cs : List ℕ)
      → Entries rs es
      → ((k : LiveRangeKey) (i : ℕ) → HasEntry k i es → HasEntry k i all)
      → AllKnown items m
      → AllBlock items all m cs
      → Scanned items all es m cs (scan rs cs)
  unfolding over find_conflict
  scan_lem [] [] cs h sub known a = inl (tt, refl)
  scan_lem [] (x ∷ es) cs h sub known a = elim h [ ]
  scan_lem (x ∷ rs) [] cs h sub known a = elim h [ ]
  scan_lem ((i, r) ∷ rs) ((k, j) ∷ es) cs (entry q h) sub known a = elim (Option-cases (get k m)) [
    | inl g ↦ rw (find_conflict-miss items m i r cs k q g) (
        after_miss k i es cs (scan rs cs) g
          (scan_lem rs es cs h (λ l n e. sub l n (later e)) known a))
    | inr (n, g) ↦
        let (l, hit, there) = HasEntry-of_get k m n g in
        let (p, known_p) = known l n there in
        let found : Overlaps items all m p = record {
          key = k;
          other = l;
          number = i;
          other_number = n;
          key_in = sub k i first;
          other_in = there;
          overlap = hit;
          range_eq = known_p;
        } in
        elim (Bool-cases (Index.is_valid p.vreg)) [
          | inl v ↦
              let blocks : AllBlock items all m (push_new cs p.bundle) =
                AllBlock-push_new items all m cs p.bundle (p, v, refl, found) a in
              rw (find_conflict-hit items m i r cs k q n p g known_p, v)
                (after_hit es cs p.bundle (scan rs (push_new cs p.bundle)) blocks
                  (scan_lem rs es (push_new cs p.bundle) h (λ l n e. sub l n (later e)) known
                    blocks)
                  ((k, i) ∷ es))
          | inr v ↦
              rw (find_conflict-hit items m i r cs k q n p g known_p, v)
                (inr (inr (refl, (p, v, found))))
        ]
  ]

  -- Where nothing overlaps, there is no conflict.
  pub scan-apart :
      (rs : List (ℕ × LiveRange)) (es : LiveRangeSet) (cs : List ℕ)
      → Entries rs es
      → AllApart es m
      → scan rs cs ≡ some (next cs)
  unfolding over
  scan-apart [] es cs h a = refl
  scan-apart (x ∷ rs) [] cs h a = elim h [ ]
  scan-apart ((i, r) ∷ rs) ((k, j) ∷ es) cs (entry q h) a =
      rw (find_conflict-miss items m i r cs k q (get-ApartFrom k m a.0)) (scan-apart rs es cs h a.1)
