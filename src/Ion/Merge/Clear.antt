-- ===== src/Ion/Merge/Clear.antt =====
-- The search for an overlap of two bundles (src/ion/mod.rs, `merge_bundles`).
use regalloc2_orig.Prelude.{
  ℕ, zero, suc, ◌+◌, ◌≡◌, ◌≢◌, ◌≤◌, ◌<◌, Bool, true, false, List, [], ◌∷◌, some, refl, ◌⊎◌, inl,
  inr, ◌>>=◌, Bool-cases, arith, length, ap, ◌∙◌,
}
use regalloc2_orig.Index
use regalloc2_orig.ProgPoint
use regalloc2_orig.ProgPoint.Order.{position, position-le}
use regalloc2_orig.Ion.Range.{CodeRange, overlaps}
use regalloc2_orig.Ion.Overlap.{IsProper, overlaps-positions}
use regalloc2_orig.Ion.Env.{LiveRange, at, at-some}
use regalloc2_orig.Ion.Merge.{check_apart}

-- The code of the ranges that the links of a bundle lead to, in order.
abbrev pub Chain : List LiveRange → ℕ → List CodeRange → Type 0
Chain ranges iter [] = Index.is_valid iter ≡ false
Chain ranges iter (c ∷ cs) =
    (r : LiveRange) × (at ranges iter ≡ some r) × (r.range ≡ c) × Chain ranges r.next_in_bundle cs

-- All ranges start at `k` or after it.
abbrev pub AllStart : ℕ → List CodeRange → Type 0
AllStart k [] = Unit {0}
AllStart k (c ∷ cs) = (k ≤ position c.from) × AllStart k cs

-- Every range has a point, and ends before the ones that follow it start.
abbrev pub Ordered : List CodeRange → Type 0
Ordered [] = Unit {0}
Ordered (c ∷ cs) = IsProper c × AllStart (position c.to) cs × Ordered cs

abbrev pub NoOverlap : CodeRange → List CodeRange → Type 0
NoOverlap c [] = Unit {0}
NoOverlap c (d ∷ ds) = (overlaps c d ≡ false) × NoOverlap c ds

-- No range of the one list overlaps a range of the other.
abbrev pub Clear : List CodeRange → List CodeRange → Type 0
Clear [] ds = Unit {0}
Clear (c ∷ cs) ds = NoOverlap c ds × Clear cs ds

apart-before : (c d : CodeRange) → position c.to ≤ position d.from → overlaps c d ≡ false
apart-before c d h = ground (arith, overlaps-positions c d)

apart-after : (c d : CodeRange) → position d.to ≤ position c.from → overlaps c d ≡ false
apart-after c d h = ground (arith, overlaps-positions c d)

AllStart-le : (k l : ℕ) (cs : List CodeRange) → k ≤ l → AllStart l cs → AllStart k cs
AllStart-le k l [] h s = tt
AllStart-le k l (c ∷ cs) h s = (omega (arith, s.0), AllStart-le k l cs h s.1)

NoOverlap-AllStart :
    (c : CodeRange) (ds : List CodeRange) → AllStart (position c.to) ds → NoOverlap c ds
NoOverlap-AllStart c [] s = tt
NoOverlap-AllStart c (d ∷ ds) s = (apart-before c d s.0, NoOverlap-AllStart c ds s.1)

-- A range that ends before all ranges of the first list start is one more of the second.
Clear-add :
    (d : CodeRange) (cs ds : List CodeRange)
    → AllStart (position d.to) cs
    → Clear cs ds
    → Clear cs (d ∷ ds)
Clear-add d [] ds s f = tt
Clear-add d (c ∷ cs) ds s f = ((apart-after c d s.0, f.0), Clear-add d cs ds s.1 f.1)

Clear-drop : (d : CodeRange) (cs ds : List CodeRange) → Clear cs (d ∷ ds) → Clear cs ds
Clear-drop d [] ds f = tt
Clear-drop d (c ∷ cs) ds f = ((f.0).1, Clear-drop d cs ds f.1)

Ordered-AllStart :
    (k : ℕ) (c : CodeRange) (cs : List CodeRange)
    → k ≤ position c.from
    → Ordered (c ∷ cs)
    → AllStart k (c ∷ cs)
Ordered-AllStart k c cs h o = (h, AllStart-le k (position c.to) cs (omega (arith, o.0)) o.1)

-- What the answer of the search says, with `left` rounds left.
abbrev pub Decides : ℕ → List CodeRange → List CodeRange → Bool → Type 0
Decides left cs ds true = Clear cs ds
Decides left cs ds false = (¬ Clear cs ds) ⊎ (left + 1 < length cs + length ds)

Clear-none : (cs : List CodeRange) → Clear cs []
Clear-none [] = tt
Clear-none (c ∷ cs) = (tt, Clear-none cs)

-- The answer of a search with one range of the second list dropped.
Decides-right :
    (left : ℕ) (c d : CodeRange) (cs ds : List CodeRange) (r : Bool)
    → Ordered (c ∷ cs)
    → position d.to ≤ position c.from
    → Decides left (c ∷ cs) ds r
    → Decides (suc left) (c ∷ cs) (d ∷ ds) r
Decides-right left c d cs ds true o h f =
    Clear-add d (c ∷ cs) ds (Ordered-AllStart (position d.to) c cs h o) f
Decides-right left c d cs ds false o h (inl n) = inl (λ f. n (Clear-drop d (c ∷ cs) ds f))
Decides-right left c d cs ds false o h (inr l) = inr (omega arith)

-- The answer of a search with one range of the first list dropped.
Decides-left :
    (left : ℕ) (c d : CodeRange) (cs ds : List CodeRange) (r : Bool)
    → Ordered (d ∷ ds)
    → position c.to ≤ position d.from
    → Decides left cs (d ∷ ds) r
    → Decides (suc left) (c ∷ cs) (d ∷ ds) r
Decides-left left c d cs ds true o h f =
    (NoOverlap-AllStart c (d ∷ ds) (Ordered-AllStart (position c.to) d ds h o), f)
Decides-left left c d cs ds false o h (inl n) = inl (λ f. n f.1)
Decides-left left c d cs ds false o h (inr l) = inr (omega arith)

meets :
    (c d : CodeRange)
    → ProgPoint.le d.to c.from ≡ false
    → ProgPoint.le c.to d.from ≡ false
    → overlaps c d ≢ false
meets c d u v e =
    ground (arith, position-le d.to c.from, position-le c.to d.from, overlaps-positions c d)

same_le :
    {a b c d : CodeRange} → a ≡ b → c ≡ d → ProgPoint.le a.to c.from ≡ ProgPoint.le b.to d.from
same_le {b = b} {c = c} e h =
    ap (λ x. ProgPoint.le x.to c.from) e ∙ ap (λ x. ProgPoint.le b.to x.from) h

pub check_apart_lem :
    (left : ℕ) (ranges : List LiveRange) (iter0 iter1 : ℕ) (cs ds : List CodeRange)
    → Chain ranges iter0 cs
    → Chain ranges iter1 ds
    → Ordered cs
    → Ordered ds
    → (r : Bool) × (check_apart left ranges iter0 iter1 ≡ some r) × Decides left cs ds r
unfolding check_apart
check_apart_lem zero ranges iter0 iter1 [] ds a b oc od = (true, rw (check_apart, a) refl, tt)
check_apart_lem zero ranges iter0 iter1 (c ∷ cs) [] (r0, h0, e0, a) b oc od =
    (true, rw (check_apart, (at-some ranges iter0 r0 h0).0, b) refl, Clear-none (c ∷ cs))
check_apart_lem zero ranges iter0 iter1 (c ∷ cs) (d ∷ ds) (r0, h0, e0, a) (r1, h1, e1, b) oc od = (
  false,
  rw (check_apart, (at-some ranges iter0 r0 h0).0, (at-some ranges iter1 r1 h1).0) refl,
  inr (omega arith),
)
check_apart_lem (suc left) ranges iter0 iter1 [] ds a b oc od = (true, rw (check_apart, a) refl, tt)
check_apart_lem (suc left) ranges iter0 iter1 (c ∷ cs) [] (r0, h0, e0, a) b oc od =
    (true, rw (check_apart, (at-some ranges iter0 r0 h0).0, b) refl, Clear-none (c ∷ cs))
check_apart_lem (suc left) ranges iter0 iter1 (c ∷ cs) (d ∷ ds) (r0, h0, e0, a) (r1, h1, e1, b) oc
      od =
    let (v0, g0) = at-some ranges iter0 r0 h0 in
    let (v1, g1) = at-some ranges iter1 r1 h1 in
    let first : ProgPoint.le r1.range.to r0.range.from ≡ ProgPoint.le d.to c.from = same_le e1 e0 in
    let second : ProgPoint.le r0.range.to r1.range.from ≡ ProgPoint.le c.to d.from =
      same_le e0 e1 in
    elim (Bool-cases (ProgPoint.le d.to c.from)) [
      | inl u ↦
          let (r, e, s) =
            check_apart_lem left ranges iter0 r1.next_in_bundle (c ∷ cs) ds (r0, h0, e0, a) b oc
              od.2 in
          (
            r,
            rw (check_apart, v0, v1, g0, g1, ◌>>=◌, first ∙ u) e,
            Decides-right left c d cs ds r oc ((position-le d.to c.from).0 u) s,
          )
      | inr u ↦ elim (Bool-cases (ProgPoint.le c.to d.from)) [
        | inl w ↦
            let (r, e, s) =
              check_apart_lem left ranges r0.next_in_bundle iter1 cs (d ∷ ds) a (r1, h1, e1, b) oc.2
                od in
            (
              r,
              rw (check_apart, v0, v1, g0, g1, ◌>>=◌, first ∙ u, second ∙ w) e,
              Decides-left left c d cs ds r od ((position-le c.to d.from).0 w) s,
            )
        | inr w ↦ (
          false,
          rw (check_apart, v0, v1, g0, g1, ◌>>=◌, first ∙ u, second ∙ w) refl,
          inl (λ f. meets c d u w ((f.0).0)),
        )
      ]
    ]
