-- ===== src/Ion/Edits/Groups.antt =====
-- The groups of inserted moves: those with one position and priority (src/ion/mod.rs,
-- `resolve_inserted_moves`).
use regalloc2_orig.Prelude.{
  ℕ, ◌+◌, ◌*◌, ◌<◌, ◌≤◌, ◌≡◌, refl, ap, ◌∙◌, arith, Bool, ◌&&◌, ◌==◌, leb, if◌then◌else◌, List, [],
  ◌∷◌, ◌++◌, Bool-cases, inl, inr,
}
use regalloc2_orig.ProgPoint
use regalloc2_orig.ProgPoint.{ProgPoint, to_index}
use regalloc2_orig.ProgPoint.Order.{Fits, position, to_index-eq-position}
use regalloc2_orig.Alloc
use regalloc2_orig.Alloc.{Allocation}
use regalloc2_orig.Moves
use regalloc2_orig.Moves.{Move, ParallelMoves}
use regalloc2_orig.Moves.Stable.{append-nil, append_assoc, All, Above, Above_mono, IsSorted}
use regalloc2_orig.Ion.Edits.{
  InsertMovePrio, prio_bits, InsertedMove, PosEdit, le_key, index_of, span, add_moves,
}

prio_bits-lt : (p : InsertMovePrio) → prio_bits p < 6
prio_bits-lt p = ground arith

-- The place of a key in the order of keys.
abbrev pub rank : ℕ → InsertMovePrio → ℕ
rank i p = 6 * i + prio_bits p

abbrev pub move_rank : InsertedMove → ℕ
move_rank m = rank (index_of m.pos) m.prio

abbrev pub edit_rank : PosEdit → ℕ
edit_rank e = rank e.0 e.1

pub le_key-eq-leb :
    (i j : ℕ) (p q : InsertMovePrio) → le_key (i, p) (j, q) ≡ leb (rank i p) (rank j q)
le_key-eq-leb i j p q = ground (arith, prio_bits-lt p, prio_bits-lt q)

-- Every position fits 32 bits.
abbrev pub AllFit : List InsertedMove → Type 0
AllFit = All (λ m. Fits m.pos)

pub index_of-eq-position : (p : ProgPoint) → Fits p → index_of p ≡ position p
index_of-eq-position p f = ground (arith, to_index-eq-position p f)

-- The test of the inner loop.
abbrev same : ProgPoint → InsertMovePrio → InsertedMove → Bool
same pos prio m = ProgPoint.eq m.pos pos && prio_bits m.prio == prio_bits prio

same-rank :
    (pos : ProgPoint) (prio : InsertMovePrio) (m : InsertedMove)
    → Fits pos
    → Fits m.pos
    → same pos prio m ≡ (move_rank m == rank (index_of pos) prio)
same-rank pos prio m f g = ground (
  arith,
  index_of-eq-position pos f,
  index_of-eq-position m.pos g,
  prio_bits-lt prio,
  prio_bits-lt m.prio,
)

abbrev pub Split : ℕ → List InsertedMove → List InsertedMove → List InsertedMove → Type 0
Split k ms here rest =
    (ms ≡ here ++ rest)
    × All (λ m. move_rank m ≡ k) here
    × Above move_rank (k + 1) rest
    × IsSorted move_rank rest
    × AllFit rest

pub span_lem :
    (pos : ProgPoint) (prio : InsertMovePrio) (ms : List InsertedMove)
    → Fits pos
    → AllFit ms
    → Above move_rank (rank (index_of pos) prio) ms
    → IsSorted move_rank ms
    → Split (rank (index_of pos) prio) ms (span pos prio ms).0 (span pos prio ms).1
unfolding span
span_lem pos prio [] f g a s = (refl, tt, tt, tt, tt)
span_lem pos prio (m ∷ ms) f g a s = elim (Bool-cases (same pos prio m)) [
  | inl e ↦
      let (whole, here, above, sorted, fit) = span_lem pos prio ms f g.1 a.1 s.1 in
      rw e (
        ap (λ xs. m ∷ xs) whole,
        (ground (arith, same-rank pos prio m f g.0), here),
        above,
        sorted,
        fit,
      )
  | inr e ↦
      let k = rank (index_of pos) prio in
      let later : k + 1 ≤ move_rank m = ground (arith, same-rank pos prio m f g.0, a.0) in
      rw e (refl, tt, (later, Above_mono move_rank (k + 1) (move_rank m) ms later s.0), s, g)
]

-- The moves of a group that are not from a place to itself.
abbrev pub pairs : List InsertedMove → List Move
pairs [] = []
pairs (m ∷ ms) =
    if Alloc.eq m.from_alloc m.to_alloc then pairs ms else (m.from_alloc, m.to_alloc) ∷ pairs ms

pub pairs-append : (xs ys : List InsertedMove) → pairs (xs ++ ys) ≡ pairs xs ++ pairs ys
pairs-append [] ys = refl
pairs-append (m ∷ xs) ys = elim (Bool-cases (Alloc.eq m.from_alloc m.to_alloc)) [
  | inl e ↦ rw e (pairs-append xs ys)
  | inr e ↦ rw e (ap (λ zs. (m.from_alloc, m.to_alloc) ∷ zs) (pairs-append xs ys))
]

pub add_moves_lem :
    (pm : ParallelMoves) (ms : List InsertedMove)
    → add_moves pm ms
      ≡ record { parallel_moves = pm.parallel_moves ++ pairs ms; scratch = pm.scratch }
unfolding add_moves Moves.add
add_moves_lem pm [] = ground (arith, append-nil pm.parallel_moves)
add_moves_lem pm (m ∷ ms) = elim (Bool-cases (Alloc.eq m.from_alloc m.to_alloc)) [
  | inl e ↦ rw e (add_moves_lem pm ms)
  | inr e ↦ rw e (
      add_moves_lem (Moves.add pm m.from_alloc m.to_alloc) ms
      ∙ ap (λ xs. record { parallel_moves = xs; scratch = pm.scratch })
          (append_assoc pm.parallel_moves ((m.from_alloc, m.to_alloc) ∷ []) (pairs ms)))
]
