-- ===== src/Moves/Correct.antt =====
-- `ParallelMoves::resolve` as a whole (src/moves.rs).
use regalloc2_orig.Prelude.{
  ℕ, zero, suc, ◌<◌, ◌≤◌, ◌≡◌, ◌≢◌, refl, none, some, Bool, false, List, [], ◌∷◌, arith, length,
  leb, Bool-cases, Option-cases, inl, inr, ◌∙◌, get_elem?, ap,
}
use regalloc2_orig.Alloc
use regalloc2_orig.Alloc.{Allocation}
use regalloc2_orig.Moves.{
  Move, ParallelMoves, search, overlap, is_ok, sources_overlap_dests, order, resolve, le_move,
  le_dst,
}
use regalloc2_orig.Moves.Sort.{insert_by, sort_by, length-sort_by}
use regalloc2_orig.Moves.Semantics.{
  lookup, Distinct, read, write, run, parallel, eq_of_eq, eq_refl, lookup-sort_by, Distinct-sort_by,
}
use regalloc2_orig.Moves.Loop.{order_lem}

-- No move reads or writes `a`.
abbrev pub Avoids : Allocation → List Move → Type 0
Avoids a [] = Unit
Avoids a (m ∷ ms) = (m.0 ≢ a) × (m.1 ≢ a) × Avoids a ms

-- No move reads `a`.
abbrev Unread : Allocation → List Move → Type 0
Unread a [] = Unit
Unread a (m ∷ ms) = (m.0 ≢ a) × Unread a ms

-- No move reads what an earlier one has overwritten.
abbrev Clear : List Move → Type 0
Clear [] = Unit
Clear (m ∷ ms) = Unread m.1 ms × Clear ms

lookup-Unread : (ms : List Move) (d a : Allocation) → Unread d ms → lookup ms a ≢ some d
lookup-Unread [] d a u = cc
lookup-Unread (m ∷ ms) d a u = ground (arith, lookup-Unread ms d a u.1)

run-eq-parallel {ℓ} :
    {V : Type ℓ} (ms : List Move) (σ : Allocation → V) (a : Allocation)
    → Clear ms
    → Distinct ms
    → run ms σ a ≡ parallel ms σ a
run-eq-parallel [] σ a c d = refl
run-eq-parallel (m ∷ ms) σ a c d = elim (Option-cases (lookup ms a)) [
  | inl e ↦ ground (arith, run-eq-parallel ms (write σ m.1 (σ m.0)) a c.1 d.1)
  | inr (s, e) ↦ ground (
    arith,
    run-eq-parallel ms (write σ m.1 (σ m.0)) a c.1 d.1,
    lookup-Unread ms m.1 a c.0,
    eq_of_eq m.1 s,
    eq_of_eq m.1 a,
    d.0,
  )
]

Unread-search :
    (ms : List Move) (a : Allocation) → is_ok (search (λ m. m.0) a ms) ≡ false → Unread a ms
unfolding search
Unread-search [] a h = tt
Unread-search (m ∷ ms) a h = elim (Bool-cases (Alloc.eq m.0 a)) [
  | inl e ↦ absurd (ground (arith, e, h))
  | inr e ↦ (
    ground (arith, eq_refl a),
    Unread-search ms a (ground (arith, h, e, Option-cases (search (λ (k : Move). k.0) a ms))),
  )
]

Clear-overlap :
    (all ds : List Move)
    → ((a : Allocation) → Unread a all → Unread a ds)
    → overlap all ds ≡ false
    → Clear ds
unfolding overlap
Clear-overlap all [] sub h = tt
Clear-overlap all (d ∷ ds) sub h = elim (Bool-cases (is_ok (search (λ m. m.0) d.1 all))) [
  | inl e ↦ absurd (ground (arith, e, h))
  | inr e ↦ (
    (sub d.1 (Unread-search all d.1 e)).1,
    Clear-overlap all ds (λ a u. (sub a u).1) (ground (arith, e, h)),
  )
]

module _ (le : Move → Move → Bool) (a : Allocation) where
  Avoids-insert_by : (m : Move) (ms : List Move) → Avoids a (m ∷ ms) → Avoids a (insert_by le m ms)
  unfolding insert_by
  Avoids-insert_by m [] h = h
  Avoids-insert_by m (k ∷ ms) h = elim (Bool-cases (le m k)) [
    | inl e ↦ rw e h
    | inr e ↦ rw e (h.2.0, h.2.1, Avoids-insert_by m ms (h.0, h.1, h.2.2))
  ]

  Avoids-sort_by : (ms : List Move) → Avoids a ms → Avoids a (sort_by le ms)
  unfolding sort_by
  Avoids-sort_by [] h = tt
  Avoids-sort_by (m ∷ ms) h = Avoids-insert_by m (sort_by le ms) (h.0, h.1, Avoids-sort_by ms h.2)

Avoids-lookup : (ms : List Move) (a : Allocation) → Avoids a ms → lookup ms a ≡ none
Avoids-lookup [] a h = refl
Avoids-lookup (m ∷ ms) a h = ground (arith, eq_of_eq m.1 a, Avoids-lookup ms a h.2)

Avoids-source :
    (ms : List Move) (a : Allocation) (i : ℕ) (m : Move)
    → Avoids a ms
    → get_elem? ms i ≡ some m
    → m.0 ≢ a
Avoids-source [] a i m h e = cc
Avoids-source (k ∷ ms) a zero m h e = ground (arith, h.0)
Avoids-source (k ∷ ms) a (suc i) m h e = Avoids-source ms a i m h.2 e

-- What a resolved sequence promises.
abbrev pub Resolves {ℓ} : Type ℓ → ParallelMoves → List Move → Type ℓ
Resolves V m seq =
    (σ : Allocation → V) (a : Allocation)
    → a ≢ m.scratch
    → run seq σ a ≡ parallel m.parallel_moves σ a

resolve_short {ℓ} :
    (V : Type ℓ) (ms : List Move)
    → length ms ≤ 1
    → Distinct ms
    → (σ : Allocation → V) (a : Allocation) → run ms σ a ≡ parallel ms σ a
resolve_short V [] h d σ a = refl
resolve_short V (m ∷ []) h d σ a = run-eq-parallel (m ∷ []) σ a (tt, tt) d
resolve_short V (m ∷ k ∷ ms) h d σ a = absurd (omega arith)

module _ {ℓ} (V : Type ℓ) (ms : List Move) (scratch : Allocation) (d : Distinct ms)
    (avoids : Avoids scratch ms) where
  abbrev sorted : List Move
  sorted = sort_by le_move ms

  abbrev by_dst : List Move
  by_dst = sort_by le_dst sorted

  sorted-Distinct : Distinct sorted
  sorted-Distinct = Distinct-sort_by le_move ms d

  resolve_disjoint :
      sources_overlap_dests sorted ≡ false
      → (σ : Allocation → V) (a : Allocation) → run sorted σ a ≡ parallel ms σ a
  unfolding sources_overlap_dests
  resolve_disjoint h σ a =
      run-eq-parallel sorted σ a (Clear-overlap sorted sorted (λ b u. u) h) sorted-Distinct
      ∙ ap (read σ a) (lookup-sort_by le_move ms a d)

  resolve_order :
      1 < length ms
      → (seq : List Move) × (order by_dst scratch ≡ some seq)
        × ((σ : Allocation → V) (a : Allocation) → a ≢ scratch → run seq σ a ≡ parallel ms σ a)
  resolve_order h =
      let av = Avoids-sort_by le_dst scratch sorted (Avoids-sort_by le_move scratch ms avoids) in
      let (seq, e, means) =
        order_lem V by_dst scratch (Distinct-sort_by le_dst sorted sorted-Distinct)
          (Avoids-lookup by_dst scratch av) (λ i m. Avoids-source by_dst scratch i m av)
          (omega (arith, length-sort_by le_dst sorted, length-sort_by le_move ms)) in
      (
        seq,
        e,
        λ σ a ne.
            means σ a ne
            ∙ ap (read σ a)
                (lookup-sort_by le_dst sorted a sorted-Distinct ∙ lookup-sort_by le_move ms a d),
      )

-- Where each destination has one writer and no move mentions the scratch location, `resolve`
-- returns: it does not panic and its loop ends. The moves it returns, run one after the other,
-- leave in every allocation but the scratch location what the parallel move leaves there: the
-- destinations get their sources' old contents, and all else is unchanged.
pub resolve_correct {ℓ} :
    (V : Type ℓ) (m : ParallelMoves)
    → Distinct m.parallel_moves
    → Avoids m.scratch m.parallel_moves
    → (seq : List Move) × (resolve m ≡ some seq) × Resolves V m seq
unfolding resolve
resolve_correct V m d avoids =
    let ms = m.parallel_moves in
    elim (Bool-cases (leb (length ms) 1)) [
      | inl short ↦ (ms, rw short, λ σ a ne. resolve_short V ms (ground arith) d σ a)
      | inr long ↦ elim (Bool-cases (sources_overlap_dests (sort_by le_move ms))) [
        | inl e ↦
            let (seq, run_eq, means) = resolve_order V ms m.scratch d avoids (ground arith) in
            (seq, rw (long, e) run_eq, means)
        | inr e ↦ (
          sort_by le_move ms,
          rw (long, e),
          λ σ a ne. resolve_disjoint V ms m.scratch d avoids e σ a,
        )
      ]
    ]
