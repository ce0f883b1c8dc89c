-- ===== src/Ion/Edits/Sorted.antt =====
-- The edits of all inserted moves, group by group and in order (src/ion/mod.rs,
-- `resolve_inserted_moves`).
use regalloc2_orig.Prelude.{
  ℕ, zero, suc, ◌+◌, ◌<◌, ◌≡◌, ◌≢◌, refl, sym, ap, ◌∙◌, arith, ◌==◌, List, [], ◌∷◌, ◌++◌, Option,
  some, ==_refl, Bool-cases, inl, inr, length, length-append,
}
use regalloc2_orig.Reg.PReg.{PReg}
use regalloc2_orig.ProgPoint.{ProgPoint, to_index}
use regalloc2_orig.ProgPoint.Order.{Fits, to_index-eq-position}
use regalloc2_orig.Alloc.{Allocation}
use regalloc2_orig.Moves.Semantics.{run, parallel}
use regalloc2_orig.Moves.Stable.{
  All, Above, Above_mono, Above-append, Above-tail, Above-of_all, IsSorted, has_rank, pick,
  pick-split, pick-Above, append-nil, append_assoc,
}
use regalloc2_orig.Ion.Edits.{InsertedMove, PosEdit, index_of, span, resolve_groups}
use regalloc2_orig.Ion.Edits.Groups.{
  move_rank, edit_rank, AllFit, index_of-eq-position, span_lem, pairs,
}
use regalloc2_orig.Ion.Edits.Resolved.{IsResolvable, moves_of, resolve_group_lem}

to_index-eq-index_of : (p : ProgPoint) → Fits p → to_index p ≡ some (index_of p)
to_index-eq-index_of p f = to_index-eq-position p f ∙ ap some (sym (index_of-eq-position p f))

-- A group is empty or resolvable.
abbrev pub GroupOk : List PReg → Allocation → List InsertedMove → Type 0
GroupOk scratch_by_class scratch [] = Unit
GroupOk scratch_by_class scratch (m ∷ ms) =
    IsResolvable scratch_by_class m.from_alloc (pairs (m ∷ ms)) scratch

-- The moves of one key, and the edits of one key.
abbrev pub moves_at : ℕ → List InsertedMove → List InsertedMove
moves_at k ms = pick (has_rank move_rank k) ms

abbrev pub edits_at : ℕ → List PosEdit → List PosEdit
edits_at k es = pick (has_rank edit_rank k) es

-- For each key the edits do what its moves mean.
abbrev pub Realises {ℓ} : Type ℓ → (ℕ → Allocation) → List InsertedMove → List PosEdit → Type ℓ
Realises V scratch ms es =
    (k : ℕ) (σ : Allocation → V) (a : Allocation)
    → a ≢ scratch k
    → run (moves_of (edits_at k es)) σ a ≡ parallel (pairs (moves_at k ms)) σ a

module _ {ℓ} (V : Type ℓ) (scratch_by_class : List PReg) (scratch : ℕ → Allocation) where
  -- Edits at the end that keep above what the moves are above.
  abbrev Appends : List PosEdit → List InsertedMove → Option (List PosEdit) → Type ℓ
  Appends edits ms result =
      (out : List PosEdit) × (result ≡ some (edits ++ out))
      × ((j : ℕ) → Above move_rank j ms → Above edit_rank j out)
      × Realises V scratch ms out

  abbrev AllOk : List InsertedMove → Type 0
  AllOk ms = (k : ℕ) → GroupOk scratch_by_class (scratch k) (moves_at k ms)

  GroupOk-cast :
      (k : ℕ) (xs ys : List InsertedMove)
      → xs ≡ ys
      → GroupOk scratch_by_class (scratch k) xs
      → GroupOk scratch_by_class (scratch k) ys
  GroupOk-cast k xs ys e g = rw (← e) g

  -- What the moves before the rest contribute is one group.
  AllOk-rest :
      (j : ℕ) (group rest : List InsertedMove)
      → All (λ m. move_rank m ≡ j) group
      → Above move_rank (j + 1) rest
      → AllOk (group ++ rest)
      → AllOk rest
  AllOk-rest j group rest g r ok k = elim (Bool-cases (j == k)) [
    | inl e ↦
        let same : j ≡ k = ground arith in
        GroupOk-cast k [] (moves_at k rest)
          (sym (
            pick-Above move_rank k rest
              (Above_mono move_rank (k + 1) (j + 1) rest (omega arith) r)))
          tt
    | inr e ↦
        GroupOk-cast k (moves_at k (group ++ rest)) (moves_at k rest)
          (pick-split move_rank j k group rest g r ∙ rw e) (ok k)
  ]

  Above_cast :
      (k : ℕ) (xs ys : List InsertedMove) → xs ≡ ys → Above move_rank k xs → Above move_rank k ys
  Above_cast k xs ys e a = rw (← e) a

  Realises-append :
      (j : ℕ) (group rest : List InsertedMove) (out0 out1 : List PosEdit)
      → All (λ m. move_rank m ≡ j) group
      → Above move_rank (j + 1) rest
      → All (λ e. edit_rank e ≡ j) out0
      → Above edit_rank (j + 1) out1
      → ((σ : Allocation → V) (a : Allocation)
          → a ≢ scratch j
          → run (moves_of out0) σ a ≡ parallel (pairs group) σ a)
      → Realises V scratch rest out1
      → Realises V scratch (group ++ rest) (out0 ++ out1)
  Realises-append j group rest out0 out1 g r o p acts later k σ a ne = elim (Bool-cases (j == k)) [
    | inl e ↦
        let same : j ≡ k = ground arith in
        rw (pick-split move_rank j k group rest g r, pick-split edit_rank j k out0 out1 o p, e)
          (acts σ a (λ s. ne (s ∙ ap scratch same)))
    | inr e ↦
        rw (pick-split move_rank j k group rest g r, pick-split edit_rank j k out0 out1 o p, e)
          (later k σ a ne)
  ]

  pub resolve_groups_lem :
      (fuel : ℕ) (edits : List PosEdit) (ms : List InsertedMove)
      → length ms < fuel
      → AllFit ms
      → IsSorted move_rank ms
      → AllOk ms
      → Appends edits ms (resolve_groups fuel scratch_by_class edits ms)
  unfolding resolve_groups
  resolve_groups_lem zero edits ms h f s ok = absurd (omega arith)
  resolve_groups_lem (suc fuel) edits [] h f s ok =
      ([], ap some (sym (append-nil edits)), (λ j a. tt), λ k σ a ne. refl)
  resolve_groups_lem (suc fuel) edits (m ∷ ms) h f s ok =
      let j = move_rank m in
      let here = (span m.pos m.prio ms).0 in
      let rest = (span m.pos m.prio ms).1 in
      let (whole, group, above, sorted, fit) = span_lem m.pos m.prio ms f.0 f.1 s.0 s.1 in
      let all : AllOk ((m ∷ here) ++ rest) = λ k.
        GroupOk-cast k (moves_at k (m ∷ ms)) (moves_at k ((m ∷ here) ++ rest))
          (ap (λ xs. moves_at k (m ∷ xs)) whole) (ok k) in
      let ok0 : GroupOk scratch_by_class (scratch j) (m ∷ here) =
        GroupOk-cast j (moves_at j ((m ∷ here) ++ rest)) (m ∷ here)
          (pick-split move_rank j j (m ∷ here) rest (refl, group) above ∙ rw (==_refl j)) (all j) in
      let (out0, r0, ranks, acts) =
        resolve_group_lem V scratch_by_class edits m (m ∷ here) (index_of m.pos) (scratch j)
          (to_index-eq-index_of m.pos f.0) ok0 in
      let (out1, r1, keeps, later) =
        resolve_groups_lem fuel (edits ++ out0) rest
          (omega (arith, ap length whole, length-append here rest)) fit sorted
          (AllOk-rest j (m ∷ here) rest (refl, group) above all) in
      (
        out0 ++ out1,
        rw r0 (r1 ∙ ap some (append_assoc edits out0 out1)),
        (λ i a. Above-append edit_rank i out0 out1 (Above-of_all edit_rank i j out0 a.0 ranks) (
            keeps i (Above-tail move_rank i here rest (Above_cast i ms (here ++ rest) whole a.1)))),
        λ k σ a ne.
            Realises-append j (m ∷ here) rest out0 out1 (refl, group) above ranks
              (keeps (j + 1) above) acts later k σ a ne
            ∙ ap (λ xs. parallel (pairs (moves_at k (m ∷ xs))) σ a) (sym whole),
      )
