-- ===== src/Ion/Edits/Correct.antt =====
-- `resolve_inserted_moves` as a whole (src/ion/mod.rs).
use regalloc2_orig.Prelude.{
  ℕ, zero, suc, ◌≡◌, ◌⊎◌, refl, sym, ap, ◌∙◌, arith, Bool, true, ◌==◌, leb, ◌||◌, List, [], ◌∷◌,
  ◌++◌, none, some, Bool-cases, Option-cases, inl, inr, length,
}
use mathlib.Core.Path.{fun_ext}
use regalloc2_orig.ProgPoint.{to_index}
use regalloc2_orig.ProgPoint.Order.{Fits}
use regalloc2_orig.Alloc.{Allocation}
use regalloc2_orig.Function.{move, block_params}
use regalloc2_orig.Moves.Semantics.{run, parallel}
use regalloc2_orig.Moves.Sort.{sort_by, length-sort_by}
use regalloc2_orig.Moves.Stable.{
  All, All-sort_by, IsSorted, IsSorted-sort_by, le_by, has_rank, pick-append, pick-sort_by,
  append-nil, append_assoc,
}
use regalloc2_orig.Ion.Edits.{
  block_param, InsertedMove, PosEdit, ParamAlloc, MoveEnv, le_key, index_of, all_valid, le_param,
  sort_edits, sort_moves, describe, span_params, add_edit, add_params, resolve_inserted_moves,
}
use regalloc2_orig.Ion.Edits.Groups.{rank, move_rank, edit_rank, AllFit, le_key-eq-leb, pairs}
use regalloc2_orig.Ion.Edits.Resolved.{moves_of}
use regalloc2_orig.Ion.Edits.Sorted.{GroupOk, moves_at, edits_at, Realises, resolve_groups_lem}

-- The edit describes parameters.
abbrev IsParam : PosEdit → Type 0
IsParam (i, p, move from to) = ⊥
IsParam (i, p, block_params vregs allocs) = Unit

-- The descriptions panic, or are added at the end whatever stands there.
abbrev Describes : ℕ → MoveEnv → List ParamAlloc → Type 0
Describes fuel env ps =
    ((edits : List PosEdit) → add_params fuel env edits ps ≡ none)
    ⊎ ((out : List PosEdit) × All IsParam out
        × ((edits : List PosEdit) → add_params fuel env edits ps ≡ some (edits ++ out)))

add_params_lem : (fuel : ℕ) (env : MoveEnv) (ps : List ParamAlloc) → Describes fuel env ps
unfolding add_params add_edit
add_params_lem zero env ps = inl (λ edits. refl)
add_params_lem (suc fuel) env [] = inr ([], tt, λ edits. ap some (sym (append-nil edits)))
add_params_lem (suc fuel) env (p ∷ ps) =
    let here = (span_params p.0 ps).0 in
    let rest = (span_params p.0 ps).1 in
    elim (Option-cases (describe env p.0 (p ∷ here))) [
      | inl e ↦ inl (λ edits. rw e)
      | inr ((entry, vregs, allocs), e) ↦ elim (Option-cases (to_index entry)) [
        | inl f ↦ inl (λ edits. rw (e, f))
        | inr (i, f) ↦
            let edit : PosEdit = (i, block_param, block_params vregs allocs) in
            elim (add_params_lem fuel env rest) [
              | inl panics ↦ inl (λ edits. rw (e, f) (panics (edits ++ edit ∷ [])))
              | inr (out, params, adds) ↦ inr (
                edit ∷ out,
                (tt, params),
                λ edits.
                    rw (e, f)
                      (adds (edits ++ edit ∷ []) ∙ ap some (append_assoc edits (edit ∷ []) out)),
              )
            ]
      ]
    ]

moves_of-append : (xs ys : List PosEdit) → moves_of (xs ++ ys) ≡ moves_of xs ++ moves_of ys
moves_of-append [] ys = refl
moves_of-append ((i, p, move from to) ∷ xs) ys = ap (λ zs. (from, to) ∷ zs) (moves_of-append xs ys)
moves_of-append ((i, p, block_params vregs allocs) ∷ xs) ys = moves_of-append xs ys

-- Descriptions hold no moves.
no_moves : (k : ℕ) (es : List PosEdit) → All IsParam es → moves_of (edits_at k es) ≡ []
no_moves k [] a = refl
no_moves k ((i, p, move from to) ∷ es) a = absurd a.0
no_moves k ((i, p, block_params vregs allocs) ∷ es) a = elim (Bool-cases (rank i p == k)) [
  | inl e ↦ rw e (no_moves k es a.1)
  | inr e ↦ rw e (no_moves k es a.1)
]

moves-params :
    (k : ℕ) (xs ys : List PosEdit)
    → All IsParam ys
    → moves_of (edits_at k (xs ++ ys)) ≡ moves_of (edits_at k xs)
moves-params k xs ys a = rw (pick-append (has_rank edit_rank k) xs ys) (
    moves_of-append (edits_at k xs) (edits_at k ys)
    ∙ ap (λ zs. moves_of (edits_at k xs) ++ zs) (no_moves k ys a)
    ∙ append-nil (moves_of (edits_at k xs)))

le_moves :
    (λ (m n : InsertedMove). le_key (index_of m.pos, m.prio) (index_of n.pos, n.prio))
    ≡ le_by move_rank
le_moves =
    fun_ext (λ m. fun_ext (λ n. le_key-eq-leb (index_of m.pos) (index_of n.pos) m.prio n.prio))

le_edits : (λ (e f : PosEdit). le_key (e.0, e.1) (f.0, f.1)) ≡ le_by edit_rank
le_edits = fun_ext (λ e. fun_ext (λ f. le_key-eq-leb e.0 f.0 e.1 f.1))

all_valid_of_fit : (ms : List InsertedMove) → AllFit ms → all_valid ms ≡ true
all_valid_of_fit [] f = refl
all_valid_of_fit (m ∷ ms) f = ground (arith, all_valid_of_fit ms f.1)

abbrev sorted : List InsertedMove → List InsertedMove
sorted ms = sort_by (le_by move_rank) ms

or_true : (a b : Bool) → b ≡ true → (a || b) ≡ true
or_true a b h = ground arith

sort_moves_lem : (ms : List InsertedMove) → AllFit ms → sort_moves ms ≡ some (sorted ms)
unfolding sort_moves
sort_moves_lem ms f =
    rw (or_true (leb (length ms) 1) (all_valid ms) (all_valid_of_fit ms f))
      (ap (λ le. some (sort_by le ms)) le_moves)

sort_edits_lem : (es : List PosEdit) → sort_edits es ≡ sort_by (le_by edit_rank) es
sort_edits_lem es = ap (λ le. sort_by le es) le_edits

-- The moves at a key are resolvable, as the groups are formed from the sorted moves.
sorted_ok :
    (k : ℕ) (ms : List InsertedMove) (env : MoveEnv) (scratch : Allocation)
    → GroupOk env.scratch_by_class scratch (moves_at k ms)
    → GroupOk env.scratch_by_class scratch (moves_at k (sorted ms))
sorted_ok k ms env scratch ok = rw (pick-sort_by move_rank k ms) ok

-- Where the positions of the inserted moves fit 32 bits, the moves of each position and priority are
-- resolvable, and the descriptions of the block parameters do not panic, `resolve_inserted_moves`
-- returns: it does not panic and its loops end. The edits are in the order of positions and
-- priorities. For each position and priority, the moves among its edits, run one after the other,
-- leave in every allocation but the scratch register what the moves inserted there, taken in
-- parallel, leave.
pub resolve_inserted_moves_lem {ℓ} :
    (V : Type ℓ) (env : MoveEnv) (ms : List InsertedMove) (ps : List ParamAlloc)
    (described : List PosEdit) (scratch : ℕ → Allocation)
    → AllFit ms
    → ((k : ℕ) → GroupOk env.scratch_by_class (scratch k) (moves_at k ms))
    → add_params (suc (length ps)) env [] (sort_by le_param ps) ≡ some described
    → (es : List PosEdit) × (resolve_inserted_moves env ms ps [] ≡ some es)
      × IsSorted edit_rank es
      × Realises V scratch ms es
unfolding resolve_inserted_moves
resolve_inserted_moves_lem V env ms ps described scratch fit ok d =
    let (out, r, keeps, acts) =
      resolve_groups_lem V env.scratch_by_class scratch (suc (length (sorted ms))) [] (sorted ms)
        (omega arith) (All-sort_by move_rank (λ m. Fits m.pos) ms fit)
        (IsSorted-sort_by move_rank ms) (λ k. sorted_ok k ms env (scratch k) (ok k)) in
    elim (add_params_lem (suc (length ps)) env (sort_by le_param ps)) [
      | inl panics ↦ cc (panics [])
      | inr (params, are, adds) ↦
          let es = sort_by (le_by edit_rank) (out ++ params) in
          (
            es,
            rw (sort_moves_lem ms fit, r, length-sort_by le_param ps, adds out)
                (ap some (sort_edits_lem (out ++ params))),
            IsSorted-sort_by edit_rank (out ++ params),
            λ k σ a ne.
                ap (λ xs. run (moves_of xs) σ a) (pick-sort_by edit_rank k (out ++ params))
                ∙ ap (λ xs. run xs σ a) (moves-params k out params are)
                ∙ acts k σ a ne
                ∙ ap (λ xs. parallel (pairs xs) σ a) (pick-sort_by move_rank k ms),
          )
    ]
