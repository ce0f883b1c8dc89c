-- ===== src/Ion/Edits/Resolved.antt =====
-- What the edits of one group do (src/ion/mod.rs, the body of the loop of `resolve_inserted_moves`).
use regalloc2_orig.Prelude.{
  ℕ, ◌≡◌, ◌≢◌, refl, sym, ap, ◌∙◌, arith, true, List, [], ◌∷◌, ◌++◌, Option, some, Bool-cases, inl,
  inr, get_elem?,
}
use mathlib.Core.Path.{fun_ext}
use regalloc2_orig.Reg.{RegClass, class_bits}
use regalloc2_orig.Reg.PReg.{PReg}
use regalloc2_orig.ProgPoint.{ProgPoint, to_index}
use regalloc2_orig.Alloc
use regalloc2_orig.Alloc.{Allocation}
use regalloc2_orig.Function.{move, block_params}
use regalloc2_orig.Moves
use regalloc2_orig.Moves.{Move, ParallelMoves}
use regalloc2_orig.Moves.Semantics.{Distinct, run, write, parallel}
use regalloc2_orig.Moves.Correct.{Avoids, resolve_correct}
use regalloc2_orig.Moves.Stable.{append-nil, append_assoc, All}
use regalloc2_orig.Ion.Edits.{
  InsertMovePrio, InsertedMove, PosEdit, add_edit, add_resolved, resolve_group,
}
use regalloc2_orig.Ion.Edits.Groups.{rank, edit_rank, pairs, add_moves_lem}

-- The moves among edits.
abbrev pub moves_of : List PosEdit → List Move
moves_of [] = []
moves_of ((i, p, move from to) ∷ es) = (from, to) ∷ moves_of es
moves_of ((i, p, block_params vregs allocs) ∷ es) = moves_of es

write_same {ℓ} :
    {V : Type ℓ} (σ : Allocation → V) (a b : Allocation) → Alloc.eq a b ≡ true → write σ b (σ a) ≡ σ
write_same σ a b e = fun_ext (λ c. at c)
  where
    at : (c : Allocation) → write σ b (σ a) c ≡ σ c
    at c = ground (arith, ap σ)

-- Edits that are added at the end, all of one rank, and what they do.
abbrev pub Adds {ℓ} : Type ℓ → ℕ → List PosEdit → Option (List PosEdit) → List Move → Type ℓ
Adds V k edits result ms =
    (out : List PosEdit) × (result ≡ some (edits ++ out))
    × All (λ e. edit_rank e ≡ k) out
    × ((σ : Allocation → V) → run (moves_of out) σ ≡ run ms σ)

add_resolved_lem {ℓ} :
    (V : Type ℓ) (edits : List PosEdit) (pos : ProgPoint) (prio : InsertMovePrio) (ms : List Move)
    (i : ℕ)
    → to_index pos ≡ some i
    → Adds V (rank i prio) edits (add_resolved edits pos prio ms) ms
unfolding add_resolved add_edit
add_resolved_lem V edits pos prio [] i e = ([], ap some (sym (append-nil edits)), tt, λ σ. refl)
add_resolved_lem V edits pos prio ((src, dst) ∷ ms) i e = elim (Bool-cases (Alloc.eq src dst)) [
  | inl same ↦
      let (out, ok, ranks, means) = add_resolved_lem V edits pos prio ms i e in
      (out, rw same ok, ranks, λ σ. means σ ∙ ap (run ms) (sym (write_same σ src dst same)))
  | inr other ↦
      let edit : PosEdit = (i, prio, move src dst) in
      let (out, ok, ranks, means) = add_resolved_lem V (edits ++ edit ∷ []) pos prio ms i e in
      (
        edit ∷ out,
        rw (other, e) (ok ∙ ap some (append_assoc edits (edit ∷ []) out)),
        (refl, ranks),
        λ σ. means (write σ dst (σ src)),
      )
]

-- A group has a scratch register that its moves leave alone, and each destination has one writer.
pub record IsResolvable (scratch_by_class : List PReg) (from : Allocation) (ms : List Move)
    (scratch : Allocation) : Type 0 where
  pub class : RegClass
  pub preg : PReg
  pub class_eq : Alloc.class from ≡ some class
  pub preg_eq : get_elem? scratch_by_class (class_bits class) ≡ some preg
  pub scratch_eq : scratch ≡ Alloc.reg preg
  pub distinct : Distinct ms
  pub avoids : Avoids (Alloc.reg preg) ms

abbrev pub Acts {ℓ} :
    Type ℓ → ℕ → List PosEdit → Option (List PosEdit) → List Move → Allocation → Type ℓ
Acts V k edits result ms scratch =
    (out : List PosEdit) × (result ≡ some (edits ++ out))
    × All (λ e. edit_rank e ≡ k) out
    × ((σ : Allocation → V) (a : Allocation)
        → a ≢ scratch
        → run (moves_of out) σ a ≡ parallel ms σ a)

pub resolve_group_lem {ℓ} :
    (V : Type ℓ) (scratch_by_class : List PReg) (edits : List PosEdit) (m : InsertedMove)
    (ms : List InsertedMove) (i : ℕ) (scratch : Allocation)
    → to_index m.pos ≡ some i
    → IsResolvable scratch_by_class m.from_alloc (pairs ms) scratch
    → Acts V (rank i m.prio) edits (resolve_group scratch_by_class edits m ms) (pairs ms) scratch
unfolding resolve_group Moves.new
resolve_group_lem V scratch_by_class edits m ms i scratch e r =
    let pm : ParallelMoves = record { parallel_moves = pairs ms; scratch = Alloc.reg r.preg } in
    let (seq, resolved, means) = resolve_correct V pm r.distinct r.avoids in
    let (out, ok, ranks, acts) = add_resolved_lem V edits m.pos m.prio seq i e in
    (
      out,
      rw (r.class_eq, r.preg_eq, add_moves_lem (Moves.new (Alloc.reg r.preg)) ms, resolved) ok,
      ranks,
      λ σ a ne. ap (λ f. f a) (acts σ) ∙ means σ a (λ s. ne (s ∙ sym r.scratch_eq)),
    )
