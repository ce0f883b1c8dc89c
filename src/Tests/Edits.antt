-- ===== src/Tests/Edits.antt =====
-- The insertion of moves at concrete values: two registers are swapped before instruction 7.
use regalloc2_orig.Prelude.{
  ℕ, ◌+◌, ◌^◌, ◌≡◌, ◌==◌, if◌then◌else◌, List, [], ◌∷◌, some, refl, arith, Bool-cases, inl, inr,
}
use regalloc2_orig.Reg.{int, float}
use regalloc2_orig.Reg.PReg
use regalloc2_orig.Reg.PReg.{PReg}
use regalloc2_orig.ProgPoint
use regalloc2_orig.ProgPoint.{ProgPoint, to_index}
use regalloc2_orig.Alloc
use regalloc2_orig.Alloc.{Allocation}
use regalloc2_orig.Function.{move, block_params}
use regalloc2_orig.Moves
use regalloc2_orig.Ion.Edits.Groups.{pairs}
use regalloc2_orig.Ion.Edits.Resolved.{IsResolvable}
use regalloc2_orig.Moves.Stable.{IsSorted}
use regalloc2_orig.Ion.Edits.{
  InsertedMove, regular, block_param, MoveEnv, ParamAlloc, PosEdit, add_params, le_param,
  resolve_inserted_moves,
}
use regalloc2_orig.Ion.Edits.Groups.{edit_rank}
use regalloc2_orig.Ion.Edits.Sorted.{GroupOk, moves_at, Realises}
use regalloc2_orig.Ion.Edits.Correct.{resolve_inserted_moves_lem}
use regalloc2_orig.Moves.Sort.{sort_by}

abbrev r1 : Allocation
r1 = record { bits = 2 ^ 29 + 1 }

abbrev r2 : Allocation
r2 = record { bits = 2 ^ 29 + 2 }

abbrev int_scratch : PReg
int_scratch = record { hw_enc = 31; class = int }

abbrev float_scratch : PReg
float_scratch = record { hw_enc = 31; class = float }

abbrev here : ProgPoint
here = record { inst = 7; pos = ProgPoint.before }

-- One block with one parameter.
abbrev env : MoveEnv
env = record {
  scratch_by_class = int_scratch ∷ float_scratch ∷ [];
  vregs = record { bits = 0 } ∷ [];
  block_params = λ b. record { bits = 0 } ∷ [];
  block_entry = record { inst = 0; pos = ProgPoint.before } ∷ [];
}

abbrev moves : List InsertedMove
moves =
    record { pos = here; prio = regular; from_alloc = r1; to_alloc = r2 }
    ∷ record { pos = here; prio = regular; from_alloc = r2; to_alloc = r1 }
    ∷ []

abbrev params : List ParamAlloc
params = (0, 0, 0, r1) ∷ []

abbrev described : List PosEdit
described = (0, block_param, block_params (record { bits = 0 } ∷ []) (r1 ∷ [])) ∷ []

abbrev scratch : Allocation
scratch = record { bits = 2 ^ 29 + 31 }

swapped :
    resolve_inserted_moves env moves params []
    ≡ some (
        (0, block_param, block_params (record { bits = 0 } ∷ []) (r1 ∷ []))
        ∷ (14, regular, move r1 scratch)
        ∷ (14, regular, move r2 r1)
        ∷ (14, regular, move scratch r2)
        ∷ [])
unfolding resolve_inserted_moves to_index Alloc.class Alloc.kind Alloc.as_reg PReg.from_index
    Alloc.index Moves.resolve Alloc.reg Alloc.new PReg.index
swapped = refl

describes : add_params 2 env [] (sort_by le_param params) ≡ some described
unfolding add_params sort_by to_index
describes = refl

resolvable : IsResolvable env.scratch_by_class r1 (pairs moves) scratch
unfolding Alloc.class Alloc.kind Alloc.as_reg PReg.from_index Alloc.index Alloc.reg Alloc.new
    PReg.index
resolvable = record {
  class = int;
  preg = int_scratch;
  class_eq = refl;
  preg_eq = refl;
  scratch_eq = refl;
  distinct = (refl, (refl, tt));
  avoids = ground arith;
}

moves_at-moves : (k : ℕ) → moves_at k moves ≡ (if 86 == k then moves else [])
unfolding to_index
moves_at-moves k = elim (Bool-cases (86 == k)) [ inl e ↦ rw e | inr e ↦ rw e ]

group_ok : (k : ℕ) → GroupOk env.scratch_by_class scratch (moves_at k moves)
group_ok k =
    rw (moves_at-moves k)
      (elim (Bool-cases (86 == k)) [ inl e ↦ rw e resolvable | inr e ↦ rw e tt ])

resolve_inserted_moves_lem_example :
    (es : List PosEdit) × (resolve_inserted_moves env moves params [] ≡ some es)
    × IsSorted edit_rank es
    × Realises ℕ (λ k. scratch) moves es
resolve_inserted_moves_lem_example =
    resolve_inserted_moves_lem ℕ env moves params described (λ k. scratch) (omega arith) group_ok
      describes
