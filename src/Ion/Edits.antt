-- ===== src/Ion/Edits.antt =====
-- The moves that the allocator inserts, and the edits that they become (src/ion/mod.rs,
-- `insert_move`, `resolve_inserted_moves`, `add_edit`). The allocator's environment is the part of
-- it that these read; the counters, the log and the annotations are left out.
pub mod Groups
pub mod Resolved
pub mod Sorted
pub mod Correct
use regalloc2_orig.Prelude.{
  ℕ, zero, suc, ◌+◌, ◌*◌, Bool, true, false, not, ◌&&◌, ◌||◌, ◌==◌, leb, ltb, if◌then◌else◌, assert,
  List, [], ◌∷◌, ◌++◌, Option, none, some, ◌>>=◌, ◌>>◌, length, get_elem?,
}
use regalloc2_orig.Index
use regalloc2_orig.Index.{Block}
use regalloc2_orig.ProgPoint
use regalloc2_orig.ProgPoint.{ProgPoint, to_index}
use regalloc2_orig.Reg.{class_bits}
use regalloc2_orig.Reg.PReg.{PReg}
use regalloc2_orig.Reg.VReg.{VReg}
use regalloc2_orig.Alloc
use regalloc2_orig.Alloc.{Allocation}
use regalloc2_orig.Function.{Edit, move, block_params}
use regalloc2_orig.Moves
use regalloc2_orig.Moves.{Move, ParallelMoves}
use regalloc2_orig.Moves.Sort.{sort_by}

pub data InsertMovePrio : Type 0 where
  in_edge_moves block_param regular multi_fixed_reg reused_input out_edge_moves : InsertMovePrio

-- The place in the derived order.
abbrev pub prio_bits : InsertMovePrio → ℕ
prio_bits in_edge_moves = 0
prio_bits block_param = 1
prio_bits regular = 2
prio_bits multi_fixed_reg = 3
prio_bits reused_input = 4
prio_bits out_edge_moves = 5

pub record InsertedMove : Type 0 where
  pub pos : ProgPoint
  pub prio : InsertMovePrio
  pub from_alloc : Allocation
  pub to_alloc : Allocation

-- `edits: Vec<(u32, InsertMovePrio, Edit)>`
abbrev pub PosEdit : Type 0
PosEdit = ℕ × InsertMovePrio × Edit

-- The position of a block's parameter: block, index, the vreg's number and the allocation.
abbrev pub ParamAlloc : Type 0
ParamAlloc = Block × ℕ × ℕ × Allocation

-- What of the environment is read: `env.scratch_by_class`, the registers of `vregs`, the numbers of
-- parameters of the blocks, and `cfginfo.block_entry`.
pub record MoveEnv : Type 0 where
  pub scratch_by_class : List PReg
  pub vregs : List VReg
  pub block_params : Block → List VReg
  pub block_entry : List ProgPoint

unfoldable pub insert_move :
    List InsertedMove → ProgPoint → InsertMovePrio → Allocation → Allocation → List InsertedMove
insert_move moves pos prio from_alloc to_alloc =
    moves ++ record { pos = pos; prio = prio; from_alloc = from_alloc; to_alloc = to_alloc } ∷ []

-- The order of keys `(index, prio)`.
abbrev pub le_key : ℕ × InsertMovePrio → ℕ × InsertMovePrio → Bool
le_key (i, p) (j, q) = ltb i j || i == j && leb (prio_bits p) (prio_bits q)

-- `pos.to_index()` where it does not panic, which `sort_moves` asks for before it sorts.
abbrev pub index_of : ProgPoint → ℕ
index_of p = elim (to_index p) [ none ↦ 0 | some i ↦ i ]

abbrev pub all_valid : List InsertedMove → Bool
all_valid [] = true
all_valid (m ∷ ms) = Index.is_valid m.pos.inst && all_valid ms

-- `sort_by_key`, which calls the key's function on two moves at least.
unfoldable pub sort_moves : List InsertedMove → Option (List InsertedMove)
unfolding sort_by
sort_moves ms = do
  assert (leb (length ms) 1 || all_valid ms)
  some (sort_by (λ m n. le_key (index_of m.pos, m.prio) (index_of n.pos, n.prio)) ms)

abbrev pub is_trivial : Edit → Bool
is_trivial (move from to) = Alloc.eq from to
is_trivial (block_params vregs allocs) = false

unfoldable pub add_edit : List PosEdit → ProgPoint → InsertMovePrio → Edit → Option (List PosEdit)
add_edit edits pos prio edit =
    if is_trivial edit
    then some edits
    else (do i ← to_index pos; some (edits ++ (i, prio, edit) ∷ []))

-- The moves from the first one on that are at the same point with the same priority, and the rest.
unfoldable pub span :
    ProgPoint → InsertMovePrio → List InsertedMove → List InsertedMove × List InsertedMove
span pos prio [] = ([], [])
span pos prio (m ∷ ms) =
    let (here, rest) = span pos prio ms in
    if ProgPoint.eq m.pos pos && prio_bits m.prio == prio_bits prio
    then (m ∷ here, rest)
    else ([], m ∷ ms)

-- The loop that fills `parallel_moves`, and the one over the resolved moves.
unfoldable pub add_moves : ParallelMoves → List InsertedMove → ParallelMoves
unfolding Moves.add
add_moves pm [] = pm
add_moves pm (m ∷ ms) =
    add_moves
      (if Alloc.eq m.from_alloc m.to_alloc then pm else Moves.add pm m.from_alloc m.to_alloc) ms

unfoldable pub add_resolved :
    List PosEdit → ProgPoint → InsertMovePrio → List Move → Option (List PosEdit)
unfolding add_edit
add_resolved edits pos prio [] = some edits
add_resolved edits pos prio ((src, dst) ∷ ms) = do
  edits ← add_edit edits pos prio (move src dst)
  add_resolved edits pos prio ms

-- The body of the loop, on a group whose first move is `m`.
unfoldable pub resolve_group :
    List PReg → List PosEdit → InsertedMove → List InsertedMove → Option (List PosEdit)
unfolding add_moves add_resolved Moves.new
resolve_group scratch_by_class edits m moves = do
  regclass ← Alloc.class m.from_alloc
  scratch ← get_elem? scratch_by_class (class_bits regclass)
  resolved ← Moves.resolve (add_moves (Moves.new (Alloc.reg scratch)) moves)
  add_resolved edits m.pos m.prio resolved

unfoldable pub resolve_groups :
    ℕ → List PReg → List PosEdit → List InsertedMove → Option (List PosEdit)
unfolding span resolve_group
resolve_groups zero scratch_by_class edits ms = none
resolve_groups (suc fuel) scratch_by_class edits [] = some edits
resolve_groups (suc fuel) scratch_by_class edits (m ∷ ms) = do
  let (here, rest) = span m.pos m.prio ms
  edits ← resolve_group scratch_by_class edits m (m ∷ here)
  resolve_groups fuel scratch_by_class edits rest

-- The parameters of one block from the first one on, and the rest.
unfoldable pub span_params : Block → List ParamAlloc → List ParamAlloc × List ParamAlloc
span_params block [] = ([], [])
span_params block (p ∷ ps) =
    let (here, rest) = span_params block ps in
    if p.0 == block then (p ∷ here, rest) else ([], p ∷ ps)

unfoldable pub param_vregs : List VReg → List ParamAlloc → Option (List VReg)
param_vregs regs [] = some []
param_vregs regs ((block, idx, vreg, alloc) ∷ ps) = do
  i ← Index.index vreg
  v ← get_elem? regs i
  vs ← param_vregs regs ps
  some (v ∷ vs)

unfoldable pub param_allocs : List ParamAlloc → List Allocation
param_allocs [] = []
param_allocs ((block, idx, vreg, alloc) ∷ ps) = alloc ∷ param_allocs ps

-- The body of the loop, on the parameters of a block: where they are described, and how.
unfoldable pub describe :
    MoveEnv → Block → List ParamAlloc → Option (ProgPoint × List VReg × List Allocation)
unfolding param_vregs param_allocs
describe env block ps = do
  vregs ← param_vregs env.vregs ps
  let allocs = param_allocs ps
  assert (length vregs == length (env.block_params block))
  assert (length allocs == length (env.block_params block))
  i ← Index.index block
  entry ← get_elem? env.block_entry i
  some (entry, vregs, allocs)

unfoldable pub add_params : ℕ → MoveEnv → List PosEdit → List ParamAlloc → Option (List PosEdit)
unfolding span_params describe add_edit
add_params zero env edits ps = none
add_params (suc fuel) env edits [] = some edits
add_params (suc fuel) env edits (p ∷ ps) = do
  let (here, rest) = span_params p.0 ps
  (entry, vregs, allocs) ← describe env p.0 (p ∷ here)
  edits ← add_edit edits entry block_param (block_params vregs allocs)
  add_params fuel env edits rest

abbrev pub le_param : ParamAlloc → ParamAlloc → Bool
le_param p q = ltb p.0 q.0 || p.0 == q.0 && leb p.1 q.1

abbrev pub sort_edits : List PosEdit → List PosEdit
sort_edits es = sort_by (λ e f. le_key (e.0, e.1) (f.0, f.1)) es

-- The environment's `inserted_moves`, `blockparam_allocs` and `edits`; the result is `edits`.
unfoldable pub resolve_inserted_moves :
    MoveEnv → List InsertedMove → List ParamAlloc → List PosEdit → Option (List PosEdit)
unfolding sort_by sort_moves resolve_groups add_params
resolve_inserted_moves env inserted_moves blockparam_allocs edits = do
  moves ← sort_moves inserted_moves
  edits ← resolve_groups (suc (length moves)) env.scratch_by_class edits moves
  let params = sort_by le_param blockparam_allocs
  edits ← add_params (suc (length params)) env edits params
  some (sort_edits edits)
