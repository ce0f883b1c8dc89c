-- ===== src/Function.antt =====
-- What the allocator reads of its client and gives back to it (src/lib.rs: the trait `Function`,
-- `Edit`, `Output`, `RegAllocError`). The trait is a record of its methods; the client that
-- implements it is a parameter.
use regalloc2_orig.Prelude.{
  ℕ, suc, ◌+◌, ◌-◌, Bool, ◌==◌, List, Option, some, ◌>>=◌, ◌>>◌, assert, leb, get_elem?, length,
  take, drop, if◌then◌else◌,
}
use regalloc2_orig.Index
use regalloc2_orig.Index.{Inst, Block}
use regalloc2_orig.Index.InstRange.{InstRange, len, iter}
use regalloc2_orig.Reg.{RegClass}
use regalloc2_orig.Reg.PReg.{PReg}
use regalloc2_orig.Reg.VReg.{VReg}
use regalloc2_orig.Operand.{Operand}
use regalloc2_orig.Alloc.{Allocation}
use regalloc2_orig.ProgPoint.{ProgPoint}

pub record Function : Type 0 where
  pub insts : ℕ
  pub blocks : ℕ
  pub entry_block : Block
  pub block_insns : Block → InstRange
  pub block_succs : Block → List Block
  pub block_preds : Block → List Block
  pub block_params : Block → List VReg
  pub is_call : Inst → Bool
  pub is_ret : Inst → Bool
  pub is_branch : Inst → Bool
  pub is_safepoint : Inst → Bool
  pub is_move : Inst → Option (VReg × VReg)
  pub inst_operands : Inst → List Operand
  pub inst_clobbers : Inst → List PReg
  pub num_vregs : ℕ
  pub spillslot_size : RegClass → VReg → ℕ
  pub multi_spillslot_named_by_last_slot : Bool

-- The instructions of `range.iter()`, with one round more than the range has instructions.
abbrev pub items : InstRange → Option (List Inst)
items r = do n ← len r; iter (suc n) r

pub data Edit : Type 0 where
  move : (from to : Allocation) → Edit
  block_params : (vregs : List VReg) (allocs : List Allocation) → Edit

-- The counters of `stats` are left out.
pub record Output : Type 0 where
  pub num_spillslots : ℕ
  pub edits : List (ProgPoint × Edit)
  pub allocs : List Allocation
  pub inst_alloc_offsets : List ℕ

-- `&self.allocs[start..end]`
abbrev slice : List Allocation → ℕ → ℕ → Option (List Allocation)
slice xs start end = do
  assert (leb start end)
  assert (leb end (length xs))
  some (take (end - start) (drop start xs))

unfoldable pub inst_allocs : Output → Inst → Option (List Allocation)
inst_allocs out inst = do
  i ← Index.index inst
  start ← get_elem? out.inst_alloc_offsets i
  end ←
      if i + 1 == length out.inst_alloc_offsets
      then some (length out.allocs)
      else get_elem? out.inst_alloc_offsets (i + 1)
  slice out.allocs start end

pub data RegAllocError : Type 0 where
  ssa : VReg → Inst → RegAllocError
  bb : Block → RegAllocError
  branch : Inst → RegAllocError
