-- ===== src/Index/InstRange.antt =====
-- Ranges of instructions and their iterator (src/index.rs, `InstRange` and `InstRangeIter`).
use regalloc2_orig.Prelude.{
  ℕ, zero, suc, ◌+◌, ◌-◌, ◌%◌, ◌^◌, Option, none, some, ◌>>=◌, ◌>>◌, Bool, true, false, not, ◌==◌,
  assert, leb, ltb, if◌then◌else◌, List, [], ◌∷◌,
}
use regalloc2_orig.Index.{Inst, index, next as next_inst, prev as prev_inst}

-- `InstRange(from, to, is_forward)`
pub record InstRange : Type 0 where
  pub from : Inst
  pub to : Inst
  pub is_forward : Bool

unfoldable pub forward : Inst → Inst → Option InstRange
forward from to = do
  f ← index from
  t ← index to
  assert (leb f t)
  some (record { from = from; to = to; is_forward = true })

unfoldable pub backward : Inst → Inst → Option InstRange
backward from to = do
  f ← index from
  t ← index to
  assert (leb t f)
  some (record { from = to; to = from; is_forward = false })

-- The difference is of type usize; both constructors make sure that it does not go below 0.
unfoldable pub len : InstRange → Option ℕ
len r = do t ← index r.to; f ← index r.from; some ((t + 2 ^ 64 - f) % 2 ^ 64)

unfoldable pub first : InstRange → Option Inst
unfolding len
first r = do n ← len r; assert (ltb 0 n); if r.is_forward then some r.from else prev_inst r.to

unfoldable pub last : InstRange → Option Inst
unfolding len
last r = do n ← len r; assert (ltb 0 n); if r.is_forward then prev_inst r.to else some r.from

unfoldable pub rest : InstRange → Option InstRange
unfolding len forward backward
rest r = do
  n ← len r
  assert (ltb 0 n)
  elim r.is_forward [
    | true ↦ (do from ← next_inst r.from; forward from r.to)
    | false ↦ (do to ← prev_inst r.to; backward to r.from)
  ]

unfoldable pub rev : InstRange → InstRange
rev r = record r { is_forward = not r.is_forward }

-- `InstRangeIter::next`: the item and the iterator that follows.
unfoldable pub next : InstRange → Option (Option (Inst × InstRange))
unfolding len first rest
next r = do
  n ← len r
  if n == 0 then some none else (do ret ← first r; r' ← rest r; some (some (ret, r')))

-- `for inst in range.iter()`: the items in order, with `fuel` rounds at most.
unfoldable pub iter : ℕ → InstRange → Option (List Inst)
unfolding next
iter zero r = none
iter (suc fuel) r = do
  step ← next r
  elim step [ none ↦ some [] | some (i, r') ↦ (do is ← iter fuel r'; some (i ∷ is)) ]
