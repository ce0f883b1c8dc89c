-- ===== src/Ion/Liveness/Blocks.antt =====
-- The liveness of blocks (src/ion/mod.rs, `compute_liveness`): one pass over the blocks in postorder,
-- with the loops around them, and the cleanup pass. Each function that follows a linked list takes the
-- fuel of its loops; it is the fuel of the iterator over the live registers, too.
use regalloc2_orig.Prelude.{
  ℕ, zero, suc, Bool, true, false, ◌&&◌, ◌||◌, ◌==◌, leb, ltb, if◌then◌else◌, List, [], ◌∷◌, ◌++◌,
  Option, none, some, ◌>>=◌, length, get_elem?, take, drop, replicate, min, u32, for_each,
  count_from,
}
use regalloc2_orig.Index
use regalloc2_orig.Index.{Inst, Block}
use regalloc2_orig.Index.InstRange
use regalloc2_orig.ProgPoint
use regalloc2_orig.ProgPoint.{ProgPoint}
use regalloc2_orig.Reg.VReg
use regalloc2_orig.Reg.VReg.{VReg}
use regalloc2_orig.Operand
use regalloc2_orig.Operand.{Operand}
use regalloc2_orig.BitVec
use regalloc2_orig.BitVec.{BitVec}
use regalloc2_orig.BitVec.Iter
use regalloc2_orig.Cfg.{CfgInfo, put}
use regalloc2_orig.Function.{Function, items}
use regalloc2_orig.Moves.Sort.{sort_by}
use regalloc2_orig.Ion.Range.{CodeRange}
use regalloc2_orig.Ion.Env.{Env, at, set_vreg}
use regalloc2_orig.Ion.Liveness.{Pass, add_range, process_inst}
use regalloc2_orig.Ion.Liveness.Fixups.{fixup_vregs}

-- The union of the live-in sets of the successors.
unfoldable pub live_out : Env → List Block → BitVec → Option BitVec
live_out env succs live =
    for_each (λ succ live. do l ← at env.liveins succ; BitVec.or live l) succs live

-- A range over the whole block for each register that is live at its end.
unfoldable pub add_live_ranges : ℕ → CodeRange → Pass → Option Pass
add_live_ranges fuel range p = do
  vregs ← Iter.items fuel (Iter.iter p.live)
  for_each
      (λ vreg p. do
        (p, lr) ← add_range fuel vreg range p
        vreg_ranges ← put p.vreg_ranges vreg lr
        some (record p { vreg_ranges = vreg_ranges }))
      vregs p

unfoldable pub set_params : Block → List VReg → Env → Option Env
set_params block params env =
    for_each
      (λ param env.
        set_vreg env (VReg.vreg param) (λ v. record v { reg = param; blockparam = block }))
      params env

-- The operands of a branch, one for each parameter of each successor.
unfoldable pub add_param_outs :
    Function → List Operand → Block → List (Block × VReg) → ℕ → Env → Option Env
add_param_outs f operands block [] i env = some env
add_param_outs f operands block ((succ, param) ∷ params) i env = do
  operand ← get_elem? operands i
  vreg ← Operand.vreg operand
  let out : ℕ × Block × Block × ℕ =
      (Index.new (VReg.vreg vreg), block, succ, Index.new (VReg.vreg param))
  add_param_outs f operands block params (suc i)
      (record env { blockparam_outs = env.blockparam_outs ++ out ∷ [] })

-- The parameters of the successors, in the order of the two loops.
unfoldable pub succ_params : Function → List Block → List (Block × VReg)
succ_params f [] = []
succ_params f (succ ∷ succs) = pairs (f.block_params succ) (succ_params f succs)
  where
    pairs : List VReg → List (Block × VReg) → List (Block × VReg)
    pairs [] rest = rest
    pairs (param ∷ params) rest = (succ, param) ∷ pairs params rest

-- The parameters of a block at its start.
unfoldable pub add_param_in : ℕ → Function → Block → ProgPoint → VReg → Pass → Option Pass
add_param_in fuel f block start vreg p = do
  let v = VReg.vreg vreg
  alive ← BitVec.get p.live v
  p ← if alive then (do live ← BitVec.set p.live v false; some (record p { live = live })) else (do
    to ← ProgPoint.next start
    (p, lr) ← add_range fuel v (record { from = start; to = to }) p
    some p)
  env ←
      for_each
        (λ pred env.
          some
            (record env { blockparam_ins = env.blockparam_ins ++ (Index.new v, block, pred) ∷ [] }))
        (f.block_preds block) p.env
  some (record p { env = env })

-- The least number of a predecessor, where one that has none counts as `min_pred`.
unfoldable pub min_of_preds : List (Option ℕ) → List Block → ℕ → Option ℕ
min_of_preds numbers preds min_pred =
    for_each (λ pred m. do n ← at numbers pred; some (min m (elim n [ none ↦ u32 m | some k ↦ k ])))
      preds min_pred

-- `while loop_scan >= min_pred`
unfoldable pub scan_loop : ℕ → Function → List Block → List (Option ℕ) → ℕ → ℕ → Option ℕ
unfolding min_of_preds
scan_loop zero f postorder numbers min_pred loop_scan = none
scan_loop (suc fuel) f postorder numbers min_pred loop_scan = elim (leb min_pred loop_scan) [
  | false ↦ some min_pred
  | true ↦ (do
    block ← get_elem? postorder loop_scan
    min_pred ← min_of_preds numbers (f.block_preds block) min_pred
    elim loop_scan [ zero ↦ some min_pred | suc k ↦ scan_loop fuel f postorder numbers min_pred k ])
]

-- `min` and `max` of the points of some blocks.
unfoldable pub least_point : List ProgPoint → ProgPoint → Option ProgPoint
least_point points p = for_each (λ q p. some (if ProgPoint.lt q p then q else p)) points p

unfoldable pub greatest_point : List ProgPoint → ProgPoint → Option ProgPoint
greatest_point points p = for_each (λ q p. some (if ProgPoint.le p q then q else p)) points p

unfoldable pub points_of : List ProgPoint → List Block → Option (List ProgPoint)
points_of points [] = some []
points_of points (b ∷ bs) = do p ← at points b; ps ← points_of points bs; some (p ∷ ps)

-- `min().unwrap()` or `max().unwrap()`
abbrev pub fold_points :
    (List ProgPoint → ProgPoint → Option ProgPoint) → List ProgPoint → Option ProgPoint
fold_points f [] = none
fold_points f (p ∷ ps) = f ps p

-- What is live at the start of a loop is live in the whole of it.
unfoldable pub extend_loop : ℕ → CfgInfo → ℕ → ℕ → Pass → Option Pass
unfolding least_point greatest_point points_of
extend_loop fuel info min_pred i p = do
  let loop_blocks = drop min_pred (take (suc i) info.postorder)
  entries ← points_of info.block_entry loop_blocks
  loop_begin ← fold_points least_point entries
  exits ← points_of info.block_exit loop_blocks
  loop_end ← fold_points greatest_point exits
  liveins ←
      for_each (λ b liveins. do l ← at liveins b; l ← BitVec.or l p.live; put liveins b l)
        loop_blocks p.env.liveins
  vregs ← Iter.items fuel (Iter.iter p.live)
  let p = record p { env = record p.env { liveins = liveins } }
  for_each
      (λ vreg p. do
        (p, lr) ← add_range fuel vreg (record { from = loop_begin; to = loop_end }) p
        some p)
      vregs p

-- The body of the loop over the postorder.
unfoldable pub process_block : ℕ → Function → CfgInfo → List (Option ℕ) → ℕ → Pass → Option Pass
unfolding live_out add_live_ranges set_params add_param_outs succ_params add_param_in scan_loop
    extend_loop
process_block fuel f info numbers i p = do
  block ← get_elem? info.postorder i
  live ← live_out p.env (f.block_succs block) (BitVec.with_capacity f.num_vregs)
  entry ← at info.block_entry block
  exit ← at info.block_exit block
  to ← ProgPoint.next exit
  p ← add_live_ranges fuel (record { from = entry; to = to }) (record p { live = live })
  env ← set_params block (f.block_params block) p.env
  let insns = f.block_insns block
  last ← InstRange.last insns
  env ←
      if f.is_branch last
      then add_param_outs f (f.inst_operands last) block (succ_params f (f.block_succs block)) 0 env
      else some env
  insts ← items (InstRange.rev insns)
  p ← for_each (process_inst fuel f entry exit) insts (record p { env = env })
  p ← for_each (add_param_in fuel f block entry) (f.block_params block) p
  min_pred ← scan_loop (suc i) f info.postorder numbers i i
  p ← if ltb min_pred i then extend_loop fuel info min_pred i p else some p
  liveins ← put p.env.liveins block p.live
  some (record p { env = record p.env { liveins = liveins } })

-- `block_to_postorder`
unfoldable pub number_blocks : List Block → ℕ → List (Option ℕ) → Option (List (Option ℕ))
number_blocks [] i numbers = some numbers
number_blocks (b ∷ bs) i numbers = do
  k ← Index.index b
  numbers ← put numbers k (some (u32 i))
  number_blocks bs (suc i) numbers

-- The derived orders of the tuples, which compare their fields from the first on.
abbrev pub in_le : ℕ × Block × Block → ℕ × Block × Block → Bool
in_le (v, b, p) (w, c, q) = ltb v w || v == w && (ltb b c || b == c && leb p q)

abbrev pub out_le : ℕ × Block × Block × ℕ → ℕ × Block × Block × ℕ → Bool
out_le (v, b, s, t) (w, c, r, u) =
    ltb v w || v == w && (ltb b c || b == c && (ltb s r || s == r && leb t u))

unfoldable pub compute_liveness : ℕ → Function → CfgInfo → Env → Option Env
unfolding process_block number_blocks fixup_vregs sort_by
compute_liveness fuel f info env = do
  let env = record env { liveins = env.liveins ++ replicate f.blocks BitVec.new }
  numbers ← number_blocks info.postorder 0 (replicate f.blocks none)
  p ← for_each (process_block fuel f info numbers) (count_from 0 (length info.postorder)) (record {
    env = env;
    live = BitVec.new;
    vreg_ranges = replicate f.num_vregs Index.invalid;
    num_ranges = 0;
  })
  env ← fixup_vregs fuel p.env
  some (record env {
    clobbers = sort_by leb env.clobbers;
    blockparam_ins = sort_by in_le env.blockparam_ins;
    blockparam_outs = sort_by out_le env.blockparam_outs;
  })
