-- ===== src/Postorder.antt =====
-- The postorder of the blocks (src/postorder.rs): a depth-first search with an explicit stack. `none`
-- is a panic, or the fuel of the loop spent.
pub mod Blocks
pub mod Ends
pub mod Kept
pub mod Once
use regalloc2_orig.Prelude.{
  ℕ, zero, suc, Bool, true, false, List, [], ◌∷◌, ◌++◌, Option, none, some, ◌>>=◌, ◌>>◌, assert,
  ltb, get_elem?, set, length, replicate,
}
use regalloc2_orig.Index
use regalloc2_orig.Index.{Block}

pub record State : Type 0 where
  pub block : Block
  pub succs : List Block
  pub next_succ : ℕ

-- The variables of `calculate`; the top of the stack is the head of the list.
pub record Search : Type 0 where
  pub ret : List Block
  pub visited : List Bool
  pub stack : List State

-- `visited[block.index()] = true` and the push of the block's state.
unfoldable pub visit :
    (Block → List Block) → Block → List Block → List Bool → List State → Option Search
visit succ_blocks block ret visited stack = do
  i ← Index.index block
  assert (ltb i (length visited))
  some (record {
    ret = ret;
    visited = set visited i true;
    stack = record { block = block; succs = succ_blocks block; next_succ = 0 } ∷ stack;
  })

-- One action, for the state on the top of the stack.
unfoldable pub act :
    (Block → List Block) → List Block → List Bool → State → List State → Option Search
unfolding visit
act succ_blocks ret visited state stack = elim (get_elem? state.succs state.next_succ) [
  | some succ ↦ (do
    let stack = record state { next_succ = suc state.next_succ } ∷ stack
    i ← Index.index succ
    seen ← get_elem? visited i
    elim seen [
      | true ↦ some (record { ret = ret; visited = visited; stack = stack })
      | false ↦ visit succ_blocks succ ret visited stack
    ])
  | none ↦ some (record { ret = ret ++ (state.block ∷ []); visited = visited; stack = stack })
]

unfoldable pub loop :
    ℕ → (Block → List Block) → List Block → List Bool → List State → Option (List Block)
unfolding act
loop zero succ_blocks ret visited stack = none
loop (suc fuel) succ_blocks ret visited [] = some ret
loop (suc fuel) succ_blocks ret visited (state ∷ stack) = do
  s ← act succ_blocks ret visited state stack
  loop fuel succ_blocks s.ret s.visited s.stack

unfoldable pub calculate : ℕ → ℕ → Block → (Block → List Block) → Option (List Block)
unfolding visit loop
calculate fuel num_blocks entry succ_blocks = do
  s ← visit succ_blocks entry [] (replicate num_blocks false) []
  loop fuel succ_blocks s.ret s.visited s.stack
