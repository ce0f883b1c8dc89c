-- ===== src/Domtree.antt =====
-- The dominator tree (src/domtree.rs). `none` is a panic, or the fuel of a loop spent.
pub mod Ancestors
use regalloc2_orig.Prelude.{
  ℕ, zero, suc, Bool, true, false, not, ◌||◌, ◌&&◌, ◌==◌, List, [], ◌∷◌, Option, none, some, ◌>>=◌,
  ◌>>◌, assert, ltb, get_elem?, set, length, replicate, reverse, if◌then◌else◌,
}
use regalloc2_orig.Index
use regalloc2_orig.Index.{Block, invalid, is_invalid, is_valid}

-- `xs[block.index()]`, and the same with `unwrap`.
abbrev pub at {ℓ} : {A : Type ℓ} → List A → Block → Option A
at xs block = do i ← Index.index block; get_elem? xs i

abbrev pub unwrap {ℓ} : {A : Type ℓ} → Option (Option A) → Option A
unwrap m = do o ← m; o

abbrev write {ℓ} : {A : Type ℓ} → List A → Block → A → Option (List A)
write xs block v = do i ← Index.index block; assert (ltb i (length xs)); some (set xs i v)

-- Where neither number is greater the loop goes on with the same nodes.
unfoldable pub merge_sets : ℕ → List Block → List (Option ℕ) → Block → Block → Option Block
merge_sets zero idom block_to_rpo node1 node2 = none
merge_sets (suc fuel) idom block_to_rpo node1 node2 = elim (node1 == node2) [
  | true ↦ some node1
  | false ↦ elim (is_invalid node1 || is_invalid node2) [
    | true ↦ some invalid
    | false ↦ (do
      rpo1 ← unwrap (at block_to_rpo node1)
      rpo2 ← unwrap (at block_to_rpo node2)
      next1 ← if ltb rpo2 rpo1 then at idom node1 else some node1
      next2 ← if not (ltb rpo2 rpo1) && ltb rpo1 rpo2 then at idom node2 else some node2
      merge_sets fuel idom block_to_rpo next1 next2)
  ]
]

-- The loop that fills `block_to_rpo`, from the number `i` on.
unfoldable pub number : List Block → ℕ → List (Option ℕ) → Option (List (Option ℕ))
number [] i block_to_rpo = some block_to_rpo
number (block ∷ blocks) i block_to_rpo = do
  block_to_rpo ← write block_to_rpo block (some i)
  number blocks (suc i) block_to_rpo

-- The first predecessor that is reached and has a smaller number.
unfoldable pub first_pred : List (Option ℕ) → ℕ → List Block → Option Block
first_pred block_to_rpo rponum [] = some invalid
first_pred block_to_rpo rponum (pred ∷ preds) = do
  pred_rpo ← at block_to_rpo pred
  elim pred_rpo [
    | none ↦ first_pred block_to_rpo rponum preds
    | some r ↦ elim (ltb r rponum) [
      | true ↦ some pred
      | false ↦ first_pred block_to_rpo rponum preds
    ]
  ]

unfoldable pub merge_preds : ℕ → List Block → List (Option ℕ) → List Block → Block → Option Block
unfolding merge_sets
merge_preds fuel idom block_to_rpo [] parent = some parent
merge_preds fuel idom block_to_rpo (pred ∷ preds) parent = elim (pred == parent) [
  | true ↦ merge_preds fuel idom block_to_rpo preds parent
  | false ↦ (do
    pred_idom ← at idom pred
    parent ←
        if is_invalid pred_idom then some parent else merge_sets fuel idom block_to_rpo parent pred
    merge_preds fuel idom block_to_rpo preds parent)
]

-- One pass over the blocks in reverse postorder.
unfoldable pub pass :
    ℕ
    → (Block → List Block)
    → List (Option ℕ)
    → List Block
    → List Block
    → Bool
    → Option (List Block × Bool)
unfolding first_pred merge_preds
pass fuel preds block_to_rpo [] idom changed = some (idom, changed)
pass fuel preds block_to_rpo (node ∷ nodes) idom changed = do
  rponum ← unwrap (at block_to_rpo node)
  parent ← first_pred block_to_rpo rponum (preds node)
  parent ←
      if is_valid parent
      then merge_preds fuel idom block_to_rpo (preds node) parent
      else some parent
  old ← if is_valid parent then at idom node else some parent
  elim (is_valid parent && not (parent == old)) [
    | true ↦ (do idom ← write idom node parent; pass fuel preds block_to_rpo nodes idom true)
    | false ↦ pass fuel preds block_to_rpo nodes idom changed
  ]

unfoldable pub passes :
    ℕ → (Block → List Block) → List (Option ℕ) → List Block → List Block → Option (List Block)
unfolding pass
passes zero preds block_to_rpo nodes idom = none
passes (suc fuel) preds block_to_rpo nodes idom = do
  (idom, changed) ← pass fuel preds block_to_rpo nodes idom false
  elim changed [ true ↦ passes fuel preds block_to_rpo nodes idom | false ↦ some idom ]

unfoldable pub calculate : ℕ → ℕ → (Block → List Block) → List Block → Block → Option (List Block)
unfolding number passes
calculate fuel num_blocks preds post_ord start = do
  let nodes = reverse post_ord
  block_to_rpo ← number nodes 0 (replicate num_blocks none)
  idom ← write (replicate num_blocks invalid) start start
  passes fuel preds block_to_rpo nodes idom

unfoldable pub dominates : ℕ → List Block → Block → Block → Option Bool
dominates zero idom a b = none
dominates (suc fuel) idom a b = elim (a == b) [
  | true ↦ some true
  | false ↦ elim (is_invalid b) [
    | true ↦ some false
    | false ↦ (do
      parent ← at idom b
      elim (b == parent) [ true ↦ some false | false ↦ dominates fuel idom a parent ])
  ]
]
