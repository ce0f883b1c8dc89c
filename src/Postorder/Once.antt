-- ===== src/Postorder/Once.antt =====
-- What the search of src/postorder.rs returns.
use regalloc2_orig.Prelude.{
  ℕ, ◌^◌, ◌<◌, ◌≡◌, ◌↔◌, false, List, some, get_elem?, lt-length_of_get_elem?, replicate,
}
use regalloc2_orig.Index.{Block}
use regalloc2_orig.Moves.Stable.{All, NoDuplicates, append-nil}
use regalloc2_orig.Postorder.{calculate}
use regalloc2_orig.Postorder.Ends.{InRange, unvisited, calculate-Good}
use regalloc2_orig.Postorder.Blocks.{Has, IsMarked, All-of_Has}
use regalloc2_orig.Postorder.Kept.{Reaches, at_entry, by_succ, AllSuccsMarked, Good, kept, start}

-- What has the entry and with each block its successors has all blocks that the entry leads to.
Has-Reaches :
    (entry : Block) (succ_blocks : Block → List Block) (order : List Block)
    → Has entry order
    → ((b s : Block) (k : ℕ) → Has b order → get_elem? (succ_blocks b) k ≡ some s → Has s order)
    → (b : Block) → Reaches succ_blocks entry b
    → Has b order
Has-Reaches entry succ_blocks order h closed b at_entry = h
Has-Reaches entry succ_blocks order h closed b (by_succ {b = c} r k e) =
    closed c b k (Has-Reaches entry succ_blocks order h closed c r) e

-- Where the entry and every successor is one of fewer than 2 ^ 32 blocks, and the fuel is more than
-- two rounds for each block and one for each edge, the search ends without a panic. The order that
-- it returns has exactly the blocks that the entry leads to, and none of them twice.
pub calculate_lem :
    (n fuel : ℕ) (entry : Block) (succ_blocks : Block → List Block)
    → n < 2 ^ 32
    → ((b : Block) → InRange n (succ_blocks b))
    → entry < n
    → unvisited succ_blocks 0 (replicate n false) < fuel
    → (order : List Block) × (calculate fuel n entry succ_blocks ≡ some order)
      × NoDuplicates order
      × ((b : Block) → Has b order ↔ Reaches succ_blocks entry b)
calculate_lem n fuel entry succ_blocks small in_range e h =
    let (order, end, o, g) =
      calculate-Good n fuel entry succ_blocks (Good succ_blocks entry) (kept succ_blocks entry)
        small in_range e h (start succ_blocks entry n e) in
    let whole = append-nil order in
    let reached : All (Reaches succ_blocks entry) order = rw (← whole) g.reached in
    let all : (b : Block) → IsMarked end b → Has b order = λ b m. rw (← whole) (g.complete b m) in
    let closed : (b s : Block) (k : ℕ)
        → Has b order
        → get_elem? (succ_blocks b) k ≡ some s
        → Has s order =
      λ b s k there succ.
        let marks = All-of_Has (AllSuccsMarked succ_blocks entry end) b order g.closed there in
        all s (marks k s (lt-length_of_get_elem? (succ_blocks b) k s succ) succ) in
    (
      order,
      o,
      rw (← whole) g.distinct,
      λ b. (
        All-of_Has (Reaches succ_blocks entry) b order reached,
        Has-Reaches entry succ_blocks order (all entry g.has_entry) closed b,
      ),
    )
