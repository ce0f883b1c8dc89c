-- ===== src/Moves.antt =====
-- Parallel moves (src/moves.rs, `ParallelMoves`): a set of moves whose reads all come before their
-- writes is turned into a sequence of moves. `Sort` and `search` stand for the methods of slices
-- that the source calls.
pub mod Sort
pub mod Stable
pub mod Semantics
pub mod Search
pub mod Emit
pub mod Stack
pub mod Drain
pub mod Cycle
pub mod Round
pub mod Loop
pub mod Correct
use regalloc2_orig.Prelude.{
  ℕ, zero, suc, ◌+◌, ◌*◌, Option, none, some, ◌>>=◌, ◌>>◌, Bool, true, false, not, ◌&&◌, ◌||◌, ◌==◌,
  leb, ltb, assert, if◌then◌else◌, List, [], ◌∷◌, ◌++◌, map, reverse, length, get_elem?, set,
  replicate,
}
use regalloc2_orig.Alloc
use regalloc2_orig.Alloc.{Allocation}
use Sort.{sort_by}

-- (source, destination)
abbrev pub Move : Type 0
Move = Allocation × Allocation

pub record ParallelMoves : Type 0 where
  pub parallel_moves : List Move
  pub scratch : Allocation

unfoldable pub new : Allocation → ParallelMoves
new scratch = record { parallel_moves = []; scratch = scratch }

unfoldable pub add : ParallelMoves → Allocation → Allocation → ParallelMoves
add m from to = record m { parallel_moves = m.parallel_moves ++ (from, to) ∷ [] }

-- The derived order on pairs of packed words.
abbrev pub le_move : Move → Move → Bool
le_move m k = ltb m.0.bits k.0.bits || m.0.bits == k.0.bits && leb m.1.bits k.1.bits

abbrev pub le_dst : Move → Move → Bool
le_dst m k = leb m.1.bits k.1.bits

-- `binary_search_by_key` on a sorted slice finds a position with the key where there is one. Of
-- several it may take any, here the first.
pub search : (Move → Allocation) → Allocation → List Move → Option ℕ
search key k [] = none
search key k (m ∷ ms) =
    let rest = search key k ms in if Alloc.eq (key m) k then some 0 else (do i ← rest; some (suc i))

abbrev is_ok : Option ℕ → Bool
is_ok none = false
is_ok (some i) = true

-- The loop over the destinations, `ds`.
overlap : List Move → List Move → Bool
unfolding search
overlap ms [] = false
overlap ms (d ∷ ds) = is_ok (search (λ m. m.0) d.1 ms) || overlap ms ds

unfoldable pub sources_overlap_dests : List Move → Bool
unfolding overlap
sources_overlap_dests ms = overlap ms ms

-- For each move the one that overwrites its source, if any.
unfoldable pub must_come_before : List Move → List (Option ℕ)
unfolding search
must_come_before ms = map (λ m. search (λ k. k.1) m.0 ms) ms

-- The search's variables; the top of the stack is the head of the list.
pub record Dfs : Type 0 where
  pub ret : List Move
  pub stack : List ℕ
  pub visited : List Bool
  pub onstack : List Bool

-- `visited.iter().position(|&flag| !flag)`
pub first_unvisited : List Bool → Option ℕ
first_unvisited [] = none
first_unvisited (true ∷ vs) = (do i ← first_unvisited vs; some (suc i))
first_unvisited (false ∷ vs) = some 0

-- The move `next` goes onto the stack, and its flag in `onstack` is set.
abbrev pub enter : Dfs → ℕ → Dfs
enter st next = record st { stack = next ∷ st.stack; onstack = set st.onstack next true }

module _ (moves : List Move) (scratch : Allocation) where
  -- `ret.push(self.parallel_moves[top]); onstack[top] = false;` for the moves popped, in turn.
  pub emit_all : List ℕ → List Move → List Bool → Option (List Move × List Bool)
  emit_all [] ret onstack = some (ret, onstack)
  emit_all (i ∷ is) ret onstack = do
    m ← get_elem? moves i
    emit_all is (ret ++ m ∷ []) (set onstack i false)

  -- The source that one round of the cycle's loop emits, and the new `scratch_src`.
  abbrev pub cycle_src :
      Option Allocation → Option Allocation → Allocation → Option (Allocation × Option Allocation)
  cycle_src none scratch_src src = some (scratch, some src)
  cycle_src (some last_dst) scratch_src src = do
    assert (Alloc.eq last_dst src)
    some (src, scratch_src)

  -- The cycle's loop: pops down to the move `next`, which it pops too. It gives the stack that is
  -- left, `scratch_src`, `ret` and `onstack`.
  pub emit_cycle :
      ℕ
      → List ℕ
      → Option Allocation
      → Option Allocation
      → List Move
      → List Bool
      → Option (List ℕ × Option Allocation × List Move × List Bool)
  emit_cycle next [] last_dst scratch_src ret onstack = some ([], scratch_src, ret, onstack)
  emit_cycle next (i ∷ is) last_dst scratch_src ret onstack = do
    m ← get_elem? moves i
    (src, scratch_src') ← cycle_src last_dst scratch_src m.0
    let ret' = ret ++ (src, m.1) ∷ []
    let onstack' = set onstack i false
    let rest = emit_cycle next is (some m.1) scratch_src' ret' onstack'
    if i == next then some (is, scratch_src', ret', onstack') else rest

  -- `if let Some(src) = scratch_src { ret.push((src, self.scratch)); }`
  abbrev save_scratch : Option Allocation → List Move → List Move
  save_scratch none ret = ret
  save_scratch (some src) ret = ret ++ (src, scratch) ∷ []

  -- The first two arms: every move on the stack is popped and emitted.
  pub drain : Dfs → Option Dfs
  unfolding emit_all
  drain st = do
    (ret, onstack) ← emit_all st.stack st.ret st.onstack
    some (record st { ret = ret; stack = []; onstack = onstack })

  -- The last arm: `next` is on the stack, and the moves above it are a cycle.
  pub close_cycle : Dfs → ℕ → Option Dfs
  unfolding emit_cycle
  close_cycle st next = do
    (stack, scratch_src, ret, onstack) ← emit_cycle next st.stack none none st.ret st.onstack
    some (record st { ret = save_scratch scratch_src ret; stack = stack; onstack = onstack })

  -- The arms for `Some(next)`, by the flags of `next` in `visited` and in `onstack`.
  pub follow : Bool → Bool → Dfs → ℕ → Option Dfs
  unfolding drain close_cycle
  follow true false st next = drain st
  follow false false st next = some (enter st next)
  follow seen true st next = close_cycle st next

  -- The round's `match must_come_before[top]`.
  pub dispatch : Option ℕ → Dfs → Option Dfs
  unfolding follow drain
  dispatch none st = drain st
  dispatch (some next) st = do
    seen ← get_elem? st.visited next
    waits ← get_elem? st.onstack next
    follow seen waits st next

  module _ (before : List (Option ℕ)) where
    -- One round, on a stack that is not empty.
    pub visit : Dfs → Option Dfs
    unfolding dispatch
    visit st = elim st.stack [
      | [] ↦ none
      | top ∷ below ↦ (do
        edge ← get_elem? before top
        dispatch edge (record st { visited = set st.visited top true }))
    ]

    -- The loop, with `fuel` rounds at most; `none` is a panic or the end of the fuel.
    pub loop : ℕ → Dfs → Option Dfs
    unfolding visit first_unvisited
    loop zero st = none
    loop (suc fuel) st = elim st.stack [
      | top ∷ below ↦ (do st' ← visit st; loop fuel st')
      | [] ↦ elim (first_unvisited st.visited) [
        | none ↦ some st
        | some next ↦ (do st' ← visit (enter st next); loop fuel st')
      ]
    ]

  abbrev pub start : Dfs
  start =
      let n = length moves in
      enter
        (record { ret = []; stack = []; visited = replicate n false; onstack = replicate n false })
        0

-- The general case, on moves sorted by destination.
unfoldable pub order : List Move → Allocation → Option (List Move)
unfolding must_come_before loop
order moves scratch = do
  let before = must_come_before moves
  st ← loop moves scratch before (2 * length moves + 2) (start moves scratch)
  some (reverse st.ret)

unfoldable pub resolve : ParallelMoves → Option (List Move)
unfolding sort_by sources_overlap_dests order
resolve m =
    if leb (length m.parallel_moves) 1
    then some m.parallel_moves
    else (let sorted = sort_by le_move m.parallel_moves in
        if not (sources_overlap_dests sorted)
        then some sorted
        else order (sort_by le_dst sorted) m.scratch)
