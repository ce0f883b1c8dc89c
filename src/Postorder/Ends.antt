-- ===== src/Postorder/Ends.antt =====
-- The search of src/postorder.rs ends: each action makes a number smaller.
use regalloc2_orig.Prelude.{
  ℕ, zero, suc, ◌+◌, ◌-◌, ◌^◌, ◌≤◌, ◌<◌, ◌≡◌, refl, ap, ◌∙◌, arith, Bool, true, false, Bool-cases,
  Option-cases, inl, inr, lt→ltb, if◌then◌else◌, List, [], ◌∷◌, ◌++◌, none, some, length, get_elem?,
  get_elem?-some, get_elem?-eq-get_or, get_or-replicate, lt-length_of_get_elem?, set, length-set,
  replicate, length-replicate,
}
use regalloc2_orig.Index
use regalloc2_orig.Index.{Block}
use regalloc2_orig.Moves.Stable.{All}
use regalloc2_orig.Postorder.{State, Search, visit, act, loop, calculate}

-- The successors of a state are blocks.
abbrev pub InRange : ℕ → List Block → Type 0
InRange n succs = (k s : ℕ) → get_elem? succs k ≡ some s → s < n

-- The search after a block is entered.
abbrev pub entered : (Block → List Block) → Block → List Block → List Bool → List State → Search
entered succ_blocks b ret visited stack = record {
  ret = ret;
  visited = set visited b true;
  stack = record { block = b; succs = succ_blocks b; next_succ = 0 } ∷ stack;
}

-- The state after its next successor is looked at.
abbrev pub advanced : State → State
advanced state = record state { next_succ = suc state.next_succ }

-- What stays true of a search whatever it does next.
pub record IsKept (succ_blocks : Block → List Block)
    (Good : List Block → List Bool → List State → Type 0) : Type 0 where
  pub pop :
      (ret : List Block) (visited : List Bool) (state : State) (stack : List State)
      → get_elem? state.succs state.next_succ ≡ none
      → Good ret visited (state ∷ stack)
      → Good (ret ++ (state.block ∷ [])) visited stack
  pub skip :
      (ret : List Block) (visited : List Bool) (state : State) (stack : List State) (b : Block)
      → get_elem? state.succs state.next_succ ≡ some b
      → get_elem? visited b ≡ some true
      → Good ret visited (state ∷ stack)
      → Good ret visited (advanced state ∷ stack)
  pub enter :
      (ret : List Block) (visited : List Bool) (state : State) (stack : List State) (b : Block)
      → get_elem? state.succs state.next_succ ≡ some b
      → get_elem? visited b ≡ some false
      → Good ret visited (state ∷ stack)
      → Good ret
          (set visited b true)
          (record { block = b; succs = succ_blocks b; next_succ = 0 } ∷ advanced state ∷ stack)

-- What the stack still costs.
abbrev pub pending : List State → ℕ
pending [] = 0
pending (s ∷ ss) = length s.succs - s.next_succ + 1 + pending ss

module _ (succ_blocks : Block → List Block) where
  -- What the blocks that are not visited may still cost, from the block with number `i` on.
  abbrev pub unvisited : ℕ → List Bool → ℕ
  unvisited i [] = 0
  unvisited i (v ∷ vs) = (if v then 0 else length (succ_blocks i) + 2) + unvisited (suc i) vs

module _ (n : ℕ) (small : n < 2 ^ 32) (succ_blocks : Block → List Block)
    (in_range : (b : Block) → InRange n (succ_blocks b))
    (Good : List Block → List Bool → List State → Type 0) (kept : IsKept succ_blocks Good) where
  abbrev StackInRange : List State → Type 0
  StackInRange ss = All (λ s. InRange n s.succs) ss

  unvisited-set :
      (i k : ℕ) (vs : List Bool)
      → get_elem? vs k ≡ some false
      → unvisited succ_blocks i (set vs k true) + (length (succ_blocks (i + k)) + 2)
        ≡ unvisited succ_blocks i vs
  unvisited-set i k [] e = absurd cc
  unvisited-set i zero (true ∷ vs) e = absurd cc
  unvisited-set i zero (false ∷ vs) e =
      omega (arith, ap (λ (j : ℕ). length (succ_blocks j)) (plus_zero i))
    where
      plus_zero : (i : ℕ) → i + 0 ≡ i
      plus_zero i = omega arith
  unvisited-set i (suc k) (v ∷ vs) e =
      omega
        (arith, unvisited-set (suc i) k vs e, ap (λ (j : ℕ). length (succ_blocks j)) (plus_suc i k))
    where
      plus_suc : (i k : ℕ) → i + suc k ≡ suc i + k
      plus_suc i k = omega arith

  -- A search that costs less than `most`.
  abbrev Costs : ℕ → Search → Type 0
  Costs most s =
      (length s.visited ≡ n)
      × StackInRange s.stack
      × (unvisited succ_blocks 0 s.visited + pending s.stack < most)

  visit_lem :
      (b : Block) (ret : List Block) (visited : List Bool) (stack : List State) (most : ℕ)
      → length visited ≡ n
      → get_elem? visited b ≡ some false
      → StackInRange stack
      → unvisited succ_blocks 0 visited + pending stack ≤ most
      → (visit succ_blocks b ret visited stack ≡ some (entered succ_blocks b ret visited stack))
        × Costs most (entered succ_blocks b ret visited stack)
  unfolding visit
  visit_lem b ret visited stack most l e r h =
      let inside = lt-length_of_get_elem? visited b false e in
      let valid : Index.is_valid b ≡ true = ground arith in
      (
        rw (valid, lt→ltb b (length visited) inside) refl,
        (
          length-set visited b true ∙ l,
          (in_range b, r),
          omega (
            arith,
            unvisited-set 0 b visited e,
            ap (λ (j : ℕ). length (succ_blocks j)) (zero_plus b),
          ),
        ),
      )
    where
      zero_plus : (i : ℕ) → 0 + i ≡ i
      zero_plus i = omega arith

  act_lem :
      (ret : List Block) (visited : List Bool) (state : State) (stack : List State)
      → length visited ≡ n
      → StackInRange (state ∷ stack)
      → Good ret visited (state ∷ stack)
      → (s : Search) × (act succ_blocks ret visited state stack ≡ some s)
        × Good s.ret s.visited s.stack
        × Costs (unvisited succ_blocks 0 visited + pending (state ∷ stack)) s
  unfolding act
  act_lem ret visited state stack l r good =
      elim (Option-cases (get_elem? state.succs state.next_succ)) [
        | inl e ↦ (
          record { ret = ret ++ (state.block ∷ []); visited = visited; stack = stack },
          rw (act, e) refl,
          kept.pop ret visited state stack e good,
          (l, r.1, omega arith),
        )
        | inr (b, e) ↦
            let top = advanced state in
            let inside = lt-length_of_get_elem? state.succs state.next_succ b e in
            let bound = r.0 state.next_succ b e in
            let valid : Index.is_valid b ≡ true = ground arith in
            let (seen, g) = get_elem?-some visited b (omega arith) in
            elim (Bool-cases seen) [
              | inl t ↦ (
                record { ret = ret; visited = visited; stack = top ∷ stack },
                rw (act, e, valid, g, t) refl,
                kept.skip ret visited state stack b e (g ∙ ap some t) good,
                (l, (r.0, r.1), omega arith),
              )
              | inr t ↦
                  let (v, c) =
                    visit_lem b ret visited (top ∷ stack)
                      (unvisited succ_blocks 0 visited + pending (state ∷ stack)) l (g ∙ ap some t)
                      (r.0, r.1) (omega arith) in
                  (
                    entered succ_blocks b ret visited (top ∷ stack),
                    rw (act, e, valid, g, t) v,
                    kept.enter ret visited state stack b e (g ∙ ap some t) good,
                    c,
                  )
            ]
      ]

  loop_lem :
      (fuel : ℕ) (ret : List Block) (visited : List Bool) (stack : List State)
      → length visited ≡ n
      → StackInRange stack
      → unvisited succ_blocks 0 visited + pending stack < fuel
      → Good ret visited stack
      → (order : List Block) × (end : List Bool) × (loop fuel succ_blocks ret visited stack
          ≡ some order)
        × Good order end []
  unfolding loop
  loop_lem zero ret visited stack l r h good = absurd (omega arith)
  loop_lem (suc fuel) ret visited [] l r h good = (ret, visited, refl, good)
  loop_lem (suc fuel) ret visited (state ∷ stack) l r h good =
      let (s, e, good', (l', r', c)) = act_lem ret visited state stack l r good in
      let (order, end, o, g) = loop_lem fuel s.ret s.visited s.stack l' r' (omega arith) good' in
      (order, end, rw e o, g)

get_elem?-replicate : (n i : ℕ) → i < n → get_elem? (replicate n false) i ≡ some false
get_elem?-replicate n i h =
    get_elem?-eq-get_or (replicate n false) i false (omega (arith, length-replicate n false))
    ∙ ap some (get_or-replicate n i false)

-- Where the entry and every successor is one of fewer than 2 ^ 32 blocks, the search ends without a
-- panic, and what its actions keep is true at the end.
pub calculate-Good :
    (n fuel : ℕ) (entry : Block) (succ_blocks : Block → List Block)
    (Good : List Block → List Bool → List State → Type 0)
    → IsKept succ_blocks Good
    → n < 2 ^ 32
    → ((b : Block) → InRange n (succ_blocks b))
    → entry < n
    → unvisited succ_blocks 0 (replicate n false) < fuel
    → Good []
        (set (replicate n false) entry true)
        (record { block = entry; succs = succ_blocks entry; next_succ = 0 } ∷ [])
    → (order : List Block) × (end : List Bool) × (calculate fuel n entry succ_blocks ≡ some order)
      × Good order end []
unfolding calculate
calculate-Good n fuel entry succ_blocks Good kept small in_range e h good =
    let (v, (l, r, c)) =
      visit_lem n small succ_blocks in_range Good kept entry [] (replicate n false) []
        (unvisited succ_blocks 0 (replicate n false)) (length-replicate n false)
        (get_elem?-replicate n entry e) tt (omega arith) in
    let s = entered succ_blocks entry [] (replicate n false) [] in
    let (order, end, o, g) =
      loop_lem n small succ_blocks in_range Good kept fuel s.ret s.visited s.stack l r (omega arith)
        good in
    (order, end, rw v o, g)
