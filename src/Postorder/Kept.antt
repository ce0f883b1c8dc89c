-- ===== src/Postorder/Kept.antt =====
-- What each action of the search of src/postorder.rs keeps.
use regalloc2_orig.Prelude.{
  ℕ, zero, suc, ◌≤◌, ◌<◌, ◌≡◌, refl, sym, ap, ◌∙◌, arith, Bool, true, false, ◌==◌, Bool-cases, inl,
  inr, List, [], ◌∷◌, ◌++◌, none, some, length, get_elem?, get_elem?-set_self, get_elem?-set_ne,
  lt-length_of_get_elem?, set, replicate, length-replicate,
}
use regalloc2_orig.Index.{Block}
use regalloc2_orig.Moves.Stable.{All, NoDuplicates, append_assoc}
use regalloc2_orig.Postorder.{State}
use regalloc2_orig.Postorder.Ends.{advanced, IsKept}
use regalloc2_orig.Postorder.Blocks.{
  Has, blocks_of, IsMarked, IsMarked-set, All-IsMarked-set, fresh, All-insert, NoDuplicates-insert,
  Has-insert, Has-middle, All-of_Has,
}

-- The blocks that the entry leads to.
pub data Reaches (succ_blocks : Block → List Block) (entry : Block) : Block → Type 0 where
  at_entry : Reaches succ_blocks entry entry
  by_succ :
      {b s : Block}
      → Reaches succ_blocks entry b
      → (k : ℕ) → get_elem? (succ_blocks b) k ≡ some s
      → Reaches succ_blocks entry s

-- The successors of a block from the first up to number `most` are visited.
abbrev pub SuccsMarked : List Bool → List Block → ℕ → Type 0
SuccsMarked visited succs most =
    (k : ℕ) (s : Block) → k < most → get_elem? succs k ≡ some s → IsMarked visited s

module _ (succ_blocks : Block → List Block) (entry : Block) where
  abbrev pub AllSuccsMarked : List Bool → Block → Type 0
  AllSuccsMarked visited b = SuccsMarked visited (succ_blocks b) (length (succ_blocks b))

  abbrev IsUnderWay : List Bool → State → Type 0
  IsUnderWay visited s = (s.succs ≡ succ_blocks s.block) × SuccsMarked visited s.succs s.next_succ

  -- The blocks that are returned or on the stack are those visited, each once, and the entry leads
  -- to them; the entry is one,
  -- the successors of those returned are visited, and of those on the stack the ones looked at.
  pub record Good (ret : List Block) (visited : List Bool) (stack : List State) : Type 0 where
    pub reached : All (Reaches succ_blocks entry) (ret ++ blocks_of stack)
    pub marked : All (IsMarked visited) (ret ++ blocks_of stack)
    pub distinct : NoDuplicates (ret ++ blocks_of stack)
    pub complete : (b : Block) → IsMarked visited b → Has b (ret ++ blocks_of stack)
    pub closed : All (AllSuccsMarked visited) ret
    pub under_way : All (IsUnderWay visited) stack
    pub has_entry : IsMarked visited entry

  All-AllSuccsMarked-set :
      (visited : List Bool) (b : Block) (xs : List Block)
      → All (AllSuccsMarked visited) xs
      → All (AllSuccsMarked (set visited b true)) xs
  All-AllSuccsMarked-set visited b [] a = tt
  All-AllSuccsMarked-set visited b (x ∷ xs) a =
      ((λ k s l g. IsMarked-set visited b s (a.0 k s l g)), All-AllSuccsMarked-set visited b xs a.1)

  All-IsUnderWay-set :
      (visited : List Bool) (b : Block) (xs : List State)
      → All (IsUnderWay visited) xs
      → All (IsUnderWay (set visited b true)) xs
  All-IsUnderWay-set visited b [] a = tt
  All-IsUnderWay-set visited b (x ∷ xs) a = (
    (a.0.0, λ k s l g. IsMarked-set visited b s (a.0.1 k s l g)),
    All-IsUnderWay-set visited b xs a.1,
  )

  All-snoc :
      (P : Block → Type 0) (xs : List Block) (b : Block) → All P xs → P b → All P (xs ++ b ∷ [])
  All-snoc P [] b a p = (p, tt)
  All-snoc P (x ∷ xs) b a p = (a.0, All-snoc P xs b a.1 p)

  -- The successors looked at are marked, and with the next one more are.
  SuccsMarked-suc :
      (visited : List Bool) (succs : List Block) (most : ℕ) (b : Block)
      → get_elem? succs most ≡ some b
      → IsMarked visited b
      → SuccsMarked visited succs most
      → SuccsMarked visited succs (suc most)
  SuccsMarked-suc visited succs most b e m a k s l g = elim (Bool-cases (k == most)) [
    | inl q ↦ same s k (ground arith) g
    | inr q ↦ a k s (ground arith) g
  ]
    where
      mark : (s : Block) → b ≡ s → IsMarked visited s
      mark s q = rw (← q) m

      same : (s k : ℕ) → k ≡ most → get_elem? succs k ≡ some s → IsMarked visited s
      same s k q g = mark s (some_path (sym e ∙ ap (get_elem? succs) (sym q) ∙ g))
        where
          some_path : some b ≡ some s → b ≡ s
          some_path h = cc

  -- Past the last successor all have been looked at.
  length-le_of_none : (succs : List Block) (k : ℕ) → get_elem? succs k ≡ none → length succs ≤ k
  length-le_of_none [] k e = omega arith
  length-le_of_none (x ∷ xs) zero e = absurd cc
  length-le_of_none (x ∷ xs) (suc k) e = omega (arith, length-le_of_none xs k e)

  pop-Good :
      (ret : List Block) (visited : List Bool) (state : State) (stack : List State)
      → get_elem? state.succs state.next_succ ≡ none
      → Good ret visited (state ∷ stack)
      → Good (ret ++ (state.block ∷ [])) visited stack
  pop-Good ret visited state stack e g =
      let b = state.block in
      let same = append_assoc ret (b ∷ []) (blocks_of stack) in
      record {
        reached = rw same g.reached;
        marked = rw same g.marked;
        distinct = rw same g.distinct;
        complete = λ c m. rw same (g.complete c m);
        closed = All-snoc (AllSuccsMarked visited) ret b g.closed (λ k s l h.
            let here : get_elem? state.succs k ≡ some s =
              ap (λ xs. get_elem? xs k) g.under_way.0.0 ∙ h in
            let most = length-le_of_none state.succs state.next_succ e in
            let inside = lt-length_of_get_elem? state.succs k s here in
            g.under_way.0.1 k s (omega arith) here);
        under_way = g.under_way.1;
        has_entry = g.has_entry;
      }

  skip-Good :
      (ret : List Block) (visited : List Bool) (state : State) (stack : List State) (b : Block)
      → get_elem? state.succs state.next_succ ≡ some b
      → get_elem? visited b ≡ some true
      → Good ret visited (state ∷ stack)
      → Good ret visited (advanced state ∷ stack)
  skip-Good ret visited state stack b e m g = record {
    reached = g.reached;
    marked = g.marked;
    distinct = g.distinct;
    complete = g.complete;
    closed = g.closed;
    under_way = (
      (g.under_way.0.0, SuccsMarked-suc visited state.succs state.next_succ b e m g.under_way.0.1),
      g.under_way.1,
    );
    has_entry = g.has_entry;
  }

  complete_after :
      (ret : List Block) (visited : List Bool) (on_stack : List Block) (b : Block)
      → ((c : Block) → IsMarked visited c → Has c (ret ++ on_stack))
      → (c : Block) → IsMarked (set visited b true) c
      → Has c (ret ++ b ∷ on_stack)
  complete_after ret visited on_stack b all c m = elim (Bool-cases (b == c)) [
    | inl e ↦ same (ground arith)
    | inr e ↦
        Has-insert b c ret on_stack (all c (sym (get_elem?-set_ne visited true (ground arith)) ∙ m))
  ]
    where
      same : b ≡ c → Has c (ret ++ b ∷ on_stack)
      same e = rw (← e) (Has-middle b ret on_stack)

  enter-Good :
      (ret : List Block) (visited : List Bool) (state : State) (stack : List State) (b : Block)
      → get_elem? state.succs state.next_succ ≡ some b
      → get_elem? visited b ≡ some false
      → Good ret visited (state ∷ stack)
      → Good ret
          (set visited b true)
          (record { block = b; succs = succ_blocks b; next_succ = 0 } ∷ advanced state ∷ stack)
  enter-Good ret visited state stack b e m g =
      let on_stack = blocks_of (state ∷ stack) in
      let now = set visited b true in
      let mark = get_elem?-set_self visited b true (lt-length_of_get_elem? visited b false m) in
      let from =
        All-of_Has (Reaches succ_blocks entry) state.block (ret ++ on_stack) g.reached
          (Has-middle state.block ret (blocks_of stack)) in
      let leads : Reaches succ_blocks entry b =
        by_succ from state.next_succ
          (ap (λ xs. get_elem? xs state.next_succ) (sym g.under_way.0.0) ∙ e) in
      let later = All-IsUnderWay-set visited b (state ∷ stack) g.under_way in
      record {
        reached = All-insert (Reaches succ_blocks entry) b ret on_stack leads g.reached;
        marked =
            All-insert (IsMarked now) b ret on_stack mark
              (All-IsMarked-set visited b (ret ++ on_stack) g.marked);
        distinct =
            NoDuplicates-insert b ret on_stack (fresh visited b (ret ++ on_stack) m g.marked)
              g.distinct;
        complete = complete_after ret visited on_stack b g.complete;
        closed = All-AllSuccsMarked-set visited b ret g.closed;
        under_way = (
          (refl, λ k s l h. absurd (omega arith)),
          (
            (later.0.0, SuccsMarked-suc now state.succs state.next_succ b e mark later.0.1),
            later.1,
          ),
        );
        has_entry = IsMarked-set visited b entry g.has_entry;
      }

  pub kept : IsKept succ_blocks Good
  kept = record { pop = pop-Good; skip = skip-Good; enter = enter-Good }

  pub start :
      (n : ℕ)
      → entry < n
      → Good []
          (set (replicate n false) entry true)
          (record { block = entry; succs = succ_blocks entry; next_succ = 0 } ∷ [])
  start n l =
      let mark =
        get_elem?-set_self (replicate n false) entry true
          (omega (arith, length-replicate n false)) in
      record {
        reached = (at_entry, tt);
        marked = (mark, tt);
        distinct = (tt, tt);
        complete = complete_after [] (replicate n false) [] entry (λ c m. unmarked n c m);
        closed = tt;
        under_way = ((refl, λ k s l h. absurd (omega arith)), tt);
        has_entry = mark;
      }
    where
      unmarked : (n c : ℕ) → IsMarked (replicate n false) c → ⊥
      unmarked zero c m = cc
      unmarked (suc n) zero m = cc
      unmarked (suc n) (suc c) m = unmarked n c m
