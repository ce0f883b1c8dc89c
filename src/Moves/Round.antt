-- ===== src/Moves/Round.antt =====
-- The rounds of the depth-first search (src/moves.rs, the loop in `resolve`): each keeps the
-- invariant and brings the end nearer, and none panics.
use regalloc2_orig.Prelude.{
  ℕ, ◌+◌, ◌*◌, ◌<◌, ◌≡◌, ◌≢◌, refl, sym, Option, none, some, Bool, true, false, List, [], ◌∷◌, ◌++◌,
  reverse, arith, length, Option-cases, inl, inr, ◌∙◌, get_elem?, get_or, set, get_or-set,
  length-set, get_elem?-some, get_elem?-eq-get_or, ap,
}
use regalloc2_orig.Alloc.{Allocation}
use regalloc2_orig.Moves.{
  Move, Dfs, must_come_before, visit, dispatch, follow, drain, enter, close_cycle,
}
use regalloc2_orig.Moves.Semantics.{lookup, Distinct, read}
use regalloc2_orig.Moves.Search.{must_come_before-lt, writer, writer-some, length-must_come_before}
use regalloc2_orig.Moves.Emit.{emitted, target, Closed, Implements}
use regalloc2_orig.Moves.Stack.{Tracks, Tracks-push, AllSeen, fresh, fresh-push, fresh-visit}
use regalloc2_orig.Moves.Drain.{Ready, Popped, emit_all_lem}
use regalloc2_orig.Moves.Cycle.{emit_cycle_lem}

abbrev pub state : List Move → List ℕ → List Bool → List Bool → Dfs
state ret is vs os = record { ret = ret; stack = is; visited = vs; onstack = os }

abbrev pub BelowSeen : List Bool → List ℕ → Type 0
BelowSeen vs [] = Unit
BelowSeen vs (i ∷ is) = AllSeen vs is

-- The invariant between rounds.
pub record Inv {ℓ} (V : Type ℓ) (moves : List Move) (scratch : Allocation) (st : Dfs) : Type ℓ where
  pub tracks : Tracks moves st.stack st.visited st.onstack
  pub below : BelowSeen st.visited st.stack
  pub closed : Closed moves (length moves) st.visited st.onstack
  pub means :
      Implements V scratch
        (reverse st.ret)
        (target moves scratch (length moves) st.visited st.onstack)

-- What the rounds use up.
abbrev pub work : Dfs → ℕ
work st = 2 * fresh st.visited st.onstack + length st.stack

AllSeen-set :
    (vs : List Bool) (i : ℕ) (is : List ℕ)
    → i < length vs
    → AllSeen vs is
    → AllSeen (set vs i true) is
AllSeen-set vs i [] h s = tt
AllSeen-set vs i (k ∷ is) h s =
    (ground (arith, get_or-set vs i k false true), AllSeen-set vs i is h s.1)

-- To visit a move that waits on the stack emits nothing.
emitted-visit :
    (vs os : List Bool) (i k : ℕ)
    → i < length vs
    → get_or os i false ≡ true
    → emitted (set vs i true) os k ≡ emitted vs os k
emitted-visit vs os i k h w = ground (arith, get_or-set vs i k false true)

-- To push a move that was not visited emits nothing.
pub emitted-push :
    (vs os : List Bool) (i k : ℕ)
    → i < length os
    → get_or vs i false ≡ false
    → emitted vs (set os i true) k ≡ emitted vs os k
emitted-push vs os i k h w = ground (arith, get_or-set os i k false true)

target_ext :
    (moves : List Move) (scratch : Allocation) (spilled : ℕ) (vs os vs' os' : List Bool)
    (a : Allocation)
    → ((k : ℕ) → emitted vs' os' k ≡ emitted vs os k)
    → target moves scratch spilled vs' os' a ≡ target moves scratch spilled vs os a
unfolding target
target_ext moves scratch spilled vs os vs' os' a same = elim (Option-cases (writer moves a)) [
  | inl e ↦ rw e
  | inr (k, e) ↦ let (mk, gk, dk) = writer-some moves a k e in ground (arith, same k)
]

-- What was emitted so far means depends only on which moves were emitted.
module _ {ℓ} (V : Type ℓ) (moves : List Move) (scratch : Allocation) (spilled : ℕ)
    (vs os vs' os' : List Bool) (same : (k : ℕ) → emitted vs' os' k ≡ emitted vs os k) where
  pub Closed-ext : Closed moves spilled vs os → Closed moves spilled vs' os'
  Closed-ext closed k j em ne e = same j ∙ closed k j (sym (same k) ∙ em) ne e

  pub Implements-ext :
      (seq : List Move)
      → Implements V scratch seq (target moves scratch spilled vs os)
      → Implements V scratch seq (target moves scratch spilled vs' os')
  Implements-ext seq h σ a ne =
      h σ a ne ∙ ap (read σ a) (sym (target_ext moves scratch spilled vs os vs' os' a same))

BelowSeen-of_all : (vs : List Bool) (is : List ℕ) → AllSeen vs is → BelowSeen vs is
BelowSeen-of_all vs [] s = tt
BelowSeen-of_all vs (i ∷ is) s = s.1

-- What a round leads to.
abbrev pub Progress {ℓ} : Type ℓ → List Move → Allocation → Dfs → Option Dfs → Type ℓ
Progress V moves scratch st result =
    (st' : Dfs) × (result ≡ some st') × Inv V moves scratch st' × (work st' < work st)

module _ {ℓ} (V : Type ℓ) (moves : List Move) (scratch : Allocation) (distinct : Distinct moves)
    (outside : lookup moves scratch ≡ none)
    (unread : (i : ℕ) (m : Move) → get_elem? moves i ≡ some m → m.0 ≢ scratch) where
  Popped-visit :
      (top : ℕ) (is : List ℕ) (vs os : List Bool) (ret : List Move)
      → Inv V moves scratch (state ret (top ∷ is) vs os)
      → Popped V moves scratch (length moves) (top ∷ is) (set vs top true) os ret
  Popped-visit top is vs os ret inv =
      let h : top < length vs = omega (arith, inv.tracks.vis_len, inv.tracks.path.0) in
      let w : get_or os top false ≡ true = ground (arith, inv.tracks.flags top) in
      let same = λ (k : ℕ). emitted-visit vs os top k h w in
      record {
        tracks = record {
          vis_len = length-set vs top true ∙ inv.tracks.vis_len;
          ons_len = inv.tracks.ons_len;
          flags = inv.tracks.flags;
          once = inv.tracks.once;
          path = inv.tracks.path;
        };
        seen =
            (ground (arith, get_or-set vs top top false true h), AllSeen-set vs top is h inv.below);
        closed =
            Closed-ext V moves scratch (length moves) vs os (set vs top true) os same inv.closed;
        means =
            Implements-ext V moves scratch (length moves) vs os (set vs top true) os same
              (reverse ret) inv.means;
      }

  module _ (top : ℕ) (is : List ℕ) (vs os : List Bool) (ret : List Move)
      (p : Popped V moves scratch (length moves) (top ∷ is) vs os ret) where
    drain_lem :
        Ready moves (top ∷ is) vs os
        → Progress V moves scratch
            (state ret (top ∷ is) vs os)
            (drain moves scratch (state ret (top ∷ is) vs os))
    unfolding drain
    drain_lem ready =
        let (ret', os', e, q, f) =
          emit_all_lem V moves scratch distinct outside vs (top ∷ is) os ret ready p in
        (
          state ret' [] vs os',
          rw e,
          record { tracks = q.tracks; below = tt; closed = q.closed; means = q.means },
          omega (arith, f),
        )

    module _ (next : ℕ) (edge : get_elem? (must_come_before moves) top ≡ some (some next)) where
      close_lem :
          get_or os next false ≡ true
          → Progress V moves scratch
              (state ret (top ∷ is) vs os)
              (close_cycle moves scratch (state ret (top ∷ is) vs os) next)
      unfolding close_cycle
      close_lem waits =
          let (is', ret', os', mc, e, q, f, l) =
            emit_cycle_lem V moves scratch distinct outside unread vs top next edge is os ret
              (ground (arith, p.tracks.flags next, waits)) p in
          (
            state (ret' ++ (mc.0, scratch) ∷ []) is' vs os',
            rw e,
            record {
              tracks = q.tracks;
              below = BelowSeen-of_all vs is' q.seen;
              closed = q.closed;
              means = q.means;
            },
            omega (arith, f, l),
          )

      enter_lem :
          next < length moves
          → get_or vs next false ≡ false
          → get_or os next false ≡ false
          → Progress V moves scratch
              (state ret (top ∷ is) vs os)
              (some (enter (state ret (top ∷ is) vs os) next))
      enter_lem h unseen off =
          let hv : next < length vs = omega (arith, p.tracks.vis_len) in
          let ho : next < length os = omega (arith, p.tracks.ons_len) in
          let same = λ (k : ℕ). emitted-push vs os next k ho unseen in
          let n = length moves in
          (
            enter (state ret (top ∷ is) vs os) next,
            refl,
            record {
              tracks = Tracks-push moves next (top ∷ is) vs os p.tracks h off edge;
              below = p.seen;
              closed = Closed-ext V moves scratch n vs os vs (set os next true) same p.closed;
              means =
                  Implements-ext V moves scratch n vs os vs (set os next true) same (reverse ret)
                    p.means;
            },
            omega (arith, fresh-push vs os next hv ho unseen off),
          )

      follow_lem :
          next < length moves
          → (seen waits : Bool) → get_or vs next false ≡ seen
          → get_or os next false ≡ waits
          → Progress V moves scratch
              (state ret (top ∷ is) vs os)
              (follow moves scratch seen waits (state ret (top ∷ is) vs os) next)
      unfolding follow
      follow_lem h true false e f = drain_lem (λ j d. ground (arith, edge, d))
      follow_lem h false false e f = enter_lem h e f
      follow_lem h true true e f = close_lem f
      follow_lem h false true e f = close_lem f

    dispatch_lem :
        (edge : Option ℕ)
        → get_elem? (must_come_before moves) top ≡ some edge
        → Progress V moves scratch
            (state ret (top ∷ is) vs os)
            (dispatch moves scratch edge (state ret (top ∷ is) vs os))
    unfolding dispatch
    dispatch_lem none e = drain_lem (λ j d. cc)
    dispatch_lem (some next) e =
        let h = must_come_before-lt moves top next p.tracks.path.0 e in
        rw
          (
            get_elem?-eq-get_or vs next false (omega (arith, p.tracks.vis_len)),
            get_elem?-eq-get_or os next false (omega (arith, p.tracks.ons_len)),
          )
          (follow_lem next e h (get_or vs next false) (get_or os next false) refl refl)

  -- A round makes progress.
  pub visit_lem :
      (top : ℕ) (is : List ℕ) (vs os : List Bool) (ret : List Move)
      → Inv V moves scratch (state ret (top ∷ is) vs os)
      → Progress V moves scratch
          (state ret (top ∷ is) vs os)
          (visit moves scratch (must_come_before moves) (state ret (top ∷ is) vs os))
  unfolding visit
  visit_lem top is vs os ret inv =
      let (edge, e) =
        get_elem?-some (must_come_before moves) top
          (omega (arith, length-must_come_before moves, inv.tracks.path.0)) in
      let (st', run, inv', less) =
        dispatch_lem top is (set vs top true) os ret (Popped-visit top is vs os ret inv) edge e in
      (
        st',
        rw (e, run),
        inv',
        omega (arith, less, fresh-visit vs os top (ground (arith, inv.tracks.flags top))),
      )
