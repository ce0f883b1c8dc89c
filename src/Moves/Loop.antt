-- ===== src/Moves/Loop.antt =====
-- The whole depth-first search (src/moves.rs, the loop in `resolve`): it ends, without a panic, and
-- its sequence does what the parallel move does.
use regalloc2_orig.Prelude.{
  ℕ, zero, suc, ◌+◌, ◌*◌, ◌<◌, ◌≤◌, ◌≡◌, ◌≢◌, refl, none, some, Bool, true, false, List, [], ◌∷◌,
  reverse, arith, length, Option-cases, inl, inr, ◌∙◌, get_elem?, get_or, set,
  lt-length_of_get_elem?, ap, replicate, length-replicate, get_or-replicate,
}
use regalloc2_orig.Alloc.{Allocation}
use regalloc2_orig.Moves.{Move, Dfs, must_come_before, enter, loop, first_unvisited, order}
use regalloc2_orig.Moves.Semantics.{lookup, Distinct, read}
use regalloc2_orig.Moves.Search.{writer, writer-some, lookup-eq-writer}
use regalloc2_orig.Moves.Emit.{target, Implements}
use regalloc2_orig.Moves.Stack.{
  Tracks-push, fresh, fresh-push, on_stack, first_unvisited-some, first_unvisited-none,
}
use regalloc2_orig.Moves.Round.{
  state, Inv, work, visit_lem, Closed-ext, Implements-ext, emitted-push,
}

fresh-le : (vs os : List Bool) → fresh vs os ≤ length vs
fresh-le [] os = omega arith
fresh-le (v ∷ vs) [] = omega arith
fresh-le (v ∷ vs) (o ∷ os) = ground (arith, fresh-le vs os)

module _ {ℓ} (V : Type ℓ) (moves : List Move) (scratch : Allocation) where
  -- A move that was not visited is put on the empty stack.
  Inv-enter :
      (vs os : List Bool) (ret : List Move) (next : ℕ)
      → Inv V moves scratch (state ret [] vs os)
      → next < length moves
      → get_or vs next false ≡ false
      → Inv V moves scratch (enter (state ret [] vs os) next)
        × (work (enter (state ret [] vs os) next) < work (state ret [] vs os))
  Inv-enter vs os ret next inv h unseen =
      let hv : next < length vs = omega (arith, inv.tracks.vis_len) in
      let ho : next < length os = omega (arith, inv.tracks.ons_len) in
      let off : get_or os next false ≡ false = inv.tracks.flags next in
      let same = λ (k : ℕ). emitted-push vs os next k ho unseen in
      let n = length moves in
      (
        record {
          tracks = Tracks-push moves next [] vs os inv.tracks h off tt;
          below = tt;
          closed = Closed-ext V moves scratch n vs os vs (set os next true) same inv.closed;
          means =
              Implements-ext V moves scratch n vs os vs (set os next true) same (reverse ret)
                inv.means;
        },
        omega (arith, fresh-push vs os next hv ho unseen off),
      )

  target_blank :
      (n : ℕ) (os : List Bool) (a : Allocation)
      → target moves scratch (length moves) (replicate n false) os a ≡ none
  unfolding target
  target_blank n os a = elim (Option-cases (writer moves a)) [
    | inl e ↦ rw e
    | inr (k, e) ↦
        let (mk, gk, dk) = writer-some moves a k e in ground (arith, get_or-replicate n k false)
  ]

  Inv-blank :
      Inv V moves scratch
        (state [] [] (replicate (length moves) false) (replicate (length moves) false))
  Inv-blank =
      let n = length moves in
      record {
        tracks = record {
          vis_len = length-replicate n false;
          ons_len = length-replicate n false;
          flags = λ k. get_or-replicate n k false;
          once = tt;
          path = tt;
        };
        below = tt;
        closed = λ k j em ne e. absurd (ground (arith, get_or-replicate n k false, em));
        means = λ σ a ne. rw (target_blank n (replicate n false) a);
      }

module _ {ℓ} (V : Type ℓ) (moves : List Move) (scratch : Allocation) (distinct : Distinct moves)
    (outside : lookup moves scratch ≡ none)
    (unread : (i : ℕ) (m : Move) → get_elem? moves i ≡ some m → m.0 ≢ scratch) where
  loop_lem :
      (fuel : ℕ) (is : List ℕ) (vs os : List Bool) (ret : List Move)
      → Inv V moves scratch (state ret is vs os)
      → work (state ret is vs os) < fuel
      → (st : Dfs) × (loop moves scratch (must_come_before moves) fuel (state ret is vs os)
          ≡ some st)
        × Inv V moves scratch st
        × (st.stack ≡ [])
        × (first_unvisited st.visited ≡ none)
  unfolding loop
  loop_lem zero is vs os ret inv h = absurd (omega arith)
  loop_lem (suc fuel) (top ∷ is) vs os ret inv h =
      let (st, e, inv', less) =
        visit_lem V moves scratch distinct outside unread top is vs os ret inv in
      let (st', e', inv'', empty, all) =
        loop_lem fuel st.stack st.visited st.onstack st.ret inv' (omega (arith, less)) in
      (st', rw e e', inv'', empty, all)
  loop_lem (suc fuel) [] vs os ret inv h = elim (Option-cases (first_unvisited vs)) [
    | inl e ↦ (state ret [] vs os, rw e, inv, refl, e)
    | inr (next, e) ↦
        let (lt, unseen) = first_unvisited-some vs next e in
        let (inv', less) =
          Inv-enter V moves scratch vs os ret next inv (omega (arith, inv.tracks.vis_len)) unseen in
        let (st, run, inv'', less') =
          visit_lem V moves scratch distinct outside unread next [] vs (set os next true) ret
            inv' in
        let (st', run', inv3, empty, all) =
          loop_lem fuel st.stack st.visited st.onstack st.ret inv'' (omega (arith, less, less')) in
        (st', rw (e, run) run', inv3, empty, all)
  ]

  target_all :
      (vs os : List Bool) (a : Allocation)
      → length vs ≡ length moves
      → first_unvisited vs ≡ none
      → ((k : ℕ) → get_or os k false ≡ false)
      → target moves scratch (length moves) vs os a ≡ lookup moves a
  unfolding target
  target_all vs os a n all off = elim (Option-cases (writer moves a)) [
    | inl e ↦ rw (lookup-eq-writer moves a, e)
    | inr (k, e) ↦
        let (mk, gk, dk) = writer-some moves a k e in
        let lt = lt-length_of_get_elem? moves k mk gk in
        ground (arith, lookup-eq-writer moves a, first_unvisited-none vs k all (omega arith), off k)
  ]

  pub order_lem :
      0 < length moves
      → (seq : List Move) × (order moves scratch ≡ some seq)
        × Implements V scratch seq (lookup moves)
  unfolding order
  order_lem pos =
      let n = length moves in
      let blank = replicate n false in
      let (inv, less) =
        Inv-enter V moves scratch blank blank [] 0 (Inv-blank V moves scratch) pos
          (get_or-replicate n 0 false) in
      let (st, run, inv', empty, all) =
        loop_lem (2 * n + 2) (0 ∷ []) blank (set blank 0 true) [] inv
          (omega (arith, less, fresh-le blank blank, length-replicate n false)) in
      (
        reverse st.ret,
        rw run,
        λ σ a ne.
            inv'.means σ a ne
            ∙ ap (read σ a) (
                target_all st.visited st.onstack a inv'.tracks.vis_len all
                  (λ k. inv'.tracks.flags k ∙ ap (on_stack k) empty)),
      )
