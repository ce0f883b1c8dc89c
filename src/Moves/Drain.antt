-- ===== src/Moves/Drain.antt =====
-- Emptying the stack (src/moves.rs, the first two arms of the loop in `resolve`).
use regalloc2_orig.Prelude.{
  ℕ, ◌<◌, ◌≡◌, ◌≢◌, refl, none, some, Bool, true, false, ◌==◌, if◌then◌else◌, List, [], ◌∷◌, ◌++◌,
  reverse, arith, length, ◌∙◌, get_elem?, get_or, set, get_elem?-some,
}
use regalloc2_orig.Alloc.{Allocation}
use regalloc2_orig.Moves.{Move, must_come_before, emit_all}
use regalloc2_orig.Moves.Semantics.{lookup, Distinct}
use regalloc2_orig.Moves.Emit.{
  emitted, emitted-set, target, Closed, Implements, emit-Closed, emit-Implements,
}
use regalloc2_orig.Moves.Stack.{Tracks, Tracks-pop, AllSeen, Above, fresh, fresh-pop}

-- The move on top may be emitted: nothing that it must come before is missing.
abbrev pub Ready : List Move → List ℕ → List Bool → List Bool → Type 0
Ready moves [] vs os = Unit
Ready moves (i ∷ is) vs os =
    (j : ℕ) → get_elem? (must_come_before moves) i ≡ some (some j) → emitted vs os j ≡ true

Ready-below :
    (moves : List Move) (i : ℕ) (is : List ℕ) (vs os : List Bool)
    → Above moves i is
    → get_or vs i false ≡ true
    → i < length os
    → Ready moves is vs (set os i false)
Ready-below moves i [] vs os above seen fits = tt
Ready-below moves i (b ∷ is) vs os above seen fits =
    λ j e. ground (arith, emitted-set vs os i j fits, above, e)

-- The state after moves were popped, with `is` left on the stack.
pub record Popped {ℓ} (V : Type ℓ) (moves : List Move) (scratch : Allocation) (spilled : ℕ)
    (is : List ℕ) (vs os : List Bool) (ret : List Move) : Type ℓ where
  pub tracks : Tracks moves is vs os
  pub seen : AllSeen vs is
  pub closed : Closed moves spilled vs os
  pub means : Implements V scratch (reverse ret) (target moves scratch spilled vs os)

module _ {ℓ} (V : Type ℓ) (moves : List Move) (scratch : Allocation) (distinct : Distinct moves)
    (outside : lookup moves scratch ≡ none) (vs : List Bool) where
  pub Popped-emit :
      (spilled i : ℕ) (m : Move) (is : List ℕ) (os : List Bool) (ret : List Move) (s : Allocation)
      → get_elem? moves i ≡ some m
      → s ≡ (if i == spilled then scratch else m.0)
      → (i ≢ spilled → Ready moves (i ∷ is) vs os)
      → Popped V moves scratch spilled (i ∷ is) vs os ret
      → Popped V moves scratch spilled is vs (set os i false) (ret ++ (s, m.1) ∷ [])
  Popped-emit spilled i m is os ret s at es ready p =
      let fits : i < length os = omega (arith, p.tracks.ons_len, p.tracks.path.0) in
      let waits : get_or os i false ≡ true = ground (arith, p.tracks.flags i) in
      record {
        tracks = Tracks-pop moves i is vs os p.tracks;
        seen = p.seen.1;
        closed =
            emit-Closed V moves scratch distinct outside spilled vs os i m at p.seen.0 waits fits
              p.closed ready;
        means = rw es (
            emit-Implements V moves scratch distinct outside spilled vs os i m at p.seen.0 waits
              fits p.closed ret p.means);
      }

  pub emit_all_lem :
      (is : List ℕ) (os : List Bool) (ret : List Move)
      → Ready moves is vs os
      → Popped V moves scratch (length moves) is vs os ret
      → (ret' : List Move) × (os' : List Bool) × (emit_all moves scratch is ret os
          ≡ some (ret', os'))
        × Popped V moves scratch (length moves) [] vs os' ret'
        × (fresh vs os' ≡ fresh vs os)
  unfolding emit_all
  emit_all_lem [] os ret ready p = (ret, os, refl, p, refl)
  emit_all_lem (i ∷ is) os ret ready p =
      let (m, at) = get_elem?-some moves i p.tracks.path.0 in
      let ne : (i == length moves) ≡ false = ground (arith, p.tracks.path) in
      let next = Popped-emit (length moves) i m is os ret m.0 at (rw ne) (λ _. ready) p in
      let (ret', os', e, done, f) =
        emit_all_lem is (set os i false) (ret ++ m ∷ [])
          (Ready-below moves i is vs os p.tracks.path.1 p.seen.0
            (omega (arith, p.tracks.ons_len, p.tracks.path.0)))
          next in
      (ret', os', rw at e, done, f ∙ fresh-pop vs os i p.seen.0)
