-- ===== src/Moves/Cycle.antt =====
-- Emitting a cycle (src/moves.rs, the last arm of the loop in `resolve`).
use regalloc2_orig.Prelude.{
  ℕ, ◌<◌, ◌≡◌, ◌≢◌, refl, none, some, Bool, true, false, ◌==◌, ==_iff, if◌then◌else◌, List, [], ◌∷◌,
  ◌++◌, arith, length, Bool-cases, inl, inr, ◌∙◌, get_elem?, get_or, set, get_elem?-some,
  lt-length_of_get_elem?, ap,
}
use regalloc2_orig.Alloc.{Allocation}
use regalloc2_orig.Moves.{Move, must_come_before, emit_cycle}
use regalloc2_orig.Moves.Semantics.{lookup, Distinct, eq_refl, read}
use regalloc2_orig.Moves.Search.{dst-eq-src, length-must_come_before}
use regalloc2_orig.Moves.Emit.{emitted, emitted-set, save-Implements, target_spill}
use regalloc2_orig.Moves.Stack.{Above, fresh, fresh-pop, on_stack}
use regalloc2_orig.Moves.Drain.{Popped, Popped-emit}

-- What the cycle's loop leaves.
record Closing {ℓ} (V : Type ℓ) (moves : List Move) (scratch : Allocation) (c next : ℕ)
    (is : List ℕ) (vs os : List Bool) (ret : List Move) : Type ℓ where
  popped : Popped V moves scratch c is vs os ret
  top : emitted vs os c ≡ true
  entry : emitted vs os next ≡ true

emit_cycle-cons :
    (moves : List Move) (scratch : Allocation) (next i : ℕ) (is : List ℕ) (m : Move)
    (d src : Allocation) (ret : List Move) (os : List Bool)
    → get_elem? moves i ≡ some m
    → d ≡ m.0
    → emit_cycle moves scratch next (i ∷ is) (some d) (some src) ret os ≡ (
        if i == next
        then some (is, some src, ret ++ (m.0, m.1) ∷ [], set os i false)
        else emit_cycle moves scratch next is
            (some m.1)
            (some src)
            (ret ++ (m.0, m.1) ∷ [])
            (set os i false))
unfolding emit_cycle
emit_cycle-cons moves scratch next i is m d src ret os at e = rw (at, e, eq_refl m.0)

module _ {ℓ} (V : Type ℓ) (moves : List Move) (scratch : Allocation) (distinct : Distinct moves)
    (outside : lookup moves scratch ≡ none) (vs : List Bool) (c next : ℕ) (mc : Move) where
  -- Below the top: the move `p` was emitted last.
  emit_cycle_rest :
      (is : List ℕ) (os : List Bool) (ret : List Move) (p : ℕ) (mp : Move)
      → get_elem? moves p ≡ some mp
      → Above moves p is
      → emitted vs os p ≡ true
      → emitted vs os c ≡ true
      → on_stack next is ≡ true
      → Popped V moves scratch c is vs os ret
      → (is' : List ℕ) × (ret' : List Move) × (os' : List Bool) × (emit_cycle moves scratch next is
            (some mp.1)
            (some mc.0)
            ret
            os
          ≡ some (is', some mc.0, ret', os'))
        × Closing V moves scratch c next is' vs os' ret'
        × (fresh vs os' ≡ fresh vs os)
        × (length is' < length is)
  emit_cycle_rest [] os ret p mp at above ep ec member popped = absurd (cc)
  emit_cycle_rest (i ∷ is) os ret p mp at above ep ec member popped =
      let (m, mi) = get_elem?-some moves i popped.tracks.path.0 in
      let fits : i < length os = omega (arith, popped.tracks.ons_len, popped.tracks.path.0) in
      let waits : get_or os i false ≡ true = ground (arith, popped.tracks.flags i) in
      let ne : (i == c) ≡ false = ground (arith, waits, ec) in
      let same : mp.1 ≡ m.0 = dst-eq-src moves i p m mp mi at above in
      let popped' =
        Popped-emit V moves scratch distinct outside vs c i m is os ret m.0 mi (rw ne)
          (λ _ j e. ground (arith, above, e, ep)) popped in
      let now = λ (k : ℕ). emitted-set vs os i k fits in
      let f = fresh-pop vs os i popped.seen.0 in
      elim (Bool-cases (i == next)) [
        | inl e ↦ (
          is,
          ret ++ (m.0, m.1) ∷ [],
          set os i false,
          emit_cycle-cons moves scratch next i is m mp.1 mc.0 ret os mi same ∙ rw e,
          record {
            popped = popped';
            top = ground (arith, now c);
            entry = ground (arith, now i, popped.seen);
          },
          f,
          omega arith,
        )
        | inr e ↦
            let (is', ret', os', e', r, f', l) =
              emit_cycle_rest is (set os i false) (ret ++ (m.0, m.1) ∷ []) i m mi
                popped.tracks.path.1 (ground (arith, now i, popped.seen)) (ground (arith, now c))
                (ground (arith, member, e)) popped' in
            (
              is',
              ret',
              os',
              emit_cycle-cons moves scratch next i is m mp.1 mc.0 ret os mi same ∙ rw e e',
              r,
              f' ∙ f,
              omega arith,
            )
      ]

-- The move `c` on top is set aside while its cycle is emitted.
Popped-spill {ℓ} :
    (V : Type ℓ) (moves : List Move) (scratch : Allocation) (c : ℕ) (is : List ℕ)
    (vs os : List Bool) (ret : List Move)
    → emitted vs os c ≡ false
    → Popped V moves scratch (length moves) is vs os ret
    → Popped V moves scratch c is vs os ret
Popped-spill V moves scratch c is vs os ret off p = record {
  tracks = p.tracks;
  seen = p.seen;
  closed = λ k j em ne e.
      p.closed k j em
        (omega (
          arith,
          lt-length_of_get_elem? (must_come_before moves) k (some j) e,
          length-must_come_before moves,
        ))
        e;
  means = λ σ a ne. p.means σ a ne ∙ ap (read σ a) (target_spill moves scratch c vs os a off);
}

module _ {ℓ} (V : Type ℓ) (moves : List Move) (scratch : Allocation) (distinct : Distinct moves)
    (outside : lookup moves scratch ≡ none)
    (unread : (i : ℕ) (m : Move) → get_elem? moves i ≡ some m → m.0 ≢ scratch) (vs : List Bool)
    (c next : ℕ) (edge : get_elem? (must_come_before moves) c ≡ some (some next)) where
  Closing-save :
      (mc : Move) (is : List ℕ) (os : List Bool) (ret : List Move)
      → get_elem? moves c ≡ some mc
      → Closing V moves scratch c next is vs os ret
      → Popped V moves scratch (length moves) is vs os (ret ++ (mc.0, scratch) ∷ [])
  Closing-save mc is os ret at h = record {
    tracks = h.popped.tracks;
    seen = h.popped.seen;
    closed = λ k j em ne e. elim (Bool-cases (k == c)) [
      | inl same ↦
          let kc : k ≡ c = (==_iff k c).0 same in
          ground (arith, edge, h.entry, ap (get_elem? (must_come_before moves)) kc, e)
      | inr other ↦ h.popped.closed k j em (ground arith) e
    ];
    means = save-Implements V moves scratch distinct unread c vs os mc at ret h.popped.means;
  }

  pub emit_cycle_lem :
      (is : List ℕ) (os : List Bool) (ret : List Move)
      → on_stack next (c ∷ is) ≡ true
      → Popped V moves scratch (length moves) (c ∷ is) vs os ret
      → (is' : List ℕ) × (ret' : List Move) × (os' : List Bool) × (mc : Move) × (emit_cycle moves
            scratch next
            (c ∷ is)
            none
            none
            ret
            os
          ≡ some (is', some mc.0, ret', os'))
        × Popped V moves scratch (length moves) is' vs os' (ret' ++ (mc.0, scratch) ∷ [])
        × (fresh vs os' ≡ fresh vs os)
        × (length is' < length (c ∷ is))
  unfolding emit_cycle
  emit_cycle_lem is os ret member p =
      let (mc, at) = get_elem?-some moves c p.tracks.path.0 in
      let fits : c < length os = omega (arith, p.tracks.ons_len, p.tracks.path.0) in
      let waits : get_or os c false ≡ true = ground (arith, p.tracks.flags c) in
      let spilled = Popped-spill V moves scratch c (c ∷ is) vs os ret (ground (arith, waits)) p in
      let first =
        Popped-emit V moves scratch distinct outside vs c c mc is os ret scratch at (ground arith)
          (λ ne. absurd (ne refl)) spilled in
      let now = emitted-set vs os c c fits in
      let f = fresh-pop vs os c p.seen.0 in
      let top : emitted vs (set os c false) c ≡ true = ground (arith, now, p.seen) in
      let ret' = ret ++ (scratch, mc.1) ∷ [] in
      elim (Bool-cases (c == next)) [
        | inl e ↦
            let cn : c ≡ next = (==_iff c next).0 e in
            (
              is,
              ret',
              set os c false,
              mc,
              rw (at, e),
              Closing-save mc is (set os c false) ret' at
                  (record { popped = first; top = top; entry = rw (← cn) top }),
              f,
              omega arith,
            )
        | inr e ↦
            let (is', ret'', os', run, closing, f', l) =
              emit_cycle_rest V moves scratch distinct outside vs c next mc is (set os c false) ret'
                c mc at p.tracks.path.1 top top (ground (arith, member, e)) first in
            (
              is',
              ret'',
              os',
              mc,
              rw (at, e, run),
              Closing-save mc is' os' ret'' at closing,
              f' ∙ f,
              omega (arith, l),
            )
      ]
