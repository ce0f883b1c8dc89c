-- ===== src/Moves/Emit.antt =====
-- What emitting one move adds to the meaning of the sequence so far (src/moves.rs, the arms of the
-- loop in `resolve`). The sequence is built from its end, so a move that is emitted runs before
-- those emitted earlier.
use regalloc2_orig.Prelude.{
  ℕ, ◌≡◌, ◌≢◌, ◌<◌, Option, none, some, Bool, true, false, ◌&&◌, ◌==◌, not, if◌then◌else◌, List, [],
  ◌∷◌, ◌++◌, arith, length, Bool-cases, inl, inr, ◌∙◌, get_elem?, Option-cases, ◌>>=◌, ==_iff,
  get_or, set, reverse, get_or-set, sym, ◌≤◌, lt-length_of_get_elem?,
}
use mathlib.Core.List.{reverse-append}
use regalloc2_orig.Alloc
use regalloc2_orig.Alloc.{Allocation}
use regalloc2_orig.Moves.{Move, must_come_before}
use regalloc2_orig.Moves.Semantics.{lookup, Distinct, eq_of_eq, eq_refl, run, read, write}
use regalloc2_orig.Moves.Search.{
  writer, writer-some, writer_dst, get_elem?-must_come_before, lookup_dst,
}

-- A move has been emitted when it was visited and is no longer on the stack.
abbrev pub emitted : List Bool → List Bool → ℕ → Bool
emitted visited onstack i = get_or visited i false && not (get_or onstack i false)

-- The source from which the sequence so far writes to the destination of move `i`. The move
-- `spilled` reads the scratch location until its cycle is closed.
abbrev pub source : Allocation → ℕ → ℕ → Move → Allocation
source scratch spilled i m = if i == spilled then scratch else m.0

pub emitted-set :
    (vs os : List Bool) (i k : ℕ)
    → i < length os
    → emitted vs (set os i false) k ≡ (if i == k then get_or vs k false else emitted vs os k)
emitted-set vs os i k h = ground (arith, get_or-set os i k false false)

-- The source from which the sequence so far writes to `a`, if it writes there.
unfoldable pub target :
    List Move → Allocation → ℕ → List Bool → List Bool → Allocation → Option Allocation
target moves scratch spilled vs os a = writer moves a >>= λ i.
    get_elem? moves i >>= λ m. if emitted vs os i then some (source scratch spilled i m) else none

-- Every emitted move but `spilled` runs before a move that overwrites its source.
abbrev pub Closed : List Move → ℕ → List Bool → List Bool → Type 0
Closed moves spilled vs os =
    (k j : ℕ)
    → emitted vs os k ≡ true
    → k ≢ spilled
    → get_elem? (must_come_before moves) k ≡ some (some j)
    → emitted vs os j ≡ true

-- The moves of `seq`, run in order, do what `f` says to every place but the scratch location.
abbrev pub Implements {ℓ} :
    (V : Type ℓ) → Allocation → List Move → (Allocation → Option Allocation) → Type ℓ
Implements V scratch seq f =
    (σ : Allocation → V) (a : Allocation) → a ≢ scratch → run seq σ a ≡ read σ a (f a)

Implements-cons {ℓ} :
    (V : Type ℓ) (scratch s d : Allocation) (seq : List Move) (f g : Allocation → Option Allocation)
    → f d ≡ none
    → ((a : Allocation) → f a ≢ some d)
    → ((a : Allocation) → g a ≡ (if Alloc.eq d a then some s else f a))
    → Implements V scratch seq f
    → Implements V scratch ((s, d) ∷ seq) g
Implements-cons V scratch s d seq f g free unread step h σ a ne = elim (Option-cases (f a)) [
  | inl e ↦ ground (arith, h (write σ d (σ s)) a ne, step a)
  | inr (b, e) ↦
      ground (arith, h (write σ d (σ s)) a ne, step a, unread a, eq_of_eq d b, eq_of_eq d a)
]

-- One move emitted.
module _ {ℓ} (V : Type ℓ) (moves : List Move) (scratch : Allocation) (distinct : Distinct moves)
    (outside : lookup moves scratch ≡ none) (spilled : ℕ) (vs os : List Bool) (i : ℕ) (m : Move)
    (at : get_elem? moves i ≡ some m) (seen : get_or vs i false ≡ true)
    (waits : get_or os i false ≡ true) (fits : i < length os)
    (closed : Closed moves spilled vs os) where
  emitted_later : (j : ℕ) → emitted vs os j ≡ true → emitted vs (set os i false) j ≡ true
  emitted_later j h = ground (arith, emitted-set vs os i j fits)

  pub emit-Closed :
      (i ≢ spilled
        → (j : ℕ) → get_elem? (must_come_before moves) i ≡ some (some j)
        → emitted vs os j ≡ true)
      → Closed moves spilled vs (set os i false)
  emit-Closed ready k j em ne e = elim (Bool-cases (i == k)) [
    | inl same ↦
        let ik : i ≡ k = (==_iff i k).0 same in
        emitted_later j (ready (λ p. ne (sym ik ∙ p)) j (rw ik e))
    | inr other ↦ emitted_later j (closed k j (ground (arith, emitted-set vs os i k fits)) ne e)
  ]

  target_free : target moves scratch spilled vs os m.1 ≡ none
  unfolding target
  target_free = ground (arith, writer_dst moves i m distinct at)

  target_unread : (a : Allocation) → target moves scratch spilled vs os a ≢ some m.1
  unfolding target
  target_unread a h = elim (Option-cases (writer moves a)) [
    | inl e ↦ cc
    | inr (k, e) ↦
        let (mk, gk, dk) = writer-some moves a k e in
        ground (
          arith,
          lookup_dst moves i m at,
          get_elem?-must_come_before moves k mk gk,
          writer_dst moves i m distinct at,
          closed k i,
        )
  ]

  target-set :
      (a : Allocation)
      → target moves scratch spilled vs (set os i false) a ≡ (
          if Alloc.eq m.1 a
          then some (source scratch spilled i m)
          else target moves scratch spilled vs os a)
  unfolding target
  target-set a = elim (Option-cases (writer moves a)) [
    | inl e ↦ ground (arith, eq_of_eq m.1 a, writer_dst moves i m distinct at)
    | inr (k, e) ↦
        let (mk, gk, dk) = writer-some moves a k e in
        ground (
          arith,
          eq_of_eq m.1 a,
          eq_refl a,
          writer_dst moves i m distinct at,
          emitted-set vs os i k fits,
        )
  ]

  pub emit-Implements :
      (ret : List Move)
      → Implements V scratch (reverse ret) (target moves scratch spilled vs os)
      → Implements V scratch
          (reverse (ret ++ (source scratch spilled i m, m.1) ∷ []))
          (target moves scratch spilled vs (set os i false))
  emit-Implements ret h = rw (reverse-append ret ((source scratch spilled i m, m.1) ∷ [])) (
      Implements-cons V scratch (source scratch spilled i m) m.1 (reverse ret)
        (target moves scratch spilled vs os) (target moves scratch spilled vs (set os i false))
        target_free target_unread target-set h)

-- The cycle is closed: the source of `spilled` is saved first, so it need not be read from the
-- scratch location any more.
module _ {ℓ} (V : Type ℓ) (moves : List Move) (scratch : Allocation) (distinct : Distinct moves)
    (unread : (i : ℕ) (m : Move) → get_elem? moves i ≡ some m → m.0 ≢ scratch) (spilled : ℕ)
    (vs os : List Bool) (m : Move) (at : get_elem? moves spilled ≡ some m) where
  save_step :
      (none_spilled : ℕ)
      → length moves ≤ none_spilled
      → (σ : Allocation → V) (a : Allocation) → a ≢ scratch
      → read (write σ scratch (σ m.0)) a (target moves scratch spilled vs os a)
        ≡ read σ a (target moves scratch none_spilled vs os a)
  unfolding target
  save_step n h σ a ne = elim (Option-cases (writer moves a)) [
    | inl e ↦ ground (arith, eq_of_eq scratch a)
    | inr (k, e) ↦
        let (mk, gk, dk) = writer-some moves a k e in
        ground (
          arith,
          eq_of_eq scratch a,
          eq_of_eq scratch mk.0,
          eq_refl scratch,
          unread k mk gk,
          lt-length_of_get_elem? moves k mk gk,
        )
  ]

  pub save-Implements :
      (ret : List Move)
      → Implements V scratch (reverse ret) (target moves scratch spilled vs os)
      → Implements V scratch
          (reverse (ret ++ (m.0, scratch) ∷ []))
          (target moves scratch (length moves) vs os)
  save-Implements ret h σ a ne =
      rw (reverse-append ret ((m.0, scratch) ∷ []))
        (h (write σ scratch (σ m.0)) a ne ∙ save_step (length moves) (omega arith) σ a ne)

-- A move that is not emitted may be set aside.
pub target_spill :
    (moves : List Move) (scratch : Allocation) (i : ℕ) (vs os : List Bool) (a : Allocation)
    → emitted vs os i ≡ false
    → target moves scratch (length moves) vs os a ≡ target moves scratch i vs os a
unfolding target
target_spill moves scratch i vs os a h = elim (Option-cases (writer moves a)) [
  | inl e ↦ rw e
  | inr (k, e) ↦
      let (mk, gk, dk) = writer-some moves a k e in
      ground (arith, lt-length_of_get_elem? moves k mk gk)
]
