-- ===== src/Moves/Stack.antt =====
-- The depth-first search's stack and its two arrays of flags (src/moves.rs, `stack`, `visited` and
-- `onstack` in `resolve`).
use regalloc2_orig.Prelude.{
  ℕ, zero, suc, ◌+◌, ◌<◌, ◌≡◌, refl, none, some, Bool, true, false, ◌||◌, ◌==◌, if◌then◌else◌, List,
  [], ◌∷◌, arith, length, Bool-cases, inl, inr, ◌∙◌, get_elem?, get_or, set, get_or-set, length-set,
  ==_iff, ap,
}
use regalloc2_orig.Moves.{Move, must_come_before, first_unvisited}

abbrev pub on_stack : ℕ → List ℕ → Bool
on_stack k [] = false
on_stack k (i ∷ is) = i == k || on_stack k is

abbrev pub NoRepeat : List ℕ → Type 0
NoRepeat [] = Unit
NoRepeat (i ∷ is) = (on_stack i is ≡ false) × NoRepeat is

-- Every move on the stack but the top one must come before the move above it.
abbrev pub Above : List Move → ℕ → List ℕ → Type 0
Above moves i [] = Unit
Above moves i (b ∷ is) = get_elem? (must_come_before moves) b ≡ some (some i)

abbrev pub IsPath : List Move → List ℕ → Type 0
IsPath moves [] = Unit
IsPath moves (i ∷ is) = (i < length moves) × Above moves i is × IsPath moves is

abbrev pub AllSeen : List Bool → List ℕ → Type 0
AllSeen vs [] = Unit
AllSeen vs (i ∷ is) = (get_or vs i false ≡ true) × AllSeen vs is

pub record Tracks (moves : List Move) (is : List ℕ) (vs os : List Bool) : Type 0 where
  pub vis_len : length vs ≡ length moves
  pub ons_len : length os ≡ length moves
  pub flags : (k : ℕ) → get_or os k false ≡ on_stack k is
  pub once : NoRepeat is
  pub path : IsPath moves is

pub Tracks-pop :
    (moves : List Move) (i : ℕ) (is : List ℕ) (vs os : List Bool)
    → Tracks moves (i ∷ is) vs os
    → Tracks moves is vs (set os i false)
Tracks-pop moves i is vs os t = record {
  vis_len = t.vis_len;
  ons_len = length-set os i false ∙ t.ons_len;
  flags = λ k. elim (Bool-cases (i == k)) [
    | inl e ↦
        let ik : i ≡ k = (==_iff i k).0 e in
        ground
          (arith, get_or-set os i k false false, t.once, t.path, ap (λ (x : ℕ). on_stack x is) ik)
    | inr e ↦ ground (arith, get_or-set os i k false false, t.flags k, t.path)
  ];
  once = t.once.1;
  path = t.path.2;
}

pub Tracks-push :
    (moves : List Move) (i : ℕ) (is : List ℕ) (vs os : List Bool)
    → Tracks moves is vs os
    → i < length moves
    → get_or os i false ≡ false
    → Above moves i is
    → Tracks moves (i ∷ is) vs (set os i true)
Tracks-push moves i is vs os t h off above = record {
  vis_len = t.vis_len;
  ons_len = length-set os i true ∙ t.ons_len;
  flags = λ k. ground (arith, get_or-set os i k false true, t.flags k);
  once = (ground (arith, t.flags i), t.once);
  path = (h, above, t.path);
}

-- The moves that are neither visited nor on the stack.
abbrev pub fresh : List Bool → List Bool → ℕ
fresh [] os = 0
fresh (v ∷ vs) [] = 0
fresh (v ∷ vs) (o ∷ os) = (if v || o then 0 else 1) + fresh vs os

pub fresh-push :
    (vs os : List Bool) (i : ℕ)
    → i < length vs
    → i < length os
    → get_or vs i false ≡ false
    → get_or os i false ≡ false
    → fresh vs (set os i true) + 1 ≡ fresh vs os
fresh-push [] os i h k a b = absurd (omega arith)
fresh-push (v ∷ vs) [] i h k a b = absurd (omega arith)
fresh-push (v ∷ vs) (o ∷ os) zero h k a b = ground arith
fresh-push (v ∷ vs) (o ∷ os) (suc i) h k a b = ground (arith, fresh-push vs os i)

pub fresh-visit :
    (vs os : List Bool) (i : ℕ) → get_or os i false ≡ true → fresh (set vs i true) os ≡ fresh vs os
fresh-visit [] os i h = refl
fresh-visit (v ∷ vs) [] i h = cc
fresh-visit (v ∷ vs) (o ∷ os) zero h = ground arith
fresh-visit (v ∷ vs) (o ∷ os) (suc i) h = ground (arith, fresh-visit vs os i)

pub fresh-pop :
    (vs os : List Bool) (i : ℕ) → get_or vs i false ≡ true → fresh vs (set os i false) ≡ fresh vs os
fresh-pop [] os i h = refl
fresh-pop (v ∷ vs) [] i h = refl
fresh-pop (v ∷ vs) (o ∷ os) zero h = ground arith
fresh-pop (v ∷ vs) (o ∷ os) (suc i) h = ground (arith, fresh-pop vs os i)

pub first_unvisited-some :
    (vs : List Bool) (i : ℕ)
    → first_unvisited vs ≡ some i
    → (i < length vs) × (get_or vs i false ≡ false)
unfolding first_unvisited
first_unvisited-some [] i h = absurd (cc)
first_unvisited-some (true ∷ vs) zero h = ground arith
first_unvisited-some (true ∷ vs) (suc i) h = ground (arith, first_unvisited-some vs i)
first_unvisited-some (false ∷ vs) i h = ground arith

pub first_unvisited-none :
    (vs : List Bool) (i : ℕ) → first_unvisited vs ≡ none → i < length vs → get_or vs i false ≡ true
unfolding first_unvisited
first_unvisited-none [] i h k = absurd (omega arith)
first_unvisited-none (true ∷ vs) zero h k = refl
first_unvisited-none (true ∷ vs) (suc i) h k = ground (arith, first_unvisited-none vs i)
first_unvisited-none (false ∷ vs) i h k = absurd (cc)
