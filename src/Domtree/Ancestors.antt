-- ===== src/Domtree/Ancestors.antt =====
-- What `dominates` decides (src/domtree.rs): `a` is met on the way up from `b`.
use regalloc2_orig.Prelude.{
  bind_some, ℕ, zero, suc, ◌<◌, ◌≡◌, ◌≢◌, ◌↔◌, ◌⊎◌, inl, inr, refl, sym, ap, ◌∙◌, length, Bool,
  true, false, ◌==◌, List, Option, some, arith, Bool-cases,
}
use regalloc2_orig.Index.{Block, invalid, is_invalid}
use regalloc2_orig.Domtree.{at, dominates}

some_injective {ℓ} : {A : Type ℓ} {a b : A} → Option.some a ≡ Option.some b → a ≡ b
some_injective h = cc

-- `a` is `b` or is met on the way up from `b`. The way goes from a block to its parent, and ends
-- at the root, its own parent, or at the invalid block, whichever comes first: that end included.
pub data Above (idom : List Block) (a : Block) : Block → Type 0 where
  here : Above idom a a
  up :
      {b parent : Block}
      → b ≢ invalid
      → at idom b ≡ some parent
      → b ≢ parent
      → Above idom a parent
      → Above idom a b

-- A block of the tree, or none.
abbrev pub InTree : List Block → Block → Type 0
InTree idom b = (b ≡ invalid) ⊎ (b < length idom)

-- Every block has a parent, which is itself, or has a smaller rank and is in the tree or invalid.
abbrev pub Ranked : List Block → (ℕ → ℕ) → Type 0
Ranked idom rank =
    (b : Block)
    → b ≢ invalid
    → b < length idom
    → (parent : Block) × (at idom b ≡ some parent)
      × ((b ≡ parent) ⊎ ((rank parent < rank b) × InTree idom parent))

module _ {idom : List Block} {a : Block} where
  Above-self : {b : Block} → a ≡ b → Above idom a b
  Above-self e = rw (← e) here

  not-Above-invalid : {b : Block} → Above idom a b → a ≢ b → b ≡ invalid → ⊥
  not-Above-invalid here n e = n refl
  not-Above-invalid (up v p m r) n e = v e

  not-Above-root : {b : Block} → Above idom a b → a ≢ b → at idom b ≡ some b → ⊥
  not-Above-root here n e = n refl
  not-Above-root (up v p m r) n e = m (some_injective (sym e ∙ p))

  Above-parent :
      {b parent : Block} → Above idom a b → a ≢ b → at idom b ≡ some parent → Above idom a parent
  Above-parent here n e = absurd (n refl)
  Above-parent (up v p m r) n e = rw (some_injective (sym e ∙ p)) r

-- The end of the loop's body, from the parent on.
abbrev climb_to : ℕ → List Block → Block → Block → Block → Option Bool
climb_to fuel idom a b parent = elim (b == parent) [
  | true ↦ some false
  | false ↦ dominates fuel idom a parent
]

climb :
    (fuel : ℕ) (idom : List Block) (rank : ℕ → ℕ) (a b : Block)
    → Ranked idom rank
    → InTree idom b
    → rank b < fuel
    → (r : Bool) × (dominates fuel idom a b ≡ some r) × ((r ≡ true) ↔ Above idom a b)
unfolding dominates
climb zero idom rank a b ranked i h = absurd (omega arith)
climb (suc fuel) idom rank a b ranked i h = elim (Bool-cases (a == b)) [
  | inl e ↦ (true, rw (dominates, e), (λ t. Above-self (ground arith), λ t. refl))
  | inr e ↦ elim (Bool-cases (is_invalid b)) [
    | inl v ↦ (
      false,
      rw (dominates, e, v),
      (λ t. cc, λ t. absurd (not-Above-invalid t (ground arith) (ground arith))),
    )
    | inr v ↦
        let (parent, p, smaller) = ranked b (ground arith) (ground arith) in
        elim smaller [
          | inl root ↦
              let self : at idom b ≡ some b = p ∙ ap some (sym root) in
              let same : (b == b) ≡ true = ground arith in
              (
                false,
                rw (dominates, e, v)
                    (bind_some (climb_to fuel idom a b) self ∙ rw (climb_to, same) refl),
                (λ t. cc, λ t. absurd (not-Above-root t (ground arith) self)),
              )
          | inr below ↦
              let (less, inside) = below in
              let apart : b ≢ parent = λ s. omega (arith, ap rank s) in
              let differ : (b == parent) ≡ false = ground arith in
              let (r, d, iff) = climb fuel idom rank a parent ranked inside (omega arith) in
              (
                r,
                rw (dominates, e, v)
                    (bind_some (climb_to fuel idom a b) p ∙ rw (climb_to, differ) d),
                (
                  λ t. up (ground arith) p apart (iff.0 t),
                  λ t. iff.1 (Above-parent t (ground arith) p),
                ),
              )
        ]
  ]
]

-- Where the parents of the tree go down in some rank, the loop of `dominates` ends, it does not
-- panic, and it answers true exactly where `a` is `b` or is met on the way up from `b`: the root or
-- the invalid block where the way ends is included.
pub dominates_lem :
    (idom : List Block) (rank : ℕ → ℕ) (a b : Block)
    → Ranked idom rank
    → InTree idom b
    → (r : Bool) × (dominates (suc (rank b)) idom a b ≡ some r) × ((r ≡ true) ↔ Above idom a b)
dominates_lem idom rank a b ranked i = climb (suc (rank b)) idom rank a b ranked i (omega arith)
