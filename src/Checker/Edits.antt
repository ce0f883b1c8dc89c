-- ===== src/Checker/Edits.antt =====
-- The edits that the checker takes at a program point (src/checker.rs, `handle_edits`).
use regalloc2_orig.Prelude.{
  ℕ, zero, suc, ◌+◌, ◌≡◌, refl, ap, sym, ◌∙◌, true, false, List, [], ◌∷◌, ◌++◌, map, Option, some,
  get_elem?, set, drop, length, get_elem?-set_self, lt-length_of_get_elem?, arith,
}
use regalloc2_orig.Index.{Block}
use regalloc2_orig.ProgPoint
use regalloc2_orig.ProgPoint.{ProgPoint}
use regalloc2_orig.Function.{Edit, Output}
use regalloc2_orig.Checker.State.{CheckerInst}
use regalloc2_orig.Checker.Run.{edit_inst, handle_loop, handle_edits}

abbrev pub Edits : Type 0
Edits = List (ProgPoint × Edit)

-- Every edit is before the point; every edit is at it; the first edit, if any, is after it.
abbrev pub AllBefore : ProgPoint → Edits → Type 0
AllBefore pos [] = Unit
AllBefore pos ((p, e) ∷ es) = (ProgPoint.lt p pos ≡ true) × AllBefore pos es

abbrev pub StartsAfter : ProgPoint → Edits → Type 0
StartsAfter pos [] = Unit
StartsAfter pos ((p, e) ∷ es) = ProgPoint.lt pos p ≡ true

-- Edits at the point.
abbrev pub all_at : ProgPoint → List Edit → Edits
all_at pos es = map (λ (e : Edit). (pos, e)) es

le_of_lt : (p q : ProgPoint) → ProgPoint.lt p q ≡ true → ProgPoint.le p q ≡ true
le_of_lt p q h = ground arith

le_refl : (p : ProgPoint) → ProgPoint.le p p ≡ true
le_refl p = ground arith

lt_irrefl : (p : ProgPoint) → ProgPoint.lt p p ≡ false
lt_irrefl p = ground arith

not_le : (p q : ProgPoint) → ProgPoint.lt q p ≡ true → ProgPoint.le p q ≡ false
not_le p q h = ground arith

set-set {ℓ} : {A : Type ℓ} (xs : List A) (i : ℕ) (a b : A) → set (set xs i a) i b ≡ set xs i b
set-set [] i a b = refl
set-set (x ∷ xs) zero a b = refl
set-set (x ∷ xs) (suc i) a b = ap (λ ys. x ∷ ys) (set-set xs i a b)

set-same {ℓ} :
    {A : Type ℓ} (xs : List A) (i : ℕ) (a : A) → get_elem? xs i ≡ some a → set xs i a ≡ xs
set-same [] i a h = refl
set-same (x ∷ xs) zero a h = ground arith
set-same (x ∷ xs) (suc i) a h = ap (λ ys. x ∷ ys) (set-same xs i a h)

append-append {ℓ} : {A : Type ℓ} (xs ys zs : List A) → (xs ++ ys) ++ zs ≡ xs ++ (ys ++ zs)
append-append [] ys zs = refl
append-append (x ∷ xs) ys zs = ap (λ ws. x ∷ ws) (append-append xs ys zs)

append-[] {ℓ} : {A : Type ℓ} (xs : List A) → xs ++ [] ≡ xs
append-[] [] = refl
append-[] (x ∷ xs) = ap (λ ws. x ∷ ws) (append-[] xs)

same_result {ℓ} :
    {A : Type ℓ} {i j : ℕ} {a b : A}
    → i ≡ j
    → a ≡ b
    → ◌≡◌ {A = Option (ℕ × A)} (some (i, a)) (some (j, b))
same_result e f = rw (e, f)

module _ (block : Block) (pos : ProgPoint) where
  past_point :
      (rest : Edits) (idx : ℕ) (bb : List (List CheckerInst))
      → StartsAfter pos rest
      → handle_loop block pos rest idx bb ≡ some (idx, bb)
  unfolding handle_loop
  past_point [] idx bb h = refl
  past_point ((p, e) ∷ rest) idx bb h = rw (not_le p pos h)

  at_point :
      (here : List Edit) (rest : Edits) (idx : ℕ) (bb : List (List CheckerInst))
      (old : List CheckerInst)
      → StartsAfter pos rest
      → get_elem? bb block ≡ some old
      → handle_loop block pos (all_at pos here ++ rest) idx bb
        ≡ some (idx + length here, set bb block (old ++ map (edit_inst block) here))
  unfolding handle_loop
  at_point [] rest idx bb old h o =
      past_point rest idx bb h
      ∙ same_result (omega arith)
          (sym (set-same bb block old o) ∙ ap (set bb block) (sym (append-[] old)))
  at_point (e ∷ here) rest idx bb old h o =
      let inst = edit_inst block e in
      let grown = old ++ (inst ∷ []) in
      let inside = lt-length_of_get_elem? bb block old o in
      rw (le_refl pos, lt_irrefl pos, o)
        (at_point here rest (suc idx) (set bb block grown) grown h
            (get_elem?-set_self bb block grown inside)
          ∙ same_result (omega arith) (
              set-set bb block grown (grown ++ map (edit_inst block) here)
              ∙ ap (set bb block) (append-append old (inst ∷ []) (map (edit_inst block) here))))

  handle_loop_lem :
      (skipped : Edits) (here : List Edit) (rest : Edits) (idx : ℕ) (bb : List (List CheckerInst))
      (old : List CheckerInst)
      → AllBefore pos skipped
      → StartsAfter pos rest
      → get_elem? bb block ≡ some old
      → handle_loop block pos (skipped ++ (all_at pos here ++ rest)) idx bb
        ≡ some
            (idx + length skipped + length here, set bb block (old ++ map (edit_inst block) here))
  unfolding handle_loop
  handle_loop_lem [] here rest idx bb old b h o =
      at_point here rest idx bb old h o ∙ same_result (omega arith) refl
  handle_loop_lem ((p, e) ∷ skipped) here rest idx bb old b h o =
      rw (le_of_lt p pos b.0, b.0)
        (handle_loop_lem skipped here rest (suc idx) bb old b.1 h o
          ∙ same_result (omega arith) refl)

-- From an index where the edits that are left are some before the point, then those at the point,
-- then none or one after it, `handle_edits` passes over the first, appends the instructions of
-- those at the point to the block's, in order, and stops at the later ones; it does not panic.
pub handle_edits_lem :
    (block : Block) (pos : ProgPoint) (out : Output) (skipped : Edits) (here : List Edit)
    (rest : Edits) (idx : ℕ) (bb : List (List CheckerInst)) (old : List CheckerInst)
    → drop idx out.edits ≡ skipped ++ (all_at pos here ++ rest)
    → AllBefore pos skipped
    → StartsAfter pos rest
    → get_elem? bb block ≡ some old
    → handle_edits block out idx pos bb
      ≡ some (idx + length skipped + length here, set bb block (old ++ map (edit_inst block) here))
unfolding handle_edits
handle_edits_lem block pos out skipped here rest idx bb old e b h o =
    rw e (handle_loop_lem block pos skipped here rest idx bb old b h o)
