-- ===== src/Checker/Errors.antt =====
-- When the checker finds no error (src/checker.rs, `find_errors`).
use regalloc2_orig.Prelude.{◌≡◌, ◌↔◌, refl, ap, ◌∙◌, List, [], ◌∷◌, ◌++◌, Option, none, some, ◌>>=◌}
use regalloc2_orig.ProgPoint.{before, after}
use regalloc2_orig.Checker.State.{CheckerState, CheckerInst, update}
use regalloc2_orig.Checker.Check.{Outcome, ok, err, panic, check}
use regalloc2_orig.Checker.Run.{Checker, errors_of, block_errors, errors_from, find_errors}

-- Every instruction passes its check before it and its check after it, in the states that the
-- instructions before lead to.
pub data Passes : CheckerState → List CheckerInst → Type 0 where
  done : {st : CheckerState} → Passes st []
  step :
      {st st' : CheckerState} {inst : CheckerInst} {insts : List CheckerInst}
      → check st before inst ≡ ok
      → update st inst ≡ some st'
      → check st' after inst ≡ ok
      → Passes st' insts
      → Passes st (inst ∷ insts)

abbrev pub AllPass : List CheckerState → List (List CheckerInst) → Type 0
AllPass [] bb_insts = Unit
AllPass (input ∷ inputs) [] = ⊥
AllPass (input ∷ inputs) (insts ∷ bb_insts) = Passes input insts × AllPass inputs bb_insts

errors_of-nil : (o : Outcome) → errors_of o ≡ some [] → o ≡ ok
errors_of-nil ok h = refl
errors_of-nil (err e) h = cc
errors_of-nil panic h = cc

append-nil : {A : Type 0} (xs ys : List A) → xs ++ ys ≡ [] → (xs ≡ []) × (ys ≡ [])
append-nil [] ys h = (refl, h)
append-nil (x ∷ xs) ys h = cc

>>=-some {ℓ κ} :
    {A : Type ℓ} {B : Type κ} (m : Option A) (f : A → Option B) (b : B)
    → (m >>= f) ≡ some b
    → (a : A) × (m ≡ some a) × (f a ≡ some b)
>>=-some none f b h = cc
>>=-some (some a) f b h = (a, refl, h)

some_injective {ℓ} : {A : Type ℓ} {a b : A} → Option.some a ≡ Option.some b → a ≡ b
some_injective h = cc

passes :
    (st : CheckerState) (insts : List CheckerInst)
    → block_errors st insts ≡ some []
    → Passes st insts
unfolding block_errors
passes st [] h = done
passes st (inst ∷ insts) h =
    let (es, e1, h) =
      >>=-some (errors_of (check st before inst))
        (λ es. (update st inst) >>= λ st. (errors_of (check st after inst)) >>= λ fs.
          (block_errors st insts) >>= λ gs. some (es ++ (fs ++ gs)))
        [] h in
    let (st', e2, h) =
      >>=-some (update st inst)
        (λ st. (errors_of (check st after inst)) >>= λ fs.
          (block_errors st insts) >>= λ gs. some (es ++ (fs ++ gs)))
        [] h in
    let (fs, e3, h) =
      >>=-some (errors_of (check st' after inst))
        (λ fs. (block_errors st' insts) >>= λ gs. some (es ++ (fs ++ gs))) [] h in
    let (gs, e4, h) = >>=-some (block_errors st' insts) (λ gs. some (es ++ (fs ++ gs))) [] h in
    let (n1, n) = append-nil es (fs ++ gs) (some_injective h) in
    let (n2, n3) = append-nil fs gs n in
    step (errors_of-nil (check st before inst) (e1 ∙ ap some n1)) e2
      (errors_of-nil (check st' after inst) (e3 ∙ ap some n2)) (passes st' insts (e4 ∙ ap some n3))

no_errors :
    (st : CheckerState) (insts : List CheckerInst)
    → Passes st insts
    → block_errors st insts ≡ some []
unfolding block_errors
no_errors st [] done = refl
no_errors st (inst ∷ insts) (step {st' = st'} b u a p) = rw (b, u, a, no_errors st' insts p)

errors_from_iff :
    (inputs : List CheckerState) (bb_insts : List (List CheckerInst))
    → (errors_from inputs bb_insts ≡ some []) ↔ AllPass inputs bb_insts
unfolding errors_from
errors_from_iff [] bb_insts = (λ h. tt, λ p. refl)
errors_from_iff (input ∷ inputs) [] = (λ h. cc, λ p. absurd p)
errors_from_iff (input ∷ inputs) (insts ∷ bb_insts) = (
  λ h.
      let (es, e1, h) =
        >>=-some (block_errors input insts)
          (λ es. (errors_from inputs bb_insts) >>= λ fs. some (es ++ fs)) [] h in
      let (fs, e2, h) = >>=-some (errors_from inputs bb_insts) (λ fs. some (es ++ fs)) [] h in
      let (n1, n2) = append-nil es fs (some_injective h) in
      (passes input insts (e1 ∙ ap some n1), (errors_from_iff inputs bb_insts).0 (e2 ∙ ap some n2)),
  λ (p, q). rw (no_errors input insts p, (errors_from_iff inputs bb_insts).1 q),
)

-- `find_errors` answers without a panic and with no error exactly where, from each block's entry
-- state on, every instruction of the block passes the check before it and the check after it.
pub find_errors_iff : (c : Checker) → (find_errors c ≡ some []) ↔ AllPass c.bb_in c.bb_insts
unfolding find_errors
find_errors_iff c = errors_from_iff c.bb_in c.bb_insts
