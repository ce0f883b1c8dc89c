-- ===== src/Ion/Liveness/Loops.antt =====
-- The search for the blocks of a loop (src/ion/mod.rs, `compute_liveness`).
use regalloc2_orig.Prelude.{
  ℕ, zero, suc, ◌≡◌, ◌<◌, ◌≤◌, true, leb, List, [], ◌∷◌, Option, none, some, ◌>>=◌, length,
  get_elem?, get_elem?-some, min, u32, Bool-cases, inl, inr, arith, refl, sym, ap, subst, ◌∙◌,
}
use regalloc2_orig.Index.{Block}
use regalloc2_orig.Function.{Function}
use regalloc2_orig.Ion.Env.{at}
use regalloc2_orig.Ion.Liveness.Blocks.{min_of_preds, scan_loop}

-- The table has an entry for each of the blocks.
abbrev pub AllListed : List (Option ℕ) → List Block → Type 0
AllListed numbers [] = Unit {0}
AllListed numbers (p ∷ ps) = ((n : Option ℕ) × (at numbers p ≡ some n)) × AllListed numbers ps

-- Each of the blocks that has a number has one that is not less than `m`.
abbrev pub NotBelow : List (Option ℕ) → ℕ → List Block → Type 0
NotBelow numbers m [] = Unit {0}
NotBelow numbers m (p ∷ ps) =
    ((k : ℕ) → at numbers p ≡ some (some k) → m ≤ k) × NotBelow numbers m ps

NotBelow-mono :
    (numbers : List (Option ℕ)) (m n : ℕ) (ps : List Block)
    → m ≤ n
    → NotBelow numbers n ps
    → NotBelow numbers m ps
NotBelow-mono numbers m n [] h b = tt
NotBelow-mono numbers m n (p ∷ ps) h b =
    ((λ k e. omega (arith, b.0 k e)), NotBelow-mono numbers m n ps h b.1)

-- What a predecessor makes of the least number.
abbrev least : ℕ → Option ℕ → ℕ
least m n = min m (elim n [ none ↦ u32 m | some k ↦ k ])

least-le : (m : ℕ) (n : Option ℕ) → least m n ≤ m
least-le m none = omega arith
least-le m (some k) = omega arith

least-number : (m k : ℕ) (n : Option ℕ) → some n ≡ some (some k) → least m n ≤ k
least-number m k none e = cc
least-number m k (some j) e = let same : j ≡ k = cc in omega arith

min_of_preds_lem :
    (numbers : List (Option ℕ)) (preds : List Block) (m : ℕ)
    → AllListed numbers preds
    → (m' : ℕ) × (min_of_preds numbers preds m ≡ some m') × (m' ≤ m) × NotBelow numbers m' preds
unfolding min_of_preds
min_of_preds_lem numbers [] m l = (m, refl, omega arith, tt)
min_of_preds_lem numbers (p ∷ ps) m ((n, h), l) =
    let (m', e, le, b) = min_of_preds_lem numbers ps (least m n) l in
    let down = least-le m n in
    (
      m',
      rw (h, ◌>>=◌) e,
      omega arith,
      ((λ k g. let bound = least-number m k n (sym h ∙ g) in omega arith), b),
    )

-- The blocks up to a place in the postorder have predecessors that the table lists.
abbrev pub Listed : Function → List Block → List (Option ℕ) → ℕ → Type 0
Listed f postorder numbers i =
    (k : ℕ) (b : Block)
    → k ≤ i
    → get_elem? postorder k ≡ some b
    → AllListed numbers (f.block_preds b)

-- The block at one place is one.
same_block :
    (f : Function) (postorder : List Block) (numbers : List (Option ℕ)) (s k : ℕ) (b b0 : Block)
    (m : ℕ)
    → k ≡ s
    → get_elem? postorder s ≡ some b0
    → get_elem? postorder k ≡ some b
    → NotBelow numbers m (f.block_preds b0)
    → NotBelow numbers m (f.block_preds b)
same_block f postorder numbers s k b b0 m q e g n =
    let same : some b0 ≡ some b = sym e ∙ ap (get_elem? postorder) (sym q) ∙ g in
    let one : b0 ≡ b = cc in subst (λ c. NotBelow numbers m (f.block_preds c)) one n

scan_from :
    (fuel : ℕ) (f : Function) (postorder : List Block) (numbers : List (Option ℕ)) (m s : ℕ)
    → s < fuel
    → s < length postorder
    → Listed f postorder numbers s
    → (m' : ℕ) × (scan_loop fuel f postorder numbers m s ≡ some m')
      × (m' ≤ m)
      × ((k : ℕ) (b : Block)
          → m' ≤ k
          → k ≤ s
          → get_elem? postorder k ≡ some b
          → NotBelow numbers m' (f.block_preds b))
unfolding scan_loop
scan_from zero f postorder numbers m s h p l = absurd (omega arith)
scan_from (suc fuel) f postorder numbers m s h p l = elim (Bool-cases (leb m s)) [
  | inr past ↦ (m, rw (scan_loop, past), omega arith, λ k b x y e. absurd (ground arith))
  | inl inside ↦
      let (b0, e0) = get_elem?-some postorder s p in
      let (m1, e1, le1, b1) =
        min_of_preds_lem numbers (f.block_preds b0) m (l s b0 (omega arith) e0) in
      round s h p l inside b0 e0 m1 e1 le1 b1
        (λ k x y z. scan_from fuel f postorder numbers m1 k x y z)
]
  where
    round :
        (s : ℕ)
        → s < suc fuel
        → s < length postorder
        → Listed f postorder numbers s
        → leb m s ≡ true
        → (b0 : Block) → get_elem? postorder s ≡ some b0
        → (m1 : ℕ) → min_of_preds numbers (f.block_preds b0) m ≡ some m1
        → m1 ≤ m
        → NotBelow numbers m1 (f.block_preds b0)
        → ((k : ℕ)
            → k < fuel
            → k < length postorder
            → Listed f postorder numbers k
            → (m' : ℕ) × (scan_loop fuel f postorder numbers m1 k ≡ some m')
              × (m' ≤ m1)
              × ((j : ℕ) (b : Block)
                  → m' ≤ j
                  → j ≤ k
                  → get_elem? postorder j ≡ some b
                  → NotBelow numbers m' (f.block_preds b)))
        → (m' : ℕ) × (scan_loop (suc fuel) f postorder numbers m s ≡ some m')
          × (m' ≤ m)
          × ((k : ℕ) (b : Block)
              → m' ≤ k
              → k ≤ s
              → get_elem? postorder k ≡ some b
              → NotBelow numbers m' (f.block_preds b))
    round zero h p l inside b0 e0 m1 e1 le1 b1 rest = (
      m1,
      rw (scan_loop, inside, e0, ◌>>=◌, e1),
      le1,
      λ k b x y e. same_block f postorder numbers zero k b b0 m1 (omega arith) e0 e b1,
    )
    round (suc s) h p l inside b0 e0 m1 e1 le1 b1 rest =
        let (m', e, le, below) =
          rest s (omega arith) (omega arith) (λ k b x g. l k b (omega arith) g) in
        (
          m',
          rw (scan_loop, inside, e0, ◌>>=◌, e1) e,
          omega arith,
          λ k b x y g. elim (Bool-cases (leb k s)) [
            | inl z ↦ below k b x (ground arith) g
            | inr z ↦
                NotBelow-mono numbers m' m1 (f.block_preds b) le
                  (same_block f postorder numbers (suc s) k b b0 m1 (ground arith) e0 g b1)
          ],
        )

-- Where the table has an entry for each predecessor of the blocks up to `i`, the search returns, with
-- a number up to `i`; each predecessor of a block from that number up to `i` that has a number has one
-- that is not below it.
pub scan_loop_lem :
    (f : Function) (postorder : List Block) (numbers : List (Option ℕ)) (i : ℕ)
    → i < length postorder
    → Listed f postorder numbers i
    → (m : ℕ) × (scan_loop (suc i) f postorder numbers i i ≡ some m)
      × (m ≤ i)
      × ((k : ℕ) (b : Block)
          → m ≤ k
          → k ≤ i
          → get_elem? postorder k ≡ some b
          → NotBelow numbers m (f.block_preds b))
scan_loop_lem f postorder numbers i p l =
    scan_from (suc i) f postorder numbers i i (omega arith) p l
