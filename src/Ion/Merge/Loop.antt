-- ===== src/Ion/Merge/Loop.antt =====
-- The loop that merges two chains of ranges (src/ion/mod.rs, `merge_bundles`).
use regalloc2_orig.Prelude.{
  ℕ, zero, suc, ◌+◌, ◌≡◌, ◌<◌, ◌≤◌, Bool, true, false, ◌||◌, List, [], ◌∷◌, ◌++◌, some, get_elem?,
  refl, subst, sym, ◌∙◌, ap, ◌>>=◌, Bool-cases, inl, inr, arith, length,
}
use regalloc2_orig.Index
use regalloc2_orig.ProgPoint
use regalloc2_orig.ProgPoint.Order.{position-le}
use regalloc2_orig.Ion.Env.{Env, at, at-some}
use regalloc2_orig.Ion.Bundle.{bundle_link}
use regalloc2_orig.Ion.Merge.{takes_first, merge_chains}
use regalloc2_orig.Ion.Merge.Step.{range_start, range_start-at, Joined}
use regalloc2_orig.Ion.Merge.Interleave.{ends, Distinct-out}
use regalloc2_orig.Ion.Merge.Chains.{
  Ready, Chained, Whole, swap-Ready, swap-Chained, take_left, chain_left,
}
use regalloc2_orig.Ion.Links.{Linked, AllFrom, AllFrom-mono, append-nil}

-- The rest of the loop, for what is left of two chains.
abbrev Rest : ℕ → ℕ → List ℕ → List ℕ → Type 0
Rest fuel to as_ bs =
    (env : Env) (iter0 iter1 prev last : ℕ) (done : List ℕ)
    → Ready env to prev last iter0 iter1 done as_ bs
    → (env' : Env) × (merge_chains fuel env to iter0 iter1 prev ≡ some env')
      × Chained env to last done as_ bs env'

or_true : (a : Bool) {b : Bool} → b ≡ true → (a || b) ≡ true
or_true true h = refl
or_true false h = h

-- A round that takes the first range of the first chain, or of the second one.
round_left :
    (fuel : ℕ) (env : Env) (to iter0 iter1 prev last i : ℕ) (done as_ bs : List ℕ)
    → (r : Ready env to prev last iter0 iter1 done (i ∷ as_) bs)
    → takes_first env.ranges iter0 iter1 ≡ some true
    → AllFrom (range_start env.ranges) (range_start env.ranges i) bs
    → Rest fuel to as_ bs
    → (env' : Env) × (merge_chains (suc fuel) env to iter0 iter1 prev ≡ some env')
      × Chained env to last done (i ∷ as_) bs env'
unfolding merge_chains
round_left fuel env to iter0 iter1 prev last i done as_ bs r t low rest =
    let (q, lr, h, l) = r.linked0 in
    let (env1, e, s, r1) = take_left env to prev last iter0 iter1 i done as_ bs r in
    let (env', f, c) = rest env1 (bundle_link lr) iter1 i i (done ++ i ∷ []) r1 in
    let v : Index.is_valid iter0 ≡ true = ap Index.is_valid q ∙ (at-some env.ranges i lr h).0 in
    let found : at env.ranges iter0 ≡ some lr = ap (at env.ranges) q ∙ h in
    (
      env',
      rw (merge_chains, v, t, ◌>>=◌, found, q, e) f,
      chain_left env env1 env' to i last done as_ bs r.bundle s
          ((Distinct-out done i as_ r.distinct0).1) ((r.apart).0) ((r.sorted0).0) low c,
    )

round_right :
    (fuel : ℕ) (env : Env) (to iter0 iter1 prev last j : ℕ) (done as_ bs : List ℕ)
    → (r : Ready env to prev last iter0 iter1 done as_ (j ∷ bs))
    → takes_first env.ranges iter0 iter1 ≡ some false
    → AllFrom (range_start env.ranges) (range_start env.ranges j) as_
    → Rest fuel to as_ bs
    → (env' : Env) × (merge_chains (suc fuel) env to iter0 iter1 prev ≡ some env')
      × Chained env to last done as_ (j ∷ bs) env'
unfolding merge_chains
round_right fuel env to iter0 iter1 prev last j done as_ bs r t low rest =
    let r' = swap-Ready r in
    let (q, lr, h, l) = r'.linked0 in
    let (env1, e, s, r1) = take_left env to prev last iter1 iter0 j done bs as_ r' in
    let (env', f, c) = rest env1 iter0 (bundle_link lr) j j (done ++ j ∷ []) (swap-Ready r1) in
    let v : Index.is_valid iter1 ≡ true = ap Index.is_valid q ∙ (at-some env.ranges j lr h).0 in
    let found : at env.ranges iter1 ≡ some lr = ap (at env.ranges) q ∙ h in
    let some_left : (Index.is_valid iter0 || Index.is_valid iter1) ≡ true =
      or_true (Index.is_valid iter0) v in
    (
      env',
      rw (merge_chains, some_left, t, ◌>>=◌, found, q, e) f,
      swap-Chained (
          chain_left env env1 env' to j last done bs as_ r'.bundle s
            ((Distinct-out done j bs r'.distinct0).1) ((r'.apart).0) ((r'.sorted0).0) low
            (swap-Chained c)),
    )

done_lem :
    (env : Env) (to prev last iter0 iter1 : ℕ) (done : List ℕ)
    → Ready env to prev last iter0 iter1 done [] []
    → Chained env to last done [] [] env
done_lem env to prev last iter0 iter1 done r = record {
  order = [];
  mixed = ends;
  sorted = tt;
  bundle = r.bundle;
  found = r.found;
  linked =
      subst (Whole env.ranges (r.bundle).first_range) (sym (append-nil done)) (whole done r.joined);
  last_one = r.tail;
  starts = λ j. refl;
  owners = tt;
  other_owners = λ j n m. refl;
  other_bundles = λ k n. refl;
}
  where
    none_left : r.follows ≡ []
    none_left = elim r.one [ inl e ↦ e | inr e ↦ e ]

    whole :
        (done : List ℕ)
        → Joined env.ranges (r.bundle).first_range prev done r.follows
        → Whole env.ranges (r.bundle).first_range done
    whole [] j = tt
    whole (c ∷ cs) j =
        subst (Linked bundle_link env.ranges (r.bundle).first_range)
          (ap (λ k. c ∷ cs ++ k) none_left ∙ append-nil (c ∷ cs)) j.1

-- The loop ends, and it merges the two chains.
pub merge_chains_lem :
    (fuel : ℕ) (to : ℕ) (is0 is1 : List ℕ) → length is0 + length is1 < fuel → Rest fuel to is0 is1
unfolding merge_chains
merge_chains_lem zero to is0 is1 h env iter0 iter1 prev last done r = absurd (omega arith)
merge_chains_lem (suc fuel) to [] [] h env iter0 iter1 prev last done r = (
  env,
  rw (merge_chains, r.linked0, r.linked1) refl,
  done_lem env to prev last iter0 iter1 done r,
)
merge_chains_lem (suc fuel) to (i ∷ is0) [] h env iter0 iter1 prev last done r =
    let (q, lr, g, l) = r.linked0 in
    let v : Index.is_valid iter0 ≡ true = ap Index.is_valid q ∙ (at-some env.ranges i lr g).0 in
    round_left fuel env to iter0 iter1 prev last i done is0 [] r (rw (v, r.linked1) refl) tt
      (merge_chains_lem fuel to is0 [] (omega arith))
merge_chains_lem (suc fuel) to [] (j ∷ is1) h env iter0 iter1 prev last done r =
    round_right fuel env to iter0 iter1 prev last j done [] is1 r (rw r.linked0 refl) tt
      (merge_chains_lem fuel to [] is1 (omega arith))
merge_chains_lem (suc fuel) to (i ∷ is0) (j ∷ is1) h env iter0 iter1 prev last done r =
    let (p, a, f, k) = r.linked0 in
    let (q, b, g, l) = r.linked1 in
    let v : Index.is_valid iter0 ≡ true = ap Index.is_valid p ∙ (at-some env.ranges i a f).0 in
    let w : Index.is_valid iter1 ≡ true = ap Index.is_valid q ∙ (at-some env.ranges j b g).0 in
    let e0 : get_elem? env.ranges iter0 ≡ some a =
      ap (get_elem? env.ranges) p ∙ (at-some env.ranges i a f).1 in
    let e1 : get_elem? env.ranges iter1 ≡ some b =
      ap (get_elem? env.ranges) q ∙ (at-some env.ranges j b g).1 in
    let si = range_start-at env.ranges i a f in
    let sj = range_start-at env.ranges j b g in
    let key = range_start env.ranges in
    elim (Bool-cases (ProgPoint.le a.range.from b.range.from)) [
      | inl le ↦
          let first : key i ≤ key j =
            rw (si, sj) (ground (arith, position-le a.range.from b.range.from)) in
          round_left fuel env to iter0 iter1 prev last i done is0 (j ∷ is1) r
            (rw (v, w, e0, ◌>>=◌, e1, le) refl)
            (first, AllFrom-mono key (key j) (key i) is1 first ((r.sorted1).0))
            (merge_chains_lem fuel to is0 (j ∷ is1) (omega arith))
      | inr gt ↦
          let first : key j ≤ key i =
            rw (si, sj) (ground (arith, position-le a.range.from b.range.from)) in
          round_right fuel env to iter0 iter1 prev last j done (i ∷ is0) is1 r
            (rw (v, w, e0, ◌>>=◌, e1, gt) refl)
            (first, AllFrom-mono key (key i) (key j) is0 first ((r.sorted0).0))
            (merge_chains_lem fuel to (i ∷ is0) is1 (omega arith))
    ]
