-- ===== src/Ion/Merge/Correct.antt =====
-- What the merge of two bundles comes to (src/ion/mod.rs, `merge_bundles`).
use regalloc2_orig.Prelude.{
  ℕ, ◌+◌, ◌≡◌, ◌≢◌, ◌<◌, true, false, List, [], ◌∷◌, some, set, refl, sym, ◌∙◌, ap, ◌>>=◌, inl,
  arith, length, ◌==◌,
}
use regalloc2_orig.Index
use regalloc2_orig.Ion.Env.{LiveRange, LiveBundle, Env, at, at-some, at-set_self}
use regalloc2_orig.Ion.Bundle.{bundle_link}
use regalloc2_orig.Ion.Uses.Insert.{update_at-some}
use regalloc2_orig.Ion.Merge.{join_bundles, first_class_eq, check_apart, merge_bundles}
use regalloc2_orig.Ion.Merge.Step.{range_start, range_bundle}
use regalloc2_orig.Ion.Merge.Interleave.{Interleave, Apart}
use regalloc2_orig.Ion.Merge.Chains.{Whole, AllOwned}
use regalloc2_orig.Ion.Merge.Loop.{merge_chains_lem}
use regalloc2_orig.Ion.Links.{last_or, Linked, NotIn, Distinct, Sorted, Sorted-congr, at-set_ne}

-- The ranges of a bundle are those of the list, in the order in which they start.
pub record HasChain (env : Env) (bundle : ℕ) (is : List ℕ) : Type 0 where
  pub data_ : LiveBundle
  pub found : at env.bundles bundle ≡ some data_
  pub linked : Linked bundle_link env.ranges data_.first_range is
  pub distinct : Distinct is
  pub sorted : Sorted (range_start env.ranges) is

-- The ranges of both bundles are in `to`, in the order in which they start, and name it as their
-- bundle; `from` is empty; the other bundles, and the bundles of the other ranges, are as before.
pub record Merged (env : Env) (from to : ℕ) (is0 is1 : List ℕ) (env' : Env) : Type 0 where
  pub order : List ℕ
  pub mixed : Interleave is0 is1 order
  pub sorted : Sorted (range_start env'.ranges) order
  pub bundle : LiveBundle
  pub found : at env'.bundles to ≡ some bundle
  pub linked : Linked bundle_link env'.ranges bundle.first_range order
  pub last : bundle.last_range ≡ last_or bundle.last_range order
  pub owners : AllOwned env'.ranges to order
  pub emptied :
      (f : LiveBundle) × (at env'.bundles from ≡ some f) × (Index.is_valid f.first_range ≡ false)
  pub other_owners :
      (j : ℕ) → NotIn j is0 → NotIn j is1 → range_bundle env'.ranges j ≡ range_bundle env.ranges j
  pub other_bundles : (k : ℕ) → to ≢ k → from ≢ k → at env'.bundles k ≡ at env.bundles k

not_empty :
    (ranges : List LiveRange) (first : ℕ) {i : ℕ} {is js : List ℕ} (order : List ℕ)
    → Interleave (i ∷ is) js order
    → Whole ranges first order
    → Linked bundle_link ranges first order
not_empty ranges first {js = []} [] m w = elim m [ ]
not_empty ranges first {js = j ∷ js} [] m w = elim m [ ]
not_empty ranges first (k ∷ order) m w = w

last_of :
    (before_ last : ℕ) {i : ℕ} {is js : List ℕ} (order : List ℕ)
    → Interleave (i ∷ is) js order
    → last ≡ last_or before_ order
    → last ≡ last_or last order
last_of before_ last {js = []} [] m e = elim m [ ]
last_of before_ last {js = j ∷ js} [] m e = elim m [ ]
last_of before_ last (k ∷ order) m e = e

join_bundles_lem :
    (fuel : ℕ) (env : Env) (from to i j : ℕ) (is js : List ℕ)
    → HasChain env from (i ∷ is)
    → HasChain env to (j ∷ js)
    → Apart (i ∷ is) (j ∷ js)
    → from ≢ to
    → length (i ∷ is) + length (j ∷ js) < fuel
    → (env' : Env) × (join_bundles fuel env from to ≡ some env')
      × Merged env from to (i ∷ is) (j ∷ js) env'
unfolding join_bundles
join_bundles_lem fuel env from to i j is js a b apart n h =
    let f = a.data_ in
    let t = b.data_ in
    let (env', e, c) =
      merge_chains_lem fuel to (i ∷ is) (j ∷ js) h env f.first_range t.first_range Index.invalid
        t.last_range []
        (record {
          bundle = t;
          found = b.found;
          linked0 = a.linked;
          linked1 = b.linked;
          tail = refl;
          follows = i ∷ is;
          joined = refl;
          one = inl refl;
          distinct0 = a.distinct;
          distinct1 = b.distinct;
          apart = apart;
          sorted0 = a.sorted;
          sorted1 = b.sorted;
        }) in
    let full0 : Index.is_valid f.first_range ≡ true =
      ap Index.is_valid ((a.linked).0) ∙ (at-some env.ranges i ((a.linked).1) ((a.linked).2)).0 in
    let full1 : Index.is_valid t.first_range ≡ true =
      ap Index.is_valid ((b.linked).0) ∙ (at-some env.ranges j ((b.linked).1) ((b.linked).2)).0 in
    let f' : LiveBundle = record f { first_range = Index.invalid; last_range = Index.invalid } in
    let hf : at env'.bundles from ≡ some f = c.other_bundles from (λ q. n (sym q)) ∙ a.found in
    (
      record env' { bundles = set env'.bundles from f' },
      rw (
        join_bundles,
        a.found,
        b.found,
        ◌>>=◌,
        full0,
        full1,
        e,
        update_at-some env'.bundles from f
            (λ b. record b { first_range = Index.invalid; last_range = Index.invalid }) hf,
      ),
      record {
        order = c.order;
        mixed = c.mixed;
        sorted =
            Sorted-congr (range_start env.ranges) (range_start env'.ranges) c.starts c.order
              c.sorted;
        bundle = c.bundle;
        found = at-set_ne env'.bundles from to f' n ∙ c.found;
        linked = not_empty env'.ranges (c.bundle).first_range c.order c.mixed c.linked;
        last = last_of t.last_range (c.bundle).last_range c.order c.mixed c.last_one;
        owners = c.owners;
        emptied = (f', at-set_self env'.bundles from f f' hf, refl);
        other_owners = c.other_owners;
        other_bundles = λ k x y. at-set_ne env'.bundles from k f' y ∙ c.other_bundles k x;
      },
    )

pub ne_test : (a b : ℕ) → a ≢ b → (a == b) ≡ false
ne_test a b n = ground arith

-- Two bundles with ranges, of one class and with no overlap that the search finds, are merged: the
-- loops end, and the ranges of both are in `to`, in order.
pub merge_bundles-Merged :
    (fuel : ℕ) (env : Env) (from to i j : ℕ) (is js : List ℕ)
    → (a : HasChain env from (i ∷ is)) → (b : HasChain env to (j ∷ js)) → Apart (i ∷ is) (j ∷ js)
    → from ≢ to
    → first_class_eq env a.data_ b.data_ ≡ some true
    → check_apart 200 env.ranges ((a.data_).first_range) ((b.data_).first_range) ≡ some true
    → length (i ∷ is) + length (j ∷ js) < fuel
    → (env' : Env) × (merge_bundles fuel env from to ≡ some (env', true))
      × Merged env from to (i ∷ is) (j ∷ js) env'
unfolding merge_bundles
merge_bundles-Merged fuel env from to i j is js a b apart n same clear h =
    let (env', e, m) = join_bundles_lem fuel env from to i j is js a b apart n h in
    let other : (from == to) ≡ false = ne_test from to n in
    (env', rw (merge_bundles, other, a.found, b.found, ◌>>=◌, same, clear, e), m)
