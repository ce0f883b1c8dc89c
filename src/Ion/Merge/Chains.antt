-- ===== src/Ion/Merge/Chains.antt =====
-- The merge of two chains of ranges (src/ion/mod.rs, `merge_bundles`).
use regalloc2_orig.Prelude.{
  ℕ, ◌≡◌, ◌≢◌, List, [], ◌∷◌, ◌++◌, some, refl, subst, sym, ◌∙◌, inl, inr, ◌⊎◌,
}
use regalloc2_orig.Ion.Env.{LiveRange, LiveBundle, Env, at}
use regalloc2_orig.Ion.Bundle.{bundle_link}
use regalloc2_orig.Ion.Merge.{link_next}
use regalloc2_orig.Ion.Merge.Step.{range_start, range_bundle, Joined, Stepped, step}
use regalloc2_orig.Ion.Merge.Interleave.{
  Apart-sym, Interleave-sym, Interleave, left, Interleave-AllFrom, Apart, append_cons, Distinct-out,
  last_or-NotIn, last_or-NotIn_other,
}
use regalloc2_orig.Ion.Links.{
  last_or, Linked, NotIn, Distinct, AllFrom, Sorted, Sorted-congr, insert-Distinct, append-NotIn,
  last_or-append,
}

-- A list that is not empty is linked from `first` on.
abbrev pub Whole : List LiveRange → ℕ → List ℕ → Type 0
Whole ranges first [] = Unit {0}
Whole ranges first (i ∷ is) = Linked bundle_link ranges first (i ∷ is)

abbrev pub AllOwned : List LiveRange → ℕ → List ℕ → Type 0
AllOwned ranges to [] = Unit {0}
AllOwned ranges to (i ∷ is) = (range_bundle ranges i ≡ some to) × AllOwned ranges to is

-- What the loop starts from, with one of the chains as what the ranges that are done lead to.
pub record Ready (env : Env) (to prev last iter0 iter1 : ℕ) (done is0 is1 : List ℕ) : Type 0 where
  pub bundle : LiveBundle
  pub found : at env.bundles to ≡ some bundle
  pub linked0 : Linked bundle_link env.ranges iter0 is0
  pub linked1 : Linked bundle_link env.ranges iter1 is1
  pub tail : bundle.last_range ≡ last
  pub follows : List ℕ
  pub joined : Joined env.ranges bundle.first_range prev done follows
  pub one : (follows ≡ is0) ⊎ (follows ≡ is1)
  pub distinct0 : Distinct (done ++ is0)
  pub distinct1 : Distinct (done ++ is1)
  pub apart : Apart is0 is1
  pub sorted0 : Sorted (range_start env.ranges) is0
  pub sorted1 : Sorted (range_start env.ranges) is1

-- What the loop comes to.
pub record Chained (env : Env) (to last : ℕ) (done is0 is1 : List ℕ) (env' : Env) : Type 0 where
  pub order : List ℕ
  pub mixed : Interleave is0 is1 order
  pub sorted : Sorted (range_start env.ranges) order
  pub bundle : LiveBundle
  pub found : at env'.bundles to ≡ some bundle
  pub linked : Whole env'.ranges bundle.first_range (done ++ order)
  pub last_one : bundle.last_range ≡ last_or last order
  pub starts : (j : ℕ) → range_start env'.ranges j ≡ range_start env.ranges j
  pub owners : AllOwned env'.ranges to order
  pub other_owners :
      (j : ℕ) → NotIn j is0 → NotIn j is1 → range_bundle env'.ranges j ≡ range_bundle env.ranges j
  pub other_bundles : (k : ℕ) → to ≢ k → at env'.bundles k ≡ at env.bundles k

pub swap-Ready :
    {env : Env} {to prev last iter0 iter1 : ℕ} {done is0 is1 : List ℕ}
    → Ready env to prev last iter0 iter1 done is0 is1
    → Ready env to prev last iter1 iter0 done is1 is0
swap-Ready {is0} {is1} r = record {
  bundle = r.bundle;
  found = r.found;
  linked0 = r.linked1;
  linked1 = r.linked0;
  tail = r.tail;
  follows = r.follows;
  joined = r.joined;
  one = elim r.one [ inl e ↦ inr e | inr e ↦ inl e ];
  distinct0 = r.distinct1;
  distinct1 = r.distinct0;
  apart = Apart-sym is0 is1 r.apart;
  sorted0 = r.sorted1;
  sorted1 = r.sorted0;
}

pub swap-Chained :
    {env : Env} {to last : ℕ} {done is0 is1 : List ℕ} {env' : Env}
    → Chained env to last done is0 is1 env'
    → Chained env to last done is1 is0 env'
swap-Chained {is0} {is1} r = record {
  order = r.order;
  mixed = Interleave-sym is0 is1 r.order r.mixed;
  sorted = r.sorted;
  bundle = r.bundle;
  found = r.found;
  linked = r.linked;
  last_one = r.last_one;
  starts = r.starts;
  owners = r.owners;
  other_owners = λ j n m. r.other_owners j m n;
  other_bundles = r.other_bundles;
}

join :
    (ranges : List LiveRange) (first i : ℕ) (done is : List ℕ)
    → Linked bundle_link ranges first (done ++ i ∷ is)
    → Joined ranges first i (done ++ i ∷ []) is
join ranges first i [] is l = (refl, l)
join ranges first i (c ∷ cs) is l = (
  sym (last_or-append c cs i []),
  subst (λ k. Linked bundle_link ranges first (c ∷ k)) (sym (append_cons cs i is)) l,
)

-- The first range of the first chain.
pub take_left :
    (env : Env) (to prev last iter0 iter1 i : ℕ) (done as_ bs : List ℕ)
    → (r : Ready env to prev last iter0 iter1 done (i ∷ as_) bs)
    → (env' : Env) × (link_next env to prev i ≡ some env')
      × Stepped env to i done as_ r.bundle env'
      × Ready env' to i i (bundle_link ((r.linked0).1)) iter1 (done ++ i ∷ []) as_ bs
take_left env to prev last iter0 iter1 i done as_ bs r =
    let (q, lr, h, l) = r.linked0 in
    let (env', e, s) =
      step env to i prev as_ done r.follows r.bundle lr r.found h (refl, lr, h, l) r.distinct0
        r.joined in
    let (out, later) = Distinct-out done i as_ r.distinct0 in
    let key = range_start env.ranges in
    (
      env',
      e,
      s,
      record {
        bundle = s.bundle;
        found = s.found;
        linked0 = s.keeps (bundle_link lr) as_ (last_or-NotIn done i as_ r.distinct0) l;
        linked1 =
            s.keeps iter1 bs (last_or-NotIn_other done i bs r.distinct1 ((r.apart).0)) r.linked1;
        tail = s.last;
        follows = as_;
        joined = join env'.ranges (s.bundle).first_range i done as_ s.joined;
        one = inl refl;
        distinct0 = subst Distinct (sym (append_cons done i as_)) r.distinct0;
        distinct1 =
            subst Distinct (sym (append_cons done i bs))
              (insert-Distinct i done bs r.distinct1 (append-NotIn i done bs out ((r.apart).0)));
        apart = (r.apart).1;
        sorted0 = Sorted-congr key (range_start env'.ranges) s.starts as_ ((r.sorted0).1);
        sorted1 = Sorted-congr key (range_start env'.ranges) s.starts bs r.sorted1;
      },
    )

-- What the rest of the loop makes of it.
pub chain_left :
    (env env1 env' : Env) (to i last : ℕ) (done as_ bs : List ℕ) (b : LiveBundle)
    → Stepped env to i done as_ b env1
    → NotIn i as_
    → NotIn i bs
    → AllFrom (range_start env.ranges) (range_start env.ranges i) as_
    → AllFrom (range_start env.ranges) (range_start env.ranges i) bs
    → Chained env1 to i (done ++ i ∷ []) as_ bs env'
    → Chained env to last done (i ∷ as_) bs env'
chain_left env env1 env' to i last done as_ bs b s n m a c r =
    let key = range_start env.ranges in
    record {
      order = i ∷ r.order;
      mixed = left r.mixed;
      sorted = (
        Interleave-AllFrom key (key i) as_ bs r.order r.mixed a c,
        Sorted-congr (range_start env1.ranges) key (λ j. sym (s.starts j)) r.order r.sorted,
      );
      bundle = r.bundle;
      found = r.found;
      linked =
          subst (Whole env'.ranges (r.bundle).first_range) (append_cons done i r.order) r.linked;
      last_one = r.last_one;
      starts = λ j. r.starts j ∙ s.starts j;
      owners = (r.other_owners i n m ∙ s.owner, r.owners);
      other_owners = λ j x y. r.other_owners j x.1 y ∙ s.other_owners j (λ e. x.0 (sym e));
      other_bundles = λ k x. r.other_bundles k x ∙ s.other_bundles k x;
    }
