-- ===== src/Ion/Merge/Step.antt =====
-- One round of the merge of two chains of ranges (src/ion/mod.rs, `merge_bundles`).
use regalloc2_orig.Prelude.{
  ℕ, ◌≡◌, ◌≢◌, false, List, [], ◌∷◌, ◌++◌, Option, none, some, set, refl, sym, ◌∙◌, ap, ◌>>=◌,
  Bool-cases, inl, inr, arith, ◌==◌,
}
use regalloc2_orig.Index
use regalloc2_orig.ProgPoint.Order.{position}
use regalloc2_orig.Ion.Env.{LiveRange, LiveBundle, Env, at, at-some, at-set_self}
use regalloc2_orig.Ion.Bundle.{bundle_link}
use regalloc2_orig.Ion.Uses.Insert.{update_at-some}
use regalloc2_orig.Ion.Merge.{link_next}
use regalloc2_orig.Ion.Links.{
  last_or, Linked, NotIn, Distinct, Distinct-append, Distinct-NotIn, at-set_ne, Linked-set,
  Linked-relink, Linked-keep, Linked-last_or,
}

-- The place where a range starts, and the bundle that it is in.
unfoldable pub range_start : List LiveRange → ℕ → ℕ
range_start ranges j = elim (at ranges j) [ none ↦ 0 | some r ↦ position r.range.from ]

unfoldable pub range_bundle : List LiveRange → ℕ → Option ℕ
range_bundle ranges j = do r ← at ranges j; some r.bundle

pub range_start-at :
    (ranges : List LiveRange) (j : ℕ) (r : LiveRange)
    → at ranges j ≡ some r
    → range_start ranges j ≡ position r.range.from
unfolding range_start
range_start-at ranges j r h = rw (range_start, h) refl

range_start-set :
    (ranges : List LiveRange) (i : ℕ) (r s : LiveRange)
    → at ranges i ≡ some r
    → s.range ≡ r.range
    → (j : ℕ) → range_start (set ranges i s) j ≡ range_start ranges j
unfolding range_start
range_start-set ranges i r s h e j = elim (Bool-cases (i == j)) [
  | inl q ↦
      let same : i ≡ j = ground arith in
      rw (← same) (
        range_start-at (set ranges i s) i s (at-set_self ranges i r s h)
        ∙ ap (λ x. position x.from) e
        ∙ sym (range_start-at ranges i r h))
  | inr q ↦ let other = at-set_ne ranges i j s (ground arith) in rw (range_start, other) refl
]

range_bundle-at :
    (ranges : List LiveRange) (j : ℕ) (r : LiveRange)
    → at ranges j ≡ some r
    → range_bundle ranges j ≡ some r.bundle
unfolding range_bundle
range_bundle-at ranges j r h = rw (range_bundle, h, ◌>>=◌)

range_bundle-set_ne :
    (ranges : List LiveRange) (i j : ℕ) (s : LiveRange)
    → i ≢ j
    → range_bundle (set ranges i s) j ≡ range_bundle ranges j
unfolding range_bundle
range_bundle-set_ne ranges i j s n =
    let other = at-set_ne ranges i j s n in rw (range_bundle, other) refl

range_bundle-set :
    (ranges : List LiveRange) (i : ℕ) (r s : LiveRange)
    → at ranges i ≡ some r
    → s.bundle ≡ r.bundle
    → (j : ℕ) → range_bundle (set ranges i s) j ≡ range_bundle ranges j
unfolding range_bundle
range_bundle-set ranges i r s h e j = elim (Bool-cases (i == j)) [
  | inl q ↦
      let same : i ≡ j = ground arith in
      rw (← same) (
        range_bundle-at (set ranges i s) i s (at-set_self ranges i r s h)
        ∙ ap some e
        ∙ sym (range_bundle-at ranges i r h))
  | inr q ↦ range_bundle-set_ne ranges i j s (ground arith)
]

-- The ranges that are done, up to `prev`, are linked from `first` on, and the last of them leads to
-- the ranges that follow.
abbrev pub Joined : List LiveRange → ℕ → ℕ → List ℕ → List ℕ → Type 0
Joined ranges first prev [] is = Index.is_valid prev ≡ false
Joined ranges first prev (c ∷ cs) is =
    (prev ≡ last_or c cs) × Linked bundle_link ranges first (c ∷ cs ++ is)

-- What a round makes of the environment.
pub record Stepped (env : Env) (to i : ℕ) (done is : List ℕ) (b : LiveBundle) (env' : Env)
    : Type 0 where
  pub bundle : LiveBundle
  pub found : at env'.bundles to ≡ some bundle
  pub last : bundle.last_range ≡ i
  pub joined : Linked bundle_link env'.ranges bundle.first_range (done ++ i ∷ is)
  pub keeps :
      (iter : ℕ) (js : List ℕ)
      → NotIn (last_or i done) js
      → Linked bundle_link env.ranges iter js
      → Linked bundle_link env'.ranges iter js
  pub starts : (j : ℕ) → range_start env'.ranges j ≡ range_start env.ranges j
  pub owner : range_bundle env'.ranges i ≡ some to
  pub other_owners : (j : ℕ) → i ≢ j → range_bundle env'.ranges j ≡ range_bundle env.ranges j
  pub other_bundles : (k : ℕ) → to ≢ k → at env'.bundles k ≡ at env.bundles k

module _ (env : Env) (to i prev : ℕ) (is : List ℕ) (b : LiveBundle) (r : LiveRange)
    (hb : at env.bundles to ≡ some b) (hr : at env.ranges i ≡ some r)
    (l : Linked bundle_link env.ranges i (i ∷ is)) where
  -- The first range of all.
  step-first :
      Index.is_valid prev ≡ false
      → (env' : Env) × (link_next env to prev i ≡ some env') × Stepped env to i [] is b env'
  unfolding link_next
  step-first pv =
      let b1 : LiveBundle = record b { first_range = i } in
      let b2 : LiveBundle = record b1 { last_range = i } in
      let r1 : LiveRange = record r { bundle = to } in
      let bundles1 = set env.bundles to b1 in
      let hb1 : at bundles1 to ≡ some b1 = at-set_self env.bundles to b b1 hb in
      let ranges = set env.ranges i r1 in
      (
        record env { bundles = set bundles1 to b2; ranges = ranges },
        rw (
          link_next,
          pv,
          update_at-some env.bundles to b (λ b. record b { first_range = i }) hb,
          ◌>>=◌,
          update_at-some bundles1 to b1 (λ b. record b { last_range = i }) hb1,
          update_at-some env.ranges i r (λ r. record r { bundle = to }) hr,
        ),
        record {
          bundle = b2;
          found = at-set_self bundles1 to b1 b2 hb1;
          last = refl;
          joined = Linked-keep bundle_link env.ranges i i r r1 (i ∷ is) hr refl l;
          keeps = λ iter js n k. Linked-keep bundle_link env.ranges iter i r r1 js hr refl k;
          starts = range_start-set env.ranges i r r1 hr refl;
          owner = range_bundle-at ranges i r1 (at-set_self env.ranges i r r1 hr);
          other_owners = λ j n. range_bundle-set_ne env.ranges i j r1 n;
          other_bundles = λ k n. at-set_ne bundles1 to k b2 n ∙ at-set_ne env.bundles to k b1 n;
        },
      )

  -- After the ranges that are done.
  step-after :
      (c : ℕ) (cs before_ : List ℕ)
      → Distinct (c ∷ cs)
      → NotIn (last_or c cs) (i ∷ is)
      → prev ≡ last_or c cs
      → Linked bundle_link env.ranges b.first_range (c ∷ cs ++ before_)
      → (env' : Env) × (link_next env to prev i ≡ some env') × Stepped env to i (c ∷ cs) is b env'
  unfolding link_next
  step-after c cs before_ d n q j =
      let p = last_or c cs in
      let (dp, hp) = Linked-last_or bundle_link env.ranges b.first_range c cs before_ j in
      let a : LiveRange = record dp { next_in_bundle = i } in
      let ranges1 = set env.ranges p a in
      let hr1 : at ranges1 i ≡ some r = at-set_ne env.ranges p i a n.0 ∙ hr in
      let r1 : LiveRange = record r { bundle = to } in
      let b1 : LiveBundle = record b { last_range = i } in
      let ranges = set ranges1 i r1 in
      let hq : at env.ranges prev ≡ some dp = ap (at env.ranges) q ∙ hp in
      (
        record env { bundles = set env.bundles to b1; ranges = ranges },
        rw (
          link_next,
          (at-some env.ranges prev dp hq).0,
          (at-some env.ranges prev dp hq).1,
          ◌>>=◌,
          update_at-some env.bundles to b (λ b. record b { last_range = i }) hb,
          q,
          update_at-some ranges1 i r (λ r. record r { bundle = to }) hr1,
        ),
        record {
          bundle = b1;
          found = at-set_self env.bundles to b b1 hb;
          last = refl;
          joined =
              Linked-keep bundle_link ranges1 b.first_range i r r1 (c ∷ cs ++ i ∷ is) hr1 refl (
                Linked-relink bundle_link env.ranges b.first_range c cs before_ (i ∷ is) a d j
                  (Linked-set bundle_link env.ranges i p a (i ∷ is) n l));
          keeps = λ iter js m k.
              Linked-keep bundle_link ranges1 iter i r r1 js hr1 refl
                (Linked-set bundle_link env.ranges iter p a js m k);
          starts = λ k.
              range_start-set ranges1 i r r1 hr1 refl k
              ∙ range_start-set env.ranges p dp a hp refl k;
          owner = range_bundle-at ranges i r1 (at-set_self ranges1 i r r1 hr1);
          other_owners = λ k m.
              range_bundle-set_ne ranges1 i k r1 m ∙ range_bundle-set env.ranges p dp a hp refl k;
          other_bundles = λ k m. at-set_ne env.bundles to k b1 m;
        },
      )

-- A round, wherever it is.
pub step :
    (env : Env) (to i prev : ℕ) (is done before_ : List ℕ) (b : LiveBundle) (r : LiveRange)
    → at env.bundles to ≡ some b
    → at env.ranges i ≡ some r
    → Linked bundle_link env.ranges i (i ∷ is)
    → Distinct (done ++ i ∷ is)
    → Joined env.ranges b.first_range prev done before_
    → (env' : Env) × (link_next env to prev i ≡ some env') × Stepped env to i done is b env'
step env to i prev is [] before_ b r hb hr l d j = step-first env to i prev is b r hb hr l j
step env to i prev is (c ∷ cs) before_ b r hb hr l d j =
    step-after env to i prev is b r hb hr l c cs before_ (Distinct-append (c ∷ cs) (i ∷ is) d)
      (Distinct-NotIn c cs (i ∷ is) d) j.0 j.1
