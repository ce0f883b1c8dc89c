-- ===== src/Ion/Uses/Place.antt =====
-- A use that the scan has placed (src/ion/mod.rs, `insert_use_into_liverange_and_update_stats`).
use regalloc2_orig.Prelude.{
  ℕ, ◌≡◌, true, false, List, [], ◌∷◌, ◌++◌, some, set, refl, subst, set-set, sym, ◌∙◌, ap, ◌>>=◌,
  arith,
}
use regalloc2_orig.Index
use regalloc2_orig.Ion.Env.{LiveRange, Use, Env, at, at-some, at-set_self}
use regalloc2_orig.Ion.Uses.{link_use}
use regalloc2_orig.Ion.Uses.Scan.{use_place, use_link}
use regalloc2_orig.Ion.Uses.Insert.{
  HasUses, Inserted, update_at-some, use_place-set, use_operand-set, settle, settle_after,
}
use regalloc2_orig.Ion.Links.{
  last_or, Linked, AllUpTo, NotIn, at-set_ne, Linked-set, NotIn-append, HeadFrom, last_or-append,
  NotIn-last_or,
}

module _ (env : Env) (lr u it : ℕ) (is : List ℕ) (d : Use) (has : HasUses env lr is)
    (h : at env.uses u ≡ some d) (out : NotIn u is) where
  -- The environment at the start of `link_use`.
  abbrev pub unlinked : Env
  unlinked = record env { uses = set env.uses u (record d { next_use = Index.invalid }) }

  -- Before the first use.
  pub link-first :
      (p j : ℕ) (js : List ℕ)
      → is ≡ j ∷ js
      → Index.is_valid p ≡ false
      → Linked use_link env.uses it (j ∷ js)
      → HeadFrom (use_place env.uses) (use_place env.uses u) (j ∷ js)
      → (env' : Env) × (link_use unlinked lr u p it ≡ some env') × Inserted env lr u is env'
  unfolding link_use
  link-first p j js e pv l high =
      let d0 : Use = record d { next_use = Index.invalid } in
      let d1 : Use = record d { next_use = it } in
      let r : LiveRange = record has.range { first_use = u } in
      let uses = set env.uses u d1 in
      let env' : Env = record env { uses = uses; ranges = set env.ranges lr r } in
      let more : Index.is_invalid it ≡ false =
        rw (l.0) (ground (arith, at-some env.uses j (l.1) (l.2))) in
      let out' : NotIn u (j ∷ js) = subst (NotIn u) e out in
      (
        env',
        rw (
          link_use,
          update_at-some (set env.uses u d0) u d0 (λ d. record d { next_use = it })
              (at-set_self env.uses u d d0 h),
          ◌>>=◌,
          pv,
          update_at-some env.ranges lr has.range (λ r. record r { first_use = u }) has.found,
          more,
          set-set env.uses u d0 d1,
        ),
        settle env lr u is has out env' [] (j ∷ js) r e
            (at-set_self env.ranges lr has.range r has.found)
            (
              refl,
              d1,
              at-set_self env.uses u d d1 h,
              Linked-set use_link env.uses it u d1 (j ∷ js) out' l,
            )
            (has.last ∙ ap (last_or has.range.last_use) e) tt high (use_place-set env.uses u d it h)
            (use_operand-set env.uses u d it h)
            (λ j n. at-set_ne env.uses u j d1 (λ q. n.0 (sym q)))
            (λ j n. at-set_ne env.ranges lr j r n),
      )

  after_set :
      (p b : ℕ) (bs past : List ℕ) (dp : Use)
      → is ≡ b ∷ bs ++ past
      → p ≡ last_or b bs
      → at env.uses (last_or b bs) ≡ some dp
      → at (set env.uses u (record d { next_use = it })) p ≡ some dp
  after_set p b bs past dp e q hp =
      let (n, m) = NotIn-append u (b ∷ bs) past (subst (NotIn u) e out) in
      at-set_ne env.uses u p (record d { next_use = it })
        (λ s. NotIn-last_or u b bs n.0 n.1 (s ∙ q))
      ∙ ap (at env.uses) q
      ∙ hp

  -- After some use.
  pub link-after :
      (p b : ℕ) (bs past : List ℕ) (dp : Use)
      → is ≡ b ∷ bs ++ past
      → p ≡ last_or b bs
      → at env.uses (last_or b bs) ≡ some dp
      → Linked use_link env.uses it past
      → AllUpTo (use_place env.uses) (use_place env.uses u) (b ∷ bs)
      → HeadFrom (use_place env.uses) (use_place env.uses u) past
      → (env' : Env) × (link_use unlinked lr u p it ≡ some env') × Inserted env lr u is env'
  unfolding link_use
  link-after p b bs [] dp e q hp l low high =
      let d0 : Use = record d { next_use = Index.invalid } in
      let d1 : Use = record d { next_use = it } in
      let us1 = set env.uses u d1 in
      let a : Use = record dp { next_use = u } in
      let hp1 = after_set p b bs [] dp e q hp in
      let v : Index.is_valid p ≡ true = (at-some us1 p dp hp1).0 in
      let more : Index.is_invalid it ≡ true = ground (arith, l) in
      let r : LiveRange = record has.range { last_use = u } in
      (
        record env { uses = set us1 (last_or b bs) a; ranges = set env.ranges lr r },
        rw (
          link_use,
          update_at-some (set env.uses u d0) u d0 (λ d. record d { next_use = it })
              (at-set_self env.uses u d d0 h),
          ◌>>=◌,
          set-set env.uses u d0 d1,
          v,
          (at-some us1 p dp hp1).1,
          more,
          update_at-some env.ranges lr has.range (λ r. record r { last_use = u }) has.found,
          q,
        ),
        settle_after env lr u it b bs [] is d dp has h out hp e l low high (set env.ranges lr r) r
            (at-set_self env.ranges lr has.range r has.found) refl refl
            (λ j n. at-set_ne env.ranges lr j r n),
      )
  link-after p b bs (j ∷ js) dp e q hp l low high =
      let d0 : Use = record d { next_use = Index.invalid } in
      let d1 : Use = record d { next_use = it } in
      let us1 = set env.uses u d1 in
      let a : Use = record dp { next_use = u } in
      let hp1 = after_set p b bs (j ∷ js) dp e q hp in
      let v : Index.is_valid p ≡ true = (at-some us1 p dp hp1).0 in
      let more : Index.is_invalid it ≡ false =
        rw (l.0) (ground (arith, at-some env.uses j (l.1) (l.2))) in
      let last = has.last ∙ ap (last_or has.range.last_use) e ∙ last_or-append b bs j js in
      (
        record env { uses = set us1 (last_or b bs) a; ranges = env.ranges },
        rw (
          link_use,
          update_at-some (set env.uses u d0) u d0 (λ d. record d { next_use = it })
              (at-set_self env.uses u d d0 h),
          ◌>>=◌,
          set-set env.uses u d0 d1,
          v,
          (at-some us1 p dp hp1).1,
          more,
          q,
        ),
        settle_after env lr u it b bs (j ∷ js) is d dp has h out hp e l low high env.ranges
            has.range has.found refl last (λ k n. refl),
      )
