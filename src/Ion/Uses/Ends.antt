-- ===== src/Ion/Uses/Ends.antt =====
-- A use that goes into an empty list, or after the last use of one (src/ion/mod.rs,
-- `insert_use_into_liverange_and_update_stats`).
use regalloc2_orig.Prelude.{
  ℕ, ◌≡◌, ◌≢◌, ◌≤◌, true, false, List, [], ◌∷◌, some, set, refl, sym, ◌∙◌, ◌>>=◌, arith,
}
use regalloc2_orig.Index
use regalloc2_orig.ProgPoint
use regalloc2_orig.ProgPoint.{ProgPoint}
use regalloc2_orig.ProgPoint.Order.{position-lt}
use regalloc2_orig.Ion.Env.{LiveRange, Use, Env, at, at-some, at-set_self}
use regalloc2_orig.Ion.Uses.{insert_use}
use regalloc2_orig.Ion.Uses.Scan.{use_place, use_place-at}
use regalloc2_orig.Ion.Links.{
  last_or, NotIn, at-set_ne, Sorted-last_or, AllUpTo-mono, NotIn-last_or, append-nil,
}
use regalloc2_orig.Ion.Uses.Insert.{
  HasUses, Inserted, update_at-some, use_place-set, use_operand-set, settle, settle_after,
}

-- Into a list that is empty.
pub insert-empty :
    (fuel : ℕ) (env : Env) (lr u : ℕ) (d : Use) (has : HasUses env lr [])
    → at env.uses u ≡ some d
    → (env' : Env) × (insert_use fuel env lr u ≡ some env') × Inserted env lr u [] env'
unfolding insert_use
insert-empty fuel env lr u d has h =
    let none_yet : Index.is_invalid has.range.first_use ≡ true = ground (arith, has.linked) in
    let d0 : Use = record d { next_use = Index.invalid } in
    let r : LiveRange = record has.range { first_use = u; last_use = u } in
    let uses = set env.uses u d0 in
    let env' : Env = record env { uses = uses; ranges = set env.ranges lr r } in
    (
      env',
      rw (
        insert_use,
        h,
        has.found,
        ◌>>=◌,
        update_at-some env.uses u d (λ d. record d { next_use = Index.invalid }) h,
        none_yet,
        update_at-some env.ranges lr has.range (λ r. record r { first_use = u; last_use = u })
            has.found,
      ),
      settle env lr u [] has tt env' [] [] r refl (at-set_self env.ranges lr has.range r has.found)
          (refl, d0, at-set_self env.uses u d d0 h, refl) refl tt tt
          (use_place-set env.uses u d Index.invalid h)
          (use_operand-set env.uses u d Index.invalid h)
          (λ j n. at-set_ne env.uses u j d0 (λ q. n.0 (sym q)))
          (λ j n. at-set_ne env.ranges lr j r n),
    )

-- After the last use of a list.
pub insert-last :
    (fuel : ℕ) (env : Env) (lr u b : ℕ) (bs : List ℕ) (d dt : Use) (has : HasUses env lr (b ∷ bs))
    → at env.uses u ≡ some d
    → NotIn u (b ∷ bs)
    → at env.uses (last_or b bs) ≡ some dt
    → ProgPoint.lt dt.pos d.pos ≡ true
    → (env' : Env) × (insert_use fuel env lr u ≡ some env') × Inserted env lr u (b ∷ bs) env'
unfolding insert_use
insert-last fuel env lr u b bs d dt has h out ht past =
    let p = last_or b bs in
    let full : Index.is_invalid has.range.first_use ≡ false =
      ground (arith, at-some env.uses b (has.linked.1) (has.linked.2)) in
    let d0 : Use = record d { next_use = Index.invalid } in
    let us0 = set env.uses u d0 in
    let apart : p ≢ u = λ q. NotIn-last_or u b bs out.0 out.1 (sym q) in
    let ht0 : at us0 p ≡ some dt = at-set_ne env.uses u p d0 (λ q. apart (sym q)) ∙ ht in
    let a : Use = record dt { next_use = u } in
    let r : LiveRange = record has.range { last_use = u } in
    let env' : Env = record env { uses = set us0 p a; ranges = set env.ranges lr r } in
    let low : use_place env.uses p ≤ use_place env.uses u =
      rw (use_place-at env.uses p dt ht, use_place-at env.uses u d h)
        (ground (arith, position-lt dt.pos d.pos)) in
    let eq : at us0 has.range.last_use ≡ some dt = rw has.last ht0 in
    (
      env',
      rw
          (
            insert_use,
            h,
            has.found,
            ◌>>=◌,
            update_at-some env.uses u d (λ d. record d { next_use = Index.invalid }) h,
            full,
            eq,
            past,
            update_at-some us0 has.range.last_use dt (λ d. record d { next_use = u }) eq,
            update_at-some env.ranges lr has.range (λ r. record r { last_use = u }) has.found,
          )
          (rw has.last refl),
      settle_after env lr u Index.invalid b bs [] (b ∷ bs) d dt has h out ht
          (sym (append-nil (b ∷ bs))) refl
          (AllUpTo-mono (use_place env.uses) (use_place env.uses p) (use_place env.uses u) (b ∷ bs)
            low (Sorted-last_or (use_place env.uses) b bs has.sorted))
          tt (set env.ranges lr r) r (at-set_self env.ranges lr has.range r has.found) refl refl
          (λ j n. at-set_ne env.ranges lr j r n),
    )
