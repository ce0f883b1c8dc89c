-- ===== src/Ion/Uses/Order.antt =====
-- The insertion of a use (src/ion/mod.rs, `insert_use_into_liverange_and_update_stats`).
use regalloc2_orig.Prelude.{
  ℕ, ◌≡◌, ◌≢◌, ◌<◌, false, List, [], ◌∷◌, ◌++◌, none, some, set, refl, subst, set-set, set_self,
  sym, ◌∙◌, ◌>>=◌, Bool-cases, inl, inr, arith, length, Option-cases, u32, ◌+◌,
}
use regalloc2_orig.Index
use regalloc2_orig.ProgPoint
use regalloc2_orig.ProgPoint.Order.{position}
use regalloc2_orig.Operand
use regalloc2_orig.Operand.{Operand, OperandPolicy, fixed_reg, reuse}
use regalloc2_orig.Ion.Props.{inc_num_fixed_uses}
use regalloc2_orig.Ion.Requirement.{spill_weight_from_policy}
use regalloc2_orig.Ion.Env.{LiveRange, Use, Env, at, at-some, at-set_self, set_range}
use regalloc2_orig.Ion.Uses.{
  link_use, insert_use, insert_use_into_liverange_and_update_stats, count_fixed,
}
use regalloc2_orig.Ion.Uses.Scan.{
  use_place, use_place-at, use_operand, use_operand-at, use_link, find_use_lem,
}
use regalloc2_orig.Ion.Uses.Insert.{HasUses, Inserted, update_at-some, use_place-set}
use regalloc2_orig.Ion.Uses.Ends.{insert-empty, insert-last}
use regalloc2_orig.Ion.Uses.Place.{unlinked, link-first, link-after}
use regalloc2_orig.Ion.Links.{
  last_or, Linked, AllUpTo, NotIn, at-set_ne, Linked-set, NotIn-append, NotIn-last_or, append-nil,
  HeadFrom, AllUpTo-congr, HeadFrom-congr, Linked-last_or,
}

module _ (env : Env) (lr u b : ℕ) (bs : List ℕ) (d : Use) (has : HasUses env lr (b ∷ bs))
    (h : at env.uses u ≡ some d) (out : NotIn u (b ∷ bs)) where
  link_parted :
      (upto past : List ℕ) (p it : ℕ)
      → b ∷ bs ≡ upto ++ past
      → p ≡ last_or Index.invalid upto
      → Linked use_link env.uses it past
      → AllUpTo (use_place env.uses) (use_place env.uses u) upto
      → HeadFrom (use_place env.uses) (use_place env.uses u) past
      → (env' : Env) × (link_use (unlinked env lr u it (b ∷ bs) d has h out) lr u p it ≡ some env')
        × Inserted env lr u (b ∷ bs) env'
  link_parted [] past p it e q l low high =
      let key = use_place env.uses in
      link-first env lr u it (b ∷ bs) d has h out p b bs refl (rw q refl)
        (subst (Linked use_link env.uses it) (sym e) l) (subst (HeadFrom key (key u)) (sym e) high)
  link_parted (c ∷ cs) past p it e q l low high =
      let (dp, hp) =
        Linked-last_or use_link env.uses has.range.first_use c cs past
          (subst (Linked use_link env.uses has.range.first_use) e has.linked) in
      link-after env lr u it (b ∷ bs) d has h out p c cs past dp e q hp l low high

  insert-scan :
      (fuel : ℕ) (dt : Use)
      → at env.uses (last_or b bs) ≡ some dt
      → ProgPoint.lt dt.pos d.pos ≡ false
      → length (b ∷ bs) < fuel
      → (env' : Env) × (insert_use fuel env lr u ≡ some env') × Inserted env lr u (b ∷ bs) env'
  unfolding insert_use
  insert-scan fuel dt ht past f =
      let d0 : Use = record d { next_use = Index.invalid } in
      let us0 = set env.uses u d0 in
      let first = has.range.first_use in
      let key = use_place env.uses in
      let here : use_place env.uses u ≡ position d.pos = use_place-at env.uses u d h in
      let back : (j : ℕ) → use_place env.uses j ≡ use_place us0 j =
        λ j. sym (use_place-set env.uses u d Index.invalid h j) in
      let ((p, it), e, parted) =
        find_use_lem fuel us0 d.pos Index.invalid first (b ∷ bs)
          (Linked-set use_link env.uses first u d0 (b ∷ bs) out has.linked) f in
      let past_out : NotIn u parted.past =
        (NotIn-append u parted.upto parted.past (subst (NotIn u) parted.split out)).1 in
      let l : Linked use_link env.uses it parted.past =
        subst (λ us. Linked use_link us it parted.past)
          (set-set env.uses u d0 d ∙ set_self env.uses u d ((at-some env.uses u d h).1))
          (Linked-set use_link us0 it u d parted.past past_out parted.linked) in
      let low =
        subst (λ k. AllUpTo key k parted.upto) (sym here)
          (AllUpTo-congr (use_place us0) key back (position d.pos) parted.upto parted.low) in
      let high =
        subst (λ k. HeadFrom key k parted.past) (sym here)
          (HeadFrom-congr (use_place us0) key back (position d.pos) parted.past parted.high) in
      let (env', g, done) =
        link_parted parted.upto parted.past p it parted.split parted.last l low high in
      let full : Index.is_invalid first ≡ false =
        ground (arith, at-some env.uses b (has.linked.1) (has.linked.2)) in
      let tail_out : last_or b bs ≢ u = (λ q. NotIn-last_or u b bs out.0 out.1 (sym q)) in
      let tail : at us0 has.range.last_use ≡ some dt =
        rw has.last (at-set_ne env.uses u (last_or b bs) d0 (λ q. tail_out (sym q)) ∙ ht) in
      (
        env',
        rw
            (
              insert_use,
              h,
              has.found,
              ◌>>=◌,
              update_at-some env.uses u d (λ d. record d { next_use = Index.invalid }) h,
              full,
              tail,
              past,
              e,
            )
            g,
        done,
      )

insert_use_lem :
    (fuel : ℕ) (env : Env) (lr u : ℕ) (is : List ℕ) (d : Use)
    → HasUses env lr is
    → at env.uses u ≡ some d
    → NotIn u is
    → length is < fuel
    → (env' : Env) × (insert_use fuel env lr u ≡ some env') × Inserted env lr u is env'
insert_use_lem fuel env lr u [] d has h out f = insert-empty fuel env lr u d has h
insert_use_lem fuel env lr u (b ∷ bs) d has h out f =
    let (dt, ht) = Linked-last_or use_link env.uses has.range.first_use b bs [] (
      subst (Linked use_link env.uses has.range.first_use) (sym (append-nil (b ∷ bs)))
        has.linked) in
    elim (Bool-cases (ProgPoint.lt dt.pos d.pos)) [
      | inl past ↦ insert-last fuel env lr u b bs d dt has h out ht past
      | inr scan ↦ insert-scan env lr u b bs d has h out fuel dt ht scan f
    ]

operand_found :
    (uses : List Use) (j : ℕ) (op : Operand)
    → use_operand uses j ≡ some op
    → (d : Use) × (at uses j ≡ some d) × (d.operand ≡ op)
unfolding use_operand
operand_found uses j op h = elim (Option-cases (at uses j)) [
  | inl e ↦ absurd (none_yet e h)
  | inr (d, e) ↦ (d, e, there d e h)
]
  where
    none_yet : at uses j ≡ none → use_operand uses j ≡ some op → ⊥
    none_yet e h = let z : none ≡ some op = sym (rw (use_operand, e) refl) ∙ h in cc

    there : (d : Use) → at uses j ≡ some d → use_operand uses j ≡ some op → d.operand ≡ op
    there d e h = let z : some d.operand ≡ some op = sym (rw (use_operand, e, ◌>>=◌) refl) ∙ h in cc

count_links :
    (f : ℕ → ℕ) (policy : OperandPolicy) (r : LiveRange)
    → ((count_fixed f policy r).first_use ≡ r.first_use)
      × ((count_fixed f policy r).last_use ≡ r.last_use)
count_links f (fixed_reg p) r = (refl, refl)
count_links f Operand.any r = (refl, refl)
count_links f Operand.reg r = (refl, refl)
count_links f (reuse i) r = (refl, refl)

-- A change of the counts of the range.
counted :
    (env env' : Env) (lr u : ℕ) (is : List ℕ) (f : LiveRange → LiveRange)
    → ((r : LiveRange) → (f r).first_use ≡ r.first_use)
    → ((r : LiveRange) → (f r).last_use ≡ r.last_use)
    → Inserted env lr u is env'
    → (env'' : Env) × (set_range env' lr f ≡ some env'') × Inserted env lr u is env''
counted env env' lr u is f hf hl i = (
  record env' { ranges = set env'.ranges lr (f i.list.range) },
  rw (update_at-some env'.ranges lr i.list.range f i.list.found) refl,
  record {
    upto = i.upto;
    past = i.past;
    split = i.split;
    list = record {
      range = f i.list.range;
      found = at-set_self env'.ranges lr i.list.range (f i.list.range) i.list.found;
      linked =
          subst (λ k. Linked use_link env'.uses k (i.upto ++ u ∷ i.past)) (sym (hf i.list.range))
            i.list.linked;
      last = subst (λ k. k ≡ last_or k (i.upto ++ u ∷ i.past)) (sym (hl i.list.range)) i.list.last;
      distinct = i.list.distinct;
      sorted = i.list.sorted;
    };
    places = i.places;
    operands = i.operands;
    other_uses = i.other_uses;
    other_ranges = λ j n. at-set_ne env'.ranges lr j (f i.list.range) n ∙ i.other_ranges j n;
  },
)

-- The list of the uses of a live range stays linked, without repetition and in the order of the
-- program, and holds the new use besides; the uses and ranges outside of it are as before.
pub insert_use-HasUses :
    (fuel : ℕ) (env : Env) (lr u : ℕ) (is : List ℕ) (d : Use) (policy : OperandPolicy)
    → HasUses env lr is
    → at env.uses u ≡ some d
    → Operand.policy d.operand ≡ some policy
    → NotIn u is
    → length is < fuel
    → (env' : Env) × (insert_use_into_liverange_and_update_stats fuel env lr u ≡ some env')
      × Inserted env lr u is env'
unfolding insert_use_into_liverange_and_update_stats
insert_use-HasUses fuel env lr u is d policy has h hp out f =
    let (env', e, i) = insert_use_lem fuel env lr u is d has h out f in
    let (d', g, same) =
      operand_found env'.uses u d.operand (i.operands u ∙ use_operand-at env.uses u d h) in
    let weigh : LiveRange → LiveRange = λ r. record (count_fixed inc_num_fixed_uses policy r) {
      uses_spill_weight = u32 (r.uses_spill_weight + spill_weight_from_policy policy);
    } in
    let (env'', c, done) =
      counted env env' lr u is weigh (λ r. (count_links inc_num_fixed_uses policy r).0)
        (λ r. (count_links inc_num_fixed_uses policy r).1) i in
    (env'', rw (insert_use_into_liverange_and_update_stats, e, g, ◌>>=◌, same, hp) c, done)
