-- ===== src/Ion/Uses/Insert.antt =====
-- A use in the list of a live range (src/ion/mod.rs,
-- `insert_use_into_liverange_and_update_stats`): the list stays linked and sorted.
use regalloc2_orig.Prelude.{
  ℕ, ◌≡◌, ◌≢◌, List, ◌∷◌, ◌++◌, some, set, refl, subst, sym, ◌∙◌, Bool-cases, inl, inr, arith, ◌==◌,
}
use regalloc2_orig.Ion.Env.{LiveRange, Use, Env, at, update_at, at-some, at-set_self}
use regalloc2_orig.Ion.Uses.Scan.{use_place, use_place-at, use_operand, use_operand-at, use_link}
use regalloc2_orig.Ion.Links.{
  last_or, Linked, AllUpTo, NotIn, Distinct, Sorted, at-set_ne, Linked-set, Linked-relink,
  NotIn-append, insert-Distinct, insert-Sorted, Sorted-congr, HeadFrom-Sorted, append-Sorted,
  HeadFrom, NotIn-last_or, Distinct-NotIn, Distinct-append, last_or-append,
}

-- The uses of a live range are those of the list, in the order of the program.
pub record HasUses (env : Env) (lr : ℕ) (is : List ℕ) : Type 0 where
  pub range : LiveRange
  pub found : at env.ranges lr ≡ some range
  pub linked : Linked use_link env.uses range.first_use is
  pub last : range.last_use ≡ last_or range.last_use is
  pub distinct : Distinct is
  pub sorted : Sorted (use_place env.uses) is

-- What the insertion of `u` comes to; the other uses and ranges are as before.
pub record Inserted (env : Env) (lr u : ℕ) (is : List ℕ) (env' : Env) : Type 0 where
  pub upto : List ℕ
  pub past : List ℕ
  pub split : is ≡ upto ++ past
  pub list : HasUses env' lr (upto ++ u ∷ past)
  pub places : (j : ℕ) → use_place env'.uses j ≡ use_place env.uses j
  pub operands : (j : ℕ) → use_operand env'.uses j ≡ use_operand env.uses j
  pub other_uses : (j : ℕ) → NotIn j (u ∷ is) → at env'.uses j ≡ at env.uses j
  pub other_ranges : (j : ℕ) → lr ≢ j → at env'.ranges j ≡ at env.ranges j

pub update_at-some :
    {A : Type 0} (items : List A) (i : ℕ) (a : A) (f : A → A)
    → at items i ≡ some a
    → update_at items i f ≡ some (set items i (f a))
update_at-some items i a f h = let (v, g) = at-some items i a h in rw (v, g) refl

pub use_place-set :
    (uses : List Use) (i : ℕ) (d : Use) (link : ℕ)
    → at uses i ≡ some d
    → (j : ℕ) → use_place (set uses i (record d { next_use = link })) j ≡ use_place uses j
unfolding use_place
use_place-set uses i d link h j = elim (Bool-cases (i == j)) [
  | inl e ↦
      let same : i ≡ j = ground arith in
      rw (← same) (
        use_place-at (set uses i (record d { next_use = link })) i (record d { next_use = link })
          (at-set_self uses i d (record d { next_use = link }) h)
        ∙ sym (use_place-at uses i d h))
  | inr e ↦
      let other = at-set_ne uses i j (record d { next_use = link }) (ground arith) in
      rw (use_place, other) refl
]

pub use_operand-set :
    (uses : List Use) (i : ℕ) (d : Use) (link : ℕ)
    → at uses i ≡ some d
    → (j : ℕ) → use_operand (set uses i (record d { next_use = link })) j ≡ use_operand uses j
unfolding use_operand
use_operand-set uses i d link h j = elim (Bool-cases (i == j)) [
  | inl e ↦
      let same : i ≡ j = ground arith in
      rw (← same) (
        use_operand-at (set uses i (record d { next_use = link })) i (record d { next_use = link })
          (at-set_self uses i d (record d { next_use = link }) h)
        ∙ sym (use_operand-at uses i d h))
  | inr e ↦
      let other = at-set_ne uses i j (record d { next_use = link }) (ground arith) in
      rw (use_operand, other) refl
]

-- The part of the list before the new use, if it is not empty, ends with the link to it.
splice :
    (us : List Use) (first it u : ℕ) (b : ℕ) (bs past : List ℕ) (d dp : Use)
    → at us u ≡ some d
    → d.next_use ≡ it
    → at us (last_or b bs) ≡ some dp
    → Linked use_link us first (b ∷ bs ++ past)
    → Linked use_link us it past
    → Distinct (b ∷ bs ++ past)
    → NotIn u (b ∷ bs ++ past)
    → Linked use_link
        (set us (last_or b bs) (record dp { next_use = u }))
        first
        (b ∷ bs ++ u ∷ past)
splice us first it u b bs past d dp h e hp l m n o =
    let p = last_or b bs in
    let (nb, np) = NotIn-append u (b ∷ bs) past o in
    let other : p ≢ u = λ q. NotIn-last_or u b bs nb.0 nb.1 (sym q) in
    let a : Use = record dp { next_use = u } in
    Linked-relink use_link us first b bs past (u ∷ past) a (Distinct-append (b ∷ bs) past n) l (
      refl,
      d,
      at-set_ne us p u a other ∙ h,
      rw e (Linked-set use_link us it p a past (Distinct-NotIn b bs past n) m),
    )

-- What the parts of a list come to.
module _ (env : Env) (lr u : ℕ) (is : List ℕ) (has : HasUses env lr is) (out : NotIn u is) where
  pub settle :
      (env' : Env) (upto past : List ℕ) (r : LiveRange)
      → is ≡ upto ++ past
      → at env'.ranges lr ≡ some r
      → Linked use_link env'.uses r.first_use (upto ++ u ∷ past)
      → r.last_use ≡ last_or u past
      → AllUpTo (use_place env.uses) (use_place env.uses u) upto
      → HeadFrom (use_place env.uses) (use_place env.uses u) past
      → ((j : ℕ) → use_place env'.uses j ≡ use_place env.uses j)
      → ((j : ℕ) → use_operand env'.uses j ≡ use_operand env.uses j)
      → ((j : ℕ) → NotIn j (u ∷ is) → at env'.uses j ≡ at env.uses j)
      → ((j : ℕ) → lr ≢ j → at env'.ranges j ≡ at env.ranges j)
      → Inserted env lr u is env'
  settle env' upto past r e found l last low high places operands others ranges = record {
    upto = upto;
    past = past;
    split = e;
    list = record {
      range = r;
      found = found;
      linked = l;
      last = last ∙ sym (last_or-append r.last_use upto u past);
      distinct = insert-Distinct u upto past (rw (← e) has.distinct) (rw (← e) out);
      sorted =
          let key = use_place env.uses in
          let s : Sorted key (upto ++ past) = rw (← e) has.sorted in
          Sorted-congr key (use_place env'.uses) places (upto ++ u ∷ past) (
            insert-Sorted key u upto past s low
              (HeadFrom-Sorted key (key u) past high (append-Sorted key upto past s)));
    };
    places = places;
    operands = operands;
    other_uses = others;
    other_ranges = ranges;
  }

-- The links of the new use and of the one before it, and a range whose links are right.
pub settle_after :
    (env : Env) (lr u it b : ℕ) (bs past is : List ℕ) (d dp : Use) (has : HasUses env lr is)
    → at env.uses u ≡ some d
    → NotIn u is
    → at env.uses (last_or b bs) ≡ some dp
    → is ≡ b ∷ bs ++ past
    → Linked use_link env.uses it past
    → AllUpTo (use_place env.uses) (use_place env.uses u) (b ∷ bs)
    → HeadFrom (use_place env.uses) (use_place env.uses u) past
    → (ranges : List LiveRange) (r : LiveRange) → at ranges lr ≡ some r
    → r.first_use ≡ has.range.first_use
    → r.last_use ≡ last_or u past
    → ((j : ℕ) → lr ≢ j → at ranges j ≡ at env.ranges j)
    → Inserted env lr u is (record env {
      ranges = ranges;
      uses =
          set
            (set env.uses u (record d { next_use = it }))
            (last_or b bs)
            (record dp { next_use = u });
    })
settle_after env lr u it b bs past is d dp has h out hp e m low high ranges r hr first last others =
    let p = last_or b bs in
    let d0 : Use = record d { next_use = it } in
    let us0 = set env.uses u d0 in
    let a : Use = record dp { next_use = u } in
    let out' : NotIn u (b ∷ bs ++ past) = subst (NotIn u) e out in
    let (before_, after_) = NotIn-append u (b ∷ bs) past out' in
    let hp0 : at us0 p ≡ some dp =
      at-set_ne env.uses u p d0 (NotIn-last_or u b bs before_.0 before_.1) ∙ hp in
    let l : Linked use_link env.uses has.range.first_use (b ∷ bs ++ past) =
      subst (Linked use_link env.uses has.range.first_use) e has.linked in
    settle env lr u is has out (record env { ranges = ranges; uses = set us0 p a }) (b ∷ bs) past r
      e hr
      (subst (λ f. Linked use_link (set us0 p a) f (b ∷ bs ++ u ∷ past)) (sym first)
        (splice us0 has.range.first_use it u b bs past d0 dp (at-set_self env.uses u d d0 h) refl
          hp0 (Linked-set use_link env.uses has.range.first_use u d0 (b ∷ bs ++ past) out' l)
          (Linked-set use_link env.uses it u d0 past after_ m) (subst Distinct e has.distinct)
          out'))
      last low high (λ j. use_place-set us0 p dp u hp0 j ∙ use_place-set env.uses u d it h j)
      (λ j. use_operand-set us0 p dp u hp0 j ∙ use_operand-set env.uses u d it h j)
      (λ j n.
        let (n', n'') = NotIn-append j (b ∷ bs) past (subst (NotIn j) e (n.1)) in
        at-set_ne us0 p j a (λ q. NotIn-last_or j b bs n'.0 n'.1 (sym q))
        ∙ at-set_ne env.uses u j d0 (λ q. n.0 (sym q)))
      others
