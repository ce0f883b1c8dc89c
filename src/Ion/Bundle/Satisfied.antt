-- ===== src/Ion/Bundle/Satisfied.antt =====
-- What the requirement of a bundle says of its operands (src/ion/mod.rs, `compute_requirement`).
use regalloc2_orig.Prelude.{
  Flow, next, return, ℕ, ◌<◌, ◌≡◌, ◌↔◌, refl, ◌∙◌, true, false, List, [], ◌∷◌, ◌++◌, Option, none,
  some, ◌>>=◌, bind_some, length, get_elem?,
}
use regalloc2_orig.Index
use regalloc2_orig.Operand.{Operand}
use regalloc2_orig.Moves.Stable.{All}
use regalloc2_orig.Ion.Requirement.{
  Requirement, Place, Satisfies, SatisfiesMerged, merge, merge_iff, from_operand,
}
use regalloc2_orig.Ion.Env.{LiveRange, Use, Def, Env, Chain, over}
use regalloc2_orig.Ion.Bundle.{merge_operand}

-- The requirements merged one after another.
abbrev pub merge_all : Requirement → List Requirement → Option Requirement
merge_all needed [] = some needed
merge_all needed (q ∷ qs) = do r ← merge needed q; merge_all r qs

abbrev pub AllSatisfied : List Requirement → Place → Type 0
AllSatisfied qs place = All (λ q. Satisfies q place) qs

pub merge_all_iff :
    (needed : Requirement) (qs : List Requirement) (place : Place)
    → (Satisfies needed place × AllSatisfied qs place) ↔ SatisfiesMerged (merge_all needed qs) place
merge_all_iff needed [] place = (λ (s, a). s, λ s. (s, tt))
merge_all_iff needed (q ∷ qs) place =
    split (merge needed q) (merge_iff needed q place) (λ r. merge_all_iff r qs place)
  where
    split :
        (m : Option Requirement)
        → (Satisfies needed place × Satisfies q place) ↔ SatisfiesMerged m place
        → ((r : Requirement)
            → (Satisfies r place × AllSatisfied qs place) ↔ SatisfiesMerged (merge_all r qs) place)
        → (Satisfies needed place × (Satisfies q place × AllSatisfied qs place))
          ↔ SatisfiesMerged (do r ← m; merge_all r qs) place
    split none here rest = (λ (s, a). here.0 (s, a.0), λ s. absurd s)
    split (some r) here rest = (
      λ (s, a). (rest r).0 (here.0 (s, a.0), a.1),
      λ s. let (t, a) = (rest r).1 s in let (n, w) = here.1 t in (n, (w, a)),
    )

pub merge_all-append :
    (needed : Requirement) (qs ps : List Requirement)
    → merge_all needed (qs ++ ps) ≡ (do r ← merge_all needed qs; merge_all r ps)
merge_all-append needed [] ps = refl
merge_all-append needed (q ∷ qs) ps = by_merge (merge needed q) (λ r. merge_all-append r qs ps)
  where
    by_merge :
        (m : Option Requirement)
        → ((r : Requirement) → merge_all r (qs ++ ps) ≡ (do r ← merge_all r qs; merge_all r ps))
        → (do r ← m; merge_all r (qs ++ ps)) ≡ (do r ← (do r ← m; merge_all r qs); merge_all r ps)
    by_merge none rest = refl
    by_merge (some r) rest = rest r

-- The end of a loop that has merged so far: on, or out of the function.
abbrev pub as_flow : Option Requirement → Flow Requirement (Unit {0})
as_flow none = return tt
as_flow (some r) = next r

pub merge_operand-eq :
    (needed q : Requirement) (op : Operand)
    → from_operand op ≡ some q
    → merge_operand needed op ≡ some (as_flow (merge needed q))
merge_operand-eq needed q op e =
    bind_some (λ req. some (elim (merge needed req) [ none ↦ return tt | some r ↦ next r ])) e
    ∙ by_merge (merge needed q)
  where
    by_merge :
        (m : Option Requirement)
        → Path
            (Option (Flow Requirement (Unit {0})))
            (some (elim m [ none ↦ return tt | some r ↦ next r ]))
            (some (as_flow m))
    by_merge none = refl
    by_merge (some r) = refl

-- The requirements of the uses.
pub data UseReqs : List (ℕ × Use) → List Requirement → Type 0 where
  no_uses : UseReqs [] []
  use_req :
      {i : ℕ} {u : Use} {q : Requirement} {us : List (ℕ × Use)} {qs : List Requirement}
      → from_operand u.operand ≡ some q
      → UseReqs us qs
      → UseReqs ((i, u) ∷ us) (q ∷ qs)

-- The requirement of the definition, where a range has one.
pub data DefReqs (env : Env) (r : LiveRange) : List Requirement → Type 0 where
  no_def : Index.is_valid r.def ≡ false → DefReqs env r []
  def_req :
      {d : Def} {q : Requirement}
      → Index.is_valid r.def ≡ true
      → get_elem? env.defs r.def ≡ some d
      → from_operand d.operand ≡ some q
      → DefReqs env r (q ∷ [])

abbrev pub use_link : Use → ℕ
use_link u = u.next_use

-- The requirements of a range, whose uses form a list that ends.
pub record RangeReqs (fuel : ℕ) (env : Env) (r : LiveRange) (defs uses : List Requirement)
    : Type 0 where
  pub items : List (ℕ × Use)
  pub chain : Chain env.uses use_link r.first_use items
  pub enough : length items < fuel
  pub use_reqs : UseReqs items uses
  pub def_reqs : DefReqs env r defs

-- The requirements of the ranges, in order.
pub data AllReqs (fuel : ℕ) (env : Env) : List (ℕ × LiveRange) → List Requirement → Type 0 where
  no_ranges : AllReqs fuel env [] []
  range_reqs :
      {i : ℕ} {r : LiveRange} {rs : List (ℕ × LiveRange)} {ds us qs : List Requirement}
      → RangeReqs fuel env r ds us
      → AllReqs fuel env rs qs
      → AllReqs fuel env ((i, r) ∷ rs) ((ds ++ us) ++ qs)

abbrev pub merge_use : ℕ → Use → Requirement → Option (Flow Requirement (Unit {0}))
merge_use i u needed = merge_operand needed u.operand

pub over-uses :
    (items : List Use) (us : List (ℕ × Use)) (qs : List Requirement) (needed : Requirement)
    → UseReqs us qs
    → over items use_link merge_use us needed ≡ some (as_flow (merge_all needed qs))
unfolding over
over-uses items [] [] needed h = refl
over-uses items [] (q ∷ qs) needed h = elim h [ ]
over-uses items (x ∷ us) [] needed h = elim h [ ]
over-uses items ((i, u) ∷ us) (q ∷ qs) needed (use_req e h) =
    rw (merge_operand-eq needed q u.operand e)
      (by_merge (merge needed q) (λ r. over-uses items us qs r h))
  where
    by_merge :
        (m : Option Requirement)
        → ((r : Requirement) → over items use_link merge_use us r ≡ some (as_flow (merge_all r qs)))
        → (elim (as_flow m) as (λ x. Option (Flow Requirement (Unit {0}))) [
          | return u ↦ some (return u)
          | next r ↦ over items use_link merge_use us r
        ])
          ≡ some (as_flow (do r ← m; merge_all r qs))
    by_merge none rest = refl
    by_merge (some r) rest = rest r
