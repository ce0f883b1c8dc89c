-- ===== src/Ion/Merge/Outcome.antt =====
-- The two ways in which the merge of two bundles ends (src/ion/mod.rs, `merge_bundles`).
use regalloc2_orig.Prelude.{
  ℕ, ◌+◌, ◌≡◌, ◌≢◌, ◌<◌, Bool, true, false, List, ◌∷◌, some, ◌⊎◌, inl, inr, refl, ap, ◌∙◌, ◌>>=◌,
  length,
}
use regalloc2_orig.Ion.Range.{CodeRange}
use regalloc2_orig.Reg.{RegClass, int, float, class_eq}
use regalloc2_orig.Reg.VReg
use regalloc2_orig.Ion.Env.{LiveRange, LiveBundle, VRegData, Env, at}
use regalloc2_orig.Ion.Merge.{first_class_eq, check_apart, merge_bundles}
use regalloc2_orig.Ion.Merge.Interleave.{Apart}
use regalloc2_orig.Ion.Merge.Correct.{HasChain, Merged, merge_bundles-Merged, ne_test}
use regalloc2_orig.Ion.Merge.Clear.{Chain, Ordered, Clear, Decides, check_apart_lem}

-- The class of the virtual register of the bundle's first range.
pub record HasClass (env : Env) (bundle : LiveBundle) (class : RegClass) : Type 0 where
  pub range : LiveRange
  pub vreg_data : VRegData
  pub range_eq : at env.ranges bundle.first_range ≡ some range
  pub vreg_eq : at env.vregs range.vreg ≡ some vreg_data
  pub class_eq : VReg.class vreg_data.reg ≡ some class

-- Why two bundles are not merged: their classes differ, a range of the one overlaps a range of the
-- other, or they have more than 201 ranges in all.
abbrev pub Refused : RegClass → RegClass → List CodeRange → List CodeRange → Type 0
Refused k l cs ds = (k ≢ l) ⊎ ((¬ Clear cs ds) ⊎ (201 < length cs + length ds))

-- The two ways in which the merge ends: the ranges of both bundles are in `to`, of one class and with
-- no overlap, or nothing changes, for one of the reasons.
abbrev pub MergeEnds :
    ℕ
    → Env
    → ℕ
    → ℕ
    → List ℕ
    → List ℕ
    → RegClass
    → RegClass
    → List CodeRange
    → List CodeRange
    → Type 0
MergeEnds fuel env from to is js k l cs ds =
    ((env' : Env) × (merge_bundles fuel env from to ≡ some (env', true))
      × (k ≡ l)
      × Clear cs ds
      × Merged env from to is js env')
    ⊎ ((merge_bundles fuel env from to ≡ some (env, false)) × Refused k l cs ds)

class_eq_lem :
    (k l : RegClass) → ((class_eq k l ≡ true) × (k ≡ l)) ⊎ ((class_eq k l ≡ false) × (k ≢ l))
class_eq_lem int int = inl (refl, refl)
class_eq_lem int float = inr (refl, λ e. cc)
class_eq_lem float int = inr (refl, λ e. cc)
class_eq_lem float float = inl (refl, refl)

first_class_eq_lem :
    {env : Env} {f t : LiveBundle} {k l : RegClass}
    → HasClass env f k
    → HasClass env t l
    → first_class_eq env f t ≡ some (class_eq k l)
unfolding first_class_eq
first_class_eq_lem a b =
    rw (first_class_eq, a.range_eq, b.range_eq, ◌>>=◌, a.vreg_eq, b.vreg_eq, a.class_eq, b.class_eq)
      refl

refused_by_class :
    (fuel : ℕ) {env : Env} {from to : ℕ} {is js : List ℕ} (a : HasChain env from is)
    (b : HasChain env to js)
    → from ≢ to
    → first_class_eq env a.data_ b.data_ ≡ some false
    → merge_bundles fuel env from to ≡ some (env, false)
unfolding merge_bundles
refused_by_class fuel {from = from} {to = to} a b n class =
    rw (merge_bundles, ne_test from to n, a.found, b.found, ◌>>=◌, class) refl

refused_by_search :
    (fuel : ℕ) {env : Env} {from to : ℕ} {is js : List ℕ} (a : HasChain env from is)
    (b : HasChain env to js)
    → from ≢ to
    → first_class_eq env a.data_ b.data_ ≡ some true
    → check_apart 200 env.ranges ((a.data_).first_range) ((b.data_).first_range) ≡ some false
    → merge_bundles fuel env from to ≡ some (env, false)
unfolding merge_bundles
refused_by_search fuel {from = from} {to = to} a b n class found =
    rw (merge_bundles, ne_test from to n, a.found, b.found, ◌>>=◌, class, found) refl

-- For two different bundles with ranges, where the ranges of each have points, are in order and do
-- not overlap, no range is in both, and the virtual register of each first range has a class: with
-- more fuel than there are ranges the merge does not panic, its loops end, and it ends in one of two
-- ways. Either the classes are the same, no range of the one bundle overlaps a range of the other,
-- the answer is true and the ranges of both are in `to`, in order. Or nothing changes and the answer
-- is false: the classes differ, a range of the one overlaps a range of the other, or they have more
-- than 201 ranges in all.
pub merge_bundles_lem :
    (fuel : ℕ) (env : Env) (from to i j : ℕ) (is js : List ℕ) (cs ds : List CodeRange)
    (k l : RegClass)
    → (a : HasChain env from (i ∷ is)) → (b : HasChain env to (j ∷ js)) → Apart (i ∷ is) (j ∷ js)
    → from ≢ to
    → HasClass env a.data_ k
    → HasClass env b.data_ l
    → Chain env.ranges ((a.data_).first_range) cs
    → Chain env.ranges ((b.data_).first_range) ds
    → Ordered cs
    → Ordered ds
    → length (i ∷ is) + length (j ∷ js) < fuel
    → MergeEnds fuel env from to (i ∷ is) (j ∷ js) k l cs ds
merge_bundles_lem fuel env from to i j is js cs ds k l a b apart n ka kb ca cb oc od h =
    elim (class_eq_lem k l) [
      | inr (t, differ) ↦
          inr (refused_by_class fuel a b n (first_class_eq_lem ka kb ∙ ap some t), inl differ)
      | inl (t, same) ↦
          let (r, e, d) =
            check_apart_lem 200 env.ranges (a.data_).first_range (b.data_).first_range cs ds ca cb
              oc od in
          by_search (first_class_eq_lem ka kb ∙ ap some t) same r e d
    ]
  where
    by_search :
        first_class_eq env a.data_ b.data_ ≡ some true
        → k ≡ l
        → (r : Bool)
        → check_apart 200 env.ranges (a.data_).first_range (b.data_).first_range ≡ some r
        → Decides 200 cs ds r
        → MergeEnds fuel env from to (i ∷ is) (j ∷ js) k l cs ds
    by_search class same true e d =
        let (env', m, p) = merge_bundles-Merged fuel env from to i j is js a b apart n class e h in
        inl (env', m, same, d, p)
    by_search class same false e d = inr (refused_by_search fuel a b n class e, inr d)
