-- ===== src/Tests/Merging.antt =====
-- Lists of uses and bundles that are joined, at concrete values: the ranges of bundle 0 come before
-- the range of bundle 1.
use regalloc2_orig.Prelude.{ℕ, ◌≡◌, true, [], ◌∷◌, Option, some, ◌>>=◌, refl, arith}
use regalloc2_orig.ProgPoint
use regalloc2_orig.Reg.{int}
use regalloc2_orig.Reg.VReg
use regalloc2_orig.Operand
use regalloc2_orig.Ion.Env.{Use, Env, at}
use regalloc2_orig.Ion.Uses.{insert_use_into_liverange_and_update_stats}
use regalloc2_orig.Ion.Uses.Scan.{use_place}
use regalloc2_orig.Ion.Uses.Insert.{HasUses, Inserted}
use regalloc2_orig.Ion.Uses.Order.{insert_use-HasUses}
use regalloc2_orig.Ion.Merge.{merge_bundles, first_class_eq, check_apart, join_bundles}
use regalloc2_orig.Ion.Merge.Step.{range_start}
use regalloc2_orig.Ion.Merge.Correct.{HasChain, Merged, merge_bundles-Merged}
use regalloc2_orig.Ion.Merge.Outcome.{HasClass, MergeEnds, merge_bundles_lem}
use regalloc2_orig.Tests.Bundles.{env, in_reg, v0, live, range_of, bundle_at, nowhere}

-- The uses at the instructions 1 and 5, and one at 3 that is not in a list yet.
abbrev use_at : ℕ → ℕ → Use
use_at inst next_use = record in_reg {
  pos = record { inst = inst; pos = ProgPoint.before };
  next_use = next_use;
}

abbrev listed : Env
listed = record env {
  ranges = record (live (range_of 0 7) 0 0) { last_use = 1 } ∷ [];
  uses = use_at 1 1 ∷ use_at 5 nowhere ∷ use_at 3 nowhere ∷ [];
}

two_uses : HasUses listed 0 (0 ∷ 1 ∷ [])
unfolding use_place
two_uses = record {
  range = record (live (range_of 0 7) 0 0) { last_use = 1 };
  found = refl;
  linked = (refl, use_at 1 1, refl, (refl, use_at 5 nowhere, refl, refl));
  last = refl;
  distinct = ((ground arith, tt), (tt, tt));
  sorted = ((omega arith, tt), (tt, tt));
}

policy_reg : Operand.policy ((use_at 3 nowhere).operand) ≡ some Operand.reg
unfolding Operand.policy
policy_reg = refl

insert_use-HasUses_example :
    (env' : Env) × (insert_use_into_liverange_and_update_stats 3 listed 0 2 ≡ some env')
    × Inserted listed 0 2 (0 ∷ 1 ∷ []) env'
insert_use-HasUses_example =
    insert_use-HasUses 3 listed 0 2 (0 ∷ 1 ∷ []) (use_at 3 nowhere) Operand.reg two_uses refl
      policy_reg (ground arith, (ground arith, tt)) (omega arith)

chain0 : HasChain env 0 (0 ∷ [])
unfolding range_start
chain0 = record {
  data_ = bundle_at 0;
  found = refl;
  linked = (refl, live (range_of 0 2) 0 0, refl, refl);
  distinct = (tt, tt);
  sorted = (tt, tt);
}

chain1 : HasChain env 1 (1 ∷ [])
unfolding range_start
chain1 = record {
  data_ = bundle_at 1;
  found = refl;
  linked = (refl, live (range_of 4 5) 1 nowhere, refl, refl);
  distinct = (tt, tt);
  sorted = (tt, tt);
}

same_class : first_class_eq env (chain1.data_) (chain0.data_) ≡ some true
unfolding first_class_eq chain0 chain1 VReg.class
same_class = refl

no_overlap :
    check_apart 200 env.ranges ((chain1.data_).first_range) ((chain0.data_).first_range) ≡ some true
unfolding check_apart chain0 chain1
no_overlap = refl

merge_bundles-Merged_example :
    (env' : Env) × (merge_bundles 3 env 1 0 ≡ some (env', true))
    × Merged env 1 0 (1 ∷ []) (0 ∷ []) env'
merge_bundles-Merged_example =
    merge_bundles-Merged 3 env 1 0 1 0 [] [] chain1 chain0 ((ground arith, tt), tt) (ground arith)
      same_class no_overlap (omega arith)

class0 : HasClass env (chain0.data_) int
unfolding chain0 VReg.class
class0 = record {
  range = live (range_of 0 2) 0 0;
  vreg_data = v0;
  range_eq = refl;
  vreg_eq = refl;
  class_eq = refl;
}

class1 : HasClass env (chain1.data_) int
unfolding chain1 VReg.class
class1 = record {
  range = live (range_of 4 5) 1 nowhere;
  vreg_data = v0;
  range_eq = refl;
  vreg_eq = refl;
  class_eq = refl;
}

merge_bundles_lem_example :
    MergeEnds 3 env 1 0 (1 ∷ []) (0 ∷ []) int int (range_of 4 5 ∷ []) (range_of 0 2 ∷ [])
unfolding chain1 chain0
merge_bundles_lem_example =
    merge_bundles_lem 3 env 1 0 1 0 [] [] (range_of 4 5 ∷ []) (range_of 0 2 ∷ []) int int chain1
      chain0 ((ground arith, tt), tt) (ground arith) class1 class0
      (live (range_of 4 5) 1 nowhere, refl, refl, refl) (live (range_of 0 2) 0 0, refl, refl, refl)
      (omega arith, tt, tt) (omega arith, tt, tt) (omega arith)

-- The merge as it runs: the first range of the bundle, and the one that follows.
ends_of : Env → Option (ℕ × ℕ)
ends_of env = do b ← at env.bundles 0; r ← at env.ranges 0; some (b.first_range, r.next_in_bundle)

merged_order : (do r ← merge_bundles 3 env 1 0; ends_of (r.0)) ≡ some (0, 1)
unfolding merge_bundles first_class_eq check_apart join_bundles VReg.class ends_of
merged_order = refl
