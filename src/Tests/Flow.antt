-- ===== src/Tests/Flow.antt =====
-- The control flow analyses on small graphs.
use regalloc2_orig.Prelude.{
  zero, suc, ◌<◌, ◌≡◌, ◌↔◌, inl, inr, Bool, true, List, [], ◌∷◌, some, refl, arith,
}
use regalloc2_orig.Index.{Block}
use regalloc2_orig.Postorder
use regalloc2_orig.Postorder.Ends.{InRange}
use regalloc2_orig.Postorder.Blocks.{Has}
use regalloc2_orig.Postorder.Kept.{Reaches}
use regalloc2_orig.Postorder.Once.{calculate_lem}
use regalloc2_orig.Moves.Stable.{NoDuplicates}
use regalloc2_orig.Domtree
use regalloc2_orig.Domtree.{dominates}
use regalloc2_orig.Domtree.Ancestors.{Above, Ranked, dominates_lem}

-- 0 branches to 1 and 2, which join in 3.
abbrev succs : Block → List Block
succs zero = 1 ∷ 2 ∷ []
succs (suc zero) = 3 ∷ []
succs (suc (suc zero)) = 3 ∷ []
succs (suc (suc (suc b))) = []

abbrev preds : Block → List Block
preds zero = []
preds (suc zero) = 0 ∷ []
preds (suc (suc zero)) = 0 ∷ []
preds (suc (suc (suc b))) = 1 ∷ 2 ∷ []

postorder : Postorder.calculate 20 4 0 succs ≡ some (3 ∷ 1 ∷ 2 ∷ 0 ∷ [])
unfolding Postorder.calculate
postorder = refl

domtree : Domtree.calculate 10 4 preds (3 ∷ 1 ∷ 2 ∷ 0 ∷ []) 0 ≡ some (0 ∷ 0 ∷ 0 ∷ 0 ∷ [])
unfolding Domtree.calculate
domtree = refl

-- A chain: 0 is the parent of 1, and 1 of 2.
abbrev chain : List Block
chain = 0 ∷ 0 ∷ 1 ∷ []

ranked : Ranked chain (λ b. b)
ranked zero v l = (0, refl, inl refl)
ranked (suc zero) v l = (0, refl, inr (omega arith, inr (omega arith)))
ranked (suc (suc zero)) v l = (1, refl, inr (omega arith, inr (omega arith)))
ranked (suc (suc (suc b))) v l = absurd (omega arith)

dominates_lem_example :
    (r : Bool) × (dominates 3 chain 0 2 ≡ some r) × ((r ≡ true) ↔ Above chain 0 2)
dominates_lem_example = dominates_lem chain (λ b. b) 0 2 ranked (inr (omega arith))

below : (b s : Block) → some b ≡ some s → b < 4 → s < 4
below b s e h = ground arith

succs-InRange : (b : Block) → InRange 4 (succs b)
succs-InRange zero zero s e = below 1 s e (omega arith)
succs-InRange zero (suc zero) s e = below 2 s e (omega arith)
succs-InRange zero (suc (suc k)) s e = absurd cc
succs-InRange (suc zero) zero s e = below 3 s e (omega arith)
succs-InRange (suc zero) (suc k) s e = absurd cc
succs-InRange (suc (suc zero)) zero s e = below 3 s e (omega arith)
succs-InRange (suc (suc zero)) (suc k) s e = absurd cc
succs-InRange (suc (suc (suc b))) k s e = absurd cc

calculate_lem_example :
    (order : List Block) × (Postorder.calculate 20 4 0 succs ≡ some order)
    × NoDuplicates order
    × ((b : Block) → Has b order ↔ Reaches succs 0 b)
calculate_lem_example =
    calculate_lem 4 20 0 succs (omega arith) succs-InRange (omega arith) (omega arith)
