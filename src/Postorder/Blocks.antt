-- ===== src/Postorder/Blocks.antt =====
-- Lists of blocks, and the marks of those that are visited (src/postorder.rs).
use regalloc2_orig.Prelude.{
  ◌≡◌, ◌≢◌, ◌⊎◌, refl, sym, ap, ◌∙◌, arith, Bool, true, false, ◌==◌, Bool-cases, inl, inr, List, [],
  ◌∷◌, ◌++◌, Option, some, get_elem?, get_elem?-set_self, get_elem?-set_ne, lt-length_of_get_elem?,
  set,
}
use regalloc2_orig.Index.{Block}
use regalloc2_orig.Moves.Stable.{All, NoDuplicates}
use regalloc2_orig.Postorder.{State}

abbrev pub Has : Block → List Block → Type 0
Has b [] = ⊥
Has b (c ∷ cs) = (b ≡ c) ⊎ Has b cs

abbrev pub blocks_of : List State → List Block
blocks_of [] = []
blocks_of (s ∷ ss) = s.block ∷ blocks_of ss

abbrev pub IsMarked : List Bool → Block → Type 0
IsMarked visited b = get_elem? visited b ≡ some true

pub IsMarked-set :
    (visited : List Bool) (b c : Block) → IsMarked visited c → IsMarked (set visited b true) c
IsMarked-set visited b c m = elim (Bool-cases (b == c)) [
  | inl e ↦ same (ground arith)
  | inr e ↦ get_elem?-set_ne visited true (ground arith) ∙ m
]
  where
    same : b ≡ c → IsMarked (set visited b true) c
    same e = rw e (get_elem?-set_self visited c true (lt-length_of_get_elem? visited c true m))

pub All-IsMarked-set :
    (visited : List Bool) (b : Block) (xs : List Block)
    → All (IsMarked visited) xs
    → All (IsMarked (set visited b true)) xs
All-IsMarked-set visited b [] a = tt
All-IsMarked-set visited b (x ∷ xs) a =
    (IsMarked-set visited b x a.0, All-IsMarked-set visited b xs a.1)

-- A block that is not marked is none of those that are.
pub fresh :
    (visited : List Bool) (b : Block) (xs : List Block)
    → get_elem? visited b ≡ some false
    → All (IsMarked visited) xs
    → All (λ x. b ≢ x) xs
fresh visited b [] e a = tt
fresh visited b (x ∷ xs) e a =
    ((λ same. differ (sym e ∙ ap (get_elem? visited) same ∙ a.0)), fresh visited b xs e a.1)
  where
    differ : Path (Option Bool) (some false) (some true) → ⊥
    differ h = cc

pub All-insert :
    (P : Block → Type 0) (b : Block) (xs ys : List Block)
    → P b
    → All P (xs ++ ys)
    → All P (xs ++ b ∷ ys)
All-insert P b [] ys p a = (p, a)
All-insert P b (x ∷ xs) ys p a = (a.0, All-insert P b xs ys p a.1)

All-head : (b : Block) (xs ys : List Block) → All (λ x. b ≢ x) (xs ++ ys) → All (λ x. b ≢ x) xs
All-head b [] ys a = tt
All-head b (x ∷ xs) ys a = (a.0, All-head b xs ys a.1)

pub NoDuplicates-insert :
    (b : Block) (xs ys : List Block)
    → All (λ x. b ≢ x) (xs ++ ys)
    → NoDuplicates (xs ++ ys)
    → NoDuplicates (xs ++ b ∷ ys)
NoDuplicates-insert b [] ys a d = (a, d)
NoDuplicates-insert b (x ∷ xs) ys a d =
    (All-insert (λ e. x ≢ e) b xs ys (λ e. a.0 (sym e)) d.0, NoDuplicates-insert b xs ys a.1 d.1)

pub Has-insert : (b c : Block) (xs ys : List Block) → Has c (xs ++ ys) → Has c (xs ++ b ∷ ys)
Has-insert b c [] ys h = inr h
Has-insert b c (x ∷ xs) ys (inl e) = inl e
Has-insert b c (x ∷ xs) ys (inr h) = inr (Has-insert b c xs ys h)

pub Has-middle : (b : Block) (xs ys : List Block) → Has b (xs ++ b ∷ ys)
Has-middle b [] ys = inl refl
Has-middle b (x ∷ xs) ys = inr (Has-middle b xs ys)

pub All-of_Has : (P : Block → Type 0) (b : Block) (xs : List Block) → All P xs → Has b xs → P b
All-of_Has P b [] a h = absurd h
All-of_Has P b (x ∷ xs) a (inl e) = rw e a.0
All-of_Has P b (x ∷ xs) a (inr h) = All-of_Has P b xs a.1 h
