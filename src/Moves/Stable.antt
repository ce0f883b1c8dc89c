-- ===== src/Moves/Stable.antt =====
-- What sorting by a number promises (`sort_by_key` of Rust's slices): the result is in order, and the
-- elements with one key keep their order among themselves.
use regalloc2_orig.Prelude.{
  ℕ, ◌≢◌, ◌≡◌, ◌≤◌, ◌+◌, refl, arith, ap, Bool, false, if◌then◌else◌, leb, ◌==◌, List, [], ◌∷◌,
  ◌++◌, Bool-cases, inl, inr,
}
use regalloc2_orig.Moves.Sort.{insert_by, sort_by}

module _ {ℓ} {A : Type ℓ} where
  -- The elements that pass a test, in order.
  abbrev pub pick : (A → Bool) → List A → List A
  pick test [] = []
  pick test (x ∷ xs) = if test x then x ∷ pick test xs else pick test xs

  abbrev pub All : (A → Type 0) → List A → Type 0
  All P [] = Unit
  All P (x ∷ xs) = P x × All P xs

-- No element is there twice.
abbrev pub NoDuplicates : List ℕ → Type 0
NoDuplicates [] = Unit
NoDuplicates (d ∷ ds) = All (λ e. d ≢ e) ds × NoDuplicates ds

module _ {ℓ} {A : Type ℓ} where
  pub append-nil : (xs : List A) → xs ++ [] ≡ xs
  append-nil [] = refl
  append-nil (x ∷ xs) = ap (λ ys. x ∷ ys) (append-nil xs)

  pub append_assoc : (xs ys zs : List A) → (xs ++ ys) ++ zs ≡ xs ++ (ys ++ zs)
  append_assoc [] ys zs = refl
  append_assoc (x ∷ xs) ys zs = ap (λ ws. x ∷ ws) (append_assoc xs ys zs)

  pub pick-append :
      (test : A → Bool) (xs ys : List A) → pick test (xs ++ ys) ≡ pick test xs ++ pick test ys
  pick-append test [] ys = refl
  pick-append test (x ∷ xs) ys = elim (Bool-cases (test x)) [
    | inl e ↦ rw e (ap (λ zs. x ∷ zs) (pick-append test xs ys))
    | inr e ↦ rw e (pick-append test xs ys)
  ]

module _ {ℓ} {A : Type ℓ} (rank : A → ℕ) where
  abbrev pub le_by : A → A → Bool
  le_by x y = leb (rank x) (rank y)

  -- Every element is at or above `k`.
  abbrev pub Above : ℕ → List A → Type 0
  Above k [] = Unit
  Above k (x ∷ xs) = (k ≤ rank x) × Above k xs

  abbrev pub IsSorted : List A → Type 0
  IsSorted [] = Unit
  IsSorted (x ∷ xs) = Above (rank x) xs × IsSorted xs

  abbrev pub has_rank : ℕ → A → Bool
  has_rank k x = rank x == k

module _ {ℓ} {A : Type ℓ} (rank : A → ℕ) where
  pub Above_mono : (j k : ℕ) (xs : List A) → j ≤ k → Above rank k xs → Above rank j xs
  Above_mono j k [] h a = tt
  Above_mono j k (x ∷ xs) h a = (omega arith, Above_mono j k xs h a.1)

  Above-insert_by :
      (k : ℕ) (x : A) (xs : List A)
      → k ≤ rank x
      → Above rank k xs
      → Above rank k (insert_by (le_by rank) x xs)
  unfolding insert_by
  Above-insert_by k x [] h a = (h, tt)
  Above-insert_by k x (y ∷ ys) h a = elim (Bool-cases (leb (rank x) (rank y))) [
    | inl e ↦ rw e (h, a)
    | inr e ↦ rw e (a.0, Above-insert_by k x ys h a.1)
  ]

  IsSorted-insert_by :
      (x : A) (xs : List A) → IsSorted rank xs → IsSorted rank (insert_by (le_by rank) x xs)
  unfolding insert_by
  IsSorted-insert_by x [] s = (tt, tt)
  IsSorted-insert_by x (y ∷ ys) s = elim (Bool-cases (leb (rank x) (rank y))) [
    | inl e ↦ rw e ((ground arith, Above_mono (rank x) (rank y) ys (ground arith) s.0), s)
    | inr e ↦ rw e (Above-insert_by (rank y) x ys (ground arith) s.0, IsSorted-insert_by x ys s.1)
  ]

  pub IsSorted-sort_by : (xs : List A) → IsSorted rank (sort_by (le_by rank) xs)
  unfolding sort_by
  IsSorted-sort_by [] = tt
  IsSorted-sort_by (x ∷ xs) = IsSorted-insert_by x (sort_by (le_by rank) xs) (IsSorted-sort_by xs)

  pick-insert_by :
      (k : ℕ) (x : A) (xs : List A)
      → pick (has_rank rank k) (insert_by (le_by rank) x xs) ≡ pick (has_rank rank k) (x ∷ xs)
  unfolding insert_by
  pick-insert_by k x [] = refl
  pick-insert_by k x (y ∷ ys) = ground (arith, pick-insert_by k x ys)

  pub pick-sort_by :
      (k : ℕ) (xs : List A)
      → pick (has_rank rank k) (sort_by (le_by rank) xs) ≡ pick (has_rank rank k) xs
  unfolding sort_by
  pick-sort_by k [] = refl
  pick-sort_by k (x ∷ xs) =
      ground (arith, pick-insert_by k x (sort_by (le_by rank) xs), pick-sort_by k xs)

  -- Nothing above `k` has rank `k`.
  pub pick-Above : (k : ℕ) (xs : List A) → Above rank (k + 1) xs → pick (has_rank rank k) xs ≡ []
  pick-Above k [] a = refl
  pick-Above k (x ∷ xs) a = ground (arith, pick-Above k xs a.1)

  All-insert_by :
      (P : A → Type 0) (x : A) (xs : List A) → P x → All P xs → All P (insert_by (le_by rank) x xs)
  unfolding insert_by
  All-insert_by P x [] p a = (p, tt)
  All-insert_by P x (y ∷ ys) p a = elim (Bool-cases (leb (rank x) (rank y))) [
    | inl e ↦ rw e (p, a)
    | inr e ↦ rw e (a.0, All-insert_by P x ys p a.1)
  ]

  pub All-sort_by : (P : A → Type 0) (xs : List A) → All P xs → All P (sort_by (le_by rank) xs)
  unfolding sort_by
  All-sort_by P [] a = tt
  All-sort_by P (x ∷ xs) a = All-insert_by P x (sort_by (le_by rank) xs) a.0 (All-sort_by P xs a.1)

module _ {ℓ} {A : Type ℓ} (rank : A → ℕ) where
  pick-All : (k : ℕ) (xs : List A) → All (λ x. rank x ≡ k) xs → pick (has_rank rank k) xs ≡ xs
  pick-All k [] a = refl
  pick-All k (x ∷ xs) a = ground (arith, pick-All k xs a.1)

  pick-none :
      (j k : ℕ) (xs : List A)
      → (j == k) ≡ false
      → All (λ x. rank x ≡ j) xs
      → pick (has_rank rank k) xs ≡ []
  pick-none j k [] n a = refl
  pick-none j k (x ∷ xs) n a = ground (arith, pick-none j k xs n a.1)

  -- A first part of one rank, and a rest above it.
  pub pick-split :
      (j k : ℕ) (xs ys : List A)
      → All (λ x. rank x ≡ j) xs
      → Above rank (j + 1) ys
      → pick (has_rank rank k) (xs ++ ys) ≡ (if j == k then xs else pick (has_rank rank k) ys)
  pick-split j k xs ys a b = elim (Bool-cases (j == k)) [
    | inl e ↦
        let same : j ≡ k = ground arith in
        rw (pick-append (has_rank rank k) xs ys, e, ← same, pick-All j xs a, pick-Above rank j ys b)
          (append-nil xs)
    | inr e ↦ rw (pick-append (has_rank rank k) xs ys, e, pick-none j k xs e a)
  ]

  pub Above-append :
      (k : ℕ) (xs ys : List A) → Above rank k xs → Above rank k ys → Above rank k (xs ++ ys)
  Above-append k [] ys a b = b
  Above-append k (x ∷ xs) ys a b = (a.0, Above-append k xs ys a.1 b)

  pub Above-tail : (k : ℕ) (xs ys : List A) → Above rank k (xs ++ ys) → Above rank k ys
  Above-tail k [] ys a = a
  Above-tail k (x ∷ xs) ys a = Above-tail k xs ys a.1

  pub Above-of_all : (j k : ℕ) (xs : List A) → j ≤ k → All (λ x. rank x ≡ k) xs → Above rank j xs
  Above-of_all j k [] h a = tt
  Above-of_all j k (x ∷ xs) h a = (omega arith, Above-of_all j k xs h a.1)
