-- ===== src/Ion/Merge/Interleave.antt =====
-- Lists that are put together from two, and lists that have nothing in common.
use regalloc2_orig.Prelude.{ℕ, ◌≡◌, List, [], ◌∷◌, ◌++◌, refl, sym, ap}
use regalloc2_orig.Ion.Links.{AllFrom, NotIn, Distinct, last_or, NotIn-append, Distinct-NotIn}

-- The third list has the numbers of the first two, those of each in their order.
pub data Interleave : List ℕ → List ℕ → List ℕ → Type 0 where
  ends : Interleave [] [] []
  left : {i : ℕ} {is js ks : List ℕ} → Interleave is js ks → Interleave (i ∷ is) js (i ∷ ks)
  right : {j : ℕ} {is js ks : List ℕ} → Interleave is js ks → Interleave is (j ∷ js) (j ∷ ks)

pub Interleave-AllFrom :
    (key : ℕ → ℕ) (k : ℕ) (is js ks : List ℕ)
    → Interleave is js ks
    → AllFrom key k is
    → AllFrom key k js
    → AllFrom key k ks
Interleave-AllFrom key k [] [] [] ends a b = tt
Interleave-AllFrom key k (i ∷ is) js (l ∷ ks) (left m) a b =
    (a.0, Interleave-AllFrom key k is js ks m a.1 b)
Interleave-AllFrom key k is (j ∷ js) (l ∷ ks) (right m) a b =
    (b.0, Interleave-AllFrom key k is js ks m a b.1)
Interleave-AllFrom key k [] (j ∷ js) [] m a b = elim m [ ]
Interleave-AllFrom key k (i ∷ is) js [] m a b = elim m [ ]

-- No number of the first list is in the second one.
abbrev pub Apart : List ℕ → List ℕ → Type 0
Apart [] js = Unit {0}
Apart (i ∷ is) js = NotIn i js × Apart is js

pub Apart-tail : (is : List ℕ) (j : ℕ) (js : List ℕ) → Apart is (j ∷ js) → NotIn j is × Apart is js
Apart-tail [] j js a = (tt, tt)
Apart-tail (i ∷ is) j js a =
    let (n, r) = Apart-tail is j js a.1 in (((λ e. (a.0).0 (sym e)), n), ((a.0).1, r))

pub append_cons : (is : List ℕ) (i : ℕ) (js : List ℕ) → (is ++ i ∷ []) ++ js ≡ is ++ i ∷ js
append_cons [] i js = refl
append_cons (k ∷ is) i js = ap (λ r. k ∷ r) (append_cons is i js)

pub Distinct-out :
    (is : List ℕ) (i : ℕ) (js : List ℕ) → Distinct (is ++ i ∷ js) → NotIn i is × NotIn i js
Distinct-out [] i js d = (tt, d.0)
Distinct-out (k ∷ is) i js d =
    let (n, m) = Distinct-out is i js d.1 in
    (((λ e. ((NotIn-append k is (i ∷ js) d.0).1).0 (sym e)), n), m)

-- The last number before a place is not after it.
pub last_or-NotIn :
    (is : List ℕ) (i : ℕ) (js : List ℕ) → Distinct (is ++ i ∷ js) → NotIn (last_or i is) js
last_or-NotIn [] i js d = d.0
last_or-NotIn (k ∷ is) i js d = (Distinct-NotIn k is (i ∷ js) d).1

pub last_or-NotIn_other :
    (is : List ℕ) (i : ℕ) (js : List ℕ) → Distinct (is ++ js) → NotIn i js → NotIn (last_or i is) js
last_or-NotIn_other [] i js d n = n
last_or-NotIn_other (k ∷ is) i js d n = Distinct-NotIn k is js d

pub Apart-sym : (is js : List ℕ) → Apart is js → Apart js is
Apart-sym is [] a = tt
Apart-sym is (j ∷ js) a = let (n, r) = Apart-tail is j js a in (n, Apart-sym is js r)

pub Interleave-sym : (is js ks : List ℕ) → Interleave is js ks → Interleave js is ks
Interleave-sym [] [] [] ends = ends
Interleave-sym (i ∷ is) js (k ∷ ks) (left m) = right (Interleave-sym is js ks m)
Interleave-sym is (j ∷ js) (k ∷ ks) (right m) = left (Interleave-sym is js ks m)
Interleave-sym [] (j ∷ js) [] m = elim m [ ]
Interleave-sym (i ∷ is) js [] m = elim m [ ]
