-- ===== src/Ion/Links.antt =====
-- Lists that are linked in an array (src/ion/mod.rs: the uses of a range, the ranges of a bundle and
-- of a virtual register), and what a change of one link does to them.
use regalloc2_orig.Prelude.{
  ℕ, ◌≡◌, ◌≢◌, ◌≤◌, ◌==◌, false, List, [], ◌∷◌, ◌++◌, some, set, get_elem?-set_ne, refl, sym, subst,
  ◌∙◌, ap, Bool-cases, inl, inr, arith,
}
use regalloc2_orig.Index
use regalloc2_orig.Ion.Env.{at, at-set_self}

abbrev pub NotIn : ℕ → List ℕ → Type 0
NotIn u [] = Unit {0}
NotIn u (i ∷ is) = (u ≢ i) × NotIn u is

abbrev pub Distinct : List ℕ → Type 0
Distinct [] = Unit {0}
Distinct (i ∷ is) = NotIn i is × Distinct is

-- The last one of a list, or else the given one.
abbrev pub last_or : ℕ → List ℕ → ℕ
last_or p [] = p
last_or p (i ∷ is) = last_or i is

pub NotIn-last_or : (u i : ℕ) (is : List ℕ) → u ≢ i → NotIn u is → u ≢ last_or i is
NotIn-last_or u i [] n m = n
NotIn-last_or u i (j ∷ is) n m = NotIn-last_or u j is m.0 m.1

pub NotIn-append : (u : ℕ) (is js : List ℕ) → NotIn u (is ++ js) → NotIn u is × NotIn u js
NotIn-append u [] js n = (tt, n)
NotIn-append u (i ∷ is) js n = let (l, r) = NotIn-append u is js n.1 in ((n.0, l), r)

pub append-NotIn : (u : ℕ) (is js : List ℕ) → NotIn u is → NotIn u js → NotIn u (is ++ js)
append-NotIn u [] js n m = m
append-NotIn u (i ∷ is) js n m = (n.0, append-NotIn u is js n.1 m)

-- One more number between two parts.
pub insert-Distinct :
    (u : ℕ) (is js : List ℕ) → Distinct (is ++ js) → NotIn u (is ++ js) → Distinct (is ++ u ∷ js)
insert-Distinct u [] js d n = (n, d)
insert-Distinct u (i ∷ is) js d n =
    let (l, r) = NotIn-append i is js d.0 in
    (append-NotIn i is (u ∷ js) l ((λ e. n.0 (sym e)), r), insert-Distinct u is js d.1 n.1)

pub at-set_ne :
    {A : Type 0} (items : List A) (i j : ℕ) (a : A) → i ≢ j → at (set items i a) j ≡ at items j
at-set_ne items i j a n = elim (Bool-cases (Index.is_valid j)) [
  | inl e ↦ rw (e, get_elem?-set_ne items a n)
  | inr e ↦ rw e refl
]

module _ {A : Type 0} (link : A → ℕ) where
  -- The numbers of the items that the links lead to from `iter` on, in order.
  abbrev pub Linked : List A → ℕ → List ℕ → Type 0
  Linked items iter [] = Index.is_valid iter ≡ false
  Linked items iter (i ∷ is) =
      (iter ≡ i) × (a : A) × (at items i ≡ some a) × Linked items (link a) is

  -- A list does not depend on an item that it does not hold.
  pub Linked-set :
      (items : List A) (iter u : ℕ) (a : A) (is : List ℕ)
      → NotIn u is
      → Linked items iter is
      → Linked (set items u a) iter is
  Linked-set items iter u a [] n l = l
  Linked-set items iter u a (i ∷ is) n (e, b, h, l) =
      (e, b, at-set_ne items u i a n.0 ∙ h, Linked-set items (link b) u a is n.1 l)

  -- The link of the last item of a part leads to what comes after the part.
  pub Linked-relink :
      (items : List A) (iter b : ℕ) (bs rest rest' : List ℕ) (a : A)
      → Distinct (b ∷ bs)
      → Linked items iter (b ∷ bs ++ rest)
      → Linked (set items (last_or b bs) a) (link a) rest'
      → Linked (set items (last_or b bs) a) iter (b ∷ bs ++ rest')
  Linked-relink items iter b [] rest rest' a d (e, c, h, l) m = (e, a, at-set_self items b c a h, m)
  Linked-relink items iter b (i ∷ bs) rest rest' a d (e, c, h, l) m =
      let other : last_or i bs ≢ b = λ q. NotIn-last_or b i bs ((d.0).0) ((d.0).1) (sym q) in
      (
        e,
        c,
        at-set_ne items (last_or i bs) b a other ∙ h,
        Linked-relink items (link c) i bs rest rest' a d.1 l m,
      )

-- All of a list have a key that is not less than a bound, and not more than it.
abbrev pub AllFrom : (ℕ → ℕ) → ℕ → List ℕ → Type 0
AllFrom key k [] = Unit {0}
AllFrom key k (i ∷ is) = (k ≤ key i) × AllFrom key k is

abbrev pub AllUpTo : (ℕ → ℕ) → ℕ → List ℕ → Type 0
AllUpTo key k [] = Unit {0}
AllUpTo key k (i ∷ is) = (key i ≤ k) × AllUpTo key k is

-- The first of a list, if there is one, has a key that is not less than a bound.
abbrev pub HeadFrom : (ℕ → ℕ) → ℕ → List ℕ → Type 0
HeadFrom key k [] = Unit {0}
HeadFrom key k (i ∷ is) = k ≤ key i

abbrev pub Sorted : (ℕ → ℕ) → List ℕ → Type 0
Sorted key [] = Unit {0}
Sorted key (i ∷ is) = AllFrom key (key i) is × Sorted key is

module _ (key : ℕ → ℕ) where
  pub AllFrom-mono : (k m : ℕ) (is : List ℕ) → m ≤ k → AllFrom key k is → AllFrom key m is
  AllFrom-mono k m [] h a = tt
  AllFrom-mono k m (i ∷ is) h a = (omega (arith, a.0), AllFrom-mono k m is h a.1)

  AllFrom-insert :
      (k u : ℕ) (is js : List ℕ)
      → k ≤ key u
      → AllFrom key k (is ++ js)
      → AllFrom key k (is ++ u ∷ js)
  AllFrom-insert k u [] js h a = (h, a)
  AllFrom-insert k u (i ∷ is) js h a = (a.0, AllFrom-insert k u is js h a.1)

  -- One more between those that are not after it and those that are not before it.
  pub insert-Sorted :
      (u : ℕ) (is js : List ℕ)
      → Sorted key (is ++ js)
      → AllUpTo key (key u) is
      → AllFrom key (key u) js
      → Sorted key (is ++ u ∷ js)
  insert-Sorted u [] js s a b = (b, s)
  insert-Sorted u (i ∷ is) js s a b =
      (AllFrom-insert (key i) u is js a.0 s.0, insert-Sorted u is js s.1 a.1 b)

  pub HeadFrom-Sorted : (k : ℕ) (is : List ℕ) → HeadFrom key k is → Sorted key is → AllFrom key k is
  HeadFrom-Sorted k [] h s = tt
  HeadFrom-Sorted k (i ∷ is) h s = (h, AllFrom-mono (key i) k is h s.0)

  pub append-Sorted : (is js : List ℕ) → Sorted key (is ++ js) → Sorted key js
  append-Sorted [] js s = s
  append-Sorted (i ∷ is) js s = append-Sorted is js s.1

  -- The last one of a sorted list bounds it.
  pub Sorted-last_or :
      (i : ℕ) (is : List ℕ) → Sorted key (i ∷ is) → AllUpTo key (key (last_or i is)) (i ∷ is)
  Sorted-last_or i [] s = (omega arith, tt)
  Sorted-last_or i (j ∷ is) s =
      let up = Sorted-last_or j is s.1 in (omega (arith, (s.0).0, up.0), up)

  pub AllUpTo-mono : (k m : ℕ) (is : List ℕ) → k ≤ m → AllUpTo key k is → AllUpTo key m is
  AllUpTo-mono k m [] h a = tt
  AllUpTo-mono k m (i ∷ is) h a = (omega (arith, a.0), AllUpTo-mono k m is h a.1)

module _ (key key' : ℕ → ℕ) (same : (i : ℕ) → key' i ≡ key i) where
  AllFrom-congr : (k : ℕ) (is : List ℕ) → AllFrom key k is → AllFrom key' k is
  AllFrom-congr k [] a = tt
  AllFrom-congr k (i ∷ is) a = (omega (arith, a.0, same i), AllFrom-congr k is a.1)

  pub Sorted-congr : (is : List ℕ) → Sorted key is → Sorted key' is
  Sorted-congr [] s = tt
  Sorted-congr (i ∷ is) s = (rw (same i) (AllFrom-congr (key i) is s.0), Sorted-congr is s.1)

pub last_or-append :
    (p : ℕ) (is : List ℕ) (i : ℕ) (js : List ℕ) → last_or p (is ++ i ∷ js) ≡ last_or i js
last_or-append p [] i js = refl
last_or-append p (k ∷ is) i js = last_or-append k is i js

pub Distinct-NotIn : (i : ℕ) (is js : List ℕ) → Distinct (i ∷ is ++ js) → NotIn (last_or i is) js
Distinct-NotIn i [] js d = d.0
Distinct-NotIn i (j ∷ is) js d = Distinct-NotIn j is js d.1

pub append-nil : (is : List ℕ) → is ++ [] ≡ is
append-nil [] = refl
append-nil (i ∷ is) = ap (λ r. i ∷ r) (append-nil is)

pub Distinct-append : (is js : List ℕ) → Distinct (is ++ js) → Distinct is
Distinct-append [] js d = tt
Distinct-append (i ∷ is) js d = ((NotIn-append i is js d.0).0, Distinct-append is js d.1)

module _ (key key' : ℕ → ℕ) (same : (i : ℕ) → key' i ≡ key i) where
  pub AllUpTo-congr : (k : ℕ) (is : List ℕ) → AllUpTo key k is → AllUpTo key' k is
  AllUpTo-congr k [] a = tt
  AllUpTo-congr k (i ∷ is) a = (omega (arith, a.0, same i), AllUpTo-congr k is a.1)

  pub HeadFrom-congr : (k : ℕ) (is : List ℕ) → HeadFrom key k is → HeadFrom key' k is
  HeadFrom-congr k [] h = tt
  HeadFrom-congr k (i ∷ is) h = omega (arith, h, same i)

pub Linked-last_or :
    {A : Type 0} (link : A → ℕ) (items : List A) (iter b : ℕ) (bs past : List ℕ)
    → Linked link items iter (b ∷ bs ++ past)
    → (a : A) × (at items (last_or b bs) ≡ some a)
Linked-last_or link items iter b [] past (e, a, h, l) = (a, h)
Linked-last_or link items iter b (i ∷ bs) past (e, a, h, l) =
    Linked-last_or link items (link a) i bs past l

some_injective : {A : Type 0} {x y : A} → some x ≡ some y → x ≡ y
some_injective h = cc

-- An item that keeps its link.
pub Linked-keep :
    {A : Type 0} (link : A → ℕ) (items : List A) (iter u : ℕ) (old a : A) (is : List ℕ)
    → at items u ≡ some old
    → link a ≡ link old
    → Linked link items iter is
    → Linked link (set items u a) iter is
Linked-keep link items iter u old a [] h e l = l
Linked-keep link items iter u old a (i ∷ is) h e (q, b, g, l) = elim (Bool-cases (u == i)) [
  | inr n ↦ (
    q,
    b,
    at-set_ne items u i a (ground arith) ∙ g,
    Linked-keep link items (link b) u old a is h e l,
  )
  | inl s ↦
      let same : u ≡ i = ground arith in
      let both : some old ≡ some b = sym h ∙ ap (at items) same ∙ g in
      let there : at (set items u a) i ≡ some a =
        ap (at (set items u a)) (sym same) ∙ at-set_self items u old a h in
      (
        q,
        a,
        there,
        subst (λ k. Linked link (set items u a) k is) (ap link (sym (some_injective both)) ∙ sym e)
            (Linked-keep link items (link b) u old a is h e l),
      )
]
