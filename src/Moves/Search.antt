-- ===== src/Moves/Search.antt =====
-- `search` finds the writer of an allocation (src/moves.rs, `binary_search_by_key` in `resolve`).
use regalloc2_orig.Prelude.{
  ℕ, zero, ◌≡◌, ◌≢◌, ◌<◌, refl, Option, none, some, if◌then◌else◌, List, [], ◌∷◌, arith, length,
  suc, get_elem?, ◌>>=◌, get_elem?-map, length-map, get_elem?-some, lt-length_of_get_elem?,
}
use regalloc2_orig.Alloc
use regalloc2_orig.Alloc.{Allocation}
use regalloc2_orig.Moves.{Move, search, must_come_before}
use regalloc2_orig.Moves.Semantics.{lookup, Distinct, eq_refl}

-- The position of the move that writes to `a`.
pub writer : List Move → Allocation → Option ℕ
writer ms a = search (λ m. m.1) a ms

writer-cons :
    (m : Move) (ms : List Move) (a : Allocation)
    → writer (m ∷ ms) a ≡ (if Alloc.eq m.1 a then some 0 else (writer ms a >>= λ i. some (suc i)))
unfolding writer search
writer-cons m ms a = refl

pub writer-some :
    (ms : List Move) (a : Allocation) (i : ℕ)
    → writer ms a ≡ some i
    → (m : Move) × (get_elem? ms i ≡ some m) × (m.1 ≡ a)
unfolding writer search
writer-some [] a i h = cc
writer-some (m ∷ ms) a zero h = (m, refl, ground arith)
writer-some (m ∷ ms) a (suc i) h = writer-some ms a i (ground arith)

pub lookup-eq-writer :
    (ms : List Move) (a : Allocation)
    → lookup ms a ≡ (writer ms a >>= λ i. get_elem? ms i >>= λ m. some m.0)
unfolding writer search
lookup-eq-writer [] a = refl
lookup-eq-writer (m ∷ ms) a = ground (arith, lookup-eq-writer ms a)

pub lookup_dst :
    (ms : List Move) (i : ℕ) (m : Move) → get_elem? ms i ≡ some m → lookup ms m.1 ≢ none
lookup_dst [] i m h = cc
lookup_dst (k ∷ ms) zero m h = ground arith
lookup_dst (k ∷ ms) (suc i) m h = ground (arith, lookup_dst ms i m h)

-- Each move is the only writer of its destination.
pub writer_dst :
    (ms : List Move) (i : ℕ) (m : Move)
    → Distinct ms
    → get_elem? ms i ≡ some m
    → writer ms m.1 ≡ some i
unfolding writer search
writer_dst [] i m d h = cc
writer_dst (k ∷ ms) zero m d h = ground (arith, eq_refl m.1)
writer_dst (k ∷ ms) (suc i) m d h = ground (arith, writer_dst ms i m d.1, lookup_dst ms i m h)

pub get_elem?-must_come_before :
    (ms : List Move) (i : ℕ) (m : Move)
    → get_elem? ms i ≡ some m
    → get_elem? (must_come_before ms) i ≡ some (writer ms m.0)
unfolding must_come_before writer
get_elem?-must_come_before ms i m h =
    get_elem?-map (λ (m : Move). search (λ (k : Move). k.1) m.0 ms) ms i m h

pub length-must_come_before : (ms : List Move) → length (must_come_before ms) ≡ length ms
unfolding must_come_before
length-must_come_before ms = length-map ms (λ m. search (λ k. k.1) m.0 ms)

-- The move that must come later writes to the earlier one's source.
pub dst-eq-src :
    (ms : List Move) (i j : ℕ) (m k : Move)
    → get_elem? ms i ≡ some m
    → get_elem? ms j ≡ some k
    → get_elem? (must_come_before ms) i ≡ some (some j)
    → k.1 ≡ m.0
dst-eq-src ms i j m k hi hj e =
    let found : writer ms m.0 ≡ some j = ground (arith, get_elem?-must_come_before ms i m hi, e) in
    let (w, at, d) = writer-some ms m.0 j found in ground (arith, at, hj, d)

pub must_come_before-lt :
    (ms : List Move) (i j : ℕ)
    → i < length ms
    → get_elem? (must_come_before ms) i ≡ some (some j)
    → j < length ms
must_come_before-lt ms i j h e =
    let (m, at) = get_elem?-some ms i h in
    let found : writer ms m.0 ≡ some j = ground (arith, get_elem?-must_come_before ms i m at, e) in
    let (k, there, d) = writer-some ms m.0 j found in lt-length_of_get_elem? ms j k there
