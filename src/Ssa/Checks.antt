-- ===== src/Ssa/Checks.antt =====
-- What one check of `validate_ssa` defines (src/ssa.rs).
use regalloc2_orig.Prelude.{
  ℕ, ◌≡◌, refl, Bool, true, false, not, if◌then◌else◌, List, [], ◌∷◌, ◌++◌, Option, none, some,
  ◌>>=◌, get_elem?, set, next, return,
}
use regalloc2_orig.Index
use regalloc2_orig.Index.{Inst, Block}
use regalloc2_orig.Reg.VReg
use regalloc2_orig.Reg.VReg.{VReg}
use regalloc2_orig.Operand
use regalloc2_orig.Operand.{Operand}
use regalloc2_orig.Function.{ssa}
use regalloc2_orig.Cfg
use regalloc2_orig.Cfg.{CfgInfo}
use regalloc2_orig.Ssa.{Result, ◌>>?◌, def_block, define, define_params, check_use, check_operand}
use regalloc2_orig.Ssa.Defs.{operand_defs, params_defs, Steps, done, step, Steps-append}

pub bind_inv {ℓ κ} :
    {A : Type ℓ} {B : Type κ} (m : Option A) (f : A → Option B) (b : B)
    → (m >>= f) ≡ some b
    → (a : A) × (m ≡ some a) × (f a ≡ some b)
bind_inv none f b h = absurd cc
bind_inv (some a) f b h = (a, refl, h)

pub next_inv {ℓ κ} :
    {S : Type ℓ} {T : Type κ} (r : Result S) (f : S → Result T) (t : T)
    → (r >>? f) ≡ some (next t)
    → (s : S) × (r ≡ some (next s)) × (f s ≡ some (next t))
next_inv none f t h = absurd cc
next_inv (some (return e)) f t h = absurd cc
next_inv (some (next s)) f t h = (s, refl, h)

define-Steps :
    (v : VReg) (inst : Inst) (d d' : List Bool)
    → define v inst d ≡ some (next d')
    → Steps d (VReg.vreg v ∷ []) d'
unfolding define
define-Steps v inst d d' h =
    let rest : Bool → Result (List Bool) =
      λ seen. some (if seen then return (ssa v inst) else next (set d (VReg.vreg v) true)) in
    let (seen, g, e) = bind_inv (get_elem? d (VReg.vreg v)) rest (next d') h in by_seen seen g e
  where
    cast : (d1 : List Bool) → d1 ≡ d' → Steps d1 [] d'
    cast d1 e = rw e done

    by_seen :
        (seen : Bool)
        → get_elem? d (VReg.vreg v) ≡ some seen
        → Path
            (Result (List Bool))
            (some (if seen then return (ssa v inst) else next (set d (VReg.vreg v) true)))
            (some (next d'))
        → Steps d (VReg.vreg v ∷ []) d'
    by_seen true g e = absurd cc
    by_seen false g e = step g (cast (set d (VReg.vreg v) true) cc)

pub params-Steps :
    (ps : List VReg) (d d' : List Bool)
    → define_params ps d ≡ some (next d')
    → Steps d (params_defs ps) d'
unfolding define_params
params-Steps [] d d' h = cast d cc
  where
    cast : (d1 : List Bool) → d1 ≡ d' → Steps d1 [] d'
    cast d1 e = rw e done
params-Steps (p ∷ ps) d d' h =
    let (d1, here, rest) = next_inv (define p Index.invalid d) (λ d. define_params ps d) d' h in
    Steps-append d d1 d' (VReg.vreg p ∷ []) (params_defs ps)
      (define-Steps p Index.invalid d d1 here) (params-Steps ps d1 d' rest)

-- What a check defines: the vregs of `defs`, each for the first time.
abbrev pub Defines : Option (List ℕ) → List Bool → List Bool → Type 0
Defines defs d d' = (ds : List ℕ) × (defs ≡ some ds) × Steps d ds d'

-- One check after another.
pub Defines-append :
    (ds es : Option (List ℕ)) (d d' d'' : List Bool)
    → Defines ds d d'
    → Defines es d' d''
    → Defines (do xs ← ds; ys ← es; some (xs ++ ys)) d d''
Defines-append ds es d d' d'' (xs, e, s) (ys, e', t) =
    (xs ++ ys, rw (e, e') refl, Steps-append d d' d'' xs ys s t)

check_use-same :
    (fuel : ℕ) (info : CfgInfo) (block : Block) (inst : Inst) (v : VReg) (d d' : List Bool)
    → check_use fuel info block inst v d ≡ some (next d')
    → d ≡ d'
unfolding check_use
check_use-same fuel info block inst v d d' h =
    let (from, e, rest) =
      bind_inv (def_block info v)
        (λ from. if Index.is_invalid from then some (return (ssa v inst)) else (do
          dominates ← Cfg.dominates fuel info from block
          some (if not dominates then return (ssa v inst) else next d)))
        (next d') h in
    by_test (Index.is_invalid from) (Cfg.dominates fuel info from block) rest
  where
    by_test :
        (invalid : Bool) (dominates : Option Bool)
        → Path
            (Result (List Bool))
            (if invalid then some (return (ssa v inst)) else (do
              dominates ← dominates
              some (if not dominates then return (ssa v inst) else next d)))
            (some (next d'))
        → d ≡ d'
    by_test true dominates h = absurd cc
    by_test false none h = absurd cc
    by_test false (some true) h = cc
    by_test false (some false) h = absurd cc

pub operand-Defines :
    (fuel : ℕ) (info : CfgInfo) (block : Block) (inst : Inst) (o : Operand) (d d' : List Bool)
    → check_operand fuel info block inst o d ≡ some (next d')
    → Defines (operand_defs o) d d'
unfolding check_operand
operand-Defines fuel info block inst o d d' h = by_parts (Operand.kind o) (Operand.vreg o) h
  where
    cast : (d1 : List Bool) → d1 ≡ d' → Steps d1 [] d'
    cast d1 e = rw e done

    by_parts :
        (k : Option Operand.OperandKind) (v : Option VReg)
        → (do
          kind ← k
          vreg ← v
          elim kind as (λ x. Result (List Bool)) [
            | Operand.use_ ↦ check_use fuel info block inst vreg d
            | Operand.def ↦ define vreg inst d
          ])
          ≡ some (next d')
        → Defines
            (do
              kind ← k
              vreg ← v
              some (elim kind as (λ x. List ℕ) [
                | Operand.use_ ↦ []
                | Operand.def ↦ VReg.vreg vreg ∷ []
              ]))
            d
            d'
    by_parts none v h = absurd cc
    by_parts (some k) none h = absurd cc
    by_parts (some Operand.use_) (some v) h =
        ([], refl, cast d (check_use-same fuel info block inst v d d' h))
    by_parts (some Operand.def) (some v) h = (VReg.vreg v ∷ [], refl, define-Steps v inst d d' h)

pub same-Steps :
    (d d' : List Bool) → Path (Result (List Bool)) (some (next d)) (some (next d')) → Steps d [] d'
same-Steps d d' h = cast d cc
  where
    cast : (d1 : List Bool) → d1 ≡ d' → Steps d1 [] d'
    cast d1 e = rw e done
