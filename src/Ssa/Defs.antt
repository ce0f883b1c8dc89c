-- ===== src/Ssa/Defs.antt =====
-- The definitions of a function, and the flags that they set (src/ssa.rs).
use regalloc2_orig.Prelude.{
  ℕ, zero, suc, ◌≡◌, ◌≢◌, sym, ap, ◌∙◌, Bool, true, false, List, [], ◌∷◌, ◌++◌, Option, some, ◌>>=◌,
  get_elem?, set, get_elem?-set_self, get_elem?-set_ne, lt-length_of_get_elem?,
}
use regalloc2_orig.Index
use regalloc2_orig.Index.{Inst, Block}
use regalloc2_orig.Reg.VReg
use regalloc2_orig.Reg.VReg.{VReg}
use regalloc2_orig.Operand
use regalloc2_orig.Operand.{Operand}
use regalloc2_orig.Moves.Stable.{All, NoDuplicates}
use regalloc2_orig.Function.{Function, items}

-- The vregs that a function defines, in the order of the blocks and of what is in them.
abbrev pub operand_defs : Operand → Option (List ℕ)
operand_defs o = do
  kind ← Operand.kind o
  vreg ← Operand.vreg o
  some (elim kind [ Operand.use_ ↦ [] | Operand.def ↦ VReg.vreg vreg ∷ [] ])

abbrev pub operands_defs : List Operand → Option (List ℕ)
operands_defs [] = some []
operands_defs (o ∷ os) = do ds ← operand_defs o; es ← operands_defs os; some (ds ++ es)

abbrev pub insts_defs : Function → List Inst → Option (List ℕ)
insts_defs f [] = some []
insts_defs f (i ∷ is) = do
  ds ← operands_defs (f.inst_operands i)
  es ← insts_defs f is
  some (ds ++ es)

abbrev pub params_defs : List VReg → List ℕ
params_defs [] = []
params_defs (p ∷ ps) = VReg.vreg p ∷ params_defs ps

abbrev pub block_defs : Function → Block → Option (List ℕ)
block_defs f block = do
  insts ← items (f.block_insns block)
  ds ← insts_defs f insts
  some (params_defs (f.block_params block) ++ ds)

abbrev pub blocks_defs : Function → ℕ → ℕ → Option (List ℕ)
blocks_defs f zero i = some []
blocks_defs f (suc count) i = do
  ds ← block_defs f (Index.new i)
  es ← blocks_defs f count (suc i)
  some (ds ++ es)

-- Each vreg was not defined, and is then.
pub data Steps : List Bool → List ℕ → List Bool → Type 0 where
  done : {d : List Bool} → Steps d [] d
  step :
      {d d' : List Bool} {v : ℕ} {vs : List ℕ}
      → get_elem? d v ≡ some false
      → Steps (set d v true) vs d'
      → Steps d (v ∷ vs) d'

pub Steps-append :
    (d d' d'' : List Bool) (vs ws : List ℕ)
    → Steps d vs d'
    → Steps d' ws d''
    → Steps d (vs ++ ws) d''
Steps-append d d' d'' [] ws done t = t
Steps-append d d' d'' (v ∷ vs) ws (step e s) t =
    step e (Steps-append (set d v true) d' d'' vs ws s t)

-- What is defined is not defined again.
Steps-avoids :
    (d d' : List Bool) (vs : List ℕ) (w : ℕ)
    → Steps d vs d'
    → get_elem? d w ≡ some true
    → All (λ v. w ≢ v) vs
Steps-avoids d d' [] w s e = tt
Steps-avoids d d' (v ∷ vs) w (step g s) e =
    let ne : w ≢ v = λ same. true_not_false (sym e ∙ ap (get_elem? d) same ∙ g) in
    (
      ne,
      Steps-avoids (set d v true) d' vs w s (get_elem?-set_ne d true (λ same. ne (sym same)) ∙ e),
    )
  where
    true_not_false : Path (Option Bool) (some true) (some false) → ⊥
    true_not_false h = cc

pub Steps-NoDuplicates : (d d' : List Bool) (vs : List ℕ) → Steps d vs d' → NoDuplicates vs
Steps-NoDuplicates d d' [] s = tt
Steps-NoDuplicates d d' (v ∷ vs) (step g s) = (
  Steps-avoids (set d v true) d' vs v s
      (get_elem?-set_self d v true (lt-length_of_get_elem? d v false g)),
  Steps-NoDuplicates (set d v true) d' vs s,
)
