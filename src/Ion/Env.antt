-- ===== src/Ion/Env.antt =====
-- The allocator's environment (src/ion/mod.rs, `Env` and the structs it holds), as far as the
-- modelled operations go, and the loops over its linked lists.
use regalloc2_orig.Prelude.{
  Flow, next, return, ℕ, zero, suc, ◌<◌, ◌≡◌, true, false, List, [], ◌∷◌, Option, none, some, ◌>>=◌,
  Bool, ◌>>◌, assert, Bool-cases, inl, inr, get_elem?, set, get_elem?-set_self,
  lt-length_of_get_elem?, length, arith, refl,
}
use regalloc2_orig.Index
use regalloc2_orig.Index.{Block, Inst}
use regalloc2_orig.ProgPoint.{ProgPoint}
use regalloc2_orig.Reg.{RegClass}
use regalloc2_orig.Reg.PReg.{PReg}
use regalloc2_orig.Reg.VReg.{VReg}
use regalloc2_orig.Operand.{Operand}
use regalloc2_orig.Alloc.{Allocation}
use regalloc2_orig.Ion.Range.{CodeRange}
use regalloc2_orig.Ion.Btree.{LiveRangeSet}
use regalloc2_orig.Ion.Edits.{InsertedMove}
use regalloc2_orig.BitVec.{BitVec}

pub record LiveRange : Type 0 where
  pub range : CodeRange
  pub vreg : ℕ
  pub bundle : ℕ
  pub uses_spill_weight : ℕ
  pub num_fixed_uses_and_flags : ℕ
  pub first_use : ℕ
  pub last_use : ℕ
  pub def : ℕ
  pub next_in_bundle : ℕ
  pub next_in_reg : ℕ

pub record Use : Type 0 where
  pub operand : Operand
  pub pos : ProgPoint
  pub slot : ℕ
  pub next_use : ℕ

pub record Def : Type 0 where
  pub operand : Operand
  pub pos : ProgPoint
  pub slot : ℕ

pub record LiveBundle : Type 0 where
  pub first_range : ℕ
  pub last_range : ℕ
  pub spillset : ℕ
  pub allocation : Allocation
  pub prio : ℕ
  pub spill_weight_and_props : ℕ

pub record SpillSet : Type 0 where
  pub bundles : List ℕ
  pub size : ℕ
  pub class : RegClass
  pub slot : ℕ
  pub reg_hint : Option PReg

pub record VRegData : Type 0 where
  pub reg : VReg
  pub def : ℕ
  pub blockparam : Block
  pub first_range : ℕ

pub record PRegData : Type 0 where
  pub reg : PReg
  pub allocations : LiveRangeSet

pub record SpillSlotData : Type 0 where
  pub ranges : LiveRangeSet
  pub class : RegClass
  pub size : ℕ
  pub alloc : Allocation
  pub next_spillslot : ℕ

pub record SpillSlotList : Type 0 where
  pub first_spillslot : ℕ
  pub last_spillslot : ℕ

-- `allocation_queue` is the list of what the heap holds: a priority with a bundle.
pub record Env : Type 0 where
  pub ranges : List LiveRange
  pub bundles : List LiveBundle
  pub spillsets : List SpillSet
  pub uses : List Use
  pub defs : List Def
  pub vregs : List VRegData
  pub pregs : List PRegData
  pub allocation_queue : List (ℕ × ℕ)
  pub spillslots : List SpillSlotData
  pub slots_by_size : List SpillSlotList
  pub num_spillslots : ℕ
  pub allocs : List Allocation
  pub inst_alloc_offsets : List ℕ
  pub blockparam_outs : List (ℕ × Block × Block × ℕ)
  pub blockparam_ins : List (ℕ × Block × Block)
  pub spilled_bundles : List ℕ
  pub hot_code : LiveRangeSet
  pub clobbers : List Inst
  pub liveins : List BitVec
  pub multi_fixed_reg_fixups : List (ProgPoint × ℕ × ℕ)
  pub inserted_moves : List InsertedMove

-- `items[i.index()]`
abbrev pub at {ℓ} : {A : Type ℓ} → List A → ℕ → Option A
at items i = do i ← Index.index i; get_elem? items i

-- A write to a field of `items[i.index()]`.
abbrev pub update_at {ℓ} : {A : Type ℓ} → List A → ℕ → (A → A) → Option (List A)
update_at items i f = do i ← Index.index i; a ← get_elem? items i; some (set items i (f a))

abbrev pub set_range : Env → ℕ → (LiveRange → LiveRange) → Option Env
set_range env i f = do ranges ← update_at env.ranges i f; some (record env { ranges = ranges })

abbrev pub set_bundle : Env → ℕ → (LiveBundle → LiveBundle) → Option Env
set_bundle env i f = do bundles ← update_at env.bundles i f; some (record env { bundles = bundles })

abbrev pub set_use : Env → ℕ → (Use → Use) → Option Env
set_use env i f = do uses ← update_at env.uses i f; some (record env { uses = uses })

abbrev pub set_vreg : Env → ℕ → (VRegData → VRegData) → Option Env
set_vreg env i f = do vregs ← update_at env.vregs i f; some (record env { vregs = vregs })

-- `while iter.is_valid() { ...; iter = link; }` over a list that is linked in an array.
module _ {ℓ κ ι} {A : Type ι} {S : Type ℓ} {R : Type κ} (items : List A) (link : A → ℕ)
    (body : ℕ → A → S → Option (Flow S R)) where
  unfoldable pub walk : ℕ → ℕ → S → Option (Flow S R)
  walk zero iter s = none
  walk (suc fuel) iter s = elim (Index.is_valid iter) [
    | false ↦ some (next s)
    | true ↦ (do
      a ← get_elem? items iter
      flow ← body iter a s
      elim flow [ return r ↦ some (return r) | next s' ↦ walk fuel (link a) s' ])
  ]

  -- The same over the items themselves.
  unfoldable pub over : List (ℕ × A) → S → Option (Flow S R)
  over [] s = some (next s)
  over ((i, a) ∷ as_) s = do
    flow ← body i a s
    elim flow [ return r ↦ some (return r) | next s' ↦ over as_ s' ]

-- The items that a link leads to, with their numbers.
pub data Chain {ι} {A : Type ι} (items : List A) (link : A → ℕ) : ℕ → List (ℕ × A) → Type ι where
  end : {iter : ℕ} → Index.is_valid iter ≡ false → Chain items link iter []
  item :
      {iter : ℕ} {a : A} {as_ : List (ℕ × A)}
      → Index.is_valid iter ≡ true
      → get_elem? items iter ≡ some a
      → Chain items link (link a) as_
      → Chain items link iter ((iter, a) ∷ as_)

module _ {ℓ κ ι} {A : Type ι} {S : Type ℓ} {R : Type κ} (items : List A) (link : A → ℕ)
    (body : ℕ → A → S → Option (Flow S R)) where
  -- Over a list that ends, with fuel for each of its items, the loop is the one over the items.
  pub walk-eq-over :
      (fuel iter : ℕ) (as_ : List (ℕ × A)) (s : S)
      → Chain items link iter as_
      → length as_ < fuel
      → walk items link body fuel iter s ≡ over items link body as_ s
  unfolding walk over
  walk-eq-over zero iter as_ s c h = absurd (omega arith)
  walk-eq-over (suc fuel) iter [] s (end e) h = rw (walk, e)
  walk-eq-over (suc fuel) iter ((i, a) ∷ as_) s (item v g c) h =
      rw (walk, v, g) (after (body i a s) (λ s'. walk-eq-over fuel (link a) as_ s' c (omega arith)))
    where
      after :
          (r : Option (Flow S R))
          → ((s' : S) → walk items link body fuel (link a) s' ≡ over items link body as_ s')
          → (do
            flow ← r
            elim flow [
              | return r ↦ some (return r)
              | next s' ↦ walk items link body fuel (link a) s'
            ])
            ≡ (do
              flow ← r
              elim flow [ return r ↦ some (return r) | next s' ↦ over items link body as_ s' ])
      after none rest = refl
      after (some (return r)) rest = refl
      after (some (next s')) rest = rest s'

pub at-some {ℓ} :
    {A : Type ℓ} (items : List A) (i : ℕ) (a : A)
    → at items i ≡ some a
    → (Index.is_valid i ≡ true) × (get_elem? items i ≡ some a)
at-some items i a h = elim (Bool-cases (Index.is_valid i)) [
  | inl e ↦ (e, in_bounds (Index.is_valid i) e h)
  | inr e ↦ absurd (refused (Index.is_valid i) e h)
]
  where
    in_bounds :
        (b : Bool)
        → b ≡ true
        → (do i ← (do assert b; some i); get_elem? items i) ≡ some a
        → get_elem? items i ≡ some a
    in_bounds true e h = h
    in_bounds false e h = cc

    refused :
        (b : Bool) → b ≡ false → (do i ← (do assert b; some i); get_elem? items i) ≡ some a → ⊥
    refused true e h = cc
    refused false e h = cc

pub at-set_self {ℓ} :
    {A : Type ℓ} (items : List A) (i : ℕ) (a b : A)
    → at items i ≡ some a
    → at (set items i b) i ≡ some b
at-set_self items i a b h =
    let (v, g) = at-some items i a h in
    rw v (get_elem?-set_self items i b (lt-length_of_get_elem? items i a g))
