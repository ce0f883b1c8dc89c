-- ===== src/Checker/State.antt =====
-- The checker's state and its transfer functions (src/checker.rs, `CheckerState`, `CheckerInst`).
-- The hash map is an association list with at most one entry for a key; a key's place in it means
-- nothing.
use regalloc2_orig.Prelude.{
  Bool, true, false, ◌&&◌, ◌==◌, if◌then◌else◌, List, [], ◌∷◌, Option, none, some, ◌>>=◌, length,
}
use regalloc2_orig.Index.{Inst, Block}
use regalloc2_orig.Reg.VReg.{VReg}
use regalloc2_orig.Alloc
use regalloc2_orig.Alloc.{Allocation}
use regalloc2_orig.Operand
use regalloc2_orig.Operand.{Operand, OperandKind, def, use_}
use regalloc2_orig.Checker.Value
use regalloc2_orig.Checker.Value.{CheckerValue, unknown, reg, meet}

pub record CheckerState : Type 0 where
  pub allocations : List (Allocation × CheckerValue)

-- `HashMap::get`
unfoldable pub get : Allocation → List (Allocation × CheckerValue) → Option CheckerValue
get a [] = none
get a ((k, v) ∷ kvs) = if Alloc.eq k a then some v else get a kvs

-- `HashMap::insert`
unfoldable pub insert :
    Allocation → CheckerValue → List (Allocation × CheckerValue) → List (Allocation × CheckerValue)
insert a v [] = (a, v) ∷ []
insert a v ((k, w) ∷ kvs) = if Alloc.eq k a then (a, v) ∷ kvs else (k, w) ∷ insert a v kvs

-- `get(alloc).cloned().unwrap_or(Default::default())`
unfoldable pub value : CheckerState → Allocation → CheckerValue
unfolding get
value st a = elim (get a st.allocations) [ none ↦ unknown | some v ↦ v ]

-- `CheckerState::default()`
abbrev pub empty : CheckerState
empty = record { allocations = [] }

-- `merge_map`: `into.entry(*k).or_insert(Default::default())` and then the meet.
unfoldable pub merge_map :
    List (Allocation × CheckerValue)
    → List (Allocation × CheckerValue)
    → List (Allocation × CheckerValue)
unfolding get insert meet
merge_map into [] = into
merge_map into ((k, v) ∷ from) =
    let into_v : CheckerValue = elim (get k into) [ none ↦ unknown | some w ↦ w ] in
    merge_map (insert k (meet into_v v) into) from

unfoldable pub meet_with : CheckerState → CheckerState → CheckerState
unfolding merge_map
meet_with st other = record { allocations = merge_map st.allocations other.allocations }

-- `==` of hash maps: as many entries, and each entry of the one is in the other.
abbrev holds_all : List (Allocation × CheckerValue) → List (Allocation × CheckerValue) → Bool
holds_all [] m = true
holds_all ((k, v) ∷ kvs) m =
    (elim (get k m) [ none ↦ false | some w ↦ Value.eq v w ]) && holds_all kvs m

unfoldable pub eq : CheckerState → CheckerState → Bool
unfolding get
eq s t = length s.allocations == length t.allocations && holds_all s.allocations t.allocations

pub data CheckerInst : Type 0 where
  move : (into from : Allocation) → CheckerInst
  op : (inst : Inst) (operands : List Operand) (allocs : List Allocation) → CheckerInst
  block_params : (block : Block) (vregs : List VReg) (allocs : List Allocation) → CheckerInst

-- The loop over `operands.iter().zip(allocs.iter())`; `none` is a panic of an accessor.
unfoldable pub update_defs : List Operand → List Allocation → CheckerState → Option CheckerState
unfolding insert
update_defs [] allocs st = some st
update_defs (o ∷ os) [] st = some st
update_defs (o ∷ os) (a ∷ as_) st = do
  kind ← Operand.kind o
  elim kind [
    | use_ ↦ update_defs os as_ st
    | def ↦ (do
      vreg ← Operand.vreg o
      update_defs os as_ (record { allocations = insert a (reg vreg false) st.allocations }))
  ]

unfoldable pub update_params : List VReg → List Allocation → CheckerState → CheckerState
unfolding insert
update_params [] allocs st = st
update_params (v ∷ vs) [] st = st
update_params (v ∷ vs) (a ∷ as_) st =
    update_params vs as_ (record { allocations = insert a (reg v false) st.allocations })

unfoldable pub update : CheckerState → CheckerInst → Option CheckerState
unfolding value insert update_defs update_params
update st (move into from) =
    some (record { allocations = insert into (value st from) st.allocations })
update st (op inst operands allocs) = update_defs operands allocs st
update st (block_params block vregs allocs) = some (update_params vregs allocs st)
