-- ===== src/Ion/Slots.antt =====
-- Spill slots (src/ion/mod.rs, `allocate_spillslots` and what it calls). Each function that follows
-- a linked list takes the fuel of its loops.
pub mod Fit
use regalloc2_orig.Prelude.{
  Flow, next, return, ℕ, zero, suc, ◌-◌, Bool, true, false, not, ◌||◌, ◌==◌, leb, if◌then◌else◌,
  List, [], ◌∷◌, ◌++◌, Option, some, ◌>>=◌, length, get_elem?, set, replicate, u32,
}
use regalloc2_orig.Index
use regalloc2_orig.Alloc
use regalloc2_orig.Alloc.{Allocation, none_alloc}
use regalloc2_orig.Ion.Key
use regalloc2_orig.Ion.Btree
use regalloc2_orig.Ion.Btree.{LiveRangeSet}
use regalloc2_orig.Ion.Env.{LiveRange, SpillSet, SpillSlotData, SpillSlotList, Env, at, walk}
use regalloc2_orig.Ion.Offsets.{assign_offsets}
use regalloc2_orig.Ion.Bundle.{bundle_link, finish}

-- The body of the loop over the ranges of a bundle: to return is to say `false`.
unfoldable pub meets_slot :
    LiveRangeSet → ℕ → LiveRange → Unit {0} → Option (Flow (Unit {0}) (Unit {0}))
meets_slot ranges i r s = do
  key ← Key.from_range r.range
  some (if Btree.contains_key key ranges then return tt else next s)

unfoldable pub bundles_fit : ℕ → Env → LiveRangeSet → List ℕ → Option Bool
unfolding walk meets_slot
bundles_fit fuel env ranges [] = some true
bundles_fit fuel env ranges (bundle ∷ bundles) = do
  b ← at env.bundles bundle
  end ← walk env.ranges bundle_link (meets_slot ranges) fuel b.first_range tt
  elim end [ return u ↦ some false | next s ↦ bundles_fit fuel env ranges bundles ]

-- A slot that is not there is refused at once, here and below.
unfoldable pub spillslot_can_fit_spillset : ℕ → Env → ℕ → ℕ → Option Bool
unfolding bundles_fit
spillslot_can_fit_spillset fuel env spillslot spillset = do
  s ← at env.spillsets spillset
  slot ← at env.spillslots spillslot
  bundles_fit fuel env slot.ranges s.bundles

unfoldable pub add_to_slot : ℕ → LiveRange → LiveRangeSet → Option (Flow LiveRangeSet ⊥)
add_to_slot i r ranges = do key ← Key.from_range r.range; some (next (Btree.insert key i ranges))

unfoldable pub add_bundles : ℕ → Env → List ℕ → LiveRangeSet → Option LiveRangeSet
unfolding walk add_to_slot
add_bundles fuel env [] ranges = some ranges
add_bundles fuel env (bundle ∷ bundles) ranges = do
  b ← at env.bundles bundle
  end ← walk env.ranges bundle_link add_to_slot fuel b.first_range ranges
  add_bundles fuel env bundles (finish end)

unfoldable pub allocate_spillset_to_spillslot : ℕ → Env → ℕ → ℕ → Option Env
unfolding add_bundles
allocate_spillset_to_spillslot fuel env spillset spillslot = do
  s ← at env.spillsets spillset
  slot ← at env.spillslots spillslot
  ranges ← add_bundles fuel env s.bundles slot.ranges
  some (record env {
    spillsets = set env.spillsets spillset (record s { slot = spillslot });
    spillslots = set env.spillslots spillslot (record slot { ranges = ranges });
  })

abbrev pub no_slots : SpillSlotList
no_slots = record { first_spillslot = Index.invalid; last_spillslot = Index.invalid }

-- `slots_by_size.resize(size + 1, ...)`, where the list has no entry for the size
abbrev pub resize : ℕ → List SpillSlotList → List SpillSlotList
resize size lists =
    if leb (length lists) size then lists ++ replicate (suc size - length lists) no_slots else lists

abbrev pub set_first : ℕ → ℕ → List SpillSlotList → Option (List SpillSlotList)
set_first size slot lists = do
  l ← get_elem? lists size
  some (set lists size (record l { first_spillslot = slot }))

abbrev pub set_last : ℕ → ℕ → List SpillSlotList → Option (List SpillSlotList)
set_last size slot lists = do
  l ← get_elem? lists size
  some (set lists size (record l { last_spillslot = slot }))

abbrev pub set_next : ℕ → ℕ → List SpillSlotData → Option (List SpillSlotData)
set_next slot following slots = do
  s ← at slots slot
  i ← Index.index slot
  some (set slots i (record s { next_spillslot = following }))

-- A slot is taken from its place and put at the end of the list for its size.
unfoldable pub move_to_end : Env → ℕ → ℕ → ℕ → Option (Env × ℕ)
move_to_end env size prev slot = do
  s ← at env.spillslots slot
  let following = s.next_spillslot
  slots ←
      if Index.is_valid prev then set_next prev following env.spillslots else some env.spillslots
  lists ←
      if Index.is_valid prev
      then some env.slots_by_size
      else set_first size following env.slots_by_size
  lists ← if not (Index.is_valid following) then set_last size prev lists else some lists
  l ← get_elem? lists size
  let last = l.last_spillslot
  slots ← if Index.is_valid last then set_next last slot slots else some slots
  lists ← if Index.is_valid last then some lists else set_first size slot lists
  lists ← set_last size slot lists
  some (record env { spillslots = slots; slots_by_size = lists }, following)

-- The loop over some existing slots, with the attempts that are left; the flag is `success`.
unfoldable pub try_slots : ℕ → ℕ → Env → ℕ → ℕ → ℕ → ℕ → ℕ → Option (Env × Bool)
unfolding spillslot_can_fit_spillset allocate_spillset_to_spillslot move_to_end
try_slots fuel zero env spillset size iter first prev = some (env, false)
try_slots fuel (suc attempts) env spillset size iter first prev =
    if Index.is_invalid iter || iter == first then some (env, false) else (do
      let first = if Index.is_invalid first then iter else first
      fits ← spillslot_can_fit_spillset fuel env iter spillset
      elim fits [
        | true ↦ (do env ← allocate_spillset_to_spillslot fuel env spillset iter; some (env, true))
        | false ↦ (do
          (env, following) ← move_to_end env size prev iter
          try_slots fuel attempts env spillset size following first iter)
      ])

unfoldable pub add_slot : ℕ → Env → ℕ → SpillSet → ℕ → Option Env
unfolding allocate_spillset_to_spillslot
add_slot fuel env spillset s size = do
  let spillslot = Index.new (length env.spillslots)
  l ← get_elem? env.slots_by_size size
  let following = l.first_spillslot
  let slot : SpillSlotData = record {
    ranges = [];
    class = s.class;
    size = u32 size;
    alloc = none_alloc;
    next_spillslot = following;
  }
  lists ← set_first size spillslot env.slots_by_size
  lists ← if not (Index.is_valid following) then set_last size spillslot lists else some lists
  allocate_spillset_to_spillslot fuel
      (record env { spillslots = env.spillslots ++ slot ∷ []; slots_by_size = lists }) spillset
      spillslot

-- The body of the loop over the spill sets.
unfoldable pub place_spillset : ℕ → Env → ℕ → Option Env
unfolding try_slots add_slot
place_spillset fuel env spillset = do
  s ← at env.spillsets spillset
  elim s.bundles [
    | [] ↦ some env
    | b ∷ bs ↦ (do
      let env = record env { slots_by_size = resize s.size env.slots_by_size }
      l ← get_elem? env.slots_by_size s.size
      (env, success) ←
          try_slots fuel 10 env spillset s.size l.first_spillslot Index.invalid Index.invalid
      if success then some env else add_slot fuel env spillset s s.size)
  ]

-- The loop over the `count` spill sets from `i` on.
unfoldable pub place_spillsets : ℕ → ℕ → ℕ → Env → Option Env
unfolding place_spillset
place_spillsets fuel zero i env = some env
place_spillsets fuel (suc count) i env = do
  env ← place_spillset fuel env (Index.new i)
  place_spillsets fuel count (suc i) env

unfoldable pub allocate_spillslots : ℕ → Bool → Env → Option Env
unfolding place_spillsets assign_offsets
allocate_spillslots fuel named_by_last env = do
  env ← place_spillsets fuel (length env.spillsets) 0 env
  (slots, offset) ← assign_offsets named_by_last 0 env.spillslots
  some (record env { spillslots = slots; num_spillslots = offset })

unfoldable pub get_alloc_for_range : Env → ℕ → Option Allocation
get_alloc_for_range env range = do
  r ← at env.ranges range
  b ← at env.bundles r.bundle
  if not (Alloc.eq b.allocation none_alloc)
      then some b.allocation
      else (do s ← at env.spillsets b.spillset; slot ← at env.spillslots s.slot; some slot.alloc)
