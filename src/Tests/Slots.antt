-- ===== src/Tests/Slots.antt =====
-- Spill slots at concrete values: the spill set of bundle 0, and a slot with one range.
use regalloc2_orig.Prelude.{
  ◌++◌, ℕ, ◌≤◌, ◌≡◌, ◌⊎◌, refl, arith, true, false, List, [], ◌∷◌, none, some,
}
use regalloc2_orig.Reg.{int}
use regalloc2_orig.Alloc.{none_alloc}
use regalloc2_orig.Ion.Btree.{LiveRangeSet}
use regalloc2_orig.Ion.Env.{SpillSlotData, Env, end, item}
use regalloc2_orig.Ion.Allocate.Ranges.{HasRanges, no_entries, entry}
use regalloc2_orig.Ion.Offsets.{assign_offsets}
use regalloc2_orig.Ion.Offsets.Layout.{IsLaidOut, assign_offsets_lem}
use regalloc2_orig.Ion.Btree.{IsDisjoint}
use regalloc2_orig.Ion.Btree.Search.{AreOverlapping}
use regalloc2_orig.Ion.Env.{SpillSet}
use regalloc2_orig.Ion.Slots.{spillslot_can_fit_spillset, allocate_spillset_to_spillslot}
use regalloc2_orig.Ion.Slots.Fit.{no_bundles, bundle_entries, CanPlace, placed, spillslot_fit_lem}
use regalloc2_orig.Tests.Bundles.{nowhere, range_of, live, bundle_at, env, entries, key_eq}

abbrev spill_set : SpillSet
spill_set = record { bundles = 0 ∷ []; size = 1; class = int; slot = nowhere; reg_hint = none }

abbrev taken : LiveRangeSet
taken = (record { from = 8; to = 10 }, 1) ∷ []

abbrev slot_0 : SpillSlotData
slot_0 = record {
  ranges = taken;
  class = int;
  size = 1;
  alloc = none_alloc;
  next_spillslot = nowhere;
}

abbrev env_slots : Env
env_slots = record env { spillsets = spill_set ∷ []; spillslots = slot_0 ∷ [] }

abbrev has_ranges : HasRanges 2 env_slots 0 entries
has_ranges = record {
  bundle_data = bundle_at 0;
  ranges = (0, live (range_of 0 2) 0 0) ∷ [];
  bundle_eq = refl;
  chain = item refl refl (end refl);
  entries = entry key_eq no_entries;
  enough = omega arith;
}

abbrev can_place : CanPlace 2 env_slots 0 0 spill_set slot_0 entries
can_place = record {
  set_eq = refl;
  slot_eq = refl;
  entries = bundle_entries has_ranges no_bundles;
  set_disjoint = (omega arith, tt, tt);
  slot_disjoint = (omega arith, tt, tt);
}

spillslot_fit_lem_example :
    ((spillslot_can_fit_spillset 2 env_slots 0 0 ≡ some true)
      × (allocate_spillset_to_spillslot 2 env_slots 0 0
          ≡ some (placed env_slots 0 0 spill_set slot_0 (taken ++ entries)))
      × IsDisjoint (taken ++ entries))
    ⊎ ((spillslot_can_fit_spillset 2 env_slots 0 0 ≡ some false) × AreOverlapping entries taken)
spillslot_fit_lem_example = spillslot_fit_lem 2 env_slots 0 0 spill_set slot_0 entries can_place

-- A slot of one word, and one of four.
abbrev slot_of : ℕ → SpillSlotData
slot_of size = record {
  ranges = [];
  class = int;
  size = size;
  alloc = none_alloc;
  next_spillslot = nowhere;
}

abbrev slots : List SpillSlotData
slots = slot_of 1 ∷ slot_of 4 ∷ []

assign_offsets_lem_example :
    (ds' : List SpillSlotData) × (end : ℕ) × (assign_offsets true 0 slots ≡ some (ds', end))
    × IsLaidOut true 0 slots ds' end
    × (0 ≤ end)
    × (end ≤ 10)
assign_offsets_lem_example =
    assign_offsets_lem true 0 slots ((0, refl), ((2, refl), tt)) (omega arith)
