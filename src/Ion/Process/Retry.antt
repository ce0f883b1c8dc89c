-- ===== src/Ion/Process/Retry.antt =====
-- The second try for the bundles that are spilled (src/ion/mod.rs,
-- `try_allocating_regs_for_spilled_bundles`).
use regalloc2_orig.Prelude.{
  ℕ, ◌+◌, ◌%◌, Bool, true, false, if◌then◌else◌, List, [], ◌∷◌, ◌++◌, Option, some, ◌>>=◌, length,
  get_elem?, for_each, count_from,
}
use regalloc2_orig.Index
use regalloc2_orig.Reg.{class_bits}
use regalloc2_orig.Reg.PReg
use regalloc2_orig.Reg.PReg.{PReg}
use regalloc2_orig.Reg.VReg
use regalloc2_orig.Ion.Env.{Env, at, update_at}
use regalloc2_orig.Ion.Allocate.{allocated, try_to_allocate_bundle_to_reg}

-- The loop over the registers for a spilled bundle: whether one had room.
unfoldable pub retry_regs : ℕ → Env → ℕ → List PReg → List ℕ → Option (Env × Bool)
retry_regs fuel env bundle regs [] = some (env, false)
retry_regs fuel env bundle regs (i ∷ is) = do
  k ← Index.index bundle
  preg ← get_elem? regs ((i + k) % length regs)
  (result, env) ← try_to_allocate_bundle_to_reg fuel env bundle (Index.new (PReg.index preg))
  elim result [ allocated alloc ↦ some (env, true) | _ ↦ retry_regs fuel env bundle regs is ]

unfoldable pub retry_bundle : ℕ → List (List PReg) → ℕ → Env → Option Env
unfolding retry_regs
retry_bundle fuel regs_by_class bundle env = do
  b ← at env.bundles bundle
  r ← at env.ranges b.first_range
  v ← at env.vregs r.vreg
  class ← VReg.class v.reg
  regs ← get_elem? regs_by_class (class_bits class)
  (env, success) ← retry_regs fuel env bundle regs (count_from 0 (length regs))
  if success then some env else (do
    b ← at env.bundles bundle
    spillsets ←
        update_at env.spillsets b.spillset (λ s. record s { bundles = s.bundles ++ bundle ∷ [] })
    some (record env { spillsets = spillsets }))

unfoldable pub try_allocating_regs_for_spilled_bundles : ℕ → List (List PReg) → Env → Option Env
unfolding retry_bundle
try_allocating_regs_for_spilled_bundles fuel regs_by_class env =
    for_each (retry_bundle fuel regs_by_class) env.spilled_bundles env
