-- ===== src/Kernel/Cspace/Revoke.antt =====
-- kernel/core/cspace.cpp, `cap_revoke`: all other capabilities of an object are emptied.
use aurora_os.Prelude.{
  ℕ, zero, suc, Bool, true, false, not, Option, none, some, ltb, ◌==◌, if◌then◌else◌, holds,
}
use aurora_os.Prelude.Store.{update, BitSet, find_lowest_bit}
use aurora_os.Kernel.Cspace.{
  Caps, Capability, is_null, max_cspace_slots, is_valid_slot, release, leave_endpoint, clear,
  cap_lookup,
}

-- The mask of a task corrected.
abbrev pub sync_mask : Caps → ℕ → Caps
sync_mask c u = record c {
  occupied_mask = update c.occupied_mask u (λ j.
      if ltb j max_cspace_slots then not (is_null (c.cspace u j).type) else c.occupied_mask u j);
}

-- One slot, which is emptied if it holds the object.
unfoldable pub revoke_slot : Caps → ℕ → ℕ → ℕ → Caps
revoke_slot c u target j =
    if holds (c.cspace u j).object target
    then clear (release (leave_endpoint c u (c.cspace u j).type target) target) u j
    else c

-- The loop over the bits of a mask, whose rounds each clear one of the 16.
unfoldable pub revoke_slots : ℕ → Caps → ℕ → ℕ → BitSet → Caps
unfolding revoke_slot
revoke_slots zero c u target mask = c
revoke_slots (suc n) c u target mask = elim (find_lowest_bit max_cspace_slots 0 mask) [
  | none ↦ c
  | some j ↦ revoke_slots n (revoke_slot c u target j) u target (update mask j false)
]

-- One task; the slot that is revoked from is spared.
unfoldable pub revoke_task : Caps → ℕ → ℕ → ℕ → ℕ → Caps
unfolding revoke_slots
revoke_task c t slot target u =
    let c₁ = sync_mask c u in
    let mask = if u == t then update (c₁.occupied_mask u) slot false else c₁.occupied_mask u in
    revoke_slots max_cspace_slots c₁ u target mask

-- The loop over `n` tasks from `u` on.
unfoldable pub revoke_tasks : ℕ → Caps → ℕ → ℕ → ℕ → ℕ → Caps
unfolding revoke_task
revoke_tasks zero c t slot target u = c
revoke_tasks (suc n) c t slot target u =
    revoke_tasks n (revoke_task c t slot target u) t slot target (suc u)

-- `cap_revoke` of what `cap_lookup` finds.
unfoldable pub revoke_found : ℕ → ℕ → Option Capability → Caps → Bool × Caps
unfolding revoke_tasks
revoke_found t slot none c = (false, c)
revoke_found t slot (some given) c = elim given.object [
  | none ↦ (false, c)
  | some target ↦ (true, revoke_tasks c.system.sched.task_count c t slot target 0)
]

unfoldable pub cap_revoke : Caps → ℕ → ℕ → Bool × Caps
unfolding revoke_found
cap_revoke c t slot =
    if is_valid_slot slot
    then revoke_found t slot (cap_lookup c t slot).0 (cap_lookup c t slot).1
    else (false, c)
