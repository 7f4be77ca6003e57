-- ===== src/Kernel/Cspace/Mask.antt =====
-- The occupied mask of a task says which of its slots hold a capability.
use aurora_os.Prelude.{
  ℕ, ◌<◌, ◌≡◌, refl, inl, inr, true, false, not, ◌==◌, ◌&&◌, ◌||◌, if◌then◌else◌, Option, none,
  some, arith, Bool-cases,
}
use aurora_os.Kernel.Cspace.{
  Caps, Capability, CapType, is_null, max_cspace_slots, drop_object, cap_delete, cap_insert,
  set_cap, set_bit, retain, is_valid_slot,
}

-- A bit is set exactly where the slot holds a capability.
abbrev pub IsConsistent : Caps → Type 0
IsConsistent c =
    (t slot : ℕ)
    → slot < max_cspace_slots
    → c.occupied_mask t slot ≡ not (is_null (c.cspace t slot).type)

-- What a release leaves alone.
pub drop_object-same :
    (c : Caps) (t : ℕ) (type : CapType) (o : Option ℕ)
    → ((drop_object c t type o).cspace ≡ c.cspace)
      × ((drop_object c t type o).occupied_mask ≡ c.occupied_mask)
unfolding drop_object
drop_object-same c t type none = (refl, refl)
drop_object-same c t type (some o) = ground arith

-- What `cap_delete` does to the slots: the one slot is emptied.
pub delete-cspace :
    (c : Caps) (t slot u i : ℕ)
    → slot < max_cspace_slots
    → let c' = (cap_delete c t slot).1 in
      (c'.cspace u i ≡ (
        if t == u && slot == i
        then record (c.cspace t slot) { type = CapType.null; object = none }
        else c.cspace u i))
      × (c'.occupied_mask u i ≡ (if t == u && slot == i then false else c.occupied_mask u i))
unfolding cap_delete
delete-cspace c t slot u i lt =
    let same = drop_object-same c t (c.cspace t slot).type (c.cspace t slot).object in
    (ground (arith, same), ground (arith, same))

pub delete-IsConsistent :
    (c : Caps) (t slot : ℕ)
    → IsConsistent c
    → slot < max_cspace_slots
    → IsConsistent (cap_delete c t slot).1
delete-IsConsistent c t slot v lt u i small = ground (arith, delete-cspace c t slot u i lt, v u i)

retain-same :
    (c : Caps) (o : Option ℕ)
    → ((retain c o).cspace ≡ c.cspace) × ((retain c o).occupied_mask ≡ c.occupied_mask)
retain-same c none = (refl, refl)
retain-same c (some o) = (refl, refl)

-- A capability written to a slot, with its bit.
pub write-same :
    (c : Caps) (t slot : ℕ) (given : Capability) (u i : ℕ)
    → let c' = set_bit (retain (set_cap c t slot given) given.object) t slot true in
      (c'.cspace u i ≡ (if t == u && slot == i then given else c.cspace u i))
      × (c'.occupied_mask u i ≡ (if t == u && slot == i then true else c.occupied_mask u i))
write-same c t slot given u i =
    let same = retain-same (set_cap c t slot given) given.object in
    (ground (arith, same), ground (arith, same))

-- `cap_insert` keeps every task's occupied mask right.
pub insert-IsConsistent :
    (c : Caps) (t slot : ℕ) (given : Capability)
    → IsConsistent c
    → IsConsistent (cap_insert c t slot given).1
unfolding cap_insert
insert-IsConsistent c t slot given v =
    elim (Bool-cases (not (is_valid_slot slot) || is_null given.type)) [
      | inl refused ↦ rw refused v
      | inr fine ↦ rw fine (λ u i small.
          let w = write-same (cap_delete c t slot).1 t slot given u i in
          ground (arith, w, delete-IsConsistent c t slot v (ground arith) u i small, fine))
    ]
