-- ===== src/Kernel/Cspace.antt =====
-- kernel/core/cspace.hpp, cspace.cpp and kernel_object.hpp: the capabilities of tasks.
pub mod Mask
pub mod Derive
pub mod Revoke
pub mod Alloc
use aurora_os.Prelude.{
  ℕ, ◌+◌, ◌-◌, ◌/◌, ◌%◌, Bool, true, false, not, Option, none, some, ltb, leb, ◌==◌, ◌&&◌, ◌||◌,
  if◌then◌else◌, holds,
}
use aurora_os.Prelude.Store.{update, BitSet, find_lowest_bit}
use aurora_os.Kernel.Ready.{free_task}
use aurora_os.Kernel.Ipc.{System, IpcStatus}
use aurora_os.Kernel.Ipc.Cancel.{cancel_waiter, cancel_all}

-- `enum class CapType` and `enum class ObjectType`
pub data CapType : Type 0 where
  null endpoint thread memory device : CapType

pub data ObjectType : Type 0 where
  null task endpoint memory_region device : ObjectType

abbrev pub is_null : CapType → Bool
is_null CapType.null = true
is_null _ = false

abbrev pub is_endpoint : CapType → Bool
is_endpoint CapType.endpoint = true
is_endpoint _ = false

-- `CapRights` and `Capability`
pub record CapRights : Type 0 where
  pub read : Bool
  pub write : Bool
  pub grant : Bool

pub record Capability : Type 0 where
  pub type : CapType
  pub rights : CapRights
  pub badge : ℕ
  pub object : Option ℕ

abbrev pub max_cspace_slots : ℕ
max_cspace_slots = 16

-- The rest of the kernel, the capabilities and the mask of each task, and the type, the task and the
-- references of each object. An endpoint has the same number as an object.
pub record Caps : Type 0 where
  pub system : System
  pub cspace : ℕ → ℕ → Capability
  pub occupied_mask : ℕ → BitSet
  pub object_type : ℕ → ObjectType
  pub task_of : ℕ → ℕ
  pub ref_count : ℕ → ℕ

-- `destroy` of the object's class.
unfoldable pub destroy_as : ObjectType → System → ℕ → ℕ → System
destroy_as ObjectType.endpoint k t o = cancel_all k o IpcStatus.receiver_dead
destroy_as ObjectType.task k t o = record k { sched = free_task k.sched t }
destroy_as _ k t o = k

abbrev pub retain : Caps → Option ℕ → Caps
retain c none = c
retain c (some o) = record c { ref_count = update c.ref_count o ((c.ref_count o + 1) % 4294967296) }

unfoldable pub release : Caps → ℕ → Caps
release c o =
    if c.ref_count o == 0
    then c
    else (let c₁ = record c { ref_count = update c.ref_count o (c.ref_count o - 1) } in
        if c₁.ref_count o == 0
        then record c₁ { system = destroy_as (c.object_type o) c.system (c.task_of o) o }
        else c₁)

abbrev pub is_valid_slot : ℕ → Bool
is_valid_slot slot = ltb slot max_cspace_slots

-- A slot is written, or its bit.
abbrev pub set_cap : Caps → ℕ → ℕ → Capability → Caps
set_cap c t slot given = record c { cspace = update c.cspace t (update (c.cspace t) slot given) }

abbrev pub set_bit : Caps → ℕ → ℕ → Bool → Caps
set_bit c t slot b = record c {
  occupied_mask = update c.occupied_mask t (update (c.occupied_mask t) slot b);
}

-- `cap_alloc_slot`; its -1 is `none`.
unfoldable pub cap_alloc_slot : Caps → ℕ → Option ℕ
cap_alloc_slot c t = find_lowest_bit max_cspace_slots 0 (λ i. not (c.occupied_mask t i))

unfoldable pub is_slot_occupied : Caps → ℕ → ℕ → Bool
is_slot_occupied c t slot = is_valid_slot slot && c.occupied_mask t slot

-- `cap_lookup`, which also corrects the bit.
unfoldable pub cap_lookup : Caps → ℕ → ℕ → Option Capability × Caps
cap_lookup c t slot =
    if is_valid_slot slot
    then (if is_null (c.cspace t slot).type
        then (none, set_bit c t slot false)
        else (some (c.cspace t slot), set_bit c t slot true))
    else (none, c)

-- The task stops waiting at the endpoint that it loses.
abbrev pub leave_endpoint : Caps → ℕ → CapType → ℕ → Caps
leave_endpoint c t type o =
    if is_endpoint type && holds (c.system.waiting_endpoint t) o
    then record c { system = cancel_waiter c.system o t IpcStatus.no_permission }
    else c

-- What `cap_delete` does for the object of the slot.
unfoldable pub drop_object : Caps → ℕ → CapType → Option ℕ → Caps
unfolding release
drop_object c t type none = c
drop_object c t type (some o) = if is_null type then c else release (leave_endpoint c t type o) o

abbrev pub clear : Caps → ℕ → ℕ → Caps
clear c t slot =
    set_bit (set_cap c t slot (record (c.cspace t slot) { type = CapType.null; object = none })) t
      slot false

unfoldable pub cap_delete : Caps → ℕ → ℕ → Bool × Caps
unfolding drop_object
cap_delete c t slot =
    if is_valid_slot slot
    then (true, clear (drop_object c t (c.cspace t slot).type (c.cspace t slot).object) t slot)
    else (false, c)

unfoldable pub cap_insert : Caps → ℕ → ℕ → Capability → Bool × Caps
cap_insert c t slot given =
    if not (is_valid_slot slot) || is_null given.type
    then (false, c)
    else (let c₁ = (cap_delete c t slot).1 in
        (true, set_bit (retain (set_cap c₁ t slot given) given.object) t slot true))

-- The rights that a word of `CAP_RIGHT_` bits asks for.
abbrev pub requested : ℕ → CapRights
requested rights = record {
  read = rights % 2 == 1;
  write = rights / 2 % 2 == 1;
  grant = rights / 4 % 2 == 1;
}

-- A right is asked for that the capability does not have.
abbrev pub escalates : CapRights → CapRights → Bool
escalates req has =
    (req.read && not has.read) || (req.write && not has.write) || (req.grant && not has.grant)

-- A capability with other rights and another badge.
abbrev pub reissue : Capability → CapRights → ℕ → Capability
reissue from req badge = record {
  type = from.type;
  rights = req;
  badge = badge;
  object = from.object;
}

-- The copy of the capability in a slot of `src` to one of `dst`. The source is read again after the
-- deletion, as in the code, where it is a reference to the slot.
unfoldable pub copy_cap : Caps → ℕ → ℕ → ℕ → ℕ → CapRights → ℕ → Caps
copy_cap c src src_slot dst dst_slot req badge =
    let c₁ = (cap_delete c dst dst_slot).1 in
    let copy = reissue (c₁.cspace src src_slot) req badge in
    set_bit (retain (set_cap c₁ dst dst_slot copy) copy.object) dst dst_slot true

-- `cap_grant`; `cap_derive_internal` is the same within one task.
unfoldable pub cap_grant : Caps → ℕ → ℕ → ℕ → ℕ → ℕ → ℕ → Bool × Caps
unfolding copy_cap
cap_grant c src dst src_slot dst_slot new_rights badge =
    let source = c.cspace src src_slot in
    if not (is_valid_slot src_slot)
      || not (is_valid_slot dst_slot)
      || is_null source.type
      || escalates (requested new_rights) source.rights
    then (false, c)
    else (true, copy_cap c src src_slot dst dst_slot (requested new_rights) badge)

unfoldable pub cap_mint : Caps → ℕ → ℕ → ℕ → ℕ → ℕ → Bool × Caps
cap_mint c t src_slot dst_slot rights badge = cap_grant c t t src_slot dst_slot rights badge

unfoldable pub cap_derive : Caps → ℕ → ℕ → ℕ → ℕ → Bool × Caps
cap_derive c t src_slot dst_slot rights =
    if is_valid_slot src_slot
    then cap_mint c t src_slot dst_slot rights (c.cspace t src_slot).badge
    else (false, c)
