-- ===== src/Kernel/Tests/Cspace.antt =====
-- The theorems on capabilities at a system where task 1 may read and write endpoint 7 by slot 0.
use aurora_os.Prelude.{◌≡◌, refl, true, none, some, arith, ◌==◌, ◌&&◌, if◌then◌else◌}
use aurora_os.Kernel.Cspace.{
  Caps, Capability, CapType, ObjectType, is_null, cap_alloc_slot, cap_grant, requested,
}
use aurora_os.Kernel.Cspace.Mask.{IsConsistent}
use aurora_os.Kernel.Cspace.Derive.{grant-IsConsistent, grant_onto_itself}
use aurora_os.Kernel.Cspace.Alloc.{Allocated, alloc-Allocated}
use aurora_os.Kernel.Tests.Ipc.{receiving}

abbrev nothing : Capability
nothing = record { type = CapType.null; rights = requested 0; badge = 0; object = none }

abbrev read_write : Capability
read_write = record { type = CapType.endpoint; rights = requested 3; badge = 9; object = some 7 }

abbrev caps : Caps
caps = record {
  system = receiving;
  cspace = λ t slot. if t == 1 && slot == 0 then read_write else nothing;
  occupied_mask = λ t slot. t == 1 && slot == 0;
  object_type = λ o. ObjectType.endpoint;
  task_of = λ o. 0;
  ref_count = λ o. 2;
}

caps-IsConsistent : IsConsistent caps
caps-IsConsistent t slot small = ground arith

grant-IsConsistent_example : IsConsistent (cap_grant caps 1 2 0 4 1 5).1
grant-IsConsistent_example = grant-IsConsistent caps 1 2 0 4 1 5 refl caps-IsConsistent

grant_onto_itself_example :
    let r = cap_grant caps 1 1 0 0 1 5 in
    (r.0 ≡ true) × (is_null (r.1.cspace 1 0).type ≡ true) × (r.1.occupied_mask 1 0 ≡ true)
grant_onto_itself_example = grant_onto_itself caps 1 0 1 5 refl

alloc-Allocated_example : Allocated caps 1 (cap_alloc_slot caps 1)
alloc-Allocated_example = alloc-Allocated caps 1
