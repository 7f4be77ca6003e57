-- ===== src/Kernel/Tests/MemoryPool.antt =====
-- The theorems on the memory pool at a new pool of three slots of 16 bytes.
use aurora_os.Prelude.{◌≡◌, ◌⊎◌, refl, true, false, none, some, arith, [], ◌∷◌}
use aurora_os.Prelude.Store.{update, no_bits}
use aurora_os.Kernel.MemoryPool.{Layout, MemoryPool, construct, link_slots, allocate, deallocate}
use aurora_os.Kernel.MemoryPool.Slots.{IsValid, Given, allocate-Given, deallocate-IsValid}

abbrev three : Layout
three = record { start = 4096; slot_size = 16; pool_size = 3 }

abbrev pool : MemoryPool
pool = construct three (record { next = λ a. none; allocated = no_bits; free_list = none })

pool-IsValid : IsValid three pool (0 ∷ 1 ∷ 2 ∷ [])
unfolding construct link_slots
pool-IsValid = record {
  top = refl;
  chain = (refl, (refl, (refl, tt)));
  nodup = refl;
  exact = λ i. ground arith;
}

allocate-Given_example : Given three pool (allocate three pool)
allocate-Given_example = allocate-Given three pool (0 ∷ 1 ∷ 2 ∷ []) (omega arith) pool-IsValid

abbrev used : MemoryPool
used = (allocate three pool).1

used-IsValid : IsValid three used (1 ∷ 2 ∷ [])
unfolding construct link_slots allocate
used-IsValid = record {
  top = refl;
  chain = (refl, (refl, tt));
  nodup = refl;
  exact = λ i. ground arith;
}

deallocate-IsValid_example :
    let p' = deallocate three used (some 4096) in
    ((used.allocated 0 ≡ true)
      × IsValid three p' (0 ∷ 1 ∷ 2 ∷ [])
      × (p'.allocated ≡ update used.allocated 0 false))
    ⊎ ((used.allocated 0 ≡ false) × (p' ≡ used))
deallocate-IsValid_example =
    deallocate-IsValid three used (1 ∷ 2 ∷ []) 0 (omega arith) (omega arith) used-IsValid
