-- ===== src/Kernel/Tests/Heap.antt =====
-- The theorems on the heap at a heap of 4096 bytes, and at one of its blocks in use.
use aurora_os.Prelude.{
  inl, ◌≡◌, sym, ap, ℕ, ◌≤◌, ◌<◌, refl, Option, true, false, none, some, arith, List, [], ◌∷◌,
  contains, erase,
}
use mathlib.Core.Path.{subst}
use aurora_os.Prelude.Store.{no_bits, find_lowest_bit}
use aurora_os.Kernel.Heap.{
  Heap, remove_free_block, insert_free_block, insert_at, highest, pow2, search_higher,
  mapping_insert, mapping_search, search_suitable_block, remove_at, update2, round_up,
}
use aurora_os.Kernel.Heap.Ops.{
  release_block, merge_next, merge_prev, allocate_found, init, allocate_impl, deallocate,
  get_requested_size, may_free,
}
use aurora_os.Kernel.Heap.Classes.{AtLeast, mapping_search-fits}
use aurora_os.Kernel.Heap.Lists.{Lists}
use aurora_os.Kernel.Heap.Unlist.{remove_free_block-Lists}
use aurora_os.Kernel.Heap.Isolation.{
  IsValid, Outcome, allocate_impl-Outcome, Freed, deallocate-Freed,
  get_requested_size-allocate_impl,
}
use aurora_os.Kernel.Heap.Start.{Bounded, init-IsValid}

abbrev blank : Heap
blank = record {
  fl_bitmap = no_bits;
  sl_bitmap = λ i. no_bits;
  blocks = λ i j. none;
  head_block = none;
  total_free_memory = 0;
  total_size = 0;
  magic = λ a. 0;
  size = λ a. 0;
  requested_size = λ a. 0;
  is_free = λ a. false;
  prev_phys = λ a. none;
  next_phys = λ a. none;
  next_free = λ a. none;
  prev_free = λ a. none;
}

blank-Bounded : Bounded blank
blank-Bounded = record { rows = λ i j h. refl; words = λ i j h. refl }

init-IsValid_example : (h' : Heap) × (init blank 4090 8195 ≡ some h') × IsValid h' (4096 ∷ [])
init-IsValid_example = init-IsValid blank 4090 8195 blank-Bounded (omega arith) (omega arith)

abbrev pub started : Heap
started = elim (init blank 4090 8195) [ none ↦ blank | some h ↦ h ]

started-IsValid : IsValid started (4096 ∷ [])
started-IsValid =
    subst (λ h. IsValid h (4096 ∷ []))
      (sym (ap (λ o. elim o [ none ↦ blank | some h ↦ h ]) init-IsValid_example.1))
      init-IsValid_example.2

-- 100 bytes are taken from the one free block.
first_address : (allocate_impl started 100).0 ≡ some 4128
unfolding init insert_free_block insert_at allocate_impl search_suitable_block mapping_search
    mapping_insert highest pow2 find_lowest_bit search_higher
first_address = refl

allocate_impl-Outcome_example : Outcome started (4096 ∷ []) 100 (allocate_impl started 100)
allocate_impl-Outcome_example = allocate_impl-Outcome started (4096 ∷ []) 100 started-IsValid

get_requested_size-allocate_impl_example :
    get_requested_size (allocate_impl started 100).1 (some 4128) ≡ 100
get_requested_size-allocate_impl_example =
    get_requested_size-allocate_impl started (4096 ∷ []) 100 4128 started-IsValid first_address

abbrev taken : Heap
taken = (allocate_impl started 100).1

in_use :
    (r : Option ℕ × Heap)
    → Outcome started (4096 ∷ []) 100 r
    → r.0 ≡ some 4128
    → (l : List ℕ) × IsValid r.1 l × (contains 4096 l ≡ true) × (r.1.is_free 4096 ≡ false)
in_use (none, h) o given = absurd cc
in_use (some ptr, h) (x, l, e, k, free, v, inside, busy, request, room, clear, kept) given =
    let at_start : x ≡ 4096 = ground (arith, e, given) in
    (
      l,
      v,
      subst (λ y. contains y l ≡ true) at_start inside,
      subst (λ y. h.is_free y ≡ false) at_start busy,
    )

taken_block :
    (l : List ℕ) × IsValid taken l × (contains 4096 l ≡ true) × (taken.is_free 4096 ≡ false)
taken_block = in_use (allocate_impl started 100) allocate_impl-Outcome_example first_address

deallocate-Freed_example : Freed taken taken_block.0 4096 (deallocate taken (some 4128))
deallocate-Freed_example =
    deallocate-Freed taken taken_block.0 4096 taken_block.1 taken_block.2 taken_block.3

reaches : AtLeast (mapping_search 136) (mapping_insert 4096)
unfolding mapping_search mapping_insert highest pow2
reaches = inl (omega arith)

rounded : round_up 136 < 33554432
unfolding highest pow2
rounded = omega arith

mapping_search-fits_example : 136 ≤ 4096
mapping_search-fits_example =
    mapping_search-fits 136 4096 (omega arith) rounded (omega arith) (omega arith) reaches

listed_example : contains 4096 (started-IsValid.queues 7 0) ≡ true
unfolding init insert_free_block insert_at mapping_insert highest pow2
listed_example = sym (started-IsValid.valid.free 4096 refl refl)

remove_free_block-Lists_example :
    Lists
      (remove_free_block started 4096)
      (update2 started-IsValid.queues 7 0 (erase (started-IsValid.queues 7 0) 4096))
remove_free_block-Lists_example =
    remove_free_block-Lists started started-IsValid.queues 4096 7 0 started-IsValid.valid.lists
      listed_example

-- Two neighbours of 100 bytes are taken, the second is released and then the first: the stale
-- address of the second passes the guards again.
stale_address :
    may_free (deallocate (deallocate (allocate_impl taken 100).1 (some 4264)) (some 4128)) 4232
    ≡ true
unfolding init insert_free_block insert_at allocate_impl search_suitable_block mapping_search
    mapping_insert highest pow2 find_lowest_bit search_higher deallocate release_block merge_next
    merge_prev remove_free_block remove_at allocate_found
stale_address = refl
