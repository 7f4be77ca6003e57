-- ===== src/Kernel/MemoryPool.antt =====
-- kernel/mm/memory_pool.hpp: `MemoryPool`, slots of one size with a free list through them.
pub mod Slots
use aurora_os.Prelude.{
  ℕ, zero, suc, ◌+◌, ◌-◌, ◌*◌, ◌/◌, Bool, true, false, not, Option, none, some, ltb, leb, ◌==◌,
  ◌&&◌, ◌||◌, if◌then◌else◌,
}
use aurora_os.Prelude.Store.{update, BitSet, no_bits}

-- The place and the sizes of the buffer, which do not change.
pub record Layout : Type 0 where
  pub start : ℕ
  pub slot_size : ℕ
  pub pool_size : ℕ

-- `next` is the word at the start of a free slot. The words of `allocated_` are one set of bits.
pub record MemoryPool : Type 0 where
  pub next : ℕ → Option ℕ
  pub allocated : BitSet
  pub free_list : Option ℕ

abbrev pub slot_at : Layout → ℕ → ℕ
slot_at b i = b.start + i * b.slot_size

abbrev pub index_of : Layout → ℕ → ℕ
index_of b ptr = (ptr - b.start) / b.slot_size

-- The loop of the constructor, from slot `i` on.
unfoldable pub link_slots : Layout → ℕ → ℕ → (ℕ → Option ℕ) → ℕ → Option ℕ
link_slots b zero i next = update next (slot_at b i) none
link_slots b (suc n) i next =
    link_slots b n (i + 1) (update next (slot_at b i) (some (slot_at b (i + 1))))

unfoldable pub construct : Layout → MemoryPool → MemoryPool
unfolding link_slots
construct b p = record {
  next = link_slots b (b.pool_size - 1) 0 p.next;
  allocated = no_bits;
  free_list = some (slot_at b 0);
}

unfoldable pub allocate : Layout → MemoryPool → Option ℕ × MemoryPool
allocate b p = elim p.free_list [
  | none ↦ (none, p)
  | some slot ↦ (
    some slot,
    record p { free_list = p.next slot; allocated = update p.allocated (index_of b slot) true },
  )
]

-- The guards of `deallocate`: the address lies in the buffer, and its slot is allocated.
abbrev pub may_release : Layout → MemoryPool → ℕ → Bool
may_release b p ptr =
    leb b.start ptr && ltb ptr (b.start + b.pool_size * b.slot_size) && p.allocated (index_of b ptr)

unfoldable pub deallocate : Layout → MemoryPool → Option ℕ → MemoryPool
deallocate b p none = p
deallocate b p (some ptr) =
    if may_release b p ptr
    then (record p {
      allocated = update p.allocated (index_of b ptr) false;
      next = update p.next ptr p.free_list;
      free_list = some ptr;
    })
    else p
