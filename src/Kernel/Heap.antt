-- ===== src/Kernel/Heap.antt =====
-- kernel/mm/memory.hpp: the kernel's heap, a two-level segregated-fit allocator.
pub mod Ops
pub mod Classes
pub mod Search
pub mod Tiles
pub mod Links
pub mod Lists
pub mod Unlink
pub mod Unlist
pub mod Free
pub mod Carve
pub mod Merge
pub mod Alloc
pub mod Found
pub mod Absorb
pub mod Join
pub mod Release
pub mod Isolation
pub mod Start
use aurora_os.Prelude.{
  ℕ, zero, suc, ◌+◌, ◌-◌, ◌*◌, ◌/◌, ◌%◌, Bool, true, false, not, Option, none, some, ltb, leb, ◌==◌,
  ◌&&◌, ◌||◌, if◌then◌else◌, is_some,
}
use aurora_os.Prelude.Store.{update, update?, BitSet, no_bits, find_lowest_bit}

-- `sizeof(BlockHeader)` on a 32-bit machine, `TLSF_MAGIC`, `SMALL_BLOCK_SIZE` and the counts of the
-- two levels.
abbrev pub header_size : ℕ
header_size = 32

abbrev pub tlsf_magic : ℕ
tlsf_magic = 0x544C5346

abbrev pub small_block_size : ℕ
small_block_size = 32

abbrev pub fl_index_count : ℕ
fl_index_count = 20

abbrev pub sl_index_count : ℕ
sl_index_count = 16

-- The headers, field by field, by the address of the block, and the allocator's own fields. A null
-- pointer is `none`.
pub record Heap : Type 0 where
  pub fl_bitmap : BitSet
  pub sl_bitmap : ℕ → BitSet
  pub blocks : ℕ → ℕ → Option ℕ
  pub head_block : Option ℕ
  pub total_free_memory : ℕ
  pub total_size : ℕ
  pub magic : ℕ → ℕ
  pub size : ℕ → ℕ
  pub requested_size : ℕ → ℕ
  pub is_free : ℕ → Bool
  pub prev_phys : ℕ → Option ℕ
  pub next_phys : ℕ → Option ℕ
  pub next_free : ℕ → Option ℕ
  pub prev_free : ℕ → Option ℕ

-- `1u << k`
unfoldable pub pow2 : ℕ → ℕ
pow2 zero = 1
pow2 (suc k) = 2 * pow2 k

-- `Arch::find_highest_bit` of a size: the exponent of the largest power of two that it reaches. The
-- fuel is the width of a word.
unfoldable pub highest : ℕ → ℕ → ℕ
highest zero n = 0
highest (suc f) n = let rest = highest f (n / 2) in if ltb n 2 then 0 else suc rest

abbrev pub min_index : ℕ → ℕ → ℕ
min_index i count = if leb count i then count - 1 else i

-- `size ^ (1u << msb)` clears the highest bit, which is a subtraction.
unfoldable pub mapping_insert : ℕ → ℕ × ℕ
mapping_insert size =
    if ltb size small_block_size
    then (0, min_index (size / 2) sl_index_count)
    else (let msb = highest 32 size in
        (
          min_index (msb - 5) fl_index_count,
          min_index ((size - pow2 msb) / pow2 (msb - 4)) sl_index_count,
        ))

-- The size that is looked for, rounded up to the next class. It stays below 2 ^ 32 for the sizes
-- of a 32-bit machine's memory.
abbrev pub round_up : ℕ → ℕ
round_up size = if leb small_block_size size then size + (pow2 (highest 32 size - 4) - 1) else size

unfoldable pub mapping_search : ℕ → ℕ × ℕ
unfolding mapping_insert
mapping_search size = mapping_insert (round_up size % 4294967296)

-- The lowest bit of a word from `i` on.
abbrev pub lowest_from : ℕ → BitSet → Option ℕ
lowest_from i w = find_lowest_bit 32 0 (λ j. leb i j && w j)

-- `search_suitable_block`: in the class's own first level, or else in a higher one.
unfoldable pub search_higher : Heap → ℕ → Option ℕ
search_higher h fl =
    if leb fl_index_count (fl + 1) then none else elim (lowest_from (fl + 1) h.fl_bitmap) [
      | none ↦ none
      | some f ↦ elim (find_lowest_bit 32 0 (h.sl_bitmap f)) [ none ↦ none | some s ↦ h.blocks f s ]
    ]

unfoldable pub search_suitable_block : Heap → ℕ × ℕ → Option ℕ
unfolding search_higher
search_suitable_block h (fl, sl) =
    if leb fl_index_count fl then none else elim (lowest_from sl (h.sl_bitmap fl)) [
      | none ↦ search_higher h fl
      | some s ↦ h.blocks fl s
    ]

-- A function of two indices, changed at one place.
abbrev pub update2 {ℓ} : {A : Type ℓ} → (ℕ → ℕ → A) → ℕ → ℕ → A → ℕ → ℕ → A
update2 f i j v i' j' = if i == i' && j == j' then v else f i' j'

-- A word has a bit.
abbrev pub nonzero : BitSet → Bool
nonzero w = is_some (find_lowest_bit 32 0 w)

-- `insert_free_block` at its class.
unfoldable pub insert_at : Heap → ℕ → ℕ × ℕ → Heap
insert_at h block (fl, sl) = record h {
  is_free = update h.is_free block true;
  prev_free = update? (update h.prev_free block none) (h.blocks fl sl) (some block);
  next_free = update h.next_free block (h.blocks fl sl);
  blocks = update2 h.blocks fl sl (some block);
  fl_bitmap = update h.fl_bitmap fl true;
  sl_bitmap = update2 h.sl_bitmap fl sl true;
}

unfoldable pub insert_free_block : Heap → ℕ → Heap
unfolding insert_at
insert_free_block h block = insert_at h block (mapping_insert (h.size block))

-- `remove_free_block` at its class: the links, then the bits, then the header.
abbrev pub unlink_free : Heap → ℕ → ℕ → ℕ → Heap
unlink_free h block fl sl = record h {
  next_free = update? h.next_free (h.prev_free block) (h.next_free block);
  blocks =
      if is_some (h.prev_free block) then h.blocks else update2 h.blocks fl sl (h.next_free block);
  prev_free = update? h.prev_free (h.next_free block) (h.prev_free block);
}

abbrev pub clear_bits : Heap → ℕ → ℕ → Heap
clear_bits h fl sl =
    if is_some (h.blocks fl sl)
    then h
    else (let sls = update2 h.sl_bitmap fl sl false in
        record h {
          sl_bitmap = sls;
          fl_bitmap = if nonzero (sls fl) then h.fl_bitmap else update h.fl_bitmap fl false;
        })

unfoldable pub remove_at : Heap → ℕ → ℕ × ℕ → Heap
remove_at h block (fl, sl) =
    let h₁ = clear_bits (unlink_free h block fl sl) fl sl in
    record h₁ {
      is_free = update h₁.is_free block false;
      prev_free = update h₁.prev_free block none;
      next_free = update h₁.next_free block none;
    }

unfoldable pub remove_free_block : Heap → ℕ → Heap
unfolding remove_at
remove_free_block h block = remove_at h block (mapping_insert (h.size block))
