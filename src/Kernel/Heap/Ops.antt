-- ===== src/Kernel/Heap/Ops.antt =====
-- kernel/mm/memory.hpp: `init`, `allocate_impl` and `deallocate` of `KernelHeap`.
use aurora_os.Prelude.{
  ℕ, ◌+◌, ◌-◌, ◌*◌, ◌/◌, ◌%◌, Bool, true, false, Option, none, some, ltb, leb, ◌==◌, ◌&&◌, ◌||◌,
  if◌then◌else◌, not,
}
use aurora_os.Prelude.Store.{update, update?, no_bits}
use aurora_os.Kernel.Heap.{
  Heap, header_size, tlsf_magic, fl_index_count, sl_index_count, mapping_search,
  search_suitable_block, insert_free_block, remove_free_block,
}

abbrev pub word : ℕ
word = 4294967296

-- `init` on a region that is large enough, with the tables cleared; `none` is the panic.
unfoldable pub init : Heap → ℕ → ℕ → Option Heap
init h start_addr end_addr =
    if leb end_addr start_addr || ltb (end_addr - start_addr) (header_size + 8)
    then none
    else (let start = (start_addr + 7) / 8 * 8 in
        let end = end_addr / 8 * 8 in
        some (
          insert_free_block
            (record h {
              fl_bitmap = no_bits;
              sl_bitmap = λ i. if ltb i fl_index_count then no_bits else h.sl_bitmap i;
              blocks = λ i j.
                  if ltb i fl_index_count && ltb j sl_index_count then none else h.blocks i j;
              head_block = some start;
              magic = update h.magic start tlsf_magic;
              size = update h.size start (end - start);
              requested_size = update h.requested_size start 0;
              is_free = update h.is_free start true;
              prev_phys = update h.prev_phys start none;
              next_phys = update h.next_phys start none;
              next_free = update h.next_free start none;
              prev_free = update h.prev_free start none;
              total_size = end - start;
              total_free_memory = end - start - header_size;
            })
            start))

-- The rest of a block becomes a free block of its own.
abbrev pub carve : Heap → ℕ → ℕ → Heap
carve h block required_space =
    let rem = block + required_space in
    record h {
      magic = update h.magic rem tlsf_magic;
      size = update (update h.size rem (h.size block - required_space)) block required_space;
      requested_size = update h.requested_size rem 0;
      is_free = update h.is_free rem true;
      prev_phys = update? (update h.prev_phys rem (some block)) (h.next_phys block) (some rem);
      next_phys = update (update h.next_phys rem (h.next_phys block)) block (some rem);
    }

abbrev pub splits : Heap → ℕ → ℕ → Bool
splits h block required_space = leb (required_space + header_size + 8) (h.size block)

-- `allocate_impl` with the block that is found.
unfoldable pub allocate_found : Heap → ℕ → ℕ → ℕ → Heap
allocate_found h block size_orig required_space =
    let h₁ = remove_free_block h block in
    let h₂ =
      if splits h₁ block required_space
      then insert_free_block (carve h₁ block required_space) (block + required_space)
      else h₁ in
    record h₂ {
      is_free = update h₂.is_free block false;
      requested_size = update h₂.requested_size block size_orig;
      total_free_memory = (h₂.total_free_memory + word - (h₂.size block - header_size)) % word;
    }

abbrev pub required : ℕ → ℕ
required size = (size + 7) / 8 * 8 + header_size

unfoldable pub allocate_impl : Heap → ℕ → Option ℕ × Heap
unfolding allocate_found
allocate_impl h size =
    if size == 0 || ltb (word - 1 - 7 - header_size) size
    then (none, h)
    else elim (search_suitable_block h (mapping_search (required size))) [
      | none ↦ (none, h)
      | some block ↦ (some (block + header_size), allocate_found h block size (required size))
    ]

-- Block `y` is joined to `x`, which stands before it.
abbrev pub absorb : Heap → ℕ → ℕ → Heap
absorb h x y = record h {
  size = update h.size x (h.size x + h.size y);
  next_phys = update h.next_phys x (h.next_phys y);
  prev_phys = update? h.prev_phys (h.next_phys y) (some x);
}

abbrev pub joins : Heap → ℕ → Bool
joins h n = h.is_free n && h.magic n == tlsf_magic

unfoldable pub merge_next : Heap → ℕ → Option ℕ → Heap
merge_next h block none = h
merge_next h block (some n) = if joins h n then absorb (remove_free_block h n) block n else h

-- Also the block that remains.
unfoldable pub merge_prev : Heap → ℕ → Option ℕ → Heap × ℕ
merge_prev h block none = (h, block)
merge_prev h block (some p) =
    if joins h p then (absorb (remove_free_block h p) p block, p) else (h, block)

-- `deallocate` past its guards.
unfoldable pub release_block : Heap → ℕ → Heap
unfolding merge_next merge_prev
release_block h block =
    let h₁ = record h {
      is_free = update h.is_free block true;
      requested_size = update h.requested_size block 0;
      total_free_memory = (h.total_free_memory + (h.size block - header_size)) % word;
    } in
    let h₂ = merge_next h₁ block (h₁.next_phys block) in
    let (h₃, b) = merge_prev h₂ block (h₂.prev_phys block) in insert_free_block h₃ b

abbrev pub heap_start : Heap → ℕ
heap_start h = elim h.head_block [ none ↦ 0 | some a ↦ a ]

-- The guards of `deallocate`: the address lies in the heap and is that of a block in use.
abbrev pub may_free : Heap → ℕ → Bool
may_free h block =
    leb (heap_start h) block
    && ltb block (heap_start h + h.total_size)
    && h.magic block == tlsf_magic
    && not (h.is_free block)

unfoldable pub deallocate : Heap → Option ℕ → Heap
unfolding release_block
deallocate h none = h
deallocate h (some ptr) =
    let block = (ptr + word - header_size) % word in
    if may_free h block then release_block h block else h

unfoldable pub get_requested_size : Heap → Option ℕ → ℕ
get_requested_size h none = 0
get_requested_size h (some ptr) =
    let block = (ptr + word - header_size) % word in
    if may_free h block then h.requested_size block else 0

-- `contains`, which the system calls ask; the sum of address and length wraps.
unfoldable pub contains_range : Heap → Option ℕ → ℕ → Bool
contains_range h none len = false
contains_range h (some p) len = elim h.head_block [
  | none ↦ false
  | some start ↦
      not (h.total_size == 0)
      && leb p ((p + len) % word)
      && leb start p
      && leb ((p + len) % word) (start + h.total_size)
]
