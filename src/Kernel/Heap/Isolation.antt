-- ===== src/Kernel/Heap/Isolation.antt =====
-- What `allocate` and `deallocate` of the heap promise: blocks that do not overlap, are large
-- enough, and are changed by nothing but their own release.
use aurora_os.Prelude.{
  ℕ, ◌+◌, ◌-◌, ◌%◌, ◌≤◌, ◌<◌, ◌≡◌, refl, ◌⊎◌, inl, inr, ◌∙◌, sym, ap, true, false, ◌||◌, ltb,
  Option, none, some, List, ◌==◌, if◌then◌else◌, arith, contains, Bool-cases,
}
use mathlib.Core.Path.{subst}
use aurora_os.Kernel.Heap.{
  Heap, header_size, mapping_insert, mapping_search, search_suitable_block, round_up,
}
use aurora_os.Kernel.Heap.Ops.{
  heap_start, allocate_found, allocate_impl, deallocate, get_requested_size, release_block,
  may_free, required, word,
}
use aurora_os.Kernel.Heap.Classes.{AtLeast, large, mapping_search-fits}
use aurora_os.Kernel.Heap.Search.{Best, search_suitable_block-Best}
use aurora_os.Kernel.Heap.Tiles.{
  Span-low, Span-high, Span-size, Span-apart, Valid, is_listed_of_class,
}
use aurora_os.Kernel.Heap.Found.{Kept, allocate_found-Allocates}
use aurora_os.Kernel.Heap.Release.{release_block-Releases}

-- The heap is in order, with these blocks.
pub record IsValid (h : Heap) (l : List ℕ) : Type 0 where
  pub queues : ℕ → ℕ → List ℕ
  pub valid : Valid h queues l none

-- The result of an allocation of `n` bytes. On success, the block before the address was free, is
-- in use and has room for the header and the bytes; on failure nothing has changed, and no free
-- block is of a class that is searched.
abbrev pub Outcome : Heap → List ℕ → ℕ → Option ℕ × Heap → Type 0
Outcome h l n (none, h') =
    (h' ≡ h)
    × ((n ≡ 0)
        ⊎ (word - 40 < n)
        ⊎ ((x : ℕ)
            → contains x l ≡ true
            → h.is_free x ≡ true
            → AtLeast (mapping_search (required n)) (mapping_insert (h.size x))
            → ⊥))
Outcome h l n (some ptr, h') =
    (x : ℕ) × (l' : List ℕ) × (ptr ≡ x + header_size)
    × (contains x l ≡ true)
    × (h.is_free x ≡ true)
    × IsValid h' l'
    × (contains x l' ≡ true)
    × (h'.is_free x ≡ false)
    × (h'.requested_size x ≡ n)
    × ((large ≤ round_up (required n)) ⊎ (n + header_size ≤ h'.size x))
    × ((j : ℕ) → contains j l' ≡ true → x == j ≡ false → (x + h'.size x ≤ j) ⊎ (j + h'.size j ≤ x))
    × ((j : ℕ) → contains j l ≡ true → h.is_free j ≡ false → Kept h h' l l' j)

out_of_range :
    {A : Type 0} (n : ℕ)
    → (n == 0) || ltb (word - 1 - 7 - header_size) n ≡ true
    → (n ≡ 0) ⊎ (word - 40 < n) ⊎ A
out_of_range n bad = elim (Bool-cases (n == 0)) [
  | inl nothing ↦ inl (ground arith)
  | inr some_bytes ↦ inr (inl (ground arith))
]

required_lem :
    (n : ℕ) → 0 < n → (40 ≤ required n) × (required n % 8 ≡ 0) × (n + header_size ≤ required n)
required_lem n h = (omega arith, omega arith, omega arith)

module _ (h : Heap) (l : List ℕ) (v : IsValid h l) (n : ℕ) (pos : 0 < n) where
  listed_free : (f s x : ℕ) → contains x (v.queues f s) ≡ true → h.is_free x ≡ true
  listed_free f s x k =
      v.valid.free x (v.valid.listed f s x k) refl
      ∙ is_listed_of_class h v.queues f s x v.valid.lists k

  found :
      (o : Option ℕ)
      → Best v.queues (mapping_search (required n)) o
      → Outcome h l n (elim o [
        | none ↦ (none, h)
        | some b ↦ (some (b + header_size), allocate_found h b n (required n))
      ])
  found none best =
      (refl, inr (inr (λ x k free above. best _ _ x (sym (v.valid.free x k refl) ∙ free) above)))
  found (some x) (f, s, k, above, least) =
      let inside = v.valid.listed f s x k in
      let (forty, eight, room) = required_lem n pos in
      let (q', l', w, a) =
        allocate_found-Allocates h v.queues l v.valid x n (required n) inside
          (is_listed_of_class h v.queues f s x v.valid.lists k) forty eight in
      let size =
        Span-size h.size l (heap_start h) (heap_start h + h.total_size) x v.valid.span inside in
      let high =
        Span-high h.size l (heap_start h) (heap_start h + h.total_size) x v.valid.span inside in
      (
        x,
        l',
        refl,
        inside,
        listed_free f s x k,
        record { queues = q'; valid = w },
        a.member,
        a.busy,
        a.request,
        elim (Bool-cases (ltb (round_up (required n)) large)) [
          | inl small ↦ inr (
              let fits =
                mapping_search-fits (required n) (h.size x) (omega (arith, forty)) (ground arith)
                  (omega (arith, size)) (omega (arith, high, v.valid.within))
                  (subst (AtLeast (mapping_search (required n))) (sym (v.valid.lists.class f s x k))
                    above) in
              omega (arith, room, a.enough fits))
          | inr big ↦ inl (ground arith)
        ],
        λ j k ne. Span-apart _ l' _ _ x j w.span a.member k ne,
        a.kept,
      )

-- An allocation of `n` bytes from a heap in order. If it fails, the heap has not changed, and for a
-- size in range no free block is of the class that is searched or of a higher one. If it gives an
-- address, that is behind the header of a block that was free and is now in use; the heap is in
-- order again; the block notes the request, overlaps no other block, and has room for its header
-- and for `n` bytes, if the size is below the limit up to which the classes are told apart; and
-- every other block in use is still one, with the size and the request that it had.
pub allocate_impl-Outcome :
    (h : Heap) (l : List ℕ) (n : ℕ) → IsValid h l → Outcome h l n (allocate_impl h n)
unfolding allocate_impl
allocate_impl-Outcome h l n v = elim (Bool-cases ((n == 0) || ltb (word - 1 - 7 - header_size) n)) [
  | inl bad ↦ rw bad (refl, out_of_range n bad)
  | inr ok ↦ rw ok (
      let best =
        search_suitable_block-Best h v.queues v.valid.lists (mapping_search (required n)).0
          (mapping_search (required n)).1 in
      found h l v n (ground arith) (search_suitable_block h (mapping_search (required n))) best)
]

-- The address of a block in use is that behind its header.
block_of : (x : ℕ) → x < 4294967296 → (x + header_size + word - header_size) % word ≡ x
block_of x h = omega arith

deallocate_free :
    (h : Heap) (x : ℕ)
    → x < 4294967296
    → h.is_free x ≡ true
    → deallocate h (some (x + header_size)) ≡ h
unfolding deallocate
deallocate_free h x lt free =
    ap (λ b. if may_free h b then release_block h b else h) (block_of x lt)
    ∙ ap (λ b. if b then release_block h x else h) (shut free)
  where
    shut : h.is_free x ≡ true → may_free h x ≡ false
    shut e = ground (arith, e)

module _ (h : Heap) (l : List ℕ) (x : ℕ) (v : IsValid h l) (here : contains x l ≡ true) where
  high : x + h.size x ≤ heap_start h + h.total_size
  high = Span-high h.size l (heap_start h) (heap_start h + h.total_size) x v.valid.span here

  below : x < heap_start h + h.total_size
  below = omega (
    arith,
    high,
    (Span-size h.size l (heap_start h) (heap_start h + h.total_size) x v.valid.span here).0,
  )

  block_lem : (x + header_size + word - header_size) % word ≡ x
  block_lem = block_of x (omega (arith, below, v.valid.within))

  may_free_used : h.is_free x ≡ false → may_free h x ≡ true
  may_free_used used = ground (
    arith,
    used,
    below,
    v.valid.marked x here,
    Span-low h.size l (heap_start h) (heap_start h + h.total_size) x v.valid.span here,
  )

  deallocate_at :
      deallocate h (some (x + header_size)) ≡ (if may_free h x then release_block h x else h)
  unfolding deallocate
  deallocate_at = ap (λ b. if may_free h b then release_block h b else h) block_lem

  get_requested_size_at :
      get_requested_size h (some (x + header_size))
      ≡ (if may_free h x then h.requested_size x else 0)
  unfolding get_requested_size
  get_requested_size_at = ap (λ b. if may_free h b then h.requested_size b else 0) block_lem

-- What the release of block `x` leaves: a heap in order, in which the bytes of the block lie in a
-- free block `home` of its sequence of blocks, every other block in use is as it was, and a second
-- release of the same address changes nothing.
pub record Freed (h : Heap) (l : List ℕ) (x : ℕ) (h' : Heap) : Type 0 where
  pub tiles : List ℕ
  pub valid : IsValid h' tiles
  pub home : ℕ
  pub home_in : contains home tiles ≡ true
  pub home_free : h'.is_free home ≡ true
  pub home_from : home ≤ x
  pub home_to : x + h.size x ≤ home + h'.size home
  pub free : h'.is_free x ≡ true
  pub kept :
      (j : ℕ) → contains j l ≡ true → h.is_free j ≡ false → x == j ≡ false → Kept h h' l tiles j
  pub again : deallocate h' (some (x + header_size)) ≡ h'

-- `deallocate` of a block in use of a heap in order: the heap is in order after it; the bytes of
-- the block lie in one of its blocks, which is free and so in a free list; every other block in use
-- is still one, with its size and its request; and a second call with the same address changes
-- nothing.
pub deallocate-Freed :
    (h : Heap) (l : List ℕ) (x : ℕ)
    → IsValid h l
    → contains x l ≡ true
    → h.is_free x ≡ false
    → Freed h l x (deallocate h (some (x + header_size)))
deallocate-Freed h l x v here used =
    let r = release_block-Releases h v.queues l x v.valid here used in
    let e =
      deallocate_at h l x v here
      ∙ ap (λ b. if b then release_block h x else h) (may_free_used h l x v here used) in
    subst (Freed h l x) (sym e) (record {
      tiles = r.tiles;
      valid = record { queues = r.queues; valid = r.valid };
      home = r.home;
      home_in = r.home_in;
      home_free = r.home_free;
      home_from = r.home_from;
      home_to = r.home_to;
      free = r.freed;
      kept = r.kept;
      again =
          deallocate_free (release_block h x) x (omega (arith, below h l x v here, v.valid.within))
            r.freed;
    })

-- The size that was asked for can be read back at the address that `allocate` gives.
pub get_requested_size-allocate_impl :
    (h : Heap) (l : List ℕ) (n ptr : ℕ)
    → IsValid h l
    → (allocate_impl h n).0 ≡ some ptr
    → get_requested_size (allocate_impl h n).1 (some ptr) ≡ n
get_requested_size-allocate_impl h l n ptr v =
    of_outcome (allocate_impl h n) (allocate_impl-Outcome h l n v)
  where
    of_outcome :
        (r : Option ℕ × Heap)
        → Outcome h l n r
        → r.0 ≡ some ptr
        → get_requested_size r.1 (some ptr) ≡ n
    of_outcome (none, h') o given = absurd cc
    of_outcome (some given_ptr, h') (x, l', e, k, free, w, inside, busy, request, room, clear, kept)
          given =
        ap (get_requested_size h') (sym given ∙ ap some e)
        ∙ get_requested_size_at h' l' x w inside
        ∙ ap (λ b. if b then h'.requested_size x else 0) (may_free_used h' l' x w inside busy)
        ∙ request
