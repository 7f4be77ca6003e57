-- ===== src/Kernel/Heap/Start.antt =====
-- `init` of the heap gives one free block.
use aurora_os.Prelude.{
  ℕ, ◌+◌, ◌-◌, ◌*◌, ◌/◌, ◌%◌, ◌≤◌, ◌<◌, ◌≡◌, refl, inl, inr, ◌∙◌, sym, ap, true, false, ◌&&◌, ◌||◌,
  leb, ltb, none, some, is_some, List, [], ◌∷◌, ◌==◌, if◌then◌else◌, arith, contains, Bool-cases,
  ==_self, zero, suc,
}
use aurora_os.Prelude.Store.{update, no_bits, BitSet, find_lowest_bit}
use aurora_os.Kernel.Heap.{
  Heap, header_size, tlsf_magic, insert_free_block, fl_index_count, sl_index_count,
}
use aurora_os.Kernel.Heap.Ops.{init}
use aurora_os.Kernel.Heap.Tiles.{Valid}
use aurora_os.Kernel.Heap.Free.{with_front, insert-Valid}
use aurora_os.Kernel.Heap.Isolation.{IsValid}

-- The tables have no other entries than those that `init` clears.
pub record Bounded (h : Heap) : Type 0 where
  pub rows : (i j : ℕ) → ltb i fl_index_count && ltb j sl_index_count ≡ false → h.blocks i j ≡ none
  pub words : (i j : ℕ) → ltb i fl_index_count ≡ false → h.sl_bitmap i j ≡ false

-- The state just before the block is put in its list.
abbrev laid_out : Heap → ℕ → ℕ → Heap
laid_out h start end = record h {
  fl_bitmap = no_bits;
  sl_bitmap = λ i. if ltb i fl_index_count then no_bits else h.sl_bitmap i;
  blocks = λ i j. if ltb i fl_index_count && ltb j sl_index_count then none else h.blocks i j;
  head_block = some start;
  magic = update h.magic start tlsf_magic;
  size = update h.size start (end - start);
  requested_size = update h.requested_size start 0;
  is_free = update h.is_free start true;
  prev_phys = update h.prev_phys start none;
  next_phys = update h.next_phys start none;
  next_free = update h.next_free start none;
  prev_free = update h.prev_free start none;
  total_size = end - start;
  total_free_memory = end - start - header_size;
}

unfoldable no_lists : ℕ → ℕ → List ℕ
no_lists f s = []

only_one : (a j : ℕ) → contains j (a ∷ []) ≡ true → a == j ≡ true
only_one a j k = ground arith

empty_word : (n i : ℕ) (w : BitSet) → ((j : ℕ) → w j ≡ false) → find_lowest_bit n i w ≡ none
unfolding find_lowest_bit
empty_word zero i w h = refl
empty_word (suc n) i w h =
    ap (λ b. if b then some i else find_lowest_bit n (suc i) w) (h i) ∙ empty_word n (suc i) w h

module _ (h : Heap) (b : Bounded h) (start end : ℕ) (room : start + 40 ≤ end)
    (eight : (end - start) % 8 ≡ 0) (high : end < 4294967296) where
  no_top : (f s : ℕ) → (laid_out h start end).blocks f s ≡ none
  no_top f s = elim (Bool-cases (ltb f fl_index_count && ltb s sl_index_count)) [
    | inl on ↦ ap (λ c. if c then none else h.blocks f s) on
    | inr off ↦ ap (λ c. if c then none else h.blocks f s) off ∙ b.rows f s off
  ]

  no_bit : (f s : ℕ) → (laid_out h start end).sl_bitmap f s ≡ false
  no_bit f s = elim (Bool-cases (ltb f fl_index_count)) [
    | inl on ↦ ap (λ c. (if c then no_bits else h.sl_bitmap f) s) on
    | inr off ↦ ap (λ c. (if c then no_bits else h.sl_bitmap f) s) off ∙ b.words f s off
  ]

  whole : (laid_out h start end).size start ≡ end - start
  whole = ap (λ c. if c then end - start else h.size start) (==_self start)

  laid_out-Valid : Valid (laid_out h start end) no_lists (start ∷ []) (some start)
  unfolding no_lists
  laid_out-Valid = record {
    head = refl;
    span = (refl, omega (arith, whole), ap (λ n. n % 8) whole ∙ eight, ap (λ n. start + n) whole);
    within = omega arith;
    chain = (
      ap (λ c. if c then none else h.prev_phys start) (==_self start),
      ap (λ c. if c then none else h.next_phys start) (==_self start),
      tt,
    );
    marked = λ j k. ap (λ c. if c then tlsf_magic else h.magic j) (only_one start j k);
    lists = record {
      linked = λ f s. tt;
      top = no_top;
      nodup = λ f s. refl;
      class = λ f s j k. absurd cc;
      sl_bit = λ f s. no_bit f s ∙ ap is_some (sym (no_top f s));
      fl_bit = λ f. sym (ap is_some (empty_word 32 0 _ (no_bit f)));
    };
    listed = λ f s j k. absurd cc;
    free = λ j k ne. absurd (ground (arith, ne, only_one start j k));
  }

guard :
    (s e : ℕ) → (s + 7) / 8 * 8 + 40 ≤ e / 8 * 8 → leb e s || ltb (e - s) (header_size + 8) ≡ false
guard s e h = ground arith

-- `init` on a region that holds the smallest block once its ends are aligned gives a heap in order,
-- which has one block.
pub init-IsValid :
    (h : Heap) (s e : ℕ)
    → Bounded h
    → (s + 7) / 8 * 8 + 40 ≤ e / 8 * 8
    → e < 4294967296
    → (h' : Heap) × (init h s e ≡ some h') × IsValid h' ((s + 7) / 8 * 8 ∷ [])
unfolding init no_lists
init-IsValid h s e b room high =
    let start = (s + 7) / 8 * 8 in
    let end = e / 8 * 8 in
    let w = laid_out-Valid h b start end room (omega (arith, room)) (omega (arith, high)) in
    (
      insert_free_block (laid_out h start end) start,
      ap (λ c. if c then none else some (insert_free_block (laid_out h start end) start))
          (guard s e room),
      record {
        queues = with_front no_lists (laid_out h start end) start;
        valid =
            insert-Valid (laid_out h start end) no_lists (start ∷ []) (some start) w start
              (ap (λ c. c || false) (==_self start)) refl (λ j k. k);
      },
    )
