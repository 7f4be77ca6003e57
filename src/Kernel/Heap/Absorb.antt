-- ===== src/Kernel/Heap/Absorb.antt =====
-- A block that is joined to the one before it leaves the chain, and the heap is in order but for
-- the mark of the block that remains.
use aurora_os.Prelude.{
  ℕ, ◌+◌, ◌≡◌, ◌∙◌, sym, ap, true, false, ◌||◌, Option, none, some, holds, List, ◌==◌, arith,
  contains, is_nodup, erase, contains-erase,
}
use aurora_os.Kernel.Heap.{Heap, mapping_insert}
use aurora_os.Kernel.Heap.Ops.{heap_start, absorb}
use aurora_os.Kernel.Heap.Lists.{Lists}
use aurora_os.Kernel.Heap.Tiles.{Span-nodup, Valid, is_listed, in_no_list}
use aurora_os.Kernel.Heap.Merge.{back_link, Span-join, chain_join, first_join, joined, joined_other}

module _ (h : Heap) (q : ℕ → ℕ → List ℕ) (l : List ℕ) (e : Option ℕ) (v : Valid h q l e) (x y : ℕ)
    (here : contains x l ≡ true) (there : contains y l ≡ true) (link : h.next_phys x ≡ some y)
    (x_out : is_listed h.size q x ≡ false) (y_out : is_listed h.size q y ≡ false)
    (only : (j : ℕ) → holds e j ≡ true → (x == j) || (y == j) ≡ true) where
  nodup : is_nodup l ≡ true
  nodup = Span-nodup h.size l (heap_start h) (heap_start h + h.total_size) v.span

  back : h.prev_phys y ≡ some x
  back = back_link h.next_phys h.prev_phys none l x y v.chain here link

  absorb_size :
      (f s b : ℕ)
      → contains b (q f s) ≡ true
      → joined h.size h.next_phys h.prev_phys x y b ≡ h.size b
  absorb_size f s b k =
      joined_other h.size h.next_phys h.prev_phys x y b
        (ground (arith, in_no_list h q x v.lists x_out f s))

  absorb-Lists : Lists (absorb h x y) q
  absorb-Lists = record {
    linked = v.lists.linked;
    top = v.lists.top;
    nodup = v.lists.nodup;
    class = λ f s b k. ap mapping_insert (absorb_size f s b k) ∙ v.lists.class f s b k;
    sl_bit = v.lists.sl_bit;
    fl_bit = v.lists.fl_bit;
  }

  pub in_erase : (b : ℕ) → contains b l ≡ true → y == b ≡ false → contains b (erase l y) ≡ true
  in_erase b k ne = ground (arith, contains-erase y b l nodup)

  of_erase : (b : ℕ) → contains b (erase l y) ≡ true → (contains b l ≡ true) × (y == b ≡ false)
  of_erase b k =
      (ground (arith, contains-erase y b l nodup), ground (arith, contains-erase y b l nodup))

  not_excepted : (b : ℕ) → x == b ≡ false → y == b ≡ false → holds e b ≡ false
  not_excepted b p r = ground (arith, only b)

  pub absorb-Valid : Valid (absorb h x y) q (erase l y) (some x)
  absorb-Valid = record {
    head = v.head ∙ sym (first_join h.size h.next_phys h.prev_phys x y l v.chain nodup there back);
    span =
        Span-join h.size h.next_phys h.prev_phys x y none l (heap_start h)
          (heap_start h + h.total_size) v.chain v.span nodup here link;
    within = v.within;
    chain = chain_join h.size h.next_phys h.prev_phys x y l v.chain nodup there back;
    marked = λ b k. v.marked b (of_erase b k).0;
    lists = absorb-Lists;
    listed = λ f s b k.
        in_erase b (v.listed f s b k) (ground (arith, in_no_list h q y v.lists y_out f s));
    free = λ b k ne.
        let (inside, other) = of_erase b k in
        v.free b inside (not_excepted b ne other)
        ∙ ap (λ n. contains b (q (mapping_insert n).0 (mapping_insert n).1))
            (sym (joined_other h.size h.next_phys h.prev_phys x y b ne));
  }
