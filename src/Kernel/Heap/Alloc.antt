-- ===== src/Kernel/Heap/Alloc.antt =====
-- `allocate_impl` with the block that is found: it is taken out of its list and split.
use aurora_os.Prelude.{
  ℕ, ◌+◌, ◌%◌, ◌≤◌, ◌≡◌, refl, inl, inr, ◌∙◌, sym, ap, true, false, none, some, List, ◌==◌,
  if◌then◌else◌, arith, contains, Bool-cases, ==_iff,
}
use aurora_os.Prelude.Store.{update}
use aurora_os.Kernel.Heap.{Heap, mapping_insert, tlsf_magic}
use aurora_os.Kernel.Heap.Ops.{heap_start, carve}
use aurora_os.Kernel.Heap.Lists.{Lists}
use aurora_os.Kernel.Heap.Tiles.{Span-size, Span-nodup, Valid, is_listed, in_no_list}
use aurora_os.Kernel.Heap.Carve.{
  insert_after, first-insert_after, contains-insert_after, Span-gap, carved, carved_other,
  Span-carve, Linked-insert_after,
}

module _ (h : Heap) (q : ℕ → ℕ → List ℕ) (l : List ℕ) (v : Valid h q l none) (x req : ℕ)
    (here : contains x l ≡ true) (busy : h.is_free x ≡ false) (p : 40 ≤ req)
    (k : req + 40 ≤ h.size x) (m : req % 8 ≡ 0) where
  abbrev rest : ℕ
  rest = x + req

  unlisted : (f s : ℕ) → contains x (q f s) ≡ false
  unlisted = in_no_list h q x v.lists (sym (v.free x here refl) ∙ busy)

  pub rest-new : contains rest l ≡ false
  rest-new =
      Span-gap h.size l (heap_start h) (heap_start h + h.total_size) x rest v.span here
        (omega (arith, p)) (omega (arith, k))

  pub rest_unlisted : (f s : ℕ) → contains rest (q f s) ≡ false
  rest_unlisted f s = elim (Bool-cases (contains rest (q f s))) [
    | inl inside ↦ absurd (ground (arith, v.listed f s rest inside, rest-new))
    | inr out ↦ out
  ]

  listed_size : (f s b : ℕ) → contains b (q f s) ≡ true → carved h.size x req b ≡ h.size b
  listed_size f s b inside =
      carved_other h.size x req b (ground (arith, unlisted f s)) (ground (arith, rest_unlisted f s))

  carved-Lists : Lists (carve h x req) q
  carved-Lists = record {
    linked = v.lists.linked;
    top = v.lists.top;
    nodup = v.lists.nodup;
    class =
        λ f s b inside. ap mapping_insert (listed_size f s b inside) ∙ v.lists.class f s b inside;
    sl_bit = v.lists.sl_bit;
    fl_bit = v.lists.fl_bit;
  }

  in_new :
      (b : ℕ) → contains b (insert_after l x rest) ≡ true → rest == b ≡ false → contains b l ≡ true
  in_new b inside ne = ground (arith, contains-insert_after l x rest b here)

  carved_mark :
      (b : ℕ)
      → contains b (insert_after l x rest) ≡ true
      → update h.magic rest tlsf_magic b ≡ tlsf_magic
  carved_mark b inside = elim (Bool-cases (rest == b)) [
    | inl this ↦ ap (λ c. if c then tlsf_magic else h.magic b) this
    | inr that ↦
        ap (λ c. if c then tlsf_magic else h.magic b) that ∙ v.marked b (in_new b inside that)
  ]

  carved_free :
      (b : ℕ)
      → contains b (insert_after l x rest) ≡ true
      → rest == b ≡ false
      → update h.is_free rest true b ≡ is_listed (carved h.size x req) q b
  carved_free b inside ne =
      ap (λ c. if c then true else h.is_free b) ne ∙ elim (Bool-cases (x == b)) [
        | inl this ↦
            let same = (==_iff x b).0 this in
            ap h.is_free (sym same)
            ∙ busy
            ∙ sym (
                ap
                  (λ j. contains j (
                    q (mapping_insert (carved h.size x req b)).0
                      (mapping_insert (carved h.size x req b)).1))
                  (sym same)
                ∙ unlisted _ _)
        | inr that ↦
            v.free b (in_new b inside ne) refl
            ∙ ap (λ n. contains b (q (mapping_insert n).0 (mapping_insert n).1))
                (sym (carved_other h.size x req b that ne))
      ]

  pub carve-Valid : Valid (carve h x req) q (insert_after l x rest) (some rest)
  carve-Valid = record {
    head = v.head ∙ sym (first-insert_after l x rest);
    span =
        Span-carve h.size x req l (heap_start h) (heap_start h + h.total_size) v.span here p k m (
          omega (
            arith,
            m,
            k,
            (Span-size h.size l (heap_start h) (heap_start h + h.total_size) x v.span here).1,
          ));
    within = v.within;
    chain =
        Linked-insert_after h.next_phys h.prev_phys x rest none l v.chain
          (Span-nodup h.size l (heap_start h) (heap_start h + h.total_size) v.span) here rest-new;
    marked = carved_mark;
    lists = carved-Lists;
    listed = λ f s b inside.
        ground (arith, contains-insert_after l x rest b here, v.listed f s b inside);
    free = λ b inside ne. carved_free b inside ne;
  }
