-- ===== src/Kernel/Heap/Unlink.antt =====
-- `remove_free_block` takes a block out of the links of its free list.
use aurora_os.Prelude.{
  ℕ, ◌≡◌, refl, inl, inr, ◌∙◌, sym, ap, true, false, ◌&&◌, none, some, is_some, holds, List, ◌==◌,
  if◌then◌else◌, arith, contains, erase, Bool-cases, ==_self, contains-erase,
}
use aurora_os.Prelude.Store.{update}
use aurora_os.Kernel.Heap.{Heap, remove_at, unlink_free, clear_bits, update2}
use aurora_os.Kernel.Heap.Links.{
  first, Linked, Linked-frame, Linked-erase, next-mem, prev-mem, next_kept, prev_kept, next_without,
  prev_without, holds-mem,
}
use aurora_os.Kernel.Heap.Lists.{Lists, one_class, same_index}

module _ (h : Heap) (q : ℕ → ℕ → List ℕ) (v : Lists h q) (t f s : ℕ)
    (here : contains t (q f s) ≡ true) where
  abbrev unlinked : Heap
  unlinked = unlink_free h t f s

  -- What the bits and the header's own fields are set to does not touch these.
  pub remove-same :
      let h' = remove_at h t (f, s) in
      (h'.next_free ≡ update unlinked.next_free t none)
      × (h'.prev_free ≡ update unlinked.prev_free t none)
      × (h'.blocks ≡ unlinked.blocks)
      × (h'.size ≡ h.size)
      × (h'.is_free ≡ update h.is_free t false)
      × (h'.magic ≡ h.magic)
      × (h'.prev_phys ≡ h.prev_phys)
      × (h'.next_phys ≡ h.next_phys)
      × (h'.sl_bitmap ≡ (clear_bits unlinked f s).sl_bitmap)
      × (h'.fl_bitmap ≡ (clear_bits unlinked f s).fl_bitmap)
      × (h'.head_block ≡ h.head_block)
      × (h'.total_size ≡ h.total_size)
      × (h'.requested_size ≡ h.requested_size)
  unfolding remove_at
  remove-same = elim (Bool-cases (is_some (unlinked.blocks f s))) [
    | inl on ↦ rw on (refl, refl, refl, refl, refl, refl, refl, refl, refl, refl, refl, refl, refl)
    | inr off ↦
        rw off (refl, refl, refl, refl, refl, refl, refl, refl, refl, refl, refl, refl, refl)
  ]

  erased-Linked :
      Linked
        (next_without h.next_free h.prev_free t)
        (prev_without h.next_free h.prev_free t)
        none
        (erase (q f s) t)
      × (first (erase (q f s) t)
          ≡ (if holds (first (q f s)) t then h.next_free t else first (q f s)))
  erased-Linked =
      Linked-erase h.next_free h.prev_free t none (q f s) (v.linked f s) (v.nodup f s) here
        (λ z e. cc)

  pub here-Linked :
      Linked
        (update unlinked.next_free t none)
        (update unlinked.prev_free t none)
        none
        (erase (q f s) t)
  here-Linked =
      Linked-frame _ _ _ _ none (erase (q f s) t)
        (λ j k. (
          ground (arith, contains-erase t j (q f s) (v.nodup f s)),
          ground (arith, contains-erase t j (q f s) (v.nodup f s)),
        ))
        erased-Linked.0

  apart :
      (f' s' j : ℕ)
      → f == f' && s == s' ≡ false
      → contains j (q f' s') ≡ true
      → contains j (q f s) ≡ false
  apart f' s' j other k = elim (Bool-cases (contains j (q f s))) [
    | inr out ↦ out
    | inl inside ↦ absurd (ground (arith, one_class h q f s f' s' j v inside other))
  ]

  prev_here : (z : ℕ) → h.prev_free t ≡ some z → contains z (q f s) ≡ true
  prev_here z e =
      elim (prev-mem h.next_free h.prev_free none (q f s) t (v.linked f s) here (v.nodup f s)) [
        | inl (at, k) ↦ absurd (ground (arith, at, e))
        | inr (z', at, k, m) ↦ ground (arith, at, e, k)
      ]

  pub there-Linked :
      (f' s' : ℕ)
      → f == f' && s == s' ≡ false
      → Linked (update unlinked.next_free t none) (update unlinked.prev_free t none) none (q f' s')
  there-Linked f' s' other =
      Linked-frame h.next_free _ h.prev_free _ none (q f' s')
        (λ j k.
          let out = apart f' s' j other k in
          (
            ground (
              arith,
              here,
              out,
              next_kept h.next_free h.prev_free t j (h.prev_free t) refl
                  (holds-mem h.next_free h.prev_free t (h.prev_free t) j (q f s) prev_here out),
            ),
            ground (
              arith,
              here,
              out,
              prev_kept h.next_free h.prev_free t j (h.next_free t) refl (
                  holds-mem h.next_free h.prev_free t (h.next_free t) j (q f s)
                    (λ y e. next-mem h.next_free h.prev_free none (q f s) t y (v.linked f s) here e)
                    out),
            ),
          ))
        (v.linked f' s')

  here-top : unlinked.blocks f s ≡ first (erase (q f s) t)
  here-top =
      elim (prev-mem h.next_free h.prev_free none (q f s) t (v.linked f s) here (v.nodup f s)) [
        | inl (at, k) ↦
            ap (λ o. (if is_some o then h.blocks else update2 h.blocks f s (h.next_free t)) f s) at
            ∙ ground arith
            ∙ sym (
                erased-Linked.1
                ∙ ap (λ o. if holds o t then h.next_free t else first (q f s)) k
                ∙ ap (λ b. if b then h.next_free t else first (q f s)) (==_self t))
        | inr (z, at, k, m) ↦
            ap (λ o. (if is_some o then h.blocks else update2 h.blocks f s (h.next_free t)) f s) at
            ∙ v.top f s
            ∙ sym (erased-Linked.1 ∙ ap (λ b. if b then h.next_free t else first (q f s)) m)
      ]

  pub there-top : (f' s' : ℕ) → f == f' && s == s' ≡ false → unlinked.blocks f' s' ≡ h.blocks f' s'
  there-top f' s' other = elim (Bool-cases (is_some (h.prev_free t))) [
    | inl on ↦ ap (λ b. (if b then h.blocks else update2 h.blocks f s (h.next_free t)) f' s') on
    | inr off ↦
        ap (λ b. (if b then h.blocks else update2 h.blocks f s (h.next_free t)) f' s') off
        ∙ ap (λ b. if b then h.next_free t else h.blocks f' s') other
  ]

  abbrev removed : Heap
  removed = remove_at h t (f, s)

  abbrev queues : ℕ → ℕ → List ℕ
  queues = update2 q f s (erase (q f s) t)

  pub removed-top : (f' s' : ℕ) → unlinked.blocks f' s' ≡ first (queues f' s')
  removed-top f' s' = elim (Bool-cases (f == f' && s == s')) [
    | inl same ↦
        let (e, d) = same_index f f' s s' same in
        ap (λ i. unlinked.blocks i s') (sym e)
        ∙ ap (unlinked.blocks f) (sym d)
        ∙ here-top
        ∙ ap (λ b. first (if b then erase (q f s) t else q f' s')) (sym same)
    | inr other ↦
        there-top f' s' other
        ∙ v.top f' s'
        ∙ ap (λ b. first (if b then erase (q f s) t else q f' s')) (sym other)
  ]
