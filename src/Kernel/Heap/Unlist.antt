-- ===== src/Kernel/Heap/Unlist.antt =====
-- `remove_free_block` takes a block out of its free list, and the bits follow.
use aurora_os.Prelude.{
  ℕ, ◌<◌, ◌≡◌, refl, inl, inr, ◌∙◌, sym, ap, Bool, true, false, ◌&&◌, none, is_some, List, [], ◌∷◌,
  ◌==◌, if◌then◌else◌, arith, contains, is_nodup, erase, Bool-cases, ==_iff, contains-erase,
  is_nodup-erase,
}
use mathlib.Core.Path.{subst}
use aurora_os.Prelude.Store.{update}
use aurora_os.Kernel.Heap.{
  Heap, mapping_insert, remove_at, remove_free_block, unlink_free, update2, nonzero,
}
use aurora_os.Kernel.Heap.Links.{first, Linked}
use aurora_os.Kernel.Heap.Lists.{Lists, class_small, nonzero_of_bit, row_kept, same_index}
use aurora_os.Kernel.Heap.Unlink.{remove-same, here-Linked, there-Linked, there-top, removed-top}

module _ (h : Heap) (q : ℕ → ℕ → List ℕ) (v : Lists h q) (t f s : ℕ)
    (here : contains t (q f s) ≡ true) where
  abbrev unlinked : Heap
  unlinked = unlink_free h t f s

  abbrev removed : Heap
  removed = remove_at h t (f, s)

  abbrev queues : ℕ → ℕ → List ℕ
  queues = update2 q f s (erase (q f s) t)

  -- Where the list is not empty, no bit changes.
  kept_bits :
      is_some (unlinked.blocks f s) ≡ true
      → (removed.sl_bitmap ≡ h.sl_bitmap) × (removed.fl_bitmap ≡ h.fl_bitmap)
  unfolding remove_at
  kept_bits on = rw on (refl, refl)

  cleared_bits :
      is_some (unlinked.blocks f s) ≡ false
      → (removed.sl_bitmap ≡ update2 h.sl_bitmap f s false)
        × (removed.fl_bitmap ≡ (
            if nonzero (update2 h.sl_bitmap f s false f)
            then h.fl_bitmap
            else update h.fl_bitmap f false))
  unfolding remove_at
  cleared_bits off = rw off (refl, refl)

  fl_cleared :
      (f' : ℕ) (x : Bool)
      → nonzero (update2 h.sl_bitmap f s false f) ≡ x
      → h.fl_bitmap f ≡ true
      → f == f' ≡ true
      → (if x then h.fl_bitmap else update h.fl_bitmap f false) f' ≡ x
  fl_cleared f' x e on same = ground arith

  held_top : is_some (h.blocks f s) ≡ true
  held_top = ap is_some (v.top f s) ∙ listed (q f s) here
    where
      listed : (l : List ℕ) → contains t l ≡ true → is_some (first l) ≡ true
      listed [] k = absurd (ground arith)
      listed (x ∷ l) k = refl

  small_sl : s < 32
  small_sl = ground (arith, class_small (h.size t), v.class f s t here)

  fl_on : h.fl_bitmap f ≡ true
  fl_on = v.fl_bit f ∙ nonzero_of_bit (h.sl_bitmap f) s small_sl (v.sl_bit f s ∙ held_top)

  -- A bit of the second level, by the list's state after the change.
  sl_lem :
      (f' s' : ℕ) (x y : Bool)
      → is_some (unlinked.blocks f s) ≡ x
      → f == f' && s == s' ≡ y
      → (if x then h.sl_bitmap else update2 h.sl_bitmap f s false) f' s'
        ≡ is_some (unlinked.blocks f' s')
  sl_lem f' s' true true e k =
      let (a, b) = same_index f f' s s' k in
      ap (λ i. h.sl_bitmap i s') (sym a)
      ∙ ap (h.sl_bitmap f) (sym b)
      ∙ v.sl_bit f s
      ∙ held_top
      ∙ sym e
      ∙ ap (unlinked_at s) a
      ∙ ap (λ j. is_some (unlinked.blocks f' j)) b
    where
      unlinked_at : ℕ → ℕ → Bool
      unlinked_at j i = is_some (unlinked.blocks i j)
  sl_lem f' s' true false e k =
      v.sl_bit f' s' ∙ ap is_some (sym ((there-top h q v t f s here) f' s' k))
  sl_lem f' s' false true e k =
      let (a, b) = same_index f f' s s' k in
      ap (λ c. if c then false else h.sl_bitmap f' s') k
      ∙ sym e
      ∙ ap (λ i. is_some (unlinked.blocks i s)) a
      ∙ ap (λ j. is_some (unlinked.blocks f' j)) b
  sl_lem f' s' false false e k =
      ap (λ c. if c then false else h.sl_bitmap f' s') k
      ∙ v.sl_bit f' s'
      ∙ ap is_some (sym ((there-top h q v t f s here) f' s' k))

  removed_sl : (f' s' : ℕ) → removed.sl_bitmap f' s' ≡ is_some (unlinked.blocks f' s')
  removed_sl f' s' = elim (Bool-cases (is_some (unlinked.blocks f s))) [
    | inl on ↦ ap (λ w. w f' s') (kept_bits on).0 ∙ sl_lem f' s' true (f == f' && s == s') on refl
    | inr off ↦
        ap (λ w. w f' s') (cleared_bits off).0 ∙ sl_lem f' s' false (f == f' && s == s') off refl
  ]

  fl_other :
      (f' : ℕ) (x : Bool)
      → f == f' ≡ false
      → (if x then h.fl_bitmap else update h.fl_bitmap f false) f' ≡ h.fl_bitmap f'
  fl_other f' x there = ground arith

  removed_fl : (f' : ℕ) → removed.fl_bitmap f' ≡ nonzero (removed.sl_bitmap f')
  removed_fl f' = elim (Bool-cases (is_some (unlinked.blocks f s))) [
    | inl on ↦
        let (a, b) = kept_bits on in
        ap (λ w. w f') b ∙ v.fl_bit f' ∙ ap (λ w. nonzero (w f')) (sym a)
    | inr off ↦
        let (a, b) = cleared_bits off in
        ap (λ w. w f') b
        ∙ elim (Bool-cases (f == f')) [
          | inl same ↦
              fl_cleared f' _ refl fl_on same
              ∙ ap (λ i. nonzero (update2 h.sl_bitmap f s false i)) ((==_iff f f').0 same)
          | inr there ↦
              fl_other f' _ there
              ∙ v.fl_bit f'
              ∙ ap nonzero (sym (row_kept h.sl_bitmap f s f' false there))
        ]
        ∙ ap (λ w. nonzero (w f')) (sym a)
  ]

  removed_nodup : (f' s' : ℕ) → is_nodup (queues f' s') ≡ true
  removed_nodup f' s' = ground (arith, v.nodup f' s', is_nodup-erase t (q f s) (v.nodup f s))

  removed_class :
      (f' s' b : ℕ) → contains b (queues f' s') ≡ true → mapping_insert (h.size b) ≡ (f', s')
  removed_class f' s' b k = ground (
    arith,
    v.class f' s' b,
    contains-erase t b (q f s) (v.nodup f s),
    v.class f s b,
    same_index f f' s s',
  )

  removed_links :
      (l : List ℕ)
      → Linked (update unlinked.next_free t none) (update unlinked.prev_free t none) none l
      → Linked removed.next_free removed.prev_free none l
  removed_links l k =
      let r = (remove-same h q v t f s here) in
      subst (λ n. Linked n removed.prev_free none l) (sym r.0)
        (subst (λ p. Linked (update unlinked.next_free t none) p none l) (sym r.1) k)

  -- The lists are right again once the block is out of the one of its class.
  pub remove-Lists : Lists (remove_at h t (f, s)) (update2 q f s (erase (q f s) t))
  remove-Lists =
      let r = (remove-same h q v t f s here) in
      record {
        linked = λ f' s'. elim (Bool-cases (f == f' && s == s')) [
          | inl same ↦ removed_links _ (rw same (here-Linked h q v t f s here))
          | inr other ↦ removed_links _ (rw other ((there-Linked h q v t f s here) f' s' other))
        ];
        top = λ f' s'. ap (λ b. b f' s') r.2 ∙ (removed-top h q v t f s here) f' s';
        nodup = removed_nodup;
        class = λ f' s' b k. ap (λ z. mapping_insert (z b)) r.3 ∙ removed_class f' s' b k;
        sl_bit = λ f' s'. removed_sl f' s' ∙ ap (λ b. is_some (b f' s')) (sym r.2);
        fl_bit = removed_fl;
      }

-- `remove_free_block` of a block that is in a free list takes it out of that list and no other: the
-- links lead through the lists without it, and the two levels of bits mark those not empty.
pub remove_free_block-Lists :
    (h : Heap) (q : ℕ → ℕ → List ℕ) (t f s : ℕ)
    → Lists h q
    → contains t (q f s) ≡ true
    → Lists (remove_free_block h t) (update2 q f s (erase (q f s) t))
unfolding remove_free_block
remove_free_block-Lists h q t f s v here =
    subst (λ c. Lists (remove_at h t c) (update2 q f s (erase (q f s) t)))
      (sym (v.class f s t here)) (remove-Lists h q v t f s here)
