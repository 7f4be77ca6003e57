-- ===== src/Kernel/Heap/Join.antt =====
-- A free neighbour is taken out of its list and joined with a block.
use aurora_os.Prelude.{
  ℕ, ◌+◌, ◌≤◌, ◌≡◌, ◌⊎◌, inl, inr, ◌∙◌, sym, ap, true, false, not, ◌&&◌, ◌||◌, none, some, List,
  ◌==◌, if◌then◌else◌, arith, contains, erase, Bool-cases, ==_iff,
}
use aurora_os.Kernel.Heap.{Heap, remove_free_block}
use aurora_os.Kernel.Heap.Ops.{heap_start, absorb}
use aurora_os.Kernel.Heap.Tiles.{Span-nodup, Valid, is_listed, in_no_list}
use aurora_os.Kernel.Heap.Free.{without, removed-same, remove-Valid, removed-out, is_listed-without}
use aurora_os.Kernel.Heap.Merge.{joined_here, joined_other, next-ne, Span-adjacent}
use aurora_os.Kernel.Heap.Found.{Kept}
use aurora_os.Kernel.Heap.Absorb.{absorb-Valid, in_erase}

pub Kept-trans :
    {h h' h'' : Heap} {l l' l'' : List ℕ} {j : ℕ}
    → Kept h h' l l' j
    → Kept h' h'' l' l'' j
    → Kept h h'' l l'' j
Kept-trans a b = record {
  still = b.still;
  used = b.used;
  same_size = b.same_size ∙ a.same_size;
  same_request = b.same_request ∙ a.same_request;
}

pub conflict : false ≡ true → ⊥
conflict e = cc

-- `block` is joined with `z`, which is free; `x` is the first of the two and `y` the second.
module _ (h : Heap) (q : ℕ → ℕ → List ℕ) (l : List ℕ) (block z x y : ℕ)
    (v : Valid h q l (some block)) (out : is_listed h.size q block ≡ false)
    (listed : is_listed h.size q z ≡ true) (here : contains x l ≡ true)
    (there : contains y l ≡ true) (link : h.next_phys x ≡ some y)
    (pick : ((x ≡ block) × (y ≡ z)) ⊎ ((x ≡ z) × (y ≡ block))) where
  abbrev removed : Heap
  removed = remove_free_block h z

  abbrev pub join : Heap
  join = absorb removed x y

  out_block : is_listed removed.size (without q h z) block ≡ false
  out_block =
      ap (λ s. is_listed s (without q h z) block) (removed-same h q l (some block) v z listed).0
      ∙ is_listed-without h q v.lists z block
      ∙ ap (λ b. b && not (z == block)) out

  out_z : is_listed removed.size (without q h z) z ≡ false
  out_z = removed-out h q l (some block) v z listed

  x_out : is_listed removed.size (without q h z) x ≡ false
  x_out = elim pick [
    | inl (a, b) ↦ ap (is_listed removed.size (without q h z)) a ∙ out_block
    | inr (a, b) ↦ ap (is_listed removed.size (without q h z)) a ∙ out_z
  ]

  y_out : is_listed removed.size (without q h z) y ≡ false
  y_out = elim pick [
    | inl (a, b) ↦ ap (is_listed removed.size (without q h z)) b ∙ out_z
    | inr (a, b) ↦ ap (is_listed removed.size (without q h z)) b ∙ out_block
  ]

  link_kept : removed.next_phys x ≡ some y
  link_kept = ap (λ f. f x) (removed-same h q l (some block) v z listed).4 ∙ link

  w : Valid removed (without q h z) l (some block)
  w = remove-Valid h q l (some block) v z listed

  only : (j : ℕ) → block == j ≡ true → (x == j) || (y == j) ≡ true
  only j k = elim pick [
    | inl (a, b) ↦ ap (λ i. (i == j) || (y == j)) a ∙ ap (λ c. c || (y == j)) k
    | inr (a, b) ↦ ap (λ i. (x == j) || (i == j)) b ∙ ap (λ c. (x == j) || c) k ∙ ground arith
  ]

  pub join-Valid : Valid join (without q h z) (erase l y) (some x)
  join-Valid =
      absorb-Valid removed (without q h z) l (some block) w x y here there link_kept x_out y_out
        only

  pub join-out : is_listed join.size (without q h z) x ≡ false
  join-out = in_no_list removed (without q h z) x w.lists x_out _ _

  pub apart : block == z ≡ false
  apart = elim (Bool-cases (block == z)) [
    | inl this ↦
        absurd (conflict (sym out ∙ ap (is_listed h.size q) ((==_iff block z).0 this) ∙ listed))
    | inr that ↦ that
  ]

  z_free : h.is_free z ≡ true
  z_free = v.free z (v.listed _ _ z listed) apart ∙ listed

  z_other : (j : ℕ) → h.is_free j ≡ false → z == j ≡ false
  z_other j used = elim (Bool-cases (z == j)) [
    | inl this ↦ absurd (conflict (sym used ∙ sym (ap h.is_free ((==_iff z j).0 this)) ∙ z_free))
    | inr that ↦ that
  ]

  pub x_other : (j : ℕ) → h.is_free j ≡ false → block == j ≡ false → x == j ≡ false
  x_other j used ne = elim pick [
    | inl (a, b) ↦ ap (λ i. i == j) a ∙ ne
    | inr (a, b) ↦ ap (λ i. i == j) a ∙ z_other j used
  ]

  y_other : (j : ℕ) → h.is_free j ≡ false → block == j ≡ false → y == j ≡ false
  y_other j used ne = elim pick [
    | inl (a, b) ↦ ap (λ i. i == j) b ∙ z_other j used
    | inr (a, b) ↦ ap (λ i. i == j) b ∙ ne
  ]

  pub reversed : (i j : ℕ) → i == j ≡ false → j == i ≡ false
  reversed i j ne = ground arith

  behind : y == x ≡ false
  behind = reversed x y (
      next-ne h.next_phys h.prev_phys none l x y v.chain
        (Span-nodup h.size l (heap_start h) (heap_start h + h.total_size) v.span) here link)

  pub join-in : contains x (erase l y) ≡ true
  join-in =
      in_erase removed (without q h z) l (some block) w x y here there link_kept x_out y_out only x
        here behind

  adjacent : x + h.size x ≡ y
  adjacent =
      Span-adjacent h.size h.next_phys h.prev_phys none l (heap_start h)
        (heap_start h + h.total_size) x y v.chain v.span here link

  join_size : join.size x ≡ h.size x + h.size y
  join_size =
      joined_here removed.size removed.next_phys removed.prev_phys x y
      ∙ ap (λ f. f x + f y) (removed-same h q l (some block) v z listed).0

  -- The joined block covers the block.
  pub join_from : x ≤ block
  join_from = elim pick [ inl (a, b) ↦ omega (arith, a) | inr (a, b) ↦ omega (arith, adjacent, b) ]

  pub join_to : block + h.size block ≤ x + join.size x
  join_to = elim pick [
    | inl (a, b) ↦ omega (arith, join_size, ap (λ i. i + h.size i) a)
    | inr (a, b) ↦ omega (arith, join_size, adjacent, ap (λ i. i + h.size i) b)
  ]

  pub join_free : (j : ℕ) → join.is_free j ≡ (if z == j then false else h.is_free j)
  join_free j = ap (λ f. f j) (removed-same h q l (some block) v z listed).1

  pub join-Kept :
      (j : ℕ)
      → contains j l ≡ true
      → h.is_free j ≡ false
      → block == j ≡ false
      → Kept h join l (erase l y) j
  join-Kept j k used ne =
      let r = removed-same h q l (some block) v z listed in
      record {
        still =
            in_erase removed (without q h z) l (some block) w x y here there link_kept x_out y_out
              only j k (y_other j used ne);
        used = join_free j ∙ ap (λ b. if b then false else h.is_free j) (z_other j used) ∙ used;
        same_size =
            joined_other removed.size removed.next_phys removed.prev_phys x y j (x_other j used ne)
            ∙ ap (λ s. s j) r.0;
        same_request = ap (λ s. s j) r.7;
      }
