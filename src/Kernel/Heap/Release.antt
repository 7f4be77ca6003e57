-- ===== src/Kernel/Heap/Release.antt =====
-- `deallocate` past its guards keeps the heap in order.
use aurora_os.Prelude.{
  ℕ, ◌+◌, ◌-◌, ◌%◌, ◌≤◌, ◌≡◌, refl, ◌⊎◌, inl, inr, ◌∙◌, sym, ap, Bool, true, false, ◌&&◌, Option,
  none, some, List, ◌==◌, if◌then◌else◌, arith, contains, is_nodup, Bool-cases, ==_self,
}
use aurora_os.Prelude.Store.{update}
use aurora_os.Kernel.Heap.{
  Heap, header_size, tlsf_magic, remove_free_block, insert_free_block, insert_at,
}
use aurora_os.Kernel.Heap.Ops.{
  heap_start, absorb, joins, merge_next, merge_prev, release_block, word,
}
use aurora_os.Kernel.Heap.Links.{next-mem}
use aurora_os.Kernel.Heap.Tiles.{Span-nodup, Valid, is_listed}
use aurora_os.Kernel.Heap.Free.{with_front, insert-Valid}
use aurora_os.Kernel.Heap.Merge.{fore_link, next-ne}
use aurora_os.Kernel.Heap.Found.{Kept}
use aurora_os.Kernel.Heap.Join.{
  Kept-trans, join-Valid, join-out, join-in, join_free, join_from, join_to, join-Kept, apart,
  x_other,
}

-- A heap in order but for a block that is on its way to a list. Block `x`, which is being freed,
-- is marked as free, and every other block that was in use is as it was.
pub record Releasing (h : Heap) (l : List ℕ) (x : ℕ) (h' : Heap) (block : ℕ) : Type 0 where
  pub queues : ℕ → ℕ → List ℕ
  pub tiles : List ℕ
  pub valid : Valid h' queues tiles (some block)
  pub member : contains block tiles ≡ true
  pub out : is_listed h'.size queues block ≡ false
  pub freed : h'.is_free x ≡ true
  pub from : block ≤ x
  pub to : x + h.size x ≤ block + h'.size block
  pub apart_from :
      (j : ℕ) → contains j l ≡ true → h.is_free j ≡ false → x == j ≡ false → block == j ≡ false
  pub kept :
      (j : ℕ) → contains j l ≡ true → h.is_free j ≡ false → x == j ≡ false → Kept h h' l tiles j

abbrev mark_free : Heap → ℕ → Heap
mark_free h block = record h {
  is_free = update h.is_free block true;
  requested_size = update h.requested_size block 0;
  total_free_memory = (h.total_free_memory + (h.size block - header_size)) % word;
}

mark_free-Releasing :
    (h : Heap) (q : ℕ → ℕ → List ℕ) (l : List ℕ) (x : ℕ)
    → Valid h q l none
    → contains x l ≡ true
    → h.is_free x ≡ false
    → Releasing h l x (mark_free h x) x
mark_free-Releasing h q l x v here used = record {
  queues = q;
  tiles = l;
  valid = record {
    head = v.head;
    span = v.span;
    within = v.within;
    chain = v.chain;
    marked = v.marked;
    lists = record {
      linked = v.lists.linked;
      top = v.lists.top;
      nodup = v.lists.nodup;
      class = v.lists.class;
      sl_bit = v.lists.sl_bit;
      fl_bit = v.lists.fl_bit;
    };
    listed = v.listed;
    free = λ b k ne. ap (λ c. if c then true else h.is_free b) ne ∙ v.free b k refl;
  };
  member = here;
  out = sym (v.free x here refl) ∙ used;
  freed = ap (λ c. if c then true else h.is_free x) (==_self x);
  from = omega arith;
  to = omega arith;
  apart_from = λ j k u ne. ne;
  kept = λ j k u ne. record {
    still = k;
    used = ap (λ c. if c then true else h.is_free j) ne ∙ u;
    same_size = refl;
    same_request = ap (λ c. if c then 0 else h.requested_size j) ne;
  };
}

module _ (h : Heap) (l : List ℕ) (x : ℕ) (h' : Heap) (r : Releasing h l x h' x) where
  -- One of the two merges: the free neighbour `z` comes before the block or behind it.
  merge-Releasing :
      (z a b : ℕ)
      → is_listed h'.size r.queues z ≡ true
      → contains a r.tiles ≡ true
      → contains b r.tiles ≡ true
      → h'.next_phys a ≡ some b
      → ((a ≡ x) × (b ≡ z)) ⊎ ((a ≡ z) × (b ≡ x))
      → Releasing h l x (absorb (remove_free_block h' z) a b) a
  merge-Releasing z a b listed here there link pick = record {
    queues = _;
    tiles = _;
    valid = join-Valid h' r.queues r.tiles x z a b r.valid r.out listed here there link pick;
    member = join-in h' r.queues r.tiles x z a b r.valid r.out listed here there link pick;
    out = join-out h' r.queues r.tiles x z a b r.valid r.out listed here there link pick;
    freed =
        join_free h' r.queues r.tiles x z a b r.valid r.out listed here there link pick x
        ∙ ap (λ c. if c then false else h'.is_free x)
            (swap x z (apart h' r.queues r.tiles x z a b r.valid r.out listed here there link pick))
        ∙ r.freed;
    from = join_from h' r.queues r.tiles x z a b r.valid r.out listed here there link pick;
    to =
        let grown = join_to h' r.queues r.tiles x z a b r.valid r.out listed here there link pick in
        omega (arith, grown, r.to);
    apart_from = λ j k u ne.
        x_other h' r.queues r.tiles x z a b r.valid r.out listed here there link pick j
          (r.kept j k u ne).used ne;
    kept = λ j k u ne.
        let s = r.kept j k u ne in
        Kept-trans s (
          join-Kept h' r.queues r.tiles x z a b r.valid r.out listed here there link pick j s.still
            s.used ne);
  }
    where
      swap : (i j : ℕ) → i == j ≡ false → j == i ≡ false
      swap i j ne = ground arith

  nodup : is_nodup r.tiles ≡ true
  nodup = Span-nodup h'.size r.tiles (heap_start h') (heap_start h' + h'.total_size) r.valid.span

  free_listed :
      (z : ℕ)
      → contains z r.tiles ≡ true
      → x == z ≡ false
      → joins h' z ≡ true
      → is_listed h'.size r.queues z ≡ true
  free_listed z k ne on =
      sym (r.valid.free z k ne) ∙ left (h'.is_free z) (h'.magic z == tlsf_magic) on
    where
      left : (a b : Bool) → a && b ≡ true → a ≡ true
      left true b e = refl
      left false b e = cc

  merge_next_any : (o : Option ℕ) → h'.next_phys x ≡ o → Releasing h l x (merge_next h' x o) x
  unfolding merge_next
  merge_next_any none e = r
  merge_next_any (some n) e = elim (Bool-cases (joins h' n)) [
    | inl on ↦
        let inside = next-mem h'.next_phys h'.prev_phys none r.tiles x n r.valid.chain r.member e in
        let ne =
          next-ne h'.next_phys h'.prev_phys none r.tiles x n r.valid.chain nodup r.member e in
        rw on
          (merge-Releasing n x n (free_listed n inside ne on) r.member inside e (inl (refl, refl)))
    | inr off ↦ rw off r
  ]

  merge_prev_any :
      (o : Option ℕ)
      → h'.prev_phys x ≡ o
      → Releasing h l x (merge_prev h' x o).0 (merge_prev h' x o).1
  unfolding merge_prev
  merge_prev_any none e = r
  merge_prev_any (some p) e =
      elim (fore_link h'.next_phys h'.prev_phys none r.tiles p x r.valid.chain r.member e) [
        | inl (a, b) ↦ absurd cc
        | inr (inside, link) ↦ elim (Bool-cases (joins h' p)) [
          | inl on ↦
              let ne = swap p x (
                next-ne h'.next_phys h'.prev_phys none r.tiles p x r.valid.chain nodup inside
                  link) in
              rw on (
                merge-Releasing p p x (free_listed p inside ne on) inside r.member link
                  (inr (refl, refl)))
          | inr off ↦ rw off r
        ]
      ]
    where
      swap : (i j : ℕ) → i == j ≡ false → j == i ≡ false
      swap i j ne = ground arith

-- The block is back in a list, within a free block.
pub record Releases (h : Heap) (l : List ℕ) (x : ℕ) (h' : Heap) : Type 0 where
  pub queues : ℕ → ℕ → List ℕ
  pub tiles : List ℕ
  pub valid : Valid h' queues tiles none
  pub home : ℕ
  pub home_in : contains home tiles ≡ true
  pub home_free : h'.is_free home ≡ true
  pub home_from : home ≤ x
  pub home_to : x + h.size x ≤ home + h'.size home
  pub freed : h'.is_free x ≡ true
  pub kept :
      (j : ℕ) → contains j l ≡ true → h.is_free j ≡ false → x == j ≡ false → Kept h h' l tiles j

insert-Releases :
    (h : Heap) (l : List ℕ) (x : ℕ) (h' : Heap) (block : ℕ)
    → Releasing h l x h' block
    → Releases h l x (insert_free_block h' block)
unfolding insert_free_block insert_at
insert-Releases h l x h' block r = record {
  queues = with_front r.queues h' block;
  tiles = r.tiles;
  valid = insert-Valid h' r.queues r.tiles (some block) r.valid block r.member r.out (λ j k. k);
  home = block;
  home_in = r.member;
  home_free = ap (λ c. if c then true else h'.is_free block) (==_self block);
  home_from = r.from;
  home_to = r.to;
  freed = either (block == x) r.freed;
  kept = λ j k u ne.
      let s = r.kept j k u ne in
      record {
        still = s.still;
        used = ap (λ c. if c then true else h'.is_free j) (r.apart_from j k u ne) ∙ s.used;
        same_size = s.same_size;
        same_request = s.same_request;
      };
}
  where
    either : {a : Bool} (c : Bool) → a ≡ true → (if c then true else a) ≡ true
    either true e = refl
    either false e = e

pub release_block-Releases :
    (h : Heap) (q : ℕ → ℕ → List ℕ) (l : List ℕ) (x : ℕ)
    → Valid h q l none
    → contains x l ≡ true
    → h.is_free x ≡ false
    → Releases h l x (release_block h x)
unfolding release_block
release_block-Releases h q l x v here used =
    let r = mark_free-Releasing h q l x v here used in
    let r₂ = merge_next_any h l x (mark_free h x) r (h.next_phys x) refl in
    insert-Releases h l x _ _ (merge_prev_any h l x _ r₂ _ refl)
