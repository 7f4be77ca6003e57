-- ===== src/Kernel/Heap/Found.antt =====
-- `allocate_impl` past its search keeps the heap in order.
use aurora_os.Prelude.{
  ℕ, ◌+◌, ◌-◌, ◌%◌, ◌≤◌, ◌≡◌, refl, inl, inr, ◌∙◌, sym, ap, Bool, true, false, none, some, List,
  ◌==◌, if◌then◌else◌, arith, contains, Bool-cases, ==_iff, ==_self,
}
use mathlib.Core.Path.{subst}
use aurora_os.Prelude.Store.{update}
use aurora_os.Kernel.Heap.{Heap, insert_at, insert_free_block, remove_free_block, header_size}
use aurora_os.Kernel.Heap.Ops.{carve, splits, allocate_found, word}
use aurora_os.Kernel.Heap.Tiles.{Valid, is_listed}
use aurora_os.Kernel.Heap.Free.{without, with_front, removed-same, remove-Valid, insert-Valid}
use aurora_os.Kernel.Heap.Carve.{
  insert_after, insert_after-here, insert_after-kept, carved, carved_other, carved_here,
}
use aurora_os.Kernel.Heap.Alloc.{carve-Valid, rest-new, rest_unlisted}

-- The block is in use, with its size and the size that was asked for.
pub record Kept (h : Heap) (h' : Heap) (l : List ℕ) (l' : List ℕ) (j : ℕ) : Type 0 where
  pub still : contains j l' ≡ true
  pub used : h'.is_free j ≡ false
  pub same_size : h'.size j ≡ h.size j
  pub same_request : h'.requested_size j ≡ h.requested_size j

-- What an allocation does: block `x` is in use after it, with at least `req` bytes if it had as
-- many before, and every block that was in use is as it was.
pub record Allocates (h : Heap) (h' : Heap) (l : List ℕ) (l' : List ℕ) (x n req : ℕ) : Type 0 where
  pub member : contains x l' ≡ true
  pub busy : h'.is_free x ≡ false
  pub enough : req ≤ h.size x → req ≤ h'.size x
  pub request : h'.requested_size x ≡ n
  pub kept : (j : ℕ) → contains j l ≡ true → h.is_free j ≡ false → Kept h h' l l' j

-- The last lines of `allocate_impl`, which mark the block.
abbrev pub mark_used : Heap → ℕ → ℕ → Heap
mark_used h x n = record h {
  is_free = update h.is_free x false;
  requested_size = update h.requested_size x n;
  total_free_memory = (h.total_free_memory + word - (h.size x - header_size)) % word;
}

pub mark_used-Valid :
    (h : Heap) (q : ℕ → ℕ → List ℕ) (l : List ℕ) (x n : ℕ)
    → Valid h q l none
    → h.is_free x ≡ false
    → Valid (mark_used h x n) q l none
mark_used-Valid h q l x n v busy = record {
  head = v.head;
  span = v.span;
  within = v.within;
  chain = v.chain;
  marked = v.marked;
  lists = record {
    linked = v.lists.linked;
    top = v.lists.top;
    nodup = v.lists.nodup;
    class = v.lists.class;
    sl_bit = v.lists.sl_bit;
    fl_bit = v.lists.fl_bit;
  };
  listed = v.listed;
  free = λ b k out. same b ∙ v.free b k out;
}
  where
    same : (b : ℕ) → update h.is_free x false b ≡ h.is_free b
    same b = elim (Bool-cases (x == b)) [
      | inl this ↦
          ap (λ c. if c then false else h.is_free b) this
          ∙ sym busy
          ∙ ap h.is_free ((==_iff x b).0 this)
      | inr that ↦ ap (λ c. if c then false else h.is_free b) that
    ]

module _ (h : Heap) (q : ℕ → ℕ → List ℕ) (l : List ℕ) (v : Valid h q l none) (x n req : ℕ)
    (here : contains x l ≡ true) (listed : is_listed h.size q x ≡ true) (p : 40 ≤ req)
    (m : req % 8 ≡ 0) where
  abbrev removed : Heap
  removed = remove_free_block h x

  removed_busy : removed.is_free x ≡ false
  removed_busy =
      ap (λ z. z x) (removed-same h q l none v x listed).1
      ∙ ap (λ b. if b then false else h.is_free x) (==_self x)

  other : (j : ℕ) → contains j l ≡ true → h.is_free j ≡ false → x == j ≡ false
  other j k used = ground (arith, used, v.free x here refl, listed)

  removed_used : (j : ℕ) → contains j l ≡ true → h.is_free j ≡ false → removed.is_free j ≡ false
  removed_used j k used =
      ap (λ z. z j) (removed-same h q l none v x listed).1
      ∙ ap (λ b. if b then false else h.is_free j) (other j k used)
      ∙ used

  abbrev split : Heap
  split = insert_free_block (carve removed x req) (x + req)

  abbrev parts : List ℕ
  parts = insert_after l x (x + req)

  v₁ : Valid removed (without q h x) l none
  v₁ = remove-Valid h q l none v x listed

  removed-Kept :
      (j : ℕ) → contains j l ≡ true → h.is_free j ≡ false → Kept h (mark_used removed x n) l l j
  removed-Kept j k used =
      let r = removed-same h q l none v x listed in
      record {
        still = k;
        used =
            ap (λ b. if b then false else removed.is_free j) (other j k used)
            ∙ removed_used j k used;
        same_size = ap (λ z. z j) r.0;
        same_request =
            ap (λ b. if b then n else removed.requested_size j) (other j k used)
            ∙ ap (λ z. z j) r.7;
      }

  whole : Allocates h (mark_used removed x n) l l x n req
  whole = record {
    member = here;
    busy = ap (λ b. if b then false else removed.is_free x) (==_self x);
    enough = λ le. subst (λ z. req ≤ z x) (sym (removed-same h q l none v x listed).0) le;
    request = ap (λ b. if b then n else removed.requested_size x) (==_self x);
    kept = removed-Kept;
  }

  module _ (fits : req + 40 ≤ removed.size x) where
    fresh : contains (x + req) l ≡ false
    fresh = rest-new removed (without q h x) l v₁ x req here removed_busy p fits m

    split-Valid :
        Valid split (with_front (without q h x) (carve removed x req) (x + req)) parts none
    split-Valid =
        insert-Valid (carve removed x req) (without q h x) parts (some (x + req))
          (carve-Valid removed (without q h x) l v₁ x req here removed_busy p fits m) (x + req)
          (insert_after-here l x (x + req) here)
          (rest_unlisted removed (without q h x) l v₁ x req here removed_busy p fits m _ _)
          (λ j k. k)

    apart : (j : ℕ) → contains j l ≡ true → (x + req) == j ≡ false
    apart j k = ground (arith, fresh)

    split_free : (j : ℕ) → contains j l ≡ true → split.is_free j ≡ removed.is_free j
    unfolding insert_free_block insert_at
    split_free j k =
        ap (λ b. if b then true else (if b then true else removed.is_free j)) (apart j k)

    split_size : split.size ≡ carved removed.size x req
    unfolding insert_free_block insert_at
    split_size = refl

    split_request :
        (j : ℕ) → contains j l ≡ true → split.requested_size j ≡ removed.requested_size j
    unfolding insert_free_block insert_at
    split_request j k = ap (λ b. if b then 0 else removed.requested_size j) (apart j k)

    split-Kept :
        (j : ℕ) → contains j l ≡ true → h.is_free j ≡ false → Kept h (mark_used split x n) l parts j
    split-Kept j k used =
        let r = removed-Kept j k used in
        record {
          still = insert_after-kept l x (x + req) j here k;
          used =
              ap (λ b. if b then false else split.is_free j) (other j k used)
              ∙ split_free j k
              ∙ removed_used j k used;
          same_size =
              ap (λ z. z j) split_size
              ∙ carved_other removed.size x req j (other j k used) (apart j k)
              ∙ r.same_size;
          same_request =
              ap (λ b. if b then n else split.requested_size j) (other j k used)
              ∙ split_request j k
              ∙ ap (λ z. z j) (removed-same h q l none v x listed).7;
        }

    in_parts : Allocates h (mark_used split x n) l parts x n req
    in_parts = record {
      member = insert_after-kept l x (x + req) x here here;
      busy = ap (λ b. if b then false else split.is_free x) (==_self x);
      enough = λ le. omega (arith, ap (λ z. z x) split_size ∙ carved_here removed.size x req);
      request = ap (λ b. if b then n else split.requested_size x) (==_self x);
      kept = split-Kept;
    }

  with_choice :
      (c : Bool)
      → (c ≡ true → req + 40 ≤ removed.size x)
      → (q' : ℕ → ℕ → List ℕ) × (l' : List ℕ) × Valid
          (mark_used (if c then split else removed) x n)
          q'
          l'
          none
        × Allocates h (mark_used (if c then split else removed) x n) l l' x n req
  with_choice true fits = (
    _,
    parts,
    mark_used-Valid split _ parts x n (split-Valid (fits refl))
        (split_free (fits refl) x here ∙ removed_busy),
    in_parts (fits refl),
  )
  with_choice false fits = (_, l, mark_used-Valid removed _ l x n v₁ removed_busy, whole)

  pub allocate_found-Allocates :
      (q' : ℕ → ℕ → List ℕ) × (l' : List ℕ) × Valid (allocate_found h x n req) q' l' none
      × Allocates h (allocate_found h x n req) l l' x n req
  unfolding allocate_found
  allocate_found-Allocates = with_choice (splits removed x req) (λ on. ground arith)
