-- ===== src/Kernel/Heap/Free.antt =====
-- `remove_free_block` and `insert_free_block` keep the heap in order.
use aurora_os.Prelude.{
  ℕ, ◌+◌, ◌<◌, ◌≡◌, refl, inl, inr, ◌∙◌, sym, ap, ap₂, true, false, not, ◌&&◌, ◌||◌, Option, none,
  some, holds, List, ◌∷◌, ◌==◌, if◌then◌else◌, arith, contains, is_nodup, erase, Bool-cases, ==_iff,
  ==_self, contains-erase,
}
use mathlib.Core.Path.{subst}
use aurora_os.Prelude.Store.{update}
use aurora_os.Kernel.Heap.{
  Heap, mapping_insert, insert_at, insert_free_block, remove_free_block, update2,
}
use aurora_os.Kernel.Heap.Ops.{heap_start}
use aurora_os.Kernel.Heap.Links.{Linked}
use aurora_os.Kernel.Heap.Lists.{Lists, insert-Lists, same_index}
use aurora_os.Kernel.Heap.Unlist.{remove-Lists}
use aurora_os.Kernel.Heap.Unlink.{remove-same}
use aurora_os.Kernel.Heap.Tiles.{Span, Valid, is_listed, in_no_list}

abbrev pub class_of : Heap → ℕ → ℕ × ℕ
class_of h b = mapping_insert (h.size b)

-- The lists without a block, and with one in front.
abbrev pub without : (ℕ → ℕ → List ℕ) → Heap → ℕ → ℕ → ℕ → List ℕ
without q h t =
    update2 q (class_of h t).0 (class_of h t).1 (erase (q (class_of h t).0 (class_of h t).1) t)

abbrev pub with_front : (ℕ → ℕ → List ℕ) → Heap → ℕ → ℕ → ℕ → List ℕ
with_front q h b =
    update2 q (class_of h b).0 (class_of h b).1 (b ∷ q (class_of h b).0 (class_of h b).1)

pub start_same : (h h' : Heap) → h'.head_block ≡ h.head_block → heap_start h' ≡ heap_start h
start_same h h' e = ap (λ o. elim o [ none ↦ 0 | some a ↦ a ]) e

places : (f s f' s' : ℕ) → f ≡ f' → s ≡ s' → f == f' && s == s' ≡ true
places f s f' s' e d = ground (arith, e, d)

contains_without :
    (q : ℕ → ℕ → List ℕ) (f s f' s' t b : ℕ)
    → is_nodup (q f s) ≡ true
    → (t == b ≡ true → (f ≡ f') × (s ≡ s'))
    → contains b (update2 q f s (erase (q f s) t) f' s') ≡ contains b (q f' s') && not (t == b)
contains_without q f s f' s' t b d one = elim (Bool-cases (f == f' && s == s')) [
  | inl same ↦
      let (x, y) = same_index f f' s s' same in
      ap (λ c. contains b (if c then erase (q f s) t else q f' s')) same
      ∙ contains-erase t b (q f s) d
      ∙ ap (λ i. contains b (q i s) && not (b == t)) x
      ∙ ap (λ j. contains b (q f' j) && not (b == t)) y
      ∙ ground arith
  | inr other ↦
      ap (λ c. contains b (if c then erase (q f s) t else q f' s')) other
      ∙ elim (Bool-cases (t == b)) [
        | inl eq ↦ absurd (ground (arith, other, places f s f' s' (one eq).0 (one eq).1))
        | inr ne ↦ ground (arith, ne)
      ]
]

same_class :
    (h : Heap) (t b : ℕ)
    → t == b ≡ true
    → ((class_of h t).0 ≡ (class_of h b).0) × ((class_of h t).1 ≡ (class_of h b).1)
same_class h t b eq =
    let e = (==_iff t b).0 eq in (ap (λ j. (class_of h j).0) e, ap (λ j. (class_of h j).1) e)

pub is_listed-without :
    (h : Heap) (q : ℕ → ℕ → List ℕ) (v : Lists h q) (t b : ℕ)
    → is_listed h.size (without q h t) b ≡ is_listed h.size q b && not (t == b)
is_listed-without h q v t b =
    contains_without q (class_of h t).0 (class_of h t).1 (class_of h b).0 (class_of h b).1 t b
      (v.nodup (class_of h t).0 (class_of h t).1) (same_class h t b)

contains_front :
    (q : ℕ → ℕ → List ℕ) (f s f' s' t b : ℕ)
    → (t == b ≡ true → (f ≡ f') × (s ≡ s'))
    → contains b (update2 q f s (t ∷ q f s) f' s') ≡ (t == b) || contains b (q f' s')
contains_front q f s f' s' t b one = elim (Bool-cases (f == f' && s == s')) [
  | inl same ↦
      let (x, y) = same_index f f' s s' same in
      ap (λ c. contains b (if c then t ∷ q f s else q f' s')) same
      ∙ ap (λ i. contains b (t ∷ q i s)) x
      ∙ ap (λ j. contains b (t ∷ q f' j)) y
      ∙ ground arith
  | inr other ↦
      ap (λ c. contains b (if c then t ∷ q f s else q f' s')) other ∙ elim (Bool-cases (t == b)) [
        | inl eq ↦ absurd (ground (arith, other, places f s f' s' (one eq).0 (one eq).1))
        | inr ne ↦ ground (arith, ne)
      ]
]

is_listed-with_front :
    (h : Heap) (q : ℕ → ℕ → List ℕ) (t b : ℕ)
    → is_listed h.size (with_front q h t) b ≡ (t == b) || is_listed h.size q b
is_listed-with_front h q t b =
    contains_front q (class_of h t).0 (class_of h t).1 (class_of h b).0 (class_of h b).1 t b
      (same_class h t b)

-- What is in a list that one element has left was there before.
in_without :
    (q : ℕ → ℕ → List ℕ) (f s f' s' t b : ℕ)
    → is_nodup (q f s) ≡ true
    → contains b (update2 q f s (erase (q f s) t) f' s') ≡ true
    → contains b (q f' s') ≡ true
in_without q f s f' s' t b d k = elim (Bool-cases (f == f' && s == s')) [
  | inl same ↦ ground (arith, same_index f f' s s' same, contains-erase t b (q f s) d)
  | inr other ↦ ground arith
]

in_front :
    (q : ℕ → ℕ → List ℕ) (f s f' s' t b : ℕ)
    → contains b (update2 q f s (t ∷ q f s) f' s') ≡ true
    → t == b || contains b (q f' s') ≡ true
in_front q f s f' s' t b k = elim (Bool-cases (f == f' && s == s')) [
  | inl same ↦ ground (arith, same_index f f' s s' same)
  | inr other ↦ ground arith
]

Span-same :
    (size size' : ℕ → ℕ) (l : List ℕ) (a a' n n' : ℕ)
    → size' ≡ size
    → a' ≡ a
    → n' ≡ n
    → Span size l a (a + n)
    → Span size' l a' (a' + n')
Span-same size size' l a a' n n' e d c v =
    subst (λ z. Span z l a' (a' + n')) (sym e)
      (subst (λ z. Span size l z (z + n')) (sym d) (subst (λ z. Span size l a (a + z)) (sym c) v))

Linked-same :
    (next next' prev prev' : ℕ → Option ℕ) (l : List ℕ)
    → next' ≡ next
    → prev' ≡ prev
    → Linked next prev none l
    → Linked next' prev' none l
Linked-same next next' prev prev' l e d v =
    subst (λ z. Linked z prev' none l) (sym e) (subst (λ z. Linked next z none l) (sym d) v)

module _ (h : Heap) (q : ℕ → ℕ → List ℕ) (l : List ℕ) (e : Option ℕ) (v : Valid h q l e) (t : ℕ)
    (here : is_listed h.size q t ≡ true) where
  abbrev removed : Heap
  removed = remove_free_block h t

  pub removed-same :
      (removed.size ≡ h.size)
      × (removed.is_free ≡ update h.is_free t false)
      × (removed.magic ≡ h.magic)
      × (removed.prev_phys ≡ h.prev_phys)
      × (removed.next_phys ≡ h.next_phys)
      × (removed.head_block ≡ h.head_block)
      × (removed.total_size ≡ h.total_size)
      × (removed.requested_size ≡ h.requested_size)
  unfolding remove_free_block
  removed-same =
      let r = remove-same h q v.lists t (class_of h t).0 (class_of h t).1 here in
      (r.3, r.4, r.5, r.6, r.7, r.10, r.11, r.12)

  removed-Lists : Lists removed (without q h t)
  unfolding remove_free_block
  removed-Lists = remove-Lists h q v.lists t (class_of h t).0 (class_of h t).1 here

  removed_listed : (f s b : ℕ) → contains b (without q h t f s) ≡ true → contains b l ≡ true
  removed_listed f s b k = v.listed f s b (
      in_without q (class_of h t).0 (class_of h t).1 f s t b
        (v.lists.nodup (class_of h t).0 (class_of h t).1) k)

  mark :
      (b : ℕ)
      → contains b l ≡ true
      → holds e b ≡ false
      → update h.is_free t false b ≡ is_listed h.size q b && not (t == b)
  mark b k out = ground (arith, v.free b k out)

  pub remove-Valid : Valid removed (without q h t) l e
  remove-Valid =
      let r = removed-same in
      record {
        head = r.5 ∙ v.head;
        span =
            Span-same h.size _ l (heap_start h) _ h.total_size _ r.0 (start_same h removed r.5) r.6
              v.span;
        within =
            subst (λ a. a < 4294967296) (sym (ap₂ (λ a b. a + b) (start_same h removed r.5) r.6))
              v.within;
        chain = Linked-same h.next_phys _ h.prev_phys _ l r.4 r.3 v.chain;
        marked = λ b k. ap (λ m. m b) r.2 ∙ v.marked b k;
        lists = removed-Lists;
        listed = removed_listed;
        free = λ b k out.
            ap (λ z. z b) r.1
            ∙ mark b k out
            ∙ sym (ap (λ z. is_listed z (without q h t) b) r.0 ∙ is_listed-without h q v.lists t b);
      }

  -- It is in no list after it.
  pub removed-out : is_listed removed.size (without q h t) t ≡ false
  removed-out =
      ap (λ z. is_listed z (without q h t) t) removed-same.0
      ∙ is_listed-without h q v.lists t t
      ∙ ap (λ x. is_listed h.size q t && not x) (==_self t)
      ∙ ground arith

module _ (h : Heap) (q : ℕ → ℕ → List ℕ) (l : List ℕ) (e : Option ℕ) (v : Valid h q l e) (b : ℕ)
    (here : contains b l ≡ true) (out : is_listed h.size q b ≡ false)
    (only : (j : ℕ) → holds e j ≡ true → b == j ≡ true) where
  inserted_listed : (f s j : ℕ) → contains j (with_front q h b f s) ≡ true → contains j l ≡ true
  inserted_listed f s j k = elim (Bool-cases (b == j)) [
    | inl this ↦ ground (arith, here)
    | inr that ↦
        v.listed f s j (ground (arith, in_front q (class_of h b).0 (class_of h b).1 f s b j k))
  ]

  inserted_mark :
      (j : ℕ) → contains j l ≡ true → update h.is_free b true j ≡ (b == j) || is_listed h.size q j
  inserted_mark j k = ground (arith, v.free j k, only j)

  pub insert-Valid : Valid (insert_free_block h b) (with_front q h b) l none
  unfolding insert_free_block insert_at
  insert-Valid = record {
    head = v.head;
    span = v.span;
    within = v.within;
    chain = v.chain;
    marked = v.marked;
    lists =
        insert-Lists h q v.lists b (class_of h b).0 (class_of h b).1 refl
          (in_no_list h q b v.lists out);
    listed = inserted_listed;
    free = λ j k n. inserted_mark j k ∙ sym (is_listed-with_front h q b j);
  }
