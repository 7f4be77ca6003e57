-- ===== src/Kernel/Heap/Lists.antt =====
-- The free lists of the heap: one for each class, doubly linked, with two levels of bit maps that
-- say which are in use.
use aurora_os.Prelude.{
  ℕ, ◌<◌, ◌≡◌, refl, inl, inr, ◌∙◌, sym, ap, fun_ext, Bool, true, false, ◌&&◌, Option, none, some,
  is_some, List, ◌∷◌, ◌==◌, arith, contains, is_nodup, Bool-cases, ==_iff,
}
use aurora_os.Prelude.Store.{update, update?, BitSet, find_lowest_bit}
use aurora_os.Prelude.Lowest.{IsLowest, find_lowest_bit-IsLowest}
use aurora_os.Kernel.Heap.{
  Heap, mapping_insert, insert_at, update2, nonzero, sl_index_count, fl_index_count,
}
use aurora_os.Kernel.Heap.Links.{first, first-mem, Linked, Linked-frame, Linked-push}

-- The lists hold free blocks by their class, and the bit maps mark the lists that are not empty.
pub record Lists (h : Heap) (q : ℕ → ℕ → List ℕ) : Type 0 where
  pub linked : (f s : ℕ) → Linked h.next_free h.prev_free none (q f s)
  pub top : (f s : ℕ) → h.blocks f s ≡ first (q f s)
  pub nodup : (f s : ℕ) → is_nodup (q f s) ≡ true
  pub class : (f s b : ℕ) → contains b (q f s) ≡ true → mapping_insert (h.size b) ≡ (f, s)
  pub sl_bit : (f s : ℕ) → h.sl_bitmap f s ≡ is_some (h.blocks f s)
  pub fl_bit : (f : ℕ) → h.fl_bitmap f ≡ nonzero (h.sl_bitmap f)

pub class_small :
    (size : ℕ)
    → ((mapping_insert size).0 < fl_index_count) × ((mapping_insert size).1 < sl_index_count)
unfolding mapping_insert
class_small size = ground arith

-- A block is in the list of one class.
pub one_class :
    (h : Heap) (q : ℕ → ℕ → List ℕ) (f s f' s' b : ℕ)
    → Lists h q
    → contains b (q f s) ≡ true
    → f == f' && s == s' ≡ false
    → contains b (q f' s') ≡ false
one_class h q f s f' s' b v k other = elim (Bool-cases (contains b (q f' s'))) [
  | inr out ↦ out
  | inl inside ↦ absurd (ground (arith, v.class f s b k, v.class f' s' b inside))
]

-- A word with a bit below 32 is not zero.
pub nonzero_of_bit : (w : BitSet) (s : ℕ) → s < 32 → w s ≡ true → nonzero w ≡ true
nonzero_of_bit w s lt on = seen (find_lowest_bit 32 0 w) (find_lowest_bit-IsLowest 32 0 w)
  where
    seen : (o : Option ℕ) → IsLowest w 0 32 o → is_some o ≡ true
    seen (some m) h = refl
    seen none h = absurd (ground (arith, h s, on))

pub row_kept :
    (w : ℕ → BitSet) (f s f' : ℕ) (x : Bool) → f == f' ≡ false → update2 w f s x f' ≡ w f'
row_kept w f s f' x there = fun_ext (λ j. ground arith)

pub same_index : (f f' s s' : ℕ) → f == f' && s == s' ≡ true → (f ≡ f') × (s ≡ s')
same_index f f' s s' h = ground arith

module _ (h : Heap) (q : ℕ → ℕ → List ℕ) (v : Lists h q) (b f s : ℕ)
    (e : mapping_insert (h.size b) ≡ (f, s)) (out : (f s : ℕ) → contains b (q f s) ≡ false) where
  abbrev after : Heap
  after = insert_at h b (f, s)

  small : s < 16
  small = ground (arith, class_small (h.size b), e)

  bit_set : (f' : ℕ) → f == f' ≡ true → update h.fl_bitmap f true f' ≡ true
  bit_set f' here = ground arith

  bit_kept : (f' : ℕ) → f == f' ≡ false → update h.fl_bitmap f true f' ≡ h.fl_bitmap f'
  bit_kept f' there = ground arith

  b_other : (f' s' j : ℕ) → contains j (q f' s') ≡ true → b == j ≡ false
  b_other f' s' j k = ground (arith, out f' s')

  first_other :
      (f' s' j y : ℕ)
      → contains j (q f' s') ≡ true
      → f == f' && s == s' ≡ false
      → h.blocks f s ≡ some y
      → y == j ≡ false
  first_other f' s' j y k other top =
      ground
        (arith, one_class h q f s f' s' y v (first-mem (q f s) y (sym (v.top f s) ∙ top)) other)

  pushed_next : (j : ℕ) → b == j ≡ false → update h.next_free b (h.blocks f s) j ≡ h.next_free j
  pushed_next j ne = ground arith

  pushed_prev :
      (j : ℕ) (o : Option ℕ)
      → b == j ≡ false
      → ((y : ℕ) → o ≡ some y → y == j ≡ false)
      → update? (update h.prev_free b none) o (some b) j ≡ h.prev_free j
  pushed_prev j none ne k = ground arith
  pushed_prev j (some y) ne k = ground (arith, k y refl)

  pub insert-Lists : Lists (insert_at h b (f, s)) (update2 q f s (b ∷ q f s))
  unfolding insert_at
  insert-Lists = record {
    linked = λ f' s'. elim (Bool-cases (f == f' && s == s')) [
      | inl here ↦ rw here (
          Linked-push h.next_free h.prev_free b (q f s) (h.blocks f s) (v.top f s) (v.nodup f s)
            (out f s) (v.linked f s))
      | inr there ↦ rw there (
          Linked-frame h.next_free _ h.prev_free _ none (q f' s')
            (λ j k. (
              pushed_next j (b_other f' s' j k),
              pushed_prev j (h.blocks f s) (b_other f' s' j k)
                  (λ y e. first_other f' s' j y k there e),
            ))
            (v.linked f' s'))
    ];
    top = λ f' s'. ground (arith, v.top f' s');
    nodup = λ f' s'. ground (arith, v.nodup f' s', v.nodup f s, out f s);
    class = λ f' s' j k. elim (Bool-cases (f == f' && s == s')) [
      | inl here ↦ elim (Bool-cases (b == j)) [
        | inl this ↦ ground (arith, e, same_index f f' s s' here, (==_iff b j).0 this)
        | inr that ↦ ground (arith, v.class f' s' j, same_index f f' s s' here)
      ]
      | inr there ↦ v.class f' s' j (ground arith)
    ];
    sl_bit = λ f' s'. ground (arith, v.sl_bit f' s');
    fl_bit = λ f'. elim (Bool-cases (f == f')) [
      | inl here ↦
          bit_set f' here
          ∙ sym (
              nonzero_of_bit (update2 h.sl_bitmap f s true f') s (omega (arith, small))
                (ground arith))
      | inr there ↦
          bit_kept f' there
          ∙ v.fl_bit f'
          ∙ ap nonzero (sym (row_kept h.sl_bitmap f s f' true there))
    ];
  }
