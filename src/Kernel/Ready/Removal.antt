-- ===== src/Kernel/Ready/Removal.antt =====
-- `remove_ready` of task.hpp takes a task out of its queue, and keeps the order of the others.
use aurora_os.Prelude.{
  ℕ, ◌<◌, ◌≡◌, refl, ◌∙◌, ap, inl, inr, true, false, Option, none, some, List, [], ◌∷◌, ◌++◌, ◌==◌,
  if◌then◌else◌, is_some, holds, arith, leb, contains, is_nodup, is_empty, erase, Bool-cases,
  contains-append, contains-erase, is_nodup-erase, split_at, ==_self, ==_iff, Option-cases,
  is_nodup_right,
}
use aurora_os.Prelude.Store.{update}
use aurora_os.Kernel.Ready.{Sched, max_tasks, num_priorities, queue_of, remove_ready, remove_at}
use aurora_os.Kernel.Ready.Ring.{Seg, last, first, Seg-prev, Seg-next, Seg-split}
use aurora_os.Kernel.Ready.Splice.{
  contains-last, remove_head, remove_inner, next_without, prev_without,
}
use aurora_os.Kernel.Ready.Queues.{Queues, IsRing, IsRing-frame, queue_of-lt}

module _ (s : Sched) (q : ℕ → List ℕ) (i : ℕ) (v : Queues s q) (n : ℕ)
    (linked : s.next_ready i ≡ some n) where
  abbrev r : ℕ
  r = queue_of (s.current_priority i)

  r_lt : r < num_priorities
  r_lt = queue_of-lt (s.current_priority i)

  present : contains i (q r) ≡ true
  present = ground (arith, v.member i r r_lt)

  remaining-IsRing :
      (next' prev' : ℕ → Option ℕ) (p' : ℕ)
      → p' < num_priorities
      → ((j : ℕ) → contains j (q p') ≡ true → next' j ≡ s.next_ready j)
      → ((j : ℕ) → contains j (q p') ≡ true → prev' j ≡ s.prev_ready j)
      → IsRing next' prev' (s.ready_head p') (q p')
  remaining-IsRing next' prev' p' h hn hp =
      IsRing-frame s.next_ready s.prev_ready next' prev' (s.ready_head p') (q p') hn hp
        (v.ring p' h)

  queue-IsRing : {l : List ℕ} → q r ≡ l → IsRing s.next_ready s.prev_ready (s.ready_head r) l
  queue-IsRing e = rw e at (v.ring r r_lt)

  -- `i` was alone in its queue.
  remove_only : q r ≡ i ∷ [] → Queues (remove_at s i r (some n)) (update q r (erase (q r) i))
  unfolding remove_at
  remove_only e = record {
    ring = λ p' h. elim (Bool-cases (r == p')) [
      | inl same ↦ rw (same, alone, e, ==_self i) (ground arith)
      | inr other ↦
          rw (other, alone)
            (rw (other) (
              remaining-IsRing (update s.next_ready i none) (update s.prev_ready i none) p' h
                (λ j c. ground (arith, separate p' h other))
                (λ j c. ground (arith, separate p' h other))))
    ];
    bit = λ p' h. ground (arith, alone, v.bit p' h, ap (λ l. is_empty (erase l i)) e);
    nodup = λ p' h. ground (arith, v.nodup p' h, is_nodup-erase i (q r));
    member =
        λ j p' h. ground (arith, alone, v.member j p' h, contains-erase i j (q r), v.nodup r r_lt);
    in_table = λ j h. ground (arith, alone, v.in_table j h);
  }
    where
      alone : n == i ≡ true
      alone = ground (arith, queue-IsRing e)

      separate : (p' : ℕ) → p' < num_priorities → r == p' ≡ false → contains i (q p') ≡ false
      separate p' h ne = ground (arith, v.member i p' h)

  -- `i` had other tasks beside it: `tl` before it, and `n` after it.
  module _ (tl : ℕ) (before : s.prev_ready i ≡ some tl) (tl_in : contains tl (q r) ≡ true)
      (n_in : contains n (q r) ≡ true) (tl_ne : tl == i ≡ false) (n_ne : n == i ≡ false)
      (rest : is_empty (erase (q r) i) ≡ false) where
    linked_member :
        (j p' : ℕ)
        → p' < num_priorities
        → r == p' ≡ false
        → contains j (q r) ≡ true
        → contains j (q p') ≡ false
    linked_member j p' h ne c = ground (arith, v.member j p' h, v.member j r r_lt)

    abbrev head' : ℕ → Option ℕ
    head' = if holds (s.ready_head r) i then update s.ready_head r (some n) else s.ready_head

    head_same :
        (p' : ℕ)
        → r == p' ≡ true
        → head' p' ≡ (if holds (s.ready_head r) i then some n else s.ready_head r)
    head_same p' same = elim (Bool-cases (holds (s.ready_head r) i)) [
      | inl e ↦ rw (e, same)
      | inr e ↦ rw e (ground arith)
    ]

    head_other : (p' : ℕ) → r == p' ≡ false → head' p' ≡ s.ready_head p'
    head_other p' other = elim (Bool-cases (holds (s.ready_head r) i)) [
      | inl e ↦ rw (e, other)
      | inr e ↦ rw e
    ]

    remove_beside :
        IsRing
          (next_without s.next_ready s.prev_ready i n)
          (prev_without s.next_ready s.prev_ready i n)
          (if holds (s.ready_head r) i then some n else s.ready_head r)
          (erase (q r) i)
        → Queues (remove_at s i r (some n)) (update q r (erase (q r) i))
    unfolding remove_at
    remove_beside ring' = record {
      ring = λ p' h. elim (Bool-cases (r == p')) [
        | inl same ↦ rw (n_ne, same, head_same p' same) ring'
        | inr other ↦
            rw (n_ne, other, head_other p' other)
              (remaining-IsRing (next_without s.next_ready s.prev_ready i n)
                (prev_without s.next_ready s.prev_ready i n) p' h
                (λ j c. ground (arith, before, v.member i p' h, linked_member tl p' h other))
                (λ j c. ground (arith, before, v.member i p' h, linked_member n p' h other)))
      ];
      bit = λ p' h. ground (arith, n_ne, v.bit p' h, rest, v.bit r r_lt, n_in);
      nodup = λ p' h. ground (arith, v.nodup p' h, is_nodup-erase i (q r));
      member = λ j p' h. ground (
        arith,
        n_ne,
        before,
        v.member j p' h,
        contains-erase i j (q r),
        v.nodup r r_lt,
        v.member tl r r_lt,
        tl_in,
      );
      in_table = λ j h.
          ground (arith, n_ne, before, v.in_table j h, v.member tl r r_lt, tl_in, v.in_table tl);
    }

  remove_first :
      (y : ℕ) (t : List ℕ)
      → q r ≡ i ∷ y ∷ t
      → Queues (remove_at s i r (some n)) (update q r (erase (q r) i))
  remove_first y t e =
      remove_beside (last y t) tail (ground (arith, ap (contains (last y t)) e, contains-last y t))
        (ground (arith, ap (contains n) e, after)) (ground (arith, distinct, contains-last y t))
        (ground (arith, distinct, after)) (ground (arith, ap (λ l. is_empty (erase l i)) e))
        (rw (e, ==_self i, after, ring.0, ==_self i)
          (refl, remove_head s.next_ready s.prev_ready i y t distinct ring.1))
    where
      ring : (s.ready_head r ≡ some i) × Seg s.next_ready s.prev_ready i (y ∷ t) i
      ring = queue-IsRing e

      tail : s.prev_ready i ≡ some (last y t)
      tail = Seg-prev s.next_ready s.prev_ready i (y ∷ t) i ring.1

      after : n ≡ y
      after = ground (arith, ring.1.0)

      distinct : is_nodup (i ∷ y ∷ t) ≡ true
      distinct = rw e at (v.nodup r r_lt)

  remove_later :
      (x : ℕ) (a b : List ℕ)
      → q r ≡ x ∷ (a ++ i ∷ b)
      → erase (q r) i ≡ x ∷ (a ++ b)
      → contains i (x ∷ a) ≡ false
      → Queues (remove_at s i r (some n)) (update q r (erase (q r) i))
  remove_later x a b e f out =
      remove_beside (last x a) tail
        (ground (
          arith,
          ap (contains (last x a)) e,
          contains-last x a,
          contains-append (last x a) a (i ∷ b),
        ))
        (ground (arith, ap (contains n) e, after, first_in b))
        (ground (arith, out, contains-last x a)) (ground (arith, after, first_ne a b distinct out))
        (ground (arith, ap is_empty f))
        (rw (f, after, ring.0, head_ne)
          (refl, remove_inner s.next_ready s.prev_ready x a i b distinct ring.1))
    where
      ring : (s.ready_head r ≡ some x) × Seg s.next_ready s.prev_ready x (a ++ i ∷ b) x
      ring = queue-IsRing e

      head_ne : x == i ≡ false
      head_ne = ground (arith, out)

      parts : Seg s.next_ready s.prev_ready x a i × Seg s.next_ready s.prev_ready i b x
      parts = Seg-split s.next_ready s.prev_ready x a i b x ring.1

      tail : s.prev_ready i ≡ some (last x a)
      tail = Seg-prev s.next_ready s.prev_ready x a i parts.0

      after : n ≡ first b x
      after = ground (arith, Seg-next s.next_ready s.prev_ready i b x parts.1)

      distinct : is_nodup (x ∷ (a ++ i ∷ b)) ≡ true
      distinct = rw e at (v.nodup r r_lt)

      first_in : (c : List ℕ) → contains (first c x) (x ∷ (a ++ i ∷ c)) ≡ true
      first_in [] = ground arith
      first_in (y ∷ c) = ground (arith, contains-append y a (i ∷ y ∷ c))

      first_ne :
          (d c : List ℕ)
          → is_nodup (x ∷ (d ++ i ∷ c)) ≡ true
          → contains i (x ∷ d) ≡ false
          → first c x == i ≡ false
      first_ne d [] h k = ground arith
      first_ne d (y ∷ c) h k = ground (arith, is_nodup_right (x ∷ d) (i ∷ y ∷ c) h)

  remove_at-Queues :
      (l : List ℕ) → q r ≡ l → Queues (remove_at s i r (some n)) (update q r (erase (q r) i))
  remove_at-Queues [] e = absurd (ground (arith, ap (contains i) e, present))
  remove_at-Queues (x ∷ l) e = elim (Bool-cases (x == i)) [
    | inl hit ↦ at_head l (e ∙ ap (λ j. j ∷ l) ((==_iff x i).0 hit))
    | inr miss ↦
        let (a, b, split, erased, out) =
          split_at i l (ground (arith, ap (contains i) e, present)) in
        remove_later x a b (e ∙ ap (λ k. x ∷ k) split)
          (ground (arith, ap (λ k. erase k i) e, erased)) (ground arith)
  ]
    where
      at_head :
          (k : List ℕ)
          → q r ≡ i ∷ k
          → Queues (remove_at s i r (some n)) (update q r (erase (q r) i))
      at_head [] e' = remove_only e'
      at_head (y ∷ t) e' = remove_first y t e'

-- `remove_ready` takes a task that is in a queue out of it, where it was first, last or alone too,
-- and keeps the order of the others; the other queues stay.
pub remove_ready-Queues :
    (s : Sched) (q : ℕ → List ℕ) (i : ℕ)
    → Queues s q
    → i < max_tasks
    → is_some (s.next_ready i) ≡ true
    → let p = queue_of (s.current_priority i) in
      Queues (remove_ready s i) (update q p (erase (q p) i))
unfolding remove_ready
remove_ready-Queues s q i v lt queued = elim (Bool-cases (leb max_tasks i)) [
  | inl out ↦ absurd (ground arith)
  | inr in_range ↦ elim (Option-cases (s.next_ready i)) [
    | inl free ↦ absurd (ground arith)
    | inr (n, linked) ↦ rw (in_range, linked) (remove_at-Queues s q i v n linked _ refl)
  ]
]
