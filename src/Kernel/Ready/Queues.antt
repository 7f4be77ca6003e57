-- ===== src/Kernel/Ready/Queues.antt =====
-- The ready queues of task.hpp as lists: what `push_ready` and `remove_ready` do to them.
use aurora_os.Prelude.{
  ℕ, ◌≤◌, ◌<◌, ◌≡◌, refl, ap, inl, inr, true, false, not, ◌&&◌, Option, none, some, List, [], ◌∷◌,
  ◌++◌, ◌==◌, is_some, arith, leb, contains, is_nodup, is_empty, Bool-cases, contains-append,
  is_nodup-append,
}
use aurora_os.Prelude.Store.{update}
use aurora_os.Kernel.Ready.{Sched, max_tasks, num_priorities, queue_of, push_ready, push_at}
use aurora_os.Kernel.Ready.Ring.{Seg, last, Seg-prev, Seg-frame}
use aurora_os.Kernel.Ready.Splice.{contains-last, push_ring}

-- The queue of one priority, read from its head.
abbrev pub IsRing : (ℕ → Option ℕ) → (ℕ → Option ℕ) → Option ℕ → List ℕ → Type 0
IsRing next prev head [] = head ≡ none
IsRing next prev head (h ∷ t) = (head ≡ some h) × Seg next prev h t h

-- The links of `s` represent the queues `q`: each priority's ring holds its queue in order, a bit is
-- set where a queue is not empty, and a task is in a queue, once and that of its priority, when its
-- `next_ready` is set.
pub record Queues (s : Sched) (q : ℕ → List ℕ) : Type 0 where
  pub ring : (p : ℕ) → p < num_priorities → IsRing s.next_ready s.prev_ready (s.ready_head p) (q p)
  pub bit : (p : ℕ) → p < num_priorities → s.ready_bitmask p ≡ not (is_empty (q p))
  pub nodup : (p : ℕ) → p < num_priorities → is_nodup (q p) ≡ true
  pub member :
      (i p : ℕ)
      → p < num_priorities
      → contains i (q p) ≡ (is_some (s.next_ready i) && (queue_of (s.current_priority i) == p))
  pub in_table : (i : ℕ) → max_tasks ≤ i → s.next_ready i ≡ none

pub queue_of-lt : (prio : ℕ) → queue_of prio < num_priorities
queue_of-lt prio = ground arith

pub IsRing-frame :
    (next prev next' prev' : ℕ → Option ℕ) (head : Option ℕ) (l : List ℕ)
    → ((j : ℕ) → contains j l ≡ true → next' j ≡ next j)
    → ((j : ℕ) → contains j l ≡ true → prev' j ≡ prev j)
    → IsRing next prev head l
    → IsRing next' prev' head l
IsRing-frame next prev next' prev' head [] hn hp r = r
IsRing-frame next prev next' prev' head (h ∷ t) hn hp r = (
  r.0,
  Seg-frame next prev next' prev' h t h hn
      (λ j c. hp j (ground (arith, contains-append j t (h ∷ [])))) r.1,
)

-- Two queues have no task in common.
apart :
    (s : Sched) (q : ℕ → List ℕ) (j p p' : ℕ)
    → Queues s q
    → p < num_priorities
    → p' < num_priorities
    → p == p' ≡ false
    → contains j (q p') ≡ true
    → contains j (q p) ≡ false
apart s q j p p' v h h' ne c = ground (arith, v.member j p h, v.member j p' h')

module _ (s : Sched) (q : ℕ → List ℕ) (i : ℕ) (v : Queues s q) (lt : i < max_tasks)
    (free : s.next_ready i ≡ none) where
  abbrev p : ℕ
  p = queue_of (s.current_priority i)

  absent : (p' : ℕ) → p' < num_priorities → contains i (q p') ≡ false
  absent p' h = ground (arith, v.member i p' h)

  other-IsRing :
      (next' prev' : ℕ → Option ℕ) (p' : ℕ)
      → p' < num_priorities
      → ((j : ℕ) → contains j (q p') ≡ true → next' j ≡ s.next_ready j)
      → ((j : ℕ) → contains j (q p') ≡ true → prev' j ≡ s.prev_ready j)
      → IsRing next' prev' (s.ready_head p') (q p')
  other-IsRing next' prev' p' h hn hp =
      IsRing-frame s.next_ready s.prev_ready next' prev' (s.ready_head p') (q p') hn hp
        (v.ring p' h)

  push_empty : q p ≡ [] → Queues (push_at s i p none) (update q p (i ∷ []))
  unfolding push_at
  push_empty e = record {
    ring = λ p' h. elim (Bool-cases (p == p')) [
      | inl same ↦ rw same (ground arith)
      | inr other ↦ rw other (
          other-IsRing _ _ p' h (λ j c. ground (arith, absent p' h))
            (λ j c. ground (arith, absent p' h)))
    ];
    bit = λ p' h. ground (arith, v.bit p' h);
    nodup = λ p' h. ground (arith, v.nodup p' h);
    member = λ j p' h. ground (arith, v.member j p' h, ap (contains j) e);
    in_table = λ j h. ground (arith, v.in_table j h);
  }

  module _ (x : ℕ) (t : List ℕ) (e : q p ≡ x ∷ t) where
    ring_used : (s.ready_head p ≡ some x) × Seg s.next_ready s.prev_ready x t x
    ring_used = rw e at (v.ring p (queue_of-lt (s.current_priority i)))

    tail_used : s.prev_ready x ≡ some (last x t)
    tail_used = Seg-prev s.next_ready s.prev_ready x t x ring_used.1

    used : (j : ℕ) → contains j (q p) ≡ contains j (x ∷ t)
    used j = ap (contains j) e

    apart_used :
        (j p' : ℕ)
        → p' < num_priorities
        → p == p' ≡ false
        → contains j (q p') ≡ true
        → contains j (x ∷ t) ≡ false
    apart_used j p' h ne c =
        ground (arith, used j, apart s q j p p' v (queue_of-lt (s.current_priority i)) h ne c)

    push_used : Queues (push_at s i p (some x)) (update q p (x ∷ (t ++ i ∷ [])))
    unfolding push_at
    push_used = record {
      ring = λ p' h. elim (Bool-cases (p == p')) [
        | inl same ↦ rw same (
          ground (arith, ring_used),
          push_ring s.next_ready s.prev_ready x t i
              (ground (arith, ap is_nodup e, v.nodup p (queue_of-lt (s.current_priority i))))
              (ground (arith, used i, absent p (queue_of-lt (s.current_priority i)))) ring_used.1,
        )
        | inr other ↦ rw other (
            other-IsRing _ _ p' h
              (λ j c. ground (arith, absent p' h, tail_used, apart_used j p' h, contains-last x t))
              (λ j c. ground (arith, absent p' h, apart_used j p' h)))
      ];
      bit = λ p' h. ground (arith, v.bit p' h, ap is_empty e);
      nodup = λ p' h. ground (
        arith,
        v.nodup p' h,
        ap is_nodup e,
        v.nodup p (queue_of-lt (s.current_priority i)),
        is_nodup-append (x ∷ t) i,
        used i,
        absent p (queue_of-lt (s.current_priority i)),
      );
      member = λ j p' h. ground (
        arith,
        v.member j p' h,
        v.member j p (queue_of-lt (s.current_priority i)),
        used j,
        contains-append j (x ∷ t) (i ∷ []),
        tail_used,
        contains-last x t,
        used (last x t),
        v.member (last x t) p (queue_of-lt (s.current_priority i)),
      );
      in_table = λ j h. ground (
        arith,
        v.in_table j h,
        tail_used,
        contains-last x t,
        used (last x t),
        v.member (last x t) p (queue_of-lt (s.current_priority i)),
        v.in_table (last x t),
      );
    }

  push_at-Queues :
      (l : List ℕ) → q p ≡ l → Queues (push_at s i p (s.ready_head p)) (update q p (l ++ i ∷ []))
  push_at-Queues [] e = rw (rw e at (v.ring p (queue_of-lt (s.current_priority i)))) (push_empty e)
  push_at-Queues (x ∷ t) e = rw (ring_used x t e).0 (push_used x t e)

-- `push_ready` puts a task at the end of the queue of its priority, and leaves the other queues.
pub push_ready-Queues :
    (s : Sched) (q : ℕ → List ℕ) (i : ℕ)
    → Queues s q
    → i < max_tasks
    → s.next_ready i ≡ none
    → let p = queue_of (s.current_priority i) in
      Queues (push_ready s i) (update q p (q p ++ i ∷ []))
unfolding push_ready
push_ready-Queues s q i v lt free = elim (Bool-cases (leb max_tasks i)) [
  | inl out ↦ absurd (ground arith)
  | inr in_range ↦ rw in_range (push_at-Queues s q i v lt free _ refl)
]
