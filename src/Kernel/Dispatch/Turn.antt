-- ===== src/Kernel/Dispatch/Turn.antt =====
-- The turn of the current task in `schedule` is a rotation of its queue.
use aurora_os.Prelude.{
  ℕ, ◌<◌, ◌≡◌, refl, ◌∙◌, ap, inl, inr, true, ◌&&◌, Option, none, some, List, [], ◌∷◌, ◌++◌, ◌==◌,
  if◌then◌else◌, holds, arith, contains, is_empty, is_nodup, Bool-cases, contains-append,
  is_nodup-append, ==_iff,
}
use aurora_os.Prelude.Store.{update}
use aurora_os.Kernel.Ready.{Sched, is_ready, num_priorities}
use aurora_os.Kernel.Ready.Ring.{Seg-join}
use aurora_os.Kernel.Ready.Queues.{Queues, IsRing}
use aurora_os.Kernel.Ready.Inv.{IsValid}
use aurora_os.Kernel.Dispatch.{turn}

abbrev pub first_of : List ℕ → Option ℕ
first_of [] = none
first_of (x ∷ xs) = some x

-- The first of a queue goes to its end.
abbrev pub rotate : List ℕ → List ℕ
rotate [] = []
rotate (x ∷ xs) = xs ++ x ∷ []

IsRing-head :
    (next prev : ℕ → Option ℕ) (head : Option ℕ) (l : List ℕ)
    → IsRing next prev head l
    → head ≡ first_of l
IsRing-head next prev head [] r = r
IsRing-head next prev head (x ∷ l) r = r.0

-- The head that the scheduler reads is the first of the queue.
pub ready_head-first :
    (s : Sched) (q : ℕ → List ℕ) (p : ℕ)
    → Queues s q
    → p < num_priorities
    → s.ready_head p ≡ first_of (q p)
ready_head-first s q p v h =
    IsRing-head s.next_ready s.prev_ready (s.ready_head p) (q p) (v.ring p h)

IsRing-rotate :
    (next prev : ℕ → Option ℕ) (head : Option ℕ) (x : ℕ) (l : List ℕ)
    → IsRing next prev head (x ∷ l)
    → IsRing next prev (next x) (rotate (x ∷ l))
IsRing-rotate next prev head x [] r = (r.1.0, r.1)
IsRing-rotate next prev head x (y ∷ l) r =
    (r.1.0, Seg-join next prev y l x [] y r.1.2 (r.1.0, r.1.1))

contains-rotate : (j : ℕ) (l : List ℕ) → contains j (rotate l) ≡ contains j l
contains-rotate j [] = refl
contains-rotate j (x ∷ l) = ground (arith, contains-append j l (x ∷ []))

is_nodup-rotate : (l : List ℕ) → is_nodup l ≡ true → is_nodup (rotate l) ≡ true
is_nodup-rotate [] h = refl
is_nodup-rotate (x ∷ l) h = ground (arith, is_nodup-append l x)

is_empty-rotate : (l : List ℕ) → is_empty (rotate l) ≡ is_empty l
is_empty-rotate [] = refl
is_empty-rotate (x ∷ []) = refl
is_empty-rotate (x ∷ y ∷ l) = refl

-- The queues after the turn.
abbrev pub turned : Sched → (ℕ → List ℕ) → ℕ → ℕ → List ℕ
turned s q cur =
    let p = s.current_priority cur in
    if is_ready (s.state cur) && holds (first_of (q p)) cur then update q p (rotate (q p)) else q

module _ (s : Sched) (q : ℕ → List ℕ) (cur : ℕ) (v : Queues s q)
    (h : s.current_priority cur < num_priorities) where
  abbrev p : ℕ
  p = s.current_priority cur

  turned-Queues :
      (l : List ℕ)
      → q p ≡ cur ∷ l
      → Queues
          (record s { ready_head = update s.ready_head p (s.next_ready cur) })
          (update q p (rotate (q p)))
  turned-Queues l e = record {
    ring = λ p' h'. elim (Bool-cases (p == p')) [
      | inl same ↦
          rw (same, e)
            (IsRing-rotate s.next_ready s.prev_ready (s.ready_head p) cur l (rw e at (v.ring p h)))
      | inr other ↦ rw other (v.ring p' h')
    ];
    bit = λ p' h'. ground (arith, v.bit p' h', is_empty-rotate (q p));
    nodup = λ p' h'. ground (arith, v.nodup p' h', is_nodup-rotate (q p));
    member = λ j p' h'. ground (arith, v.member j p' h', contains-rotate j (q p));
    in_table = v.in_table;
  }

  turn-Queues : Queues (turn s cur) (turned s q cur)
  unfolding turn
  turn-Queues =
      rw (ready_head-first s q p v h)
        (elim (Bool-cases (is_ready (s.state cur) && holds (first_of (q p)) cur)) [
          | inl e ↦ rw e (at_first (q p) refl (ground arith))
          | inr e ↦ rw e v
        ])
    where
      at_first :
          (l : List ℕ)
          → q p ≡ l
          → holds (first_of l) cur ≡ true
          → Queues
              (record s { ready_head = update s.ready_head p (s.next_ready cur) })
              (update q p (rotate (q p)))
      at_first [] e k = absurd (ground arith)
      at_first (x ∷ l) e k = turned-Queues l (e ∙ ap (λ j. j ∷ l) ((==_iff x cur).0 k))

pub turn-same :
    (s : Sched) (cur : ℕ)
    → ((turn s cur).state ≡ s.state)
      × ((turn s cur).current_priority ≡ s.current_priority)
      × ((turn s cur).base_priority ≡ s.base_priority)
      × ((turn s cur).next_ready ≡ s.next_ready)
      × ((turn s cur).task_count ≡ s.task_count)
unfolding turn
turn-same s cur = ground arith

-- The turn of a ready task that is first in its queue puts it at the end of that queue, and keeps
-- the order of the others and the other queues; else it changes nothing. It keeps the invariant.
pub turn-IsValid :
    (s : Sched) (q : ℕ → List ℕ) (cur : ℕ)
    → IsValid s q
    → cur < s.task_count
    → IsValid (turn s cur) (turned s q cur)
turn-IsValid s q cur v lt = record {
  queues = record {
    queues = turn-Queues s q cur v.queues.queues (v.current cur lt);
    queued = λ i. ground (arith, turn-same s cur, v.queues.queued i);
  };
  count = ground (arith, turn-same s cur, v.count);
  current = λ i h. ground (arith, turn-same s cur, v.current i);
  base = λ i h. ground (arith, turn-same s cur, v.base i);
  beyond = λ i h k. ground (arith, turn-same s cur, v.beyond i);
}
