-- ===== src/Kernel/Ready/Create.antt =====
-- `create_task` and `free_task` of task.hpp take and give back entries of the table.
use aurora_os.Prelude.{
  ℕ, zero, suc, ◌+◌, ◌≤◌, ◌<◌, ◌≡◌, ◌≢◌, inl, inr, true, false, Option, none, some, List, ltb, leb,
  ◌==◌, if◌then◌else◌, is_some, arith, contains, Bool-cases, Option-cases, ==_iff,
}
use aurora_os.Prelude.Store.{update}
use aurora_os.Kernel.Ready.{
  Sched, TaskState, is_ready, state_eq, max_tasks, num_priorities, push_ready, find_free, create_at,
  create_task, free_task,
}
use aurora_os.Kernel.Ready.Queues.{IsRing-frame}
use aurora_os.Kernel.Ready.Inv.{
  IsValid, Holds, Holds-cong, runnable, enqueue, dequeue, push_ready-same,
}
use aurora_os.Kernel.Ready.Change.{leave-same, enter-Holds, change-Holds}

-- The entry that is found is unallocated, and all before it are in use.
pub find_free-some :
    (n i : ℕ) (state : ℕ → TaskState) (k : ℕ)
    → find_free n i state ≡ some k
    → (state k ≡ TaskState.unallocated)
      × (k < i + n)
      × ((j : ℕ) → i ≤ j → j < k → state_eq (state j) TaskState.unallocated ≡ false)
unfolding find_free
find_free-some zero i state k e = cc
find_free-some (suc n) i state k e = elim (Bool-cases (state_eq (state i) TaskState.unallocated)) [
  | inl free ↦ (ground arith, ground arith, λ j p h. absurd (ground arith))
  | inr used ↦
      let (a, b, c) = find_free-some n (suc i) state k (ground arith) in
      (
        a,
        omega arith,
        λ j p h. elim (Bool-cases (j == i)) [
          | inl same ↦ ground arith
          | inr other ↦ c j (ground arith) h
        ],
      )
]

module _ (s : Sched) (q : ℕ → List ℕ) (v : IsValid s q) (i prio : ℕ) (lt : i < max_tasks)
    (free : s.state i ≡ TaskState.unallocated) (fits : prio < num_priorities) where
  -- The entry filled in, before `push_ready`.
  abbrev filled : Sched
  filled = record s {
    task_count = if leb s.task_count i then suc i else s.task_count;
    state = update s.state i TaskState.ready;
    sleep_ticks = update s.sleep_ticks i 0;
    base_priority = update s.base_priority i prio;
    current_priority = update s.current_priority i prio;
    next_ready = update s.next_ready i none;
    prev_ready = update s.prev_ready i none;
  }

  unlinked : is_some (s.next_ready i) ≡ false
  unlinked = ground (arith, v.queues.queued i, free)

  absent : (p : ℕ) → p < num_priorities → contains i (q p) ≡ false
  absent p h = ground (arith, v.queues.queues.member i p h, unlinked)

  filled-Holds : Holds filled q (runnable s)
  filled-Holds = record {
    queues = record {
      ring = λ p h.
          IsRing-frame s.next_ready s.prev_ready _ _ (s.ready_head p) (q p)
            (λ j c. ground (arith, absent p h)) (λ j c. ground (arith, absent p h))
            (v.queues.queues.ring p h);
      bit = v.queues.queues.bit;
      nodup = v.queues.queues.nodup;
      member = λ j p h. ground (arith, v.queues.queues.member j p h, unlinked);
      in_table = λ j h. ground (arith, v.queues.queues.in_table j h);
    };
    queued = λ j. ground (arith, v.queues.queued j, free);
  }

  created-Holds : Holds (create_at s i prio) (enqueue q prio i) (runnable (create_at s i prio))
  unfolding create_at
  created-Holds =
      Holds-cong (push_ready filled i) (enqueue q prio i) (update (runnable s) i true) _
        (λ j. ground (arith, push_ready-same filled i, v.beyond j))
        (rw ranked at (
          enter-Holds filled q (runnable s) i filled-Holds lt (ground (arith, free))
            (rw ranked fits)))
    where
      ranked : filled.current_priority i ≡ prio
      ranked = ground arith

  pub create_at-same :
      ((create_at s i prio).state ≡ filled.state)
      × ((create_at s i prio).current_priority ≡ filled.current_priority)
      × ((create_at s i prio).base_priority ≡ filled.base_priority)
      × ((create_at s i prio).sleep_ticks ≡ filled.sleep_ticks)
      × ((create_at s i prio).task_count ≡ filled.task_count)
  unfolding create_at
  create_at-same = push_ready-same filled i

  pub create_at-IsValid : i ≤ s.task_count → IsValid (create_at s i prio) (enqueue q prio i)
  create_at-IsValid within = record {
    queues = created-Holds;
    count = ground (arith, create_at-same, v.count);
    current = λ j h. ground (arith, create_at-same, v.current j);
    base = λ j h. ground (arith, create_at-same, v.base j);
    beyond = λ j h k. ground (arith, create_at-same, v.beyond j);
  }

find_free-none :
    (n i : ℕ) (state : ℕ → TaskState) (j : ℕ)
    → find_free n i state ≡ none
    → i ≤ j
    → j < i + n
    → state_eq (state j) TaskState.unallocated ≡ false
unfolding find_free
find_free-none zero i state j e p h = absurd (omega arith)
find_free-none (suc n) i state j e p h = elim (Bool-cases (j == i)) [
  | inl same ↦ ground arith
  | inr other ↦ find_free-none n (suc i) state j (ground arith) (ground arith) (omega arith)
]

-- What a call of `create_task` with a priority is to give.
abbrev pub Created : Sched → (ℕ → List ℕ) → ℕ → Option (ℕ × Sched) → Type 0
Created s q prio none = (j : ℕ) → j < max_tasks → s.state j ≢ TaskState.unallocated
Created s q prio (some (i, s')) =
    IsValid s' (enqueue q prio i)
    × (s.state i ≡ TaskState.unallocated)
    × (s'.state i ≡ TaskState.ready)
    × (s'.current_priority i ≡ prio)
    × (i < s'.task_count)
    × ((j : ℕ) → j < i → s.state j ≢ TaskState.unallocated)

used-ne : (t : TaskState) → state_eq t TaskState.unallocated ≡ false → t ≢ TaskState.unallocated
used-ne t h e = ground arith

-- `create_task` fails only if every entry of the table is in use. Else it takes the first that is
-- not, and keeps the invariant: the new task is ready, with the given priority, and stands last in
-- its queue.
pub create_task-Created :
    (s : Sched) (q : ℕ → List ℕ) (prio : ℕ)
    → IsValid s q
    → prio < num_priorities
    → Created s q prio (create_task s prio)
unfolding create_task
create_task-Created s q prio v fits = elim (Option-cases (find_free max_tasks 0 s.state)) [
  | inl full ↦
      rw (full, create_task)
        (λ j h.
          used-ne (s.state j)
            (find_free-none max_tasks 0 s.state j full (omega arith) (omega arith)))
  | inr (i, found) ↦ rw (found, create_task) (made i (find_free-some max_tasks 0 s.state i found))
]
  where
    made :
        (i : ℕ)
        → (s.state i ≡ TaskState.unallocated)
          × (i < 0 + max_tasks)
          × ((j : ℕ) → 0 ≤ j → j < i → state_eq (s.state j) TaskState.unallocated ≡ false)
        → Created s q prio (some (i, create_at s i prio))
    made i f = (
      create_at-IsValid s q v i prio (omega arith) f.0 fits within,
      f.0,
      ground (arith, same),
      ground (arith, same),
      ground (arith, same),
      λ j h. used-ne (s.state j) (f.2 j (omega arith) h),
    )
      where
        within : i ≤ s.task_count
        within = elim (Bool-cases (ltb s.task_count i)) [
          | inl above ↦ absurd (ground (arith, f.2 s.task_count, v.beyond s.task_count))
          | inr fine ↦ ground arith
        ]

        same :
            ((create_at s i prio).state ≡ (filled s q v i prio (omega arith) f.0 fits).state)
            × ((create_at s i prio).current_priority
                ≡ (filled s q v i prio (omega arith) f.0 fits).current_priority)
            × ((create_at s i prio).base_priority
                ≡ (filled s q v i prio (omega arith) f.0 fits).base_priority)
            × ((create_at s i prio).sleep_ticks
                ≡ (filled s q v i prio (omega arith) f.0 fits).sleep_ticks)
            × ((create_at s i prio).task_count
                ≡ (filled s q v i prio (omega arith) f.0 fits).task_count)
        same = create_at-same s q v i prio (omega arith) f.0 fits

-- `free_task` gives a task's entry back: it takes the task out of its queue if it is ready, leaves
-- the other tasks, and keeps the invariant.
pub free_task-IsValid :
    (s : Sched) (q : ℕ → List ℕ) (i : ℕ)
    → IsValid s q
    → i < s.task_count
    → IsValid
        (free_task s i)
        (if is_ready (s.state i) then dequeue q (s.current_priority i) i else q)
      × ((free_task s i).state i ≡ TaskState.unallocated)
      × ((j : ℕ) → i ≢ j → (free_task s i).state j ≡ s.state j)
unfolding free_task
free_task-IsValid s q i v lt = (
  record {
    queues = change-Holds s q i v lt TaskState.unallocated;
    count = ground (arith, leave-same s i, v.count);
    current = λ j h. ground (arith, leave-same s i, v.current j);
    base = λ j h. ground (arith, leave-same s i, v.base j);
    beyond = λ j h k. ground (arith, leave-same s i, v.beyond j);
  },
  ground arith,
  λ j ne. ground (arith, leave-same s i, (==_iff i j).0),
)
