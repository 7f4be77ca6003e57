-- ===== src/Kernel/Ready/Inv.antt =====
-- The scheduler's invariant: exactly the ready tasks are queued. `set_task_state` and
-- `set_task_priority` of task.hpp keep it, and act on the queues as their specification says.
use aurora_os.Prelude.{
  ℕ, ◌≤◌, ◌<◌, ◌≡◌, ◌∙◌, ap, inl, inr, Bool, true, false, ◌&&◌, none, List, [], ◌∷◌, ◌++◌, ltb,
  is_some, arith, contains, erase, contains-append, contains-erase, Option-cases,
}
use aurora_os.Prelude.Store.{update}
use aurora_os.Kernel.Ready.{
  Sched, TaskState, is_ready, max_tasks, num_priorities, queue_of, push_ready, remove_ready,
}
use aurora_os.Kernel.Ready.Queues.{Queues, push_ready-Queues, queue_of-lt}
use aurora_os.Kernel.Ready.Removal.{remove_ready-Queues}

-- The queues of an abstract scheduler, for each priority the ready tasks in their order.
abbrev pub enqueue : (ℕ → List ℕ) → ℕ → ℕ → ℕ → List ℕ
enqueue q p i = update q p (q p ++ i ∷ [])

abbrev pub dequeue : (ℕ → List ℕ) → ℕ → ℕ → ℕ → List ℕ
dequeue q p i = update q p (erase (q p) i)

-- The queues hold the tasks of `r`.
pub record Holds (s : Sched) (q : ℕ → List ℕ) (r : ℕ → Bool) : Type 0 where
  pub queues : Queues s q
  pub queued : (i : ℕ) → is_some (s.next_ready i) ≡ r i

is_some-contains :
    (s : Sched) (q : ℕ → List ℕ) (i : ℕ)
    → Queues s q
    → is_some (s.next_ready i) ≡ contains i (q (queue_of (s.current_priority i)))
is_some-contains s q i v =
    ground
      (arith, v.member i (queue_of (s.current_priority i)) (queue_of-lt (s.current_priority i)))

queued_by :
    (s s' : Sched) (q' : ℕ → List ℕ) (j : ℕ)
    → Queues s' q'
    → s'.current_priority ≡ s.current_priority
    → is_some (s'.next_ready j) ≡ contains j (q' (queue_of (s.current_priority j)))
queued_by s s' q' j v e = is_some-contains s' q' j v ∙ ap (λ f. contains j (q' (queue_of (f j)))) e

-- What the queue operations leave alone.
pub push_ready-same :
    (s : Sched) (i : ℕ)
    → ((push_ready s i).state ≡ s.state)
      × ((push_ready s i).current_priority ≡ s.current_priority)
      × ((push_ready s i).base_priority ≡ s.base_priority)
      × ((push_ready s i).sleep_ticks ≡ s.sleep_ticks)
      × ((push_ready s i).task_count ≡ s.task_count)
unfolding push_ready
push_ready-same s i = ground arith

pub remove_ready-same :
    (s : Sched) (i : ℕ)
    → ((remove_ready s i).state ≡ s.state)
      × ((remove_ready s i).current_priority ≡ s.current_priority)
      × ((remove_ready s i).base_priority ≡ s.base_priority)
      × ((remove_ready s i).sleep_ticks ≡ s.sleep_ticks)
      × ((remove_ready s i).task_count ≡ s.task_count)
unfolding remove_ready
remove_ready-same s i = ground arith

pub push_ready-Holds :
    (s : Sched) (q : ℕ → List ℕ) (r : ℕ → Bool) (i : ℕ)
    → Holds s q r
    → i < max_tasks
    → r i ≡ false
    → Holds (push_ready s i) (enqueue q (queue_of (s.current_priority i)) i) (update r i true)
push_ready-Holds s q r i v lt out = record { queues = after; queued = member_after }
  where
    free : s.next_ready i ≡ none
    free = elim (Option-cases (s.next_ready i)) [
      | inl e ↦ e
      | inr (n, e) ↦ absurd (ground (arith, v.queued i))
    ]

    after : Queues (push_ready s i) (enqueue q (queue_of (s.current_priority i)) i)
    after = push_ready-Queues s q i v.queues lt free

    member_after : (j : ℕ) → is_some ((push_ready s i).next_ready j) ≡ update r i true j
    member_after j = ground (
      arith,
      queued_by s (push_ready s i) (enqueue q (queue_of (s.current_priority i)) i) j after
          (push_ready-same s i).1,
      is_some-contains s q j v.queues,
      v.queued j,
      contains-append j (q (queue_of (s.current_priority i))) (i ∷ []),
    )

pub remove_ready-Holds :
    (s : Sched) (q : ℕ → List ℕ) (r : ℕ → Bool) (i : ℕ)
    → Holds s q r
    → i < max_tasks
    → r i ≡ true
    → Holds (remove_ready s i) (dequeue q (queue_of (s.current_priority i)) i) (update r i false)
remove_ready-Holds s q r i v lt inside = record { queues = after; queued = member_after }
  where
    after : Queues (remove_ready s i) (dequeue q (queue_of (s.current_priority i)) i)
    after = remove_ready-Queues s q i v.queues lt (v.queued i ∙ inside)

    member_after : (j : ℕ) → is_some ((remove_ready s i).next_ready j) ≡ update r i false j
    member_after j = ground (
      arith,
      queued_by s (remove_ready s i) (dequeue q (queue_of (s.current_priority i)) i) j after
          (remove_ready-same s i).1,
      is_some-contains s q j v.queues,
      v.queued j,
      contains-erase i j (q (queue_of (s.current_priority i)))
          (v.queues.nodup (queue_of (s.current_priority i)) (queue_of-lt (s.current_priority i))),
    )

-- A field that the queues do not read may change, and so may the priority of a task outside them.
pub Holds-state :
    (s : Sched) (q : ℕ → List ℕ) (r : ℕ → Bool) (f : ℕ → TaskState)
    → Holds s q r
    → Holds (record s { state = f }) q r
Holds-state s q r f v = record {
  queues = record {
    ring = v.queues.ring;
    bit = v.queues.bit;
    nodup = v.queues.nodup;
    member = v.queues.member;
    in_table = v.queues.in_table;
  };
  queued = v.queued;
}

pub Holds-priority :
    (s : Sched) (q : ℕ → List ℕ) (r : ℕ → Bool) (i prio : ℕ)
    → r i ≡ false
    → Holds s q r
    → Holds (record s { current_priority = update s.current_priority i prio }) q r
Holds-priority s q r i prio out v = record {
  queues = record {
    ring = v.queues.ring;
    bit = v.queues.bit;
    nodup = v.queues.nodup;
    member = λ j p h. ground (arith, v.queues.member j p h, v.queued j, v.queued i);
    in_table = v.queues.in_table;
  };
  queued = v.queued;
}

pub Holds-cong :
    (s : Sched) (q : ℕ → List ℕ) (r r' : ℕ → Bool)
    → ((i : ℕ) → r i ≡ r' i)
    → Holds s q r
    → Holds s q r'
Holds-cong s q r r' e v = record { queues = v.queues; queued = λ i. v.queued i ∙ e i }

-- The tasks that are to be queued.
abbrev pub runnable : Sched → ℕ → Bool
runnable s i = is_ready (s.state i) && ltb i s.task_count

-- The queues hold exactly the ready tasks, every task has one of the 32 priorities, and the table
-- is unallocated beyond the tasks.
pub record IsValid (s : Sched) (q : ℕ → List ℕ) : Type 0 where
  pub queues : Holds s q (runnable s)
  pub count : s.task_count ≤ max_tasks
  pub current : (i : ℕ) → i < s.task_count → s.current_priority i < num_priorities
  pub base : (i : ℕ) → i < s.task_count → s.base_priority i < num_priorities
  pub beyond : (i : ℕ) → s.task_count ≤ i → i < max_tasks → s.state i ≡ TaskState.unallocated
