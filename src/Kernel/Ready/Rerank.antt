-- ===== src/Kernel/Ready/Rerank.antt =====
-- `set_task_priority` of task.hpp against the queues of an abstract scheduler.
use aurora_os.Prelude.{
  ℕ, ◌≤◌, ◌<◌, ◌≡◌, ◌≢◌, ◌⊎◌, refl, inl, inr, Bool, true, false, ◌&&◌, ◌||◌, none, List, [], ltb,
  leb, ◌==◌, if◌then◌else◌, arith, Bool-cases,
}
use aurora_os.Prelude.Store.{update}
use aurora_os.Kernel.Ready.{
  Sched, is_ready, max_tasks, num_priorities, push_ready, set_task_priority, init,
}
use aurora_os.Kernel.Ready.Inv.{
  IsValid, Holds, Holds-priority, Holds-cong, runnable, enqueue, dequeue, push_ready-same,
}
use aurora_os.Kernel.Ready.Change.{leave, leave-same, left, leave-Holds, enter-Holds}

-- What `set_task_priority` is to do to the queues.
abbrev pub set_priority_queues : Sched → (ℕ → List ℕ) → ℕ → ℕ → ℕ → List ℕ
set_priority_queues s q i new_prio =
    if leb s.task_count i || s.current_priority i == new_prio
    then q
    else (let q₁ = if is_ready (s.state i) then dequeue q (s.current_priority i) i else q in
        if is_ready (s.state i) then enqueue q₁ new_prio i else q₁)

pub set_task_priority-same :
    (s : Sched) (i new_prio : ℕ)
    → let s' = set_task_priority s i new_prio in
      (s'.state ≡ s.state)
      × (s'.base_priority ≡ s.base_priority)
      × (s'.sleep_ticks ≡ s.sleep_ticks)
      × (s'.task_count ≡ s.task_count)
unfolding set_task_priority
set_task_priority-same s i new_prio = ground (
  arith,
  leave-same s i,
  push_ready-same
      (record (leave s i) { current_priority = update (leave s i).current_priority i new_prio }) i,
)

pub current_priority-set_task_priority :
    (s : Sched) (i new_prio j : ℕ)
    → s.task_count ≤ max_tasks
    → (set_task_priority s i new_prio).current_priority j
      ≡ (if ltb i s.task_count && i == j then new_prio else s.current_priority j)
unfolding set_task_priority
current_priority-set_task_priority s i new_prio j h = ground (
  arith,
  leave-same s i,
  push_ready-same
      (record (leave s i) { current_priority = update (leave s i).current_priority i new_prio }) i,
)

module _ (s : Sched) (q : ℕ → List ℕ) (i : ℕ) (v : IsValid s q) (lt : i < s.task_count)
    (new_prio : ℕ) (fits : new_prio < num_priorities) where
  abbrev reranked : Sched
  reranked = record (leave s i) {
    current_priority = update (leave s i).current_priority i new_prio;
  }

  reranked-Holds : Holds reranked (left s q i v lt) (update (runnable s) i false)
  reranked-Holds = Holds-priority (leave s i) _ _ i new_prio (ground arith) (leave-Holds s q i v lt)

  rerank-Holds :
      (b : Bool)
      → is_ready (s.state i) ≡ b
      → let s' = if b then push_ready reranked i else reranked in
        Holds s' (if b then enqueue (left s q i v lt) new_prio i else left s q i v lt) (runnable s')
  rerank-Holds true e =
      Holds-cong (push_ready reranked i) (enqueue (left s q i v lt) new_prio i)
        (update (update (runnable s) i false) i true) _
        (λ j. ground (arith, push_ready-same reranked i, leave-same s i))
        (rw ranked at (
          enter-Holds reranked (left s q i v lt) (update (runnable s) i false) i reranked-Holds
            (omega (arith, v.count)) (ground arith) (rw ranked fits)))
    where
      ranked : reranked.current_priority i ≡ new_prio
      ranked = ground arith
  rerank-Holds false e =
      Holds-cong reranked (left s q i v lt) (update (runnable s) i false) _
        (λ j. ground (arith, leave-same s i)) reranked-Holds

set_task_priority-Holds :
    (s : Sched) (q : ℕ → List ℕ) (i new_prio : ℕ)
    → IsValid s q
    → new_prio < num_priorities
    → let s' = set_task_priority s i new_prio in
      Holds s' (set_priority_queues s q i new_prio) (runnable s')
unfolding set_task_priority
set_task_priority-Holds s q i new_prio v fits =
    elim (Bool-cases (leb s.task_count i || s.current_priority i == new_prio)) [
      | inl same ↦ rw (guard, same) v.queues
      | inr differ ↦
          rw (guard, differ)
            (rerank-Holds s q i v (ground arith) new_prio fits (is_ready (s.state i)) refl)
    ]
  where
    guard :
        (leb max_tasks i || leb s.task_count i || s.current_priority i == new_prio)
        ≡ (leb s.task_count i || s.current_priority i == new_prio)
    guard = ground (arith, v.count)

-- The queues follow the abstract scheduler.
pub set_task_priority-IsValid :
    (s : Sched) (q : ℕ → List ℕ) (i new_prio : ℕ)
    → IsValid s q
    → new_prio < num_priorities
    → IsValid (set_task_priority s i new_prio) (set_priority_queues s q i new_prio)
set_task_priority-IsValid s q i new_prio v fits = record {
  queues = set_task_priority-Holds s q i new_prio v fits;
  count = ground (arith, set_task_priority-same s i new_prio, v.count);
  current = λ j h. ground (
    arith,
    set_task_priority-same s i new_prio,
    current_priority-set_task_priority s i new_prio j v.count,
    v.current j,
  );
  base = λ j h. ground (arith, set_task_priority-same s i new_prio, v.base j);
  beyond = λ j h k. ground (arith, set_task_priority-same s i new_prio, v.beyond j);
}

-- What `set_task_priority` does to the whole scheduler.
pub record IsRanked (s : Sched) (q : ℕ → List ℕ) (i new_prio : ℕ) (s' : Sched) : Type 0 where
  pub valid : IsValid s' (set_priority_queues s q i new_prio)
  pub current :
      (j : ℕ)
      → s'.current_priority j
        ≡ (if ltb i s.task_count && i == j then new_prio else s.current_priority j)
  pub states : s'.state ≡ s.state
  pub base : s'.base_priority ≡ s.base_priority
  pub sleep : s'.sleep_ticks ≡ s.sleep_ticks
  pub count : s'.task_count ≡ s.task_count
  pub unchanged : (s' ≡ s) ⊎ ((i < s.task_count) × (s.current_priority i ≢ new_prio))

set_task_priority-unchanged :
    (s : Sched) (i new_prio : ℕ)
    → (set_task_priority s i new_prio ≡ s)
      ⊎ ((i < s.task_count) × (s.current_priority i ≢ new_prio))
unfolding set_task_priority
set_task_priority-unchanged s i new_prio =
    elim (Bool-cases (leb max_tasks i || leb s.task_count i || s.current_priority i == new_prio)) [
      | inl same ↦ inl (rw same refl)
      | inr differ ↦ inr (ground arith, λ e. absurd (ground (arith, e, differ)))
    ]

-- `set_task_priority`, for each of the 32 priorities, keeps the invariant and moves a ready task to
-- the end of the queue of its new priority. The task, ready or not, gets the new priority, the
-- priorities of all others, the base priorities, the states, the sleep counts and the number of
-- tasks stay as they are, and a call with an index of no task, or with the priority that the task
-- has, leaves the whole scheduler as it was.
pub set_task_priority-IsRanked :
    (s : Sched) (q : ℕ → List ℕ) (i new_prio : ℕ)
    → IsValid s q
    → new_prio < num_priorities
    → IsRanked s q i new_prio (set_task_priority s i new_prio)
set_task_priority-IsRanked s q i new_prio v fits =
    let same = set_task_priority-same s i new_prio in
    record {
      valid = set_task_priority-IsValid s q i new_prio v fits;
      current = λ j. current_priority-set_task_priority s i new_prio j v.count;
      states = same.0;
      base = same.1;
      sleep = same.2;
      count = same.3;
      unchanged = set_task_priority-unchanged s i new_prio;
    }

-- `init` leaves a valid scheduler with empty queues, if what lies behind its table is unlinked.
pub init-IsValid :
    (s : Sched) → ((i : ℕ) → max_tasks ≤ i → s.next_ready i ≡ none) → IsValid (init s) (λ p. [])
unfolding init
init-IsValid s clean = record {
  queues = record {
    queues = record {
      ring = λ p h. ground arith;
      bit = λ p h. refl;
      nodup = λ p h. refl;
      member = λ i p h. ground (arith, clean i);
      in_table = λ i h. ground (arith, clean i);
    };
    queued = λ i. ground (arith, clean i);
  };
  count = omega arith;
  current = λ i h. absurd (ground arith);
  base = λ i h. absurd (ground arith);
  beyond = λ i h k. ground arith;
}
