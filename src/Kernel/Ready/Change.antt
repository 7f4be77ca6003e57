-- ===== src/Kernel/Ready/Change.antt =====
-- `set_task_state` of task.hpp against the queues of an abstract scheduler.
use aurora_os.Prelude.{
  ℕ, ◌≤◌, ◌<◌, ◌≡◌, ◌≢◌, ◌⊎◌, ◌∙◌, sym, refl, ap, inl, inr, Bool, true, false, ◌&&◌, ◌||◌, List,
  ltb, leb, ◌==◌, if◌then◌else◌, arith, Bool-cases,
}
use aurora_os.Prelude.Store.{update}
use aurora_os.Kernel.Ready.{
  Sched, TaskState, is_ready, state_eq, max_tasks, num_priorities, queue_of, push_ready,
  remove_ready, set_task_state,
}
use aurora_os.Kernel.Ready.Inv.{
  IsValid, Holds, Holds-state, Holds-cong, runnable, enqueue, dequeue, push_ready-Holds,
  remove_ready-Holds, push_ready-same, remove_ready-same,
}

-- What `set_task_state` is to do to the queues.
abbrev pub set_state_queues : Sched → (ℕ → List ℕ) → ℕ → TaskState → ℕ → List ℕ
set_state_queues s q i new_state =
    if leb s.task_count i || state_eq (s.state i) new_state
    then q
    else (let p = s.current_priority i in
        let q₁ = if is_ready (s.state i) then dequeue q p i else q in
        if is_ready new_state then enqueue q₁ p i else q₁)

-- A task leaves its queue if it is ready, and enters one if it becomes so.
abbrev pub leave : Sched → ℕ → Sched
leave s i = if is_ready (s.state i) then remove_ready s i else s

pub leave-same :
    (s : Sched) (i : ℕ)
    → ((leave s i).state ≡ s.state)
      × ((leave s i).current_priority ≡ s.current_priority)
      × ((leave s i).base_priority ≡ s.base_priority)
      × ((leave s i).sleep_ticks ≡ s.sleep_ticks)
      × ((leave s i).task_count ≡ s.task_count)
leave-same s i = elim (Bool-cases (is_ready (s.state i))) [
  | inl e ↦ rw e (remove_ready-same s i)
  | inr e ↦ rw e (refl, refl, refl, refl, refl)
]

pub queue_of_lt : (prio : ℕ) → prio < num_priorities → queue_of prio ≡ prio
queue_of_lt prio h = ground arith

module _ (s : Sched) (q : ℕ → List ℕ) (i : ℕ) (v : IsValid s q) (lt : i < s.task_count) where
  abbrev pub left : ℕ → List ℕ
  left = if is_ready (s.state i) then dequeue q (s.current_priority i) i else q

  pub leave-Holds : Holds (leave s i) left (update (runnable s) i false)
  leave-Holds = elim (Bool-cases (is_ready (s.state i))) [
    | inl e ↦
        rw (e, ← queue_of_lt (s.current_priority i) (v.current i lt))
          (remove_ready-Holds s q (runnable s) i v.queues (omega (arith, v.count)) (ground arith))
    | inr e ↦ rw e (Holds-cong s q (runnable s) _ (λ j. ground arith) v.queues)
  ]

-- A task outside the queues enters that of its priority.
pub enter-Holds :
    (s : Sched) (q : ℕ → List ℕ) (r : ℕ → Bool) (i : ℕ)
    → Holds s q r
    → i < max_tasks
    → r i ≡ false
    → s.current_priority i < num_priorities
    → Holds (push_ready s i) (enqueue q (s.current_priority i) i) (update r i true)
enter-Holds s q r i v lt out h =
    rw (queue_of_lt (s.current_priority i) h) at (push_ready-Holds s q r i v lt out)

module _ (s : Sched) (q : ℕ → List ℕ) (i : ℕ) (v : IsValid s q) (lt : i < s.task_count)
    (new_state : TaskState) where
  abbrev changed : Sched
  changed = record (leave s i) { state = update (leave s i).state i new_state }

  changed-Holds : Holds changed (left s q i v lt) (update (runnable s) i false)
  changed-Holds = Holds-state (leave s i) _ _ _ (leave-Holds s q i v lt)

  pub change-Holds :
      let s' = if is_ready new_state then push_ready changed i else changed in
      Holds s'
        (if is_ready new_state
          then enqueue (left s q i v lt) (s.current_priority i) i
          else left s q i v lt)
        (runnable s')
  change-Holds = elim (Bool-cases (is_ready new_state)) [
    | inl e ↦ rw e (
        Holds-cong (push_ready changed i) _ (update (update (runnable s) i false) i true) _
          (λ j. ground (arith, push_ready-same changed i, leave-same s i))
          (rw (ap (λ f. f i) (leave-same s i).1) at (
            enter-Holds changed (left s q i v lt) (update (runnable s) i false) i changed-Holds
              (omega (arith, v.count)) (ground arith)
              (rw (ap (λ f. f i) (leave-same s i).1) (v.current i lt)))))
    | inr e ↦ rw e (Holds-cong _ _ _ _ (λ j. ground (arith, leave-same s i)) changed-Holds)
  ]

-- What `set_task_state` leaves alone, and the states that it leaves.
pub set_task_state-same :
    (s : Sched) (i : ℕ) (new_state : TaskState)
    → let s' = set_task_state s i new_state in
      (s'.current_priority ≡ s.current_priority)
      × (s'.base_priority ≡ s.base_priority)
      × (s'.sleep_ticks ≡ s.sleep_ticks)
      × (s'.task_count ≡ s.task_count)
unfolding set_task_state
set_task_state-same s i new_state = ground (
  arith,
  leave-same s i,
  push_ready-same (record (leave s i) { state = update (leave s i).state i new_state }) i,
)

state_eq→eq : (a b : TaskState) → state_eq a b ≡ true → a ≡ b
state_eq→eq a b h = ground arith

pub state-set_task_state :
    (s : Sched) (i : ℕ) (new_state : TaskState) (j : ℕ)
    → s.task_count ≤ max_tasks
    → (set_task_state s i new_state).state j
      ≡ (if ltb i s.task_count && i == j then new_state else s.state j)
unfolding set_task_state
state-set_task_state s i new_state j h = ground (
  arith,
  state_eq→eq (s.state i) new_state,
  leave-same s i,
  push_ready-same (record (leave s i) { state = update (leave s i).state i new_state }) i,
)

set_task_state-Holds :
    (s : Sched) (q : ℕ → List ℕ) (i : ℕ) (new_state : TaskState)
    → IsValid s q
    → let s' = set_task_state s i new_state in
      Holds s' (set_state_queues s q i new_state) (runnable s')
unfolding set_task_state
set_task_state-Holds s q i new_state v =
    elim (Bool-cases (leb s.task_count i || state_eq (s.state i) new_state)) [
      | inl same ↦ rw (guard, same) v.queues
      | inr differ ↦ rw (guard, differ) (change-Holds s q i v (ground arith) new_state)
    ]
  where
    guard :
        (leb max_tasks i || leb s.task_count i || state_eq (s.state i) new_state)
        ≡ (leb s.task_count i || state_eq (s.state i) new_state)
    guard = ground (arith, v.count)

-- The queues follow the abstract scheduler.
pub set_task_state-IsValid :
    (s : Sched) (q : ℕ → List ℕ) (i : ℕ) (new_state : TaskState)
    → IsValid s q
    → IsValid (set_task_state s i new_state) (set_state_queues s q i new_state)
set_task_state-IsValid s q i new_state v = record {
  queues = set_task_state-Holds s q i new_state v;
  count = ground (arith, set_task_state-same s i new_state, v.count);
  current = λ j h. ground (arith, set_task_state-same s i new_state, v.current j);
  base = λ j h. ground (arith, set_task_state-same s i new_state, v.base j);
  beyond = λ j h k. ground (
    arith,
    set_task_state-same s i new_state,
    state-set_task_state s i new_state j v.count,
    v.beyond j,
  );
}

-- What `set_task_state` does to the whole scheduler.
pub record IsMoved (s : Sched) (q : ℕ → List ℕ) (i : ℕ) (new_state : TaskState) (s' : Sched)
    : Type 0 where
  pub valid : IsValid s' (set_state_queues s q i new_state)
  pub states :
      (j : ℕ) → s'.state j ≡ (if ltb i s.task_count && i == j then new_state else s.state j)
  pub current : s'.current_priority ≡ s.current_priority
  pub base : s'.base_priority ≡ s.base_priority
  pub sleep : s'.sleep_ticks ≡ s.sleep_ticks
  pub count : s'.task_count ≡ s.task_count
  pub unchanged : (s' ≡ s) ⊎ ((i < s.task_count) × (s.state i ≢ new_state))

state_eq_self : (a : TaskState) → state_eq a a ≡ true
state_eq_self TaskState.ready = refl
state_eq_self TaskState.running = refl
state_eq_self TaskState.sleeping = refl
state_eq_self TaskState.blocked_on_notify = refl
state_eq_self TaskState.terminated = refl
state_eq_self TaskState.suspended = refl
state_eq_self TaskState.unallocated = refl

set_task_state-unchanged :
    (s : Sched) (i : ℕ) (new_state : TaskState)
    → (set_task_state s i new_state ≡ s) ⊎ ((i < s.task_count) × (s.state i ≢ new_state))
unfolding set_task_state
set_task_state-unchanged s i new_state =
    elim (Bool-cases (leb max_tasks i || leb s.task_count i || state_eq (s.state i) new_state)) [
      | inl same ↦ inl (rw same refl)
      | inr differ ↦ inr (
        ground arith,
        λ e.
            absurd (
              ground
                (arith, ap (state_eq (s.state i)) (sym e) ∙ state_eq_self (s.state i), differ)),
      )
    ]

-- `set_task_state` keeps the invariant (the circular lists, the bit map and the states agree) and
-- moves the task between the queues of the abstract scheduler: out of that of its priority if it
-- was ready, and to the end of it if it becomes so. The task gets the new state, the states of all
-- others, the priorities, the sleep counts and the number of tasks stay as they are, and a call
-- with an index of no task, or with the state that the task has, leaves the whole scheduler as it
-- was.
pub set_task_state-IsMoved :
    (s : Sched) (q : ℕ → List ℕ) (i : ℕ) (new_state : TaskState)
    → IsValid s q
    → IsMoved s q i new_state (set_task_state s i new_state)
set_task_state-IsMoved s q i new_state v =
    let same = set_task_state-same s i new_state in
    record {
      valid = set_task_state-IsValid s q i new_state v;
      states = λ j. state-set_task_state s i new_state j v.count;
      current = same.0;
      base = same.1;
      sleep = same.2;
      count = same.3;
      unchanged = set_task_state-unchanged s i new_state;
    }
