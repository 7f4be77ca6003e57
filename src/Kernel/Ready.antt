-- ===== src/Kernel/Ready.antt =====
-- kernel/task/task.hpp: the scheduler's table of tasks and its ready queues, which are circular
-- doubly linked lists through the tasks, one for each priority, with a bit map of those in use.
pub mod Ring
pub mod Splice
pub mod Queues
pub mod Removal
pub mod Inv
pub mod Change
pub mod Rerank
pub mod Create
use aurora_os.Prelude.{
  zero, suc, ℕ, ◌-◌, Bool, true, false, Option, none, some, ltb, leb, ◌==◌, if◌then◌else◌, ◌||◌,
  holds,
}
use aurora_os.Prelude.Store.{update, update?, BitSet, no_bits}

-- `enum class TaskState`
pub data TaskState : Type 0 where
  ready running sleeping blocked_on_notify terminated suspended unallocated : TaskState

abbrev pub is_ready : TaskState → Bool
is_ready TaskState.ready = true
is_ready _ = false

-- `==` on task states.
abbrev pub state_eq : TaskState → TaskState → Bool
state_eq TaskState.ready TaskState.ready = true
state_eq TaskState.running TaskState.running = true
state_eq TaskState.sleeping TaskState.sleeping = true
state_eq TaskState.blocked_on_notify TaskState.blocked_on_notify = true
state_eq TaskState.terminated TaskState.terminated = true
state_eq TaskState.suspended TaskState.suspended = true
state_eq TaskState.unallocated TaskState.unallocated = true
state_eq _ _ = false

-- `MAX_TASKS` and `NUM_PRIORITIES`, at their default values.
abbrev pub max_tasks : ℕ
max_tasks = 16

abbrev pub num_priorities : ℕ
num_priorities = 32

-- The `SchedulerContext` of each task, field by field, and the scheduler's own fields. An index of
-- -1 is `none`. A priority is the number of its `TaskPriority`.
pub record Sched : Type 0 where
  pub task_count : ℕ
  pub state : ℕ → TaskState
  pub sleep_ticks : ℕ → ℕ
  pub base_priority : ℕ → ℕ
  pub current_priority : ℕ → ℕ
  pub next_ready : ℕ → Option ℕ
  pub prev_ready : ℕ → Option ℕ
  pub ready_head : ℕ → Option ℕ
  pub ready_bitmask : BitSet

-- `init`, on the memory that it finds.
unfoldable pub init : Sched → Sched
init s = record s {
  task_count = 0;
  state = λ i. if ltb i max_tasks then TaskState.unallocated else s.state i;
  next_ready = λ i. if ltb i max_tasks then none else s.next_ready i;
  prev_ready = λ i. if ltb i max_tasks then none else s.prev_ready i;
  ready_head = λ p. if ltb p num_priorities then none else s.ready_head p;
  ready_bitmask = no_bits;
}

-- The priority that `push_ready` and `remove_ready` index by.
abbrev pub queue_of : ℕ → ℕ
queue_of prio = if leb num_priorities prio then num_priorities - 1 else prio

-- `push_ready` with the priority, and the head of its queue, read.
unfoldable pub push_at : Sched → ℕ → ℕ → Option ℕ → Sched
push_at s i p none = record s {
  ready_head = update s.ready_head p (some i);
  next_ready = update s.next_ready i (some i);
  prev_ready = update s.prev_ready i (some i);
  ready_bitmask = update s.ready_bitmask p true;
}
push_at s i p (some head) =
    let tail = s.prev_ready head in
    record s {
      next_ready = update (update? s.next_ready tail (some i)) i (some head);
      prev_ready = update (update s.prev_ready i tail) head (some i);
    }

unfoldable pub push_ready : Sched → ℕ → Sched
unfolding push_at
push_ready s i =
    if leb max_tasks i
    then s
    else (let p = queue_of (s.current_priority i) in push_at s i p (s.ready_head p))

-- The links of `i` are cut last.
abbrev unlink : Sched → ℕ → Sched
unlink s i = record s {
  next_ready = update s.next_ready i none;
  prev_ready = update s.prev_ready i none;
}

-- `remove_ready` with the priority and the task's `next_ready` read.
unfoldable pub remove_at : Sched → ℕ → ℕ → Option ℕ → Sched
remove_at s i p none = s
remove_at s i p (some n) =
    if n == i
    then unlink
        (record s {
          ready_head = update s.ready_head p none;
          ready_bitmask = update s.ready_bitmask p false;
        })
        i
    else unlink
        (record s {
          next_ready = update? s.next_ready (s.prev_ready i) (some n);
          prev_ready = update s.prev_ready n (s.prev_ready i);
          ready_head =
              if holds (s.ready_head p) i then update s.ready_head p (some n) else s.ready_head;
        })
        i

unfoldable pub remove_ready : Sched → ℕ → Sched
unfolding remove_at
remove_ready s i =
    if leb max_tasks i then s else remove_at s i (queue_of (s.current_priority i)) (s.next_ready i)

unfoldable pub set_task_state : Sched → ℕ → TaskState → Sched
set_task_state s i new_state =
    if leb max_tasks i || leb s.task_count i || state_eq (s.state i) new_state
    then s
    else (let s₁ = if is_ready (s.state i) then remove_ready s i else s in
        let s₂ = record s₁ { state = update s₁.state i new_state } in
        if is_ready new_state then push_ready s₂ i else s₂)

unfoldable pub set_task_priority : Sched → ℕ → ℕ → Sched
set_task_priority s i new_prio =
    if leb max_tasks i || leb s.task_count i || s.current_priority i == new_prio
    then s
    else (let was_ready = is_ready (s.state i) in
        let s₁ = if was_ready then remove_ready s i else s in
        let s₂ = record s₁ { current_priority = update s₁.current_priority i new_prio } in
        if was_ready then push_ready s₂ i else s₂)

-- The first entry that is unallocated, of the `n` from `i` on.
unfoldable pub find_free : ℕ → ℕ → (ℕ → TaskState) → Option ℕ
find_free zero i state = none
find_free (suc n) i state =
    let rest = find_free n (suc i) state in
    if state_eq (state i) TaskState.unallocated then some i else rest

-- `create_task` with the free entry found, as far as it concerns the scheduler.
unfoldable pub create_at : Sched → ℕ → ℕ → Sched
create_at s i prio =
    push_ready
      (record s {
        task_count = if leb s.task_count i then suc i else s.task_count;
        state = update s.state i TaskState.ready;
        sleep_ticks = update s.sleep_ticks i 0;
        base_priority = update s.base_priority i prio;
        current_priority = update s.current_priority i prio;
        next_ready = update s.next_ready i none;
        prev_ready = update s.prev_ready i none;
      })
      i

-- The index of the new task and the scheduler, or `none` (`nullptr`) if the table is full.
unfoldable pub create_task : Sched → ℕ → Option (ℕ × Sched)
create_task s prio = elim (find_free max_tasks 0 s.state) [
  | none ↦ none
  | some i ↦ some (i, create_at s i prio)
]

-- `free_task`, as far as it concerns the scheduler.
unfoldable pub free_task : Sched → ℕ → Sched
free_task s i =
    let s₁ = if is_ready (s.state i) then remove_ready s i else s in
    record s₁ { state = update s₁.state i TaskState.unallocated }
