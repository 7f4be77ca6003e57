-- ===== src/Kernel/WaitQueue.antt =====
-- kernel/task/wait_queue.hpp and wait_queue.cpp: the queue of the tasks that wait at an endpoint, a
-- singly linked list through `ipc.blocked_next` of the tasks, ordered by priority.
pub mod Chain
pub mod Enqueue
pub mod Remove
pub mod Order
pub mod Matching
pub mod Arrival
use aurora_os.Prelude.{
  ℕ, zero, suc, Bool, true, false, Option, none, some, ltb, leb, ◌==◌, if◌then◌else◌, ◌||◌, holds,
  is_some,
}
use aurora_os.Prelude.Store.{update}
use aurora_os.Kernel.Ready.{max_tasks}

-- A queue with the links of all tasks; a null pointer is `none`.
pub record WaitQueue : Type 0 where
  pub next : ℕ → Option ℕ
  pub head : Option ℕ
  pub tail : Option ℕ

-- The loop of `enqueue`: the last task, from `curr` on, before which `task` need not stand. A queue
-- holds at most `max_tasks` tasks, which bounds the rounds.
unfoldable pub find_place : ℕ → (ℕ → ℕ) → (ℕ → Option ℕ) → ℕ → ℕ → ℕ
find_place zero prio next task curr = curr
find_place (suc fuel) prio next task curr = elim (next curr) [
  | none ↦ curr
  | some n ↦ if leb (prio task) (prio n) then find_place fuel prio next task n else curr
]

-- `task` goes behind `curr`.
abbrev pub link_after : WaitQueue → ℕ → ℕ → WaitQueue
link_after w task curr = record w {
  next = update (update w.next task (w.next curr)) curr (some task);
  tail = if holds w.tail curr then some task else w.tail;
}

-- `task` becomes the head.
abbrev pub link_first : WaitQueue → ℕ → WaitQueue
link_first w task = record w {
  next = update w.next task w.head;
  head = some task;
  tail = if is_some w.tail then w.tail else some task;
}

-- `enqueue` with the task's own link cut and the head read.
unfoldable pub enqueue_at : (ℕ → ℕ) → WaitQueue → ℕ → Option ℕ → WaitQueue
enqueue_at prio w task none = link_first w task
enqueue_at prio w task (some h) =
    if ltb (prio h) (prio task)
    then link_first w task
    else link_after w task (find_place max_tasks prio w.next task h)

unfoldable pub enqueue : (ℕ → ℕ) → WaitQueue → ℕ → WaitQueue
unfolding enqueue_at
enqueue prio w task = enqueue_at prio (record w { next = update w.next task none }) task w.head

-- The head `task` leaves.
abbrev pub unlink_first : WaitQueue → ℕ → WaitQueue
unlink_first w task = record {
  next = update w.next task none;
  head = w.next task;
  tail = if is_some (w.next task) then w.tail else none;
}

unfoldable pub dequeue_at : WaitQueue → Option ℕ → Option ℕ × WaitQueue
dequeue_at w none = (none, w)
dequeue_at w (some task) = (some task, unlink_first w task)

unfoldable pub dequeue : WaitQueue → Option ℕ × WaitQueue
unfolding dequeue_at
dequeue w = dequeue_at w w.head

-- `task` leaves, which stands behind `prev`.
abbrev pub unlink_after : WaitQueue → ℕ → ℕ → WaitQueue
unlink_after w prev task = record w {
  next = update (update w.next prev (w.next task)) task none;
  tail = if holds w.tail task then some prev else w.tail;
}

-- The loop of `remove`: the task from `curr` on whose link is null or leads to `task`.
unfoldable pub find_before : ℕ → (ℕ → Option ℕ) → ℕ → ℕ → ℕ
find_before zero next task curr = curr
find_before (suc fuel) next task curr = elim (next curr) [
  | none ↦ curr
  | some n ↦ if n == task then curr else find_before fuel next task n
]

-- `remove` with the head read.
unfoldable pub remove_from : WaitQueue → ℕ → Option ℕ → Bool × WaitQueue
remove_from w task none = (false, w)
remove_from w task (some h) =
    if h == task
    then (true, unlink_first w task)
    else (let curr = find_before max_tasks w.next task h in
        if holds (w.next curr) task then (true, unlink_after w curr task) else (false, w))

unfoldable pub remove : WaitQueue → ℕ → Bool × WaitQueue
unfolding remove_from
remove w task = remove_from w task w.head

-- The loop of the two selective operations: the first task behind `prev` that fits, with the task
-- before it.
unfoldable pub find_fit : ℕ → (ℕ → Option ℕ) → (ℕ → Bool) → ℕ → Option (ℕ × ℕ)
find_fit zero next fits prev = none
find_fit (suc fuel) next fits prev = elim (next prev) [
  | none ↦ none
  | some curr ↦ if fits curr then some (prev, curr) else find_fit fuel next fits curr
]

-- What is found leaves.
unfoldable pub take_fit : WaitQueue → Option (ℕ × ℕ) → Option ℕ × WaitQueue
take_fit w none = (none, w)
take_fit w (some (prev, curr)) = (some curr, unlink_after w prev curr)

-- `dequeue_matching_sender` and `dequeue_matching_receiver`, which differ in the test of the head
-- and in that of the others, with the head read.
unfoldable pub matching_at : (ℕ → Bool) → (ℕ → Bool) → WaitQueue → Option ℕ → Option ℕ × WaitQueue
unfolding take_fit
matching_at head_fits fits w none = (none, w)
matching_at head_fits fits w (some h) =
    if head_fits h then dequeue w else take_fit w (find_fit max_tasks w.next fits h)

unfoldable pub dequeue_matching : (ℕ → Bool) → (ℕ → Bool) → WaitQueue → Option ℕ × WaitQueue
unfolding matching_at
dequeue_matching head_fits fits w = matching_at head_fits fits w w.head

unfoldable pub dequeue_matching_sender : (ℕ → ℕ) → ℕ → WaitQueue → Option ℕ × WaitQueue
dequeue_matching_sender msg_type label_filter =
    dequeue_matching (λ t. label_filter == 0 || msg_type t == label_filter)
      (λ t. msg_type t == label_filter)

unfoldable pub dequeue_matching_receiver : (ℕ → ℕ) → ℕ → WaitQueue → Option ℕ × WaitQueue
dequeue_matching_receiver label_filter sender_label =
    dequeue_matching (λ t. label_filter t == 0 || label_filter t == sender_label)
      (λ t. label_filter t == 0 || label_filter t == sender_label)
