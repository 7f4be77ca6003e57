-- ===== src/Kernel/Dispatch.antt =====
-- kernel/task/task.hpp, `Scheduler::schedule`: the turn of the current task's queue, and the choice
-- of the task to run next. `allowed` stands for `frame_scheduler_is_task_allowed`, and may be any
-- test of a priority.
pub mod Pick
pub mod Turn
pub mod Choice
pub mod Outcome
use aurora_os.Prelude.{
  ℕ, zero, suc, Bool, true, false, Option, none, some, ltb, leb, ◌==◌, if◌then◌else◌, ◌&&◌, ◌||◌,
  not, holds,
}
use aurora_os.Prelude.Store.{update, BitSet, find_highest_bit}
use aurora_os.Kernel.Ready.{Sched, is_ready, max_tasks, num_priorities}

-- The turn: the current task, if it is ready and first in its queue, becomes the last of it.
unfoldable pub turn : Sched → ℕ → Sched
turn s cur =
    let p = s.current_priority cur in
    if is_ready (s.state cur) && holds (s.ready_head p) cur
    then record s { ready_head = update s.ready_head p (s.next_ready cur) }
    else s

-- The first loop of `schedule`: the highest bit of the mask that is allowed. The fuel bounds the
-- bits that are set; each round clears one.
unfoldable pub pick : ℕ → (ℕ → Bool) → BitSet → Option ℕ
pick zero allowed mask = none
pick (suc fuel) allowed mask = elim (find_highest_bit num_priorities mask) [
  | none ↦ none
  | some p ↦ if allowed p then some p else pick fuel allowed (update mask p false)
]

-- An index that is read from a list head. A head of -1 under a set bit would be out of bounds in the
-- source; here the default is kept.
abbrev pub index_or : ℕ → Option ℕ → ℕ
index_or d none = d
index_or d (some i) = i

-- The scan of the rest of a queue in the second fallback, from `iter` to the head.
unfoldable pub scan : ℕ → Sched → Option ℕ → Option ℕ → Option ℕ
scan zero s head iter = none
scan (suc fuel) s head none = none
scan (suc fuel) s head (some i) =
    let rest = scan fuel s head (s.next_ready i) in
    if holds head i then none else if is_ready (s.state i) then some i else rest

-- What the second fallback finds in the queue of one priority.
unfoldable pub candidate : Sched → Option ℕ → Option ℕ
unfolding scan
candidate s none = none
candidate s (some c) =
    if ltb c s.task_count && is_ready (s.state c)
    then some c
    else scan max_tasks s (some c) (s.next_ready c)

-- The loop of the second fallback; `none` means that no queue has a ready task.
unfoldable pub fallback : ℕ → Sched → BitSet → Option ℕ
unfolding candidate
fallback zero s mask = none
fallback (suc fuel) s mask = elim (find_highest_bit num_priorities mask) [
  | none ↦ none
  | some p ↦ elim (candidate s (s.ready_head p)) [
    | some c ↦ some c
    | none ↦ fallback fuel s (update mask p false)
  ]
]

-- The choice of `next_task`, in its three stages.
unfoldable pub first_choice : (ℕ → Bool) → Sched → ℕ → ℕ
first_choice allowed s cur = elim (pick num_priorities allowed s.ready_bitmask) [
  | none ↦ cur
  | some p ↦ index_or cur (s.ready_head p)
]

unfoldable pub second_choice : Sched → ℕ → ℕ → ℕ
second_choice s cur n = if n == cur && s.ready_bitmask 0 then index_or n (s.ready_head 0) else n

unfoldable pub last_choice : Sched → ℕ → ℕ
last_choice s n =
    if is_ready (s.state n) then n else index_or n (fallback num_priorities s s.ready_bitmask)

unfoldable pub choose : (ℕ → Bool) → Sched → ℕ → ℕ
unfolding first_choice second_choice last_choice
choose allowed s cur = last_choice s (second_choice s cur (first_choice allowed s cur))
