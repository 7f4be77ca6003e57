-- ===== src/Kernel/Tests/Sched.antt =====
-- The scheduler's theorems at a scheduler of three tasks: an idle one, and two of priority 8.
use aurora_os.Prelude.{ℕ, ◌≤◌, ◌<◌, ◌≡◌, refl, true, false, none, List, [], arith}
use aurora_os.Prelude.Store.{no_bits, find_highest_bit}
use aurora_os.Kernel.Ready.{
  Sched, TaskState, is_ready, init, create_at, create_task, set_task_state, set_task_priority,
  free_task, push_ready,
}
use aurora_os.Kernel.Ready.Inv.{IsValid, enqueue}
use aurora_os.Kernel.Ready.Change.{IsMoved, set_task_state-IsMoved}
use aurora_os.Kernel.Ready.Rerank.{init-IsValid, IsRanked, set_task_priority-IsRanked}
use aurora_os.Kernel.Ready.Create.{
  create_at-IsValid, Created, create_task-Created, free_task-IsValid,
}
use aurora_os.Kernel.Dispatch.{turn, choose, pick}
use aurora_os.Kernel.Dispatch.Outcome.{choose-ready, choose-turn, choose_idle}

abbrev blank : Sched
blank = record {
  task_count = 0;
  state = λ i. TaskState.unallocated;
  sleep_ticks = λ i. 0;
  base_priority = λ i. 0;
  current_priority = λ i. 0;
  next_ready = λ i. none;
  prev_ready = λ i. none;
  ready_head = λ p. none;
  ready_bitmask = no_bits;
}

abbrev none_waiting : ℕ → List ℕ
none_waiting p = []

abbrev fresh : Sched
fresh = init blank

abbrev with_idle : Sched
with_idle = create_at fresh 0 0

abbrev with_one : Sched
with_one = create_at with_idle 1 8

abbrev pub with_two : Sched
with_two = create_at with_one 2 8

abbrev idle_queues : ℕ → List ℕ
idle_queues = enqueue none_waiting 0 0

abbrev one_queues : ℕ → List ℕ
one_queues = enqueue idle_queues 8 1

abbrev pub two_queues : ℕ → List ℕ
two_queues = enqueue one_queues 8 2

fresh-IsValid : IsValid fresh none_waiting
fresh-IsValid = init-IsValid blank (λ i h. refl)

with_idle-IsValid : IsValid with_idle idle_queues
unfolding init
with_idle-IsValid =
    create_at-IsValid fresh none_waiting fresh-IsValid 0 0 (omega arith) refl (omega arith)
      (omega arith)

with_one-IsValid : IsValid with_one one_queues
unfolding init create_at push_ready
with_one-IsValid =
    create_at-IsValid with_idle idle_queues with_idle-IsValid 1 8 (omega arith) refl (omega arith)
      (omega arith)

pub with_two-IsValid : IsValid with_two two_queues
unfolding init create_at push_ready
with_two-IsValid =
    create_at-IsValid with_one one_queues with_one-IsValid 2 8 (omega arith) refl (omega arith)
      (omega arith)

set_task_state-IsSet_example :
    IsMoved with_two two_queues 1 TaskState.sleeping (set_task_state with_two 1 TaskState.sleeping)
set_task_state-IsSet_example =
    set_task_state-IsMoved with_two two_queues 1 TaskState.sleeping with_two-IsValid

set_task_priority-IsRanked_example :
    IsRanked with_two two_queues 1 31 (set_task_priority with_two 1 31)
set_task_priority-IsRanked_example =
    set_task_priority-IsRanked with_two two_queues 1 31 with_two-IsValid (omega arith)

create_task-Created_example : Created with_two two_queues 8 (create_task with_two 8)
create_task-Created_example =
    create_task-Created with_two two_queues 8 with_two-IsValid (omega arith)

free_task-IsValid_example : ((free_task with_two 1).state 1 ≡ TaskState.unallocated)
unfolding init create_at push_ready
free_task-IsValid_example =
    (free_task-IsValid with_two two_queues 1 with_two-IsValid (omega arith)).1

choose-ready_example :
    let n = choose (λ p. false) with_two 1 in
    (n < with_two.task_count) × (is_ready (with_two.state n) ≡ true)
unfolding init create_at push_ready
choose-ready_example =
    choose-ready with_two two_queues (λ p. false) 1 2 with_two-IsValid (omega arith) (omega arith)
      refl

two_top :
    (i : ℕ)
    → i < with_two.task_count
    → is_ready (with_two.state i) ≡ true
    → with_two.current_priority i ≤ with_two.current_priority 1
unfolding init create_at push_ready
two_top i h r = ground arith

choose-turn_example : choose (λ p. true) (turn with_two 1) 1 ≡ 2
unfolding init create_at push_ready
choose-turn_example =
    choose-turn with_two two_queues (λ p. true) 1 2 [] with_two-IsValid (omega arith) refl refl
      two_top refl

one_top :
    (i : ℕ)
    → i < with_one.task_count
    → is_ready (with_one.state i) ≡ true
    → with_one.current_priority i ≤ with_one.current_priority 1
unfolding init create_at push_ready
one_top i h r = ground arith

choose_idle_example :
    (choose (λ p. true) (turn with_one 1) 1 ≡ 0)
    × (with_one.current_priority 0 < with_one.current_priority 1)
unfolding init create_at push_ready
choose_idle_example =
    choose_idle with_one one_queues (λ p. true) 1 0 [] with_one-IsValid (omega arith) refl refl
      one_top refl (omega arith) refl

-- The scheduler runs: with one task of priority 8, the idle task is chosen.
runs_idle : choose (λ p. true) (turn with_one 1) 1 ≡ 0
unfolding init create_at push_ready turn choose pick find_highest_bit
runs_idle = refl
