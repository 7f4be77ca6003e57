-- ===== src/Kernel/Ipc/Schedulable.antt =====
-- Messages keep the scheduler's invariant.
use aurora_os.Prelude.{ℕ, ◌<◌, inl, inr, ltb, List, arith, Bool-cases}
use aurora_os.Kernel.Ready.{Sched, TaskState, set_task_state, set_task_priority, num_priorities}
use aurora_os.Kernel.Ready.Inv.{IsValid}
use aurora_os.Kernel.Ready.Change.{set_state_queues, set_task_state-IsValid}
use aurora_os.Kernel.Ready.Rerank.{set_priority_queues, set_task_priority-IsValid}
use aurora_os.Kernel.Ipc.{System}
use aurora_os.Kernel.Ipc.Inherit.{scan_senders, recalculate_receiver_priority}
use aurora_os.Kernel.Ipc.Endpoint.{inherit}
use aurora_os.Kernel.Ipc.Highest.{scan_senders-IsHighest}

-- The scheduler's invariant holds of some queues.
pub record Schedulable (s : Sched) : Type 0 where
  pub queues : ℕ → List ℕ
  pub valid : IsValid s queues

pub sleep-Schedulable :
    (s : Sched) (f : ℕ → ℕ) → Schedulable s → Schedulable (record s { sleep_ticks = f })
sleep-Schedulable s f v = record {
  queues = v.queues;
  valid = record {
    queues = record {
      queues = record {
        ring = v.valid.queues.queues.ring;
        bit = v.valid.queues.queues.bit;
        nodup = v.valid.queues.queues.nodup;
        member = v.valid.queues.queues.member;
        in_table = v.valid.queues.queues.in_table;
      };
      queued = v.valid.queues.queued;
    };
    count = v.valid.count;
    current = v.valid.current;
    base = v.valid.base;
    beyond = v.valid.beyond;
  };
}

pub state-Schedulable :
    (s : Sched) (i : ℕ) (new_state : TaskState)
    → Schedulable s
    → Schedulable (set_task_state s i new_state)
state-Schedulable s i new_state v = record {
  queues = set_state_queues s v.queues i new_state;
  valid = set_task_state-IsValid s v.queues i new_state v.valid;
}

pub priority-Schedulable :
    (s : Sched) (i new_prio : ℕ)
    → Schedulable s
    → new_prio < num_priorities
    → Schedulable (set_task_priority s i new_prio)
priority-Schedulable s i new_prio v fits = record {
  queues = set_priority_queues s v.queues i new_prio;
  valid = set_task_priority-IsValid s v.queues i new_prio v.valid fits;
}

pub inherit-Schedulable :
    (s : Sched) (sender receiver : ℕ)
    → Schedulable s
    → sender < s.task_count
    → Schedulable (inherit s sender receiver)
inherit-Schedulable s sender receiver v lt =
    elim (Bool-cases (ltb (s.current_priority receiver) (s.current_priority sender))) [
      | inl on ↦ rw on (
          priority-Schedulable s receiver (s.current_priority sender) v (v.valid.current sender lt))
      | inr off ↦ rw off v
    ]

-- The scan's result is a priority.
scan-bound :
    (k : System) (receiver : ℕ)
    → Schedulable k.sched
    → receiver < k.sched.task_count
    → scan_senders k.sched.task_count k receiver 0 (k.sched.base_priority receiver) < num_priorities
scan-bound k receiver v lt =
    elim (scan_senders-IsHighest k.sched.task_count k receiver 0
      (k.sched.base_priority receiver)).reached [
        | inl e ↦ omega (arith, e, v.valid.base receiver lt)
        | inr (j, p, q, a, e) ↦ omega (arith, e, v.valid.current j (omega arith))
      ]

pub recalculate-Schedulable :
    (k : System) (receiver : ℕ)
    → Schedulable k.sched
    → receiver < k.sched.task_count
    → Schedulable (recalculate_receiver_priority k receiver).sched
unfolding recalculate_receiver_priority
recalculate-Schedulable k receiver v lt =
    priority-Schedulable k.sched receiver _ v (scan-bound k receiver v lt)
