-- ===== src/Kernel/Ipc/Restore.antt =====
-- `recalculate_receiver_priority` gives a task the priority that it is due.
use aurora_os.Prelude.{ℕ, ◌<◌, ◌≡◌, inl, inr, ◌∙◌, ap, ◌==◌, ◌&&◌, arith, if◌then◌else◌, lt→ltb}
use aurora_os.Kernel.Ready.{Sched, set_task_priority}
use aurora_os.Kernel.Ready.Rerank.{set_task_priority-same, current_priority-set_task_priority}
use aurora_os.Kernel.Ipc.{System}
use aurora_os.Kernel.Ipc.Inherit.{scan_senders, recalculate_receiver_priority}
use aurora_os.Kernel.Ipc.Highest.{IsHighest, scan_senders-IsHighest}
use aurora_os.Kernel.Ipc.Schedulable.{Schedulable, recalculate-Schedulable}

-- The task runs with the highest of its own priority and those of the tasks that wait for its reply.
abbrev pub IsServing : System → ℕ → Type 0
IsServing k t =
    IsHighest k t k.sched.task_count 0 (k.sched.base_priority t) (k.sched.current_priority t)

module _ (k : System) (t : ℕ) (v : Schedulable k.sched) (lt : t < k.sched.task_count) where
  abbrev due : ℕ
  due = scan_senders k.sched.task_count k t 0 (k.sched.base_priority t)

  abbrev after : Sched
  after = set_task_priority k.sched t due

  after_lem :
      (j : ℕ) → after.current_priority j ≡ (if t == j then due else k.sched.current_priority j)
  after_lem j =
      current_priority-set_task_priority k.sched t due j v.valid.count
      ∙ ap (λ b. if b && t == j then due else k.sched.current_priority j) (lt→ltb _ _ lt)

  -- After `recalculate_receiver_priority` on a task of the table the scheduler's invariant holds, and
  -- the task runs with the highest of its own priority and those of the tasks that wait for its reply.
  pub recalculate-IsServing :
      Schedulable (recalculate_receiver_priority k t).sched
      × IsServing (recalculate_receiver_priority k t) t
  unfolding recalculate_receiver_priority
  recalculate-IsServing =
      let found = scan_senders-IsHighest k.sched.task_count k t 0 (k.sched.base_priority t) in
      let same = set_task_priority-same k.sched t due in
      (
        recalculate-Schedulable k t v lt,
        record {
          own = ground (arith, found.own, after_lem t, same);
          others = λ j p q a. ground (arith, found.others j p, after_lem t, after_lem j, same);
          reached = elim found.reached [
            | inl e ↦ inl (ground (arith, e, after_lem t, same))
            | inr (j, p, q, a, e) ↦
                inr (j, p, ground (arith, q, same), a, ground (arith, e, after_lem t, after_lem j))
          ];
        },
      )
