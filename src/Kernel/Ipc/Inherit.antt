-- ===== src/Kernel/Ipc/Inherit.antt =====
-- kernel/core/ipc.cpp, `recalculate_receiver_priority`: a task that serves others runs with the
-- highest of their priorities and its own.
use aurora_os.Prelude.{ℕ, zero, suc, Bool, ltb, ◌==◌, ◌&&◌, if◌then◌else◌}
use aurora_os.Kernel.Ready.{set_task_priority}
use aurora_os.Kernel.Ipc.{System, is_reply_blocked}

-- `i` waits for the reply of `receiver`.
abbrev pub awaits : System → ℕ → ℕ → Bool
awaits k receiver i = is_reply_blocked (k.ipc_state i) && k.receiver_id i == receiver

-- The scan, of `n` tasks from `i` on.
unfoldable pub scan_senders : ℕ → System → ℕ → ℕ → ℕ → ℕ
scan_senders zero k receiver i max_prio = max_prio
scan_senders (suc n) k receiver i max_prio = scan_senders n k receiver (suc i) (
    if awaits k receiver i && ltb max_prio (k.sched.current_priority i)
    then k.sched.current_priority i
    else max_prio)

unfoldable pub recalculate_receiver_priority : System → ℕ → System
unfolding scan_senders
recalculate_receiver_priority k receiver = record k {
  sched =
      set_task_priority k.sched receiver
        (scan_senders k.sched.task_count k receiver 0 (k.sched.base_priority receiver));
}
