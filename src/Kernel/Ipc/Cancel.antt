-- ===== src/Kernel/Ipc/Cancel.antt =====
-- kernel/core/ipc.cpp: `Endpoint::cancel_waiter` and `cancel_all`, which end waits.
use aurora_os.Prelude.{ℕ, zero, suc, none, some, ltb, holds, ◌&&◌, if◌then◌else◌}
use aurora_os.Prelude.Store.{update}
use aurora_os.Kernel.Ready.{max_tasks}
use aurora_os.Kernel.WaitQueue.{dequeue, remove}
use aurora_os.Kernel.Ipc.{
  System, IpcStatus, is_reply_blocked, send_queue, recv_queue, set_send_queue, set_recv_queue,
  stop_waiting,
}
use aurora_os.Kernel.Ipc.Inherit.{recalculate_receiver_priority}
use aurora_os.Kernel.Ipc.Endpoint.{wake}

-- The priority of the task that served `t`, if the number names a task.
abbrev pub restore : System → ℕ → System
restore k receiver =
    if ltb receiver max_tasks && ltb receiver k.sched.task_count
    then recalculate_receiver_priority k receiver
    else k

unfoldable pub cancel_waiter : System → ℕ → ℕ → IpcStatus → System
cancel_waiter k this task reason =
    let k₁ = set_send_queue k this (remove (send_queue k this) task).1 in
    let k₂ = set_recv_queue k₁ this (remove (recv_queue k₁ this) task).1 in
    let receiver = k₂.receiver_id task in
    let was_reply_blocked = is_reply_blocked (k₂.ipc_state task) in
    let k₃ = wake (stop_waiting k₂ task reason) task in
    if was_reply_blocked then restore k₃ receiver else k₃

-- A wait that `cancel_all` ends.
abbrev pub end_wait : System → ℕ → IpcStatus → System
end_wait k t reason =
    let k₁ = stop_waiting k t reason in
    wake (record k₁ { blocked_next = update k₁.blocked_next t none }) t

-- The loop over the senders, and that over the receivers. A queue holds at most `max_tasks` tasks,
-- which bounds the rounds.
unfoldable pub cancel_senders : ℕ → System → ℕ → IpcStatus → System
cancel_senders zero k this reason = k
cancel_senders (suc n) k this reason = elim (dequeue (send_queue k this)).0 [
  | none ↦ k
  | some t ↦
      cancel_senders n (end_wait (set_send_queue k this (dequeue (send_queue k this)).1) t reason)
        this reason
]

unfoldable pub cancel_receivers : ℕ → System → ℕ → IpcStatus → System
cancel_receivers zero k this reason = k
cancel_receivers (suc n) k this reason = elim (dequeue (recv_queue k this)).0 [
  | none ↦ k
  | some t ↦
      cancel_receivers n
        (recalculate_receiver_priority
          (end_wait (set_recv_queue k this (dequeue (recv_queue k this)).1) t reason) t)
        this reason
]

-- The scan for tasks that wait for a reply, of `n` tasks from `i` on.
unfoldable pub cancel_replies : ℕ → System → ℕ → IpcStatus → ℕ → System
cancel_replies zero k this reason i = k
cancel_replies (suc n) k this reason i =
    cancel_replies n
      (if holds (k.waiting_endpoint i) this
        then restore (end_wait k i reason) (k.receiver_id i)
        else k)
      this reason (suc i)

unfoldable pub cancel_all : System → ℕ → IpcStatus → System
unfolding cancel_senders cancel_receivers cancel_replies
cancel_all k this reason =
    let k₁ = cancel_senders max_tasks k this reason in
    let k₂ = cancel_receivers max_tasks k₁ this reason in
    cancel_replies k₂.sched.task_count k₂ this reason 0
