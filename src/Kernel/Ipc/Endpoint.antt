-- ===== src/Kernel/Ipc/Endpoint.antt =====
-- kernel/core/ipc.cpp: `Endpoint::call`, `receive` and `reply`.
use aurora_os.Prelude.{ℕ, Option, none, some, ltb, leb, ◌==◌, ◌||◌, if◌then◌else◌}
use aurora_os.Prelude.Store.{update}
use aurora_os.Kernel.Ready.{Sched, TaskState, max_tasks, set_task_state, set_task_priority}
use aurora_os.Kernel.WaitQueue.{
  WaitQueue, enqueue, dequeue_matching_sender, dequeue_matching_receiver,
}
use aurora_os.Kernel.Ipc.{
  System, IpcState, IpcStatus, send_queue, recv_queue, set_send_queue, set_recv_queue, nonblock,
  sleep_of, clamp, transfer, label_of, stop_waiting,
}
use aurora_os.Kernel.Ipc.Inherit.{awaits, recalculate_receiver_priority}

-- `receiver` inherits the priority of `sender`, if that is higher.
abbrev pub inherit : Sched → ℕ → ℕ → Sched
inherit s sender receiver =
    if ltb (s.current_priority receiver) (s.current_priority sender)
    then set_task_priority s receiver (s.current_priority sender)
    else s

-- What the receiver is given of the message and of its sender.
abbrev pub hand_over : System → ℕ → ℕ → ℕ × (ℕ → ℕ) → System
hand_over k sender receiver (n, memory) = record (stop_waiting k receiver IpcStatus.ok) {
  msg_len = update k.msg_len receiver n;
  sender_id = update k.sender_id receiver sender;
  badge = update k.badge receiver (k.badge sender);
  msg_type = update k.msg_type receiver (k.msg_type sender);
  receiver_id = update k.receiver_id sender receiver;
  memory = memory;
}

-- `sender` waits for the reply.
abbrev pub await_reply : System → ℕ → ℕ → ℕ → System
await_reply k this sender timeout_ticks = record k {
  sched =
      set_task_state
        (record k.sched {
          sleep_ticks = update k.sched.sleep_ticks sender (sleep_of timeout_ticks);
        })
        sender TaskState.blocked_on_notify;
  ipc_state = update k.ipc_state sender IpcState.reply_blocked;
  waiting_endpoint = update k.waiting_endpoint sender (some this);
}

abbrev pub wake : System → ℕ → System
wake k t = record k { sched = set_task_state k.sched t TaskState.ready }

-- `call` with a receiver that waits.
unfoldable pub call_found : System → ℕ → ℕ → ℕ → Option ℕ → ℕ → ℕ → IpcStatus × System
call_found k this sender receiver msg len timeout_ticks =
    let k₁ =
      hand_over k sender receiver
        (transfer (clamp len (k.max_len receiver)) msg (k.msg_buf receiver) k.memory) in
    if timeout_ticks == nonblock
    then (
      IpcStatus.ok,
      wake
          (record k₁ {
            sched = record k₁.sched { sleep_ticks = update k₁.sched.sleep_ticks sender 0 };
            ipc_state = update k₁.ipc_state sender IpcState.ready;
            waiting_endpoint = update k₁.waiting_endpoint sender none;
          })
          receiver,
    )
    else (let k₂ = await_reply k₁ this sender timeout_ticks in
        (IpcStatus.ok, wake (record k₂ { sched = inherit k₂.sched sender receiver }) receiver))

-- `call` with no receiver.
unfoldable pub call_none : System → ℕ → ℕ → Option ℕ → ℕ → ℕ → IpcStatus × System
call_none k this sender msg len timeout_ticks =
    if timeout_ticks == nonblock
    then (IpcStatus.would_block, stop_waiting k sender IpcStatus.would_block)
    else (let s₁ = record k.sched {
      sleep_ticks = update k.sched.sleep_ticks sender (sleep_of timeout_ticks);
    } in
        let k₁ = record k {
          sched = s₁;
          msg_buf = update k.msg_buf sender msg;
          msg_len = update k.msg_len sender len;
          ipc_state = update k.ipc_state sender IpcState.sending;
          waiting_endpoint = update k.waiting_endpoint sender (some this);
        } in
        let k₂ = set_send_queue k₁ this (enqueue s₁.current_priority (send_queue k₁ this) sender) in
        (IpcStatus.ok, record k₂ { sched = set_task_state s₁ sender TaskState.blocked_on_notify }))

-- The fields that `call` sets first.
abbrev pub begin_call : System → ℕ → Option ℕ → ℕ → Option ℕ → ℕ → ℕ → System
begin_call k sender msg len reply_buf max_reply_len badge = record k {
  reply_buf = update k.reply_buf sender reply_buf;
  max_len = update k.max_len sender max_reply_len;
  status = update k.status sender IpcStatus.ok;
  badge = update k.badge sender badge;
  msg_type = update k.msg_type sender (label_of k.memory msg len);
}

-- `call` with what it takes from the queue of the receivers.
unfoldable pub call_at :
    System → ℕ → ℕ → Option ℕ → ℕ → ℕ → Option ℕ × WaitQueue → IpcStatus × System
unfolding call_found call_none
call_at k this sender msg len timeout_ticks (none, w) =
    call_none (set_recv_queue k this w) this sender msg len timeout_ticks
call_at k this sender msg len timeout_ticks (some receiver, w) =
    call_found (set_recv_queue k this w) this sender receiver msg len timeout_ticks

unfoldable pub call : System → ℕ → ℕ → Option ℕ → ℕ → Option ℕ → ℕ → ℕ → ℕ → IpcStatus × System
unfolding call_at
call k this sender msg len reply_buf max_reply_len timeout_ticks badge =
    let k₁ = begin_call k sender msg len reply_buf max_reply_len badge in
    call_at k₁ this sender msg len timeout_ticks
      (dequeue_matching_receiver k₁.label_filter (k₁.msg_type sender) (recv_queue k₁ this))

-- `receive` with a sender that waits.
unfoldable pub receive_found : System → ℕ → ℕ → Option ℕ → ℕ → IpcStatus × System
receive_found k receiver sender msg_buf max_len =
    let k₁ =
      hand_over k sender receiver
        (transfer (clamp (k.msg_len sender) max_len) (k.msg_buf sender) msg_buf k.memory) in
    let s₁ = set_task_state k₁.sched sender TaskState.blocked_on_notify in
    (
      IpcStatus.ok,
      record k₁ {
        ipc_state = update k₁.ipc_state sender IpcState.reply_blocked;
        sched = inherit s₁ sender receiver;
      },
    )

-- `receive` with no sender.
unfoldable pub receive_none : System → ℕ → ℕ → ℕ → IpcStatus × System
receive_none k this receiver timeout_ticks =
    if timeout_ticks == nonblock
    then (IpcStatus.would_block, stop_waiting k receiver IpcStatus.would_block)
    else (let s₁ = record k.sched {
      sleep_ticks = update k.sched.sleep_ticks receiver (sleep_of timeout_ticks);
    } in
        let k₁ = record k {
          sched = s₁;
          ipc_state = update k.ipc_state receiver IpcState.receiving;
          waiting_endpoint = update k.waiting_endpoint receiver (some this);
        } in
        let k₂ =
          set_recv_queue k₁ this (enqueue s₁.current_priority (recv_queue k₁ this) receiver) in
        (
          IpcStatus.ok,
          record k₂ { sched = set_task_state s₁ receiver TaskState.blocked_on_notify },
        ))

-- The fields that `receive` sets first.
abbrev pub begin_receive : System → ℕ → Option ℕ → ℕ → ℕ → System
begin_receive k receiver msg_buf max_len label_filter = record k {
  msg_buf = update k.msg_buf receiver msg_buf;
  max_len = update k.max_len receiver max_len;
  status = update k.status receiver IpcStatus.ok;
  label_filter = update k.label_filter receiver label_filter;
}

-- `receive` with what it takes from the queue of the senders.
unfoldable pub receive_at :
    System → ℕ → ℕ → Option ℕ → ℕ → ℕ → Option ℕ × WaitQueue → IpcStatus × System
unfolding receive_found receive_none
receive_at k this receiver msg_buf max_len timeout_ticks (none, w) =
    receive_none (set_send_queue k this w) this receiver timeout_ticks
receive_at k this receiver msg_buf max_len timeout_ticks (some sender, w) =
    receive_found (set_send_queue k this w) receiver sender msg_buf max_len

unfoldable pub receive : System → ℕ → ℕ → Option ℕ → ℕ → ℕ → ℕ → IpcStatus × System
unfolding receive_at
receive k this receiver msg_buf max_len timeout_ticks label_filter =
    let k₁ = begin_receive k receiver msg_buf max_len label_filter in
    receive_at k₁ this receiver msg_buf max_len timeout_ticks
      (dequeue_matching_sender k₁.msg_type label_filter (send_queue k₁ this))

-- `reply` to a task that waits for it.
unfoldable pub reply_found : System → ℕ → ℕ → ℕ × (ℕ → ℕ) → System
reply_found k receiver sender (n, memory) =
    recalculate_receiver_priority
      (wake
        (record (stop_waiting k sender IpcStatus.ok) {
          msg_len = update k.msg_len sender n;
          memory = memory;
        })
        sender)
      receiver

unfoldable pub reply : System → ℕ → ℕ → Option ℕ → ℕ → IpcStatus × System
unfolding reply_found
reply k receiver sender_id reply_msg len =
    if leb max_tasks sender_id || leb k.sched.task_count sender_id
    then (IpcStatus.receiver_dead, k)
    else (if awaits k receiver sender_id
        then (
          IpcStatus.ok,
          reply_found k receiver sender_id (
              transfer (clamp len (k.max_len sender_id)) reply_msg (k.reply_buf sender_id)
                k.memory),
        )
        else (IpcStatus.invalid, k))
