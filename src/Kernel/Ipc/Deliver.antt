-- ===== src/Kernel/Ipc/Deliver.antt =====
-- What `Endpoint::call` and `receive` deliver when a sender and a receiver meet.
use aurora_os.Prelude.{ℕ, ◌+◌, ◌≤◌, ◌<◌, ◌≡◌, refl, ◌⊎◌, ◌==◌, false, some, arith}
use aurora_os.Prelude.Store.{update}
use aurora_os.Kernel.Ready.{Sched, TaskState}
use aurora_os.Kernel.Ipc.{System, IpcState, IpcStatus, clamp, nonblock, sleep_of}
use aurora_os.Kernel.Ipc.Endpoint.{call_found, receive_found}
use aurora_os.Kernel.Ipc.Copy.{Transferred, transfer-Transferred}
use aurora_os.Kernel.Ipc.Schedulable.{Schedulable, sleep-Schedulable}
use aurora_os.Kernel.Ipc.Meet.{higher, inherit-Met, wake-Met}

-- The receiver has the message, with its length and label and the badge and number of the sender;
-- the sender waits for the reply; and the receiver runs at least with the sender's priority.
pub record Delivered (before : ℕ → ℕ) (was : Sched) (sender receiver badge label n s d : ℕ)
    (r : IpcStatus × System) : Type 0 where
  pub status : r.0 ≡ IpcStatus.ok
  pub copied : Transferred n s d before (r.1.msg_len receiver, r.1.memory)
  pub from : r.1.sender_id receiver ≡ sender
  pub badged : r.1.badge receiver ≡ badge
  pub labelled : r.1.msg_type receiver ≡ label
  pub free : r.1.ipc_state receiver ≡ IpcState.ready
  pub asks : r.1.ipc_state sender ≡ IpcState.reply_blocked
  pub of : r.1.receiver_id sender ≡ receiver
  pub blocked : r.1.sched.state sender ≡ TaskState.blocked_on_notify
  pub rank :
      r.1.sched.current_priority receiver
      ≡ higher (was.current_priority receiver) (was.current_priority sender)
  pub schedulable : Schedulable r.1.sched

module _ (k : System) (sender receiver : ℕ) (v : Schedulable k.sched)
    (lt : sender < k.sched.task_count) (lt' : receiver < k.sched.task_count)
    (ne : sender == receiver ≡ false) where
  pub found-Delivered :
      (this s d len timeout_ticks : ℕ)
      → timeout_ticks == nonblock ≡ false
      → k.msg_buf receiver ≡ some d
      → (let n = clamp len (k.max_len receiver) in (s + n ≤ d) ⊎ (d + n ≤ s))
      → let r = call_found k this sender receiver (some s) len timeout_ticks in
        Delivered k.memory k.sched sender receiver
          (k.badge sender)
          (k.msg_type sender)
          (clamp len (k.max_len receiver))
          s
          d
          r
        × (r.1.sched.state receiver ≡ TaskState.ready)
  unfolding call_found
  found-Delivered this s d len timeout_ticks off buf apart =
      let s₀ = record k.sched {
        sleep_ticks =
            update (update k.sched.sleep_ticks receiver 0) sender (sleep_of timeout_ticks);
      } in
      let (met, awake) = wake-Met s₀ sender receiver (sleep-Schedulable k.sched _ v) lt lt' ne in
      let t = transfer-Transferred (clamp len (k.max_len receiver)) s d k.memory apart in
      rw (off, buf)
        (
          record {
            status = refl;
            copied = record {
              length = ground (arith, t.length);
              inside = t.inside;
              outside = t.outside;
            };
            from = ground arith;
            badged = ground arith;
            labelled = ground arith;
            free = ground arith;
            asks = ground arith;
            of = ground arith;
            blocked = met.waits;
            rank = met.rank;
            schedulable = met.schedulable;
          },
          awake,
        )

  pub received-Delivered :
      (s d max_len : ℕ)
      → k.msg_buf sender ≡ some s
      → (let n = clamp (k.msg_len sender) max_len in (s + n ≤ d) ⊎ (d + n ≤ s))
      → Delivered k.memory k.sched sender receiver
          (k.badge sender)
          (k.msg_type sender)
          (clamp (k.msg_len sender) max_len)
          s
          d
          (receive_found k receiver sender (some d) max_len)
  unfolding receive_found
  received-Delivered s d max_len buf apart =
      let s₀ = record k.sched { sleep_ticks = update k.sched.sleep_ticks receiver 0 } in
      let met = inherit-Met s₀ sender receiver (sleep-Schedulable k.sched _ v) lt lt' ne in
      let t = transfer-Transferred (clamp (k.msg_len sender) max_len) s d k.memory apart in
      rw buf (record {
        status = refl;
        copied = record {
          length = ground (arith, t.length);
          inside = t.inside;
          outside = t.outside;
        };
        from = ground arith;
        badged = ground arith;
        labelled = ground arith;
        free = ground arith;
        asks = ground arith;
        of = ground arith;
        blocked = met.waits;
        rank = met.rank;
        schedulable = met.schedulable;
      })
