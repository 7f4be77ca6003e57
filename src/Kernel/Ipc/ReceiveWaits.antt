-- ===== src/Kernel/Ipc/ReceiveWaits.antt =====
-- `Endpoint::receive` and the queues: the receiver meets the first sender that fits, or is queued.
use aurora_os.Prelude.{
  ℕ, ◌<◌, ◌≡◌, refl, inl, inr, ◌∙◌, sym, Bool, true, false, ◌||◌, Option, none, some, List, arith,
  contains, erase, ◌==◌, if◌then◌else◌, Bool-cases,
}
use aurora_os.Kernel.Ready.{max_tasks}
use aurora_os.Kernel.WaitQueue.{WaitQueue, enqueue}
use aurora_os.Kernel.WaitQueue.Chain.{IsQueue, insert, find_first}
use aurora_os.Kernel.WaitQueue.Enqueue.{enqueue-IsQueue}
use aurora_os.Kernel.WaitQueue.Matching.{Taken, dequeue_matching_sender-Taken, first-contains}
use aurora_os.Kernel.Ipc.{System, send_queue, set_send_queue, set_recv_queue, nonblock}
use aurora_os.Kernel.Ipc.Endpoint.{receive, receive_at, receive_found, receive_none, begin_receive}
use aurora_os.Kernel.Ipc.Waits.{
  Side, queue_at, Waits, IsQueue-frame, length-Waits, Waits-same, ends_but_receivers,
  ends_but_senders, ends_same, as_receiver,
}
use aurora_os.Kernel.Ipc.Waits.Leave.{without, Left, Left-Waits}
use aurora_os.Kernel.Ipc.Waits.Enter.{at_place, Entered, Entered-Waits}
use aurora_os.Kernel.Ipc.CallWaits.{Idle}

-- The lists of the waiting tasks after `receive`, where `found` is the sender that it meets.
abbrev pub received : (Side → ℕ → List ℕ) → (ℕ → ℕ) → ℕ → ℕ → ℕ → Option ℕ → Side → ℕ → List ℕ
received l prio this receiver timeout_ticks (some s) = without l s
received l prio this receiver timeout_ticks none =
    if timeout_ticks == nonblock
    then l
    else at_place l Side.receivers this (insert prio receiver (l Side.receivers this))

module _ (k : System) (l : Side → ℕ → List ℕ) (this receiver : ℕ) (msg_buf : Option ℕ)
    (max_len timeout_ticks label_filter : ℕ) where
  -- A sender that waits is taken out.
  found-Left :
      (s : ℕ) (w : WaitQueue)
      → Waits k l
      → Idle k receiver
      → contains s (l Side.senders this) ≡ true
      → IsQueue w (erase (l Side.senders this) s)
      → ((j : ℕ) → contains j (l Side.senders this) ≡ false → w.next j ≡ k.blocked_next j)
      → Left k
          (receive_found (set_send_queue k this w) receiver s msg_buf max_len).1
          l
          Side.senders
          this
          s
  unfolding receive_found
  found-Left s w v idle there q frame = record {
    was = sym (v.member Side.senders this s) ∙ there;
    queue = IsQueue-frame w _ _ (ground arith) (ground arith) (λ j h. refl) q;
    frame = frame;
    ends =
        ends_but_senders k.send_ends (set_send_queue k this w).send_ends k.recv_ends k.recv_ends
          this (λ e' ne. ground arith) (λ e'. refl);
    others = λ b' e' j ne. ground (arith, idle b');
    own = λ b' e'. ground arith;
  }

  -- The queue as it is, put back.
  abbrev put_back : System
  put_back = set_send_queue k this (send_queue k this)

  -- The receiver waits.
  none-Entered :
      Waits k l
      → Idle k receiver
      → receiver < max_tasks
      → timeout_ticks == nonblock ≡ false
      → Entered k
          (receive_none put_back this receiver timeout_ticks).1
          l
          Side.receivers
          this
          receiver
          k.sched.current_priority
  unfolding receive_none
  none-Entered v idle small off =
      let (q, frame) =
        enqueue-IsQueue k.sched.current_priority (queue_at k Side.receivers this)
          (l Side.receivers this) receiver (v.queue Side.receivers this)
          (v.nodup Side.receivers this)
          (v.member Side.receivers this receiver ∙ ground (arith, idle Side.receivers))
          (length-Waits k l Side.receivers this v) in
      rw off (record {
        was = λ b' e'. ground (arith, idle b');
        in_table = small;
        queue =
            IsQueue-frame
              (enqueue k.sched.current_priority (queue_at k Side.receivers this) receiver) _ _
              (ground arith) (ground arith) (λ j h. refl) q;
        frame = frame;
        ends =
            ends_but_receivers k.send_ends put_back.send_ends k.recv_ends
              (set_recv_queue k this (
                enqueue k.sched.current_priority (queue_at k Side.receivers this)
                  receiver)).recv_ends
              this (λ e'. ground arith) (λ e' ne. ground arith);
        others = λ b' e' j ne. ground arith;
        own = λ b' e'. ground (arith, as_receiver b');
      })

  none-Waits :
      Waits k l
      → timeout_ticks == nonblock ≡ true
      → Idle k receiver
      → Waits (receive_none put_back this receiver timeout_ticks).1 l
  unfolding receive_none
  none-Waits v on idle = rw on (
      Waits-same k _ l v
        (ends_same k.send_ends put_back.send_ends k.recv_ends k.recv_ends this (λ e'. ground arith)
          (λ e'. refl))
        (λ j. refl) (λ b' e' j. ground (arith, idle b')))

  received-none :
      Waits k l
      → Idle k receiver
      → receiver < max_tasks
      → Waits
          (receive_none put_back this receiver timeout_ticks).1
          (received l k.sched.current_priority this receiver timeout_ticks none)
  received-none v idle small = elim (Bool-cases (timeout_ticks == nonblock)) [
    | inl on ↦ rw on (none-Waits v on idle)
    | inr off ↦ rw off (
        Entered-Waits k _ l Side.receivers this receiver k.sched.current_priority v
          (none-Entered v idle small off))
  ]

  abbrev head_fits : ℕ → Bool
  head_fits t = label_filter == 0 || k.msg_type t == label_filter

  at-Waits :
      (o : Option ℕ) (p : Option ℕ × WaitQueue)
      → o ≡ find_first head_fits (l Side.senders this)
      → Taken (l Side.senders this) (send_queue k this) o p
      → Waits k l
      → Idle k receiver
      → receiver < max_tasks
      → Waits
          (receive_at k this receiver msg_buf max_len timeout_ticks p).1
          (received l k.sched.current_priority this receiver timeout_ticks o)
  unfolding receive_at
  at-Waits none p e t v idle small = rw t (received-none v idle small)
  at-Waits (some s) (none, w) e t v idle small = absurd (ground (arith, t.0))
  at-Waits (some s) (some s', w) e t v idle small =
      let same : s' ≡ s = ground (arith, t.0) in
      rw same (
        Left-Waits k _ l Side.senders this s v (
          found-Left s w v idle
            (first-contains k.blocked_next head_fits (l Side.senders this) s (sym e)) t.1 t.2))

-- `receive` by a task that does not wait keeps the queues of the endpoints right: the first sender
-- of a message with the label asked for, or of any if it is 0, is taken out; with none, the receiver
-- is inserted among the receivers by its priority, or nothing changes if it does not block.
pub receive-Waits :
    (k : System) (l : Side → ℕ → List ℕ) (this receiver : ℕ) (msg_buf : Option ℕ)
    (max_len timeout_ticks label_filter : ℕ)
    → Waits k l
    → Idle k receiver
    → receiver < max_tasks
    → Waits (receive k this receiver msg_buf max_len timeout_ticks label_filter).1 (
        received l k.sched.current_priority this receiver timeout_ticks (
          find_first
            (λ t. label_filter == 0 || k.msg_type t == label_filter)
            (l Side.senders this)))
unfolding receive
receive-Waits k l this receiver msg_buf max_len timeout_ticks label_filter v idle small =
    let k₁ = begin_receive k receiver msg_buf max_len label_filter in
    let v₁ = Waits-same k k₁ l v (λ b e. refl) (λ j. refl) (λ b e t. refl) in
    at-Waits k₁ l this receiver msg_buf max_len timeout_ticks label_filter _ _ refl
      (dequeue_matching_sender-Taken k₁.msg_type label_filter (send_queue k₁ this)
        (l Side.senders this) (v₁.queue Side.senders this) (v₁.nodup Side.senders this)
        (length-Waits k₁ l Side.senders this v₁))
      v₁ idle small
