-- ===== src/Kernel/Ipc/CallWaits.antt =====
-- `Endpoint::call` and the queues: the caller meets the first receiver that fits, or is queued.
use aurora_os.Prelude.{
  ℕ, ◌<◌, ◌≡◌, refl, inl, inr, ◌∙◌, sym, ap, Bool, true, false, ◌||◌, Option, none, some, List,
  arith, contains, erase, ◌==◌, if◌then◌else◌, Bool-cases,
}
use aurora_os.Prelude.Store.{update}
use aurora_os.Kernel.Ready.{max_tasks}
use aurora_os.Kernel.WaitQueue.{WaitQueue, enqueue}
use aurora_os.Kernel.WaitQueue.Chain.{IsQueue, insert, find_first}
use aurora_os.Kernel.WaitQueue.Enqueue.{enqueue-IsQueue}
use aurora_os.Kernel.WaitQueue.Matching.{Taken, dequeue_matching_receiver-Taken, first-contains}
use aurora_os.Kernel.Ipc.{System, recv_queue, set_recv_queue, set_send_queue, nonblock, label_of}
use aurora_os.Kernel.Ipc.Endpoint.{call, call_at, call_found, call_none, begin_call}
use aurora_os.Kernel.Ipc.Waits.{
  Side, queue_at, waits_as, Waits, IsQueue-frame, length-Waits, Waits-same, ends_but_receivers,
  ends_but_senders, ends_same, as_sender,
}
use aurora_os.Kernel.Ipc.Waits.Leave.{without, Left, Left-Waits}
use aurora_os.Kernel.Ipc.Waits.Enter.{at_place, Entered, Entered-Waits}

-- The task does not wait.
abbrev pub Idle : System → ℕ → Type 0
Idle k t = (b : Side) → waits_as b (k.ipc_state t) ≡ false

module _ (k : System) (l : Side → ℕ → List ℕ) (this sender : ℕ) (msg : Option ℕ)
    (len timeout_ticks : ℕ) where
  -- A receiver that waits is taken out.
  found-Left :
      (r : ℕ) (w : WaitQueue)
      → Waits k l
      → Idle k sender
      → contains r (l Side.receivers this) ≡ true
      → IsQueue w (erase (l Side.receivers this) r)
      → ((j : ℕ) → contains j (l Side.receivers this) ≡ false → w.next j ≡ k.blocked_next j)
      → Left k
          (call_found (set_recv_queue k this w) this sender r msg len timeout_ticks).1
          l
          Side.receivers
          this
          r
  unfolding call_found
  found-Left r w v idle there q frame = elim (Bool-cases (timeout_ticks == nonblock)) [
    | inl on ↦ rw on (record {
      was = sym (v.member Side.receivers this r) ∙ there;
      queue = IsQueue-frame w _ _ (ground arith) (ground arith) (λ j h. refl) q;
      frame = frame;
      ends =
          ends_but_receivers k.send_ends k.send_ends k.recv_ends (set_recv_queue k this w).recv_ends
            this (λ e'. refl) (λ e' ne. ground arith);
      others = λ b' e' j ne. ground (arith, idle b');
      own = λ b' e'. ground arith;
    })
    | inr off ↦ rw off (record {
      was = sym (v.member Side.receivers this r) ∙ there;
      queue = IsQueue-frame w _ _ (ground arith) (ground arith) (λ j h. refl) q;
      frame = frame;
      ends =
          ends_but_receivers k.send_ends k.send_ends k.recv_ends (set_recv_queue k this w).recv_ends
            this (λ e'. refl) (λ e' ne. ground arith);
      others = λ b' e' j ne. ground (arith, idle b');
      own = λ b' e'. ground arith;
    })
  ]

  -- The queue as it is, put back.
  abbrev put_back : System
  put_back = set_recv_queue k this (recv_queue k this)

  -- The caller waits.
  none-Entered :
      Waits k l
      → Idle k sender
      → sender < max_tasks
      → timeout_ticks == nonblock ≡ false
      → Entered k
          (call_none put_back this sender msg len timeout_ticks).1
          l
          Side.senders
          this
          sender
          k.sched.current_priority
  unfolding call_none
  none-Entered v idle small off =
      let (q, frame) =
        enqueue-IsQueue k.sched.current_priority (queue_at k Side.senders this)
          (l Side.senders this) sender (v.queue Side.senders this) (v.nodup Side.senders this)
          (v.member Side.senders this sender ∙ ground (arith, idle Side.senders))
          (length-Waits k l Side.senders this v) in
      rw off (record {
        was = λ b' e'. ground (arith, idle b');
        in_table = small;
        queue =
            IsQueue-frame (enqueue k.sched.current_priority (queue_at k Side.senders this) sender) _
              _ (ground arith) (ground arith) (λ j h. refl) q;
        frame = frame;
        ends =
            ends_but_senders k.send_ends
              (set_send_queue k this
                (enqueue k.sched.current_priority (queue_at k Side.senders this) sender)).send_ends
              k.recv_ends put_back.recv_ends this (λ e' ne. ground arith) (λ e'. ground arith);
        others = λ b' e' j ne. ground arith;
        own = λ b' e'. ground (arith, as_sender b');
      })

  none-Waits :
      Waits k l
      → timeout_ticks == nonblock ≡ true
      → Idle k sender
      → Waits (call_none put_back this sender msg len timeout_ticks).1 l
  unfolding call_none
  none-Waits v on idle = rw on (
      Waits-same k _ l v
        (ends_same k.send_ends k.send_ends k.recv_ends put_back.recv_ends this (λ e'. refl)
          (λ e'. ground arith))
        (λ j. refl) (λ b' e' j. ground (arith, idle b')))

-- The lists of the waiting tasks after `call`, where `found` is the receiver that it meets.
abbrev pub called : (Side → ℕ → List ℕ) → (ℕ → ℕ) → ℕ → ℕ → ℕ → Option ℕ → Side → ℕ → List ℕ
called l prio this sender timeout_ticks (some r) = without l r
called l prio this sender timeout_ticks none =
    if timeout_ticks == nonblock
    then l
    else at_place l Side.senders this (insert prio sender (l Side.senders this))

module _ (k : System) (l : Side → ℕ → List ℕ) (this sender : ℕ) (msg : Option ℕ)
    (len timeout_ticks : ℕ) where
  abbrev fits : ℕ → Bool
  fits t = k.label_filter t == 0 || k.label_filter t == k.msg_type sender

  called-none :
      Waits k l
      → Idle k sender
      → sender < max_tasks
      → Waits
          (call_none
            (put_back k l this sender msg len timeout_ticks)
            this
            sender
            msg
            len
            timeout_ticks).1
          (called l k.sched.current_priority this sender timeout_ticks none)
  called-none v idle small = elim (Bool-cases (timeout_ticks == nonblock)) [
    | inl on ↦ rw on (none-Waits k l this sender msg len timeout_ticks v on idle)
    | inr off ↦ rw off (
        Entered-Waits k _ l Side.senders this sender k.sched.current_priority v
          (none-Entered k l this sender msg len timeout_ticks v idle small off))
  ]

  at-Waits :
      (o : Option ℕ) (p : Option ℕ × WaitQueue)
      → o ≡ find_first fits (l Side.receivers this)
      → Taken (l Side.receivers this) (recv_queue k this) o p
      → Waits k l
      → Idle k sender
      → sender < max_tasks
      → Waits
          (call_at k this sender msg len timeout_ticks p).1
          (called l k.sched.current_priority this sender timeout_ticks o)
  unfolding call_at
  at-Waits none p e t v idle small = rw t (called-none v idle small)
  at-Waits (some r) (none, w) e t v idle small = absurd (ground (arith, t.0))
  at-Waits (some r) (some r', w) e t v idle small =
      let same : r' ≡ r = ground (arith, t.0) in
      rw same (
        Left-Waits k _ l Side.receivers this r v (
          found-Left k l this sender msg len timeout_ticks r w v idle
            (first-contains k.blocked_next fits (l Side.receivers this) r (sym e)) t.1 t.2))

-- `call` by a task that does not wait keeps the queues of the endpoints right: the first receiver
-- that asks for the message's label, or for any, is taken out; with none, the caller is inserted
-- among the senders by its priority, or nothing changes if it does not block.
pub call-Waits :
    (k : System) (l : Side → ℕ → List ℕ) (this sender : ℕ) (msg : Option ℕ) (len : ℕ)
    (reply_buf : Option ℕ) (max_reply_len timeout_ticks badge : ℕ)
    → Waits k l
    → Idle k sender
    → sender < max_tasks
    → Waits (call k this sender msg len reply_buf max_reply_len timeout_ticks badge).1 (
        called l k.sched.current_priority this sender timeout_ticks (
          find_first
            (λ t. k.label_filter t == 0 || k.label_filter t == label_of k.memory msg len)
            (l Side.receivers this)))
unfolding call
call-Waits k l this sender msg len reply_buf max_reply_len timeout_ticks badge v idle small =
    let k₁ = begin_call k sender msg len reply_buf max_reply_len badge in
    let v₁ = Waits-same k k₁ l v (λ b e. refl) (λ j. refl) (λ b e t. refl) in
    rw
      (sym (
        ap
          (λ x.
            find_first (λ t. k.label_filter t == 0 || k.label_filter t == x)
              (l Side.receivers this))
          (typed k sender (label_of k.memory msg len))))
      (at-Waits k₁ l this sender msg len timeout_ticks _ _ refl
        (dequeue_matching_receiver-Taken k₁.label_filter (k₁.msg_type sender) (recv_queue k₁ this)
          (l Side.receivers this) (v₁.queue Side.receivers this) (v₁.nodup Side.receivers this)
          (length-Waits k₁ l Side.receivers this v₁))
        v₁ idle small)
  where
    typed : (k : System) (i x : ℕ) → update k.msg_type i x i ≡ x
    typed k i x = ground arith
