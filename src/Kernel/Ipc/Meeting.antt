-- ===== src/Kernel/Ipc/Meeting.antt =====
-- `Endpoint::call` and `receive` where the other side already waits: the message is delivered.
use aurora_os.Prelude.{
  ℕ, ◌+◌, ◌≤◌, ◌<◌, ◌≡◌, refl, ◌⊎◌, ◌∙◌, sym, ap, ◌==◌, ◌||◌, true, false, Option, none, some, List,
  arith, contains,
}
use aurora_os.Kernel.Ready.{Sched, TaskState}
use aurora_os.Kernel.WaitQueue.{WaitQueue, dequeue_matching_receiver, dequeue_matching_sender}
use aurora_os.Kernel.WaitQueue.Chain.{find_first}
use aurora_os.Kernel.WaitQueue.Matching.{
  Taken, dequeue_matching_receiver-Taken, dequeue_matching_sender-Taken, first-contains,
}
use aurora_os.Kernel.Ipc.{
  System, IpcStatus, clamp, nonblock, label_of, send_queue, recv_queue, set_recv_queue,
  set_send_queue,
}
use aurora_os.Kernel.Ipc.Endpoint.{
  call, call_at, call_found, begin_call, receive, receive_at, receive_found, begin_receive,
}
use aurora_os.Kernel.Ipc.Copy.{IsLeast, clamp-least}
use aurora_os.Kernel.Ipc.Schedulable.{Schedulable}
use aurora_os.Kernel.Ipc.Deliver.{Delivered, found-Delivered, received-Delivered}
use aurora_os.Kernel.Ipc.Waits.{Side, Waits, length-Waits, Waits-same}
use aurora_os.Kernel.Ipc.CallWaits.{Idle}

Taken-cast :
    (l : List ℕ) (w : WaitQueue) (o o' : Option ℕ) (p : Option ℕ × WaitQueue)
    → o ≡ o'
    → Taken l w o p
    → Taken l w o' p
Taken-cast l w o o' p e t = rw (sym e) t

Delivered-cast :
    (before : ℕ → ℕ) (was : Sched) (sender receiver b b' label label' n n' s d : ℕ)
    (r : IpcStatus × System)
    → b' ≡ b
    → label' ≡ label
    → n' ≡ n
    → Delivered before was sender receiver b label n s d r
    → Delivered before was sender receiver b' label' n' s d r
Delivered-cast before was sender receiver b b' label label' n n' s d r eb el en v =
    rw (eb, el, en) v

-- An idle task is not one that waits.
Idle-other :
    (k : System) (l : Side → ℕ → List ℕ) (b : Side) (this t r : ℕ)
    → Waits k l
    → Idle k t
    → contains r (l b this) ≡ true
    → t == r ≡ false
Idle-other k l b this t r v idle there =
    ground (arith, idle b, v.member b this r, v.member b this t)

call_met :
    (k : System) (this sender : ℕ) (msg : Option ℕ) (len timeout_ticks r : ℕ)
    (p : Option ℕ × WaitQueue)
    → p.0 ≡ some r
    → call_at k this sender msg len timeout_ticks p
      ≡ call_found (set_recv_queue k this p.1) this sender r msg len timeout_ticks
unfolding call_at
call_met k this sender msg len timeout_ticks r (none, w) e = cc
call_met k this sender msg len timeout_ticks r (some r', w) e =
    ap (λ x. call_found (set_recv_queue k this w) this sender x msg len timeout_ticks)
      (ground (arith, e))

receive_met :
    (k : System) (this receiver : ℕ) (msg_buf : Option ℕ) (max_len timeout_ticks t : ℕ)
    (p : Option ℕ × WaitQueue)
    → p.0 ≡ some t
    → receive_at k this receiver msg_buf max_len timeout_ticks p
      ≡ receive_found (set_send_queue k this p.1) receiver t msg_buf max_len
unfolding receive_at
receive_met k this receiver msg_buf max_len timeout_ticks t (none, w) e = cc
receive_met k this receiver msg_buf max_len timeout_ticks t (some t', w) e =
    ap (λ x. receive_found (set_send_queue k this w) receiver x msg_buf max_len) (ground (arith, e))

-- The message is delivered with the length that the code computes.
call-clamped :
    (k : System) (l : Side → ℕ → List ℕ) (this sender r s d len : ℕ) (reply_buf : Option ℕ)
    (max_reply_len timeout_ticks badge : ℕ)
    → Waits k l
    → Idle k sender
    → Schedulable k.sched
    → sender < k.sched.task_count
    → r < k.sched.task_count
    → timeout_ticks == nonblock ≡ false
    → find_first
        (λ t. k.label_filter t == 0 || k.label_filter t == label_of k.memory (some s) len)
        (l Side.receivers this)
      ≡ some r
    → k.msg_buf r ≡ some d
    → (let n = clamp len (k.max_len r) in (s + n ≤ d) ⊎ (d + n ≤ s))
    → let after = call k this sender (some s) len reply_buf max_reply_len timeout_ticks badge in
      Delivered k.memory k.sched sender r badge
        (label_of k.memory (some s) len)
        (clamp len (k.max_len r))
        s
        d
        after
      × (after.1.sched.state r ≡ TaskState.ready)
unfolding call
call-clamped k l this sender r s d len reply_buf max_reply_len timeout_ticks badge v idle sch lt lt'
      off found buf apart =
    let k₁ = begin_call k sender (some s) len reply_buf max_reply_len badge in
    let v₁ = Waits-same k k₁ l v (λ b e. refl) (λ j. refl) (λ b e t. refl) in
    let typed : k₁.msg_type sender ≡ label_of k.memory (some s) len = ground arith in
    let met : find_first (λ t. k.label_filter t == 0 || k.label_filter t == k₁.msg_type sender)
          (l Side.receivers this)
        ≡ some r =
      ap
        (λ x.
          find_first (λ t. k.label_filter t == 0 || k.label_filter t == x) (l Side.receivers this))
        typed
      ∙ found in
    let there = first-contains k.blocked_next _ (l Side.receivers this) r found in
    let ne = Idle-other k l Side.receivers this sender r v idle there in
    let same : k.max_len r ≡ k₁.max_len r = ground arith in
    let p = dequeue_matching_receiver k₁.label_filter (k₁.msg_type sender) (recv_queue k₁ this) in
    let taken : Taken (l Side.receivers this) (recv_queue k₁ this) (some r) p =
      Taken-cast (l Side.receivers this) (recv_queue k₁ this) _ (some r) p met (
        dequeue_matching_receiver-Taken k₁.label_filter (k₁.msg_type sender) (recv_queue k₁ this)
          (l Side.receivers this) (v₁.queue Side.receivers this) (v₁.nodup Side.receivers this)
          (length-Waits k₁ l Side.receivers this v₁)) in
    let (given, awake) =
      found-Delivered (set_recv_queue k₁ this p.1) sender r sch lt lt' ne this s d len timeout_ticks
        off buf (room _ same apart) in
    rw (call_met k₁ this sender (some s) len timeout_ticks r p taken.0) (
      Delivered-cast k.memory k.sched sender r _ badge _ _ _ _ s d _ (ground arith) (sym typed)
          (ap (clamp len) same) given,
      awake,
    )
  where
    room :
        (m : ℕ)
        → k.max_len r ≡ m
        → (let n = clamp len (k.max_len r) in (s + n ≤ d) ⊎ (d + n ≤ s))
        → (let n = clamp len m in (s + n ≤ d) ⊎ (d + n ≤ s))
    room m e h = rw (sym e) h

receive-clamped :
    (k : System) (l : Side → ℕ → List ℕ)
    (this receiver t s d max_len timeout_ticks label_filter : ℕ)
    → Waits k l
    → Idle k receiver
    → Schedulable k.sched
    → receiver < k.sched.task_count
    → t < k.sched.task_count
    → find_first (λ t. label_filter == 0 || k.msg_type t == label_filter) (l Side.senders this)
      ≡ some t
    → k.msg_buf t ≡ some s
    → (let n = clamp (k.msg_len t) max_len in (s + n ≤ d) ⊎ (d + n ≤ s))
    → Delivered k.memory k.sched t receiver
        (k.badge t)
        (k.msg_type t)
        (clamp (k.msg_len t) max_len)
        s
        d
        (receive k this receiver (some d) max_len timeout_ticks label_filter)
unfolding receive
receive-clamped k l this receiver t s d max_len timeout_ticks label_filter v idle sch lt lt' found
      buf apart =
    let k₁ = begin_receive k receiver (some d) max_len label_filter in
    let v₁ = Waits-same k k₁ l v (λ b e. refl) (λ j. refl) (λ b e t. refl) in
    let there = first-contains k.blocked_next _ (l Side.senders this) t found in
    let ne = Idle-other k l Side.senders this receiver t v idle there in
    let p = dequeue_matching_sender k₁.msg_type label_filter (send_queue k₁ this) in
    let taken : Taken (l Side.senders this) (send_queue k₁ this) (some t) p =
      Taken-cast (l Side.senders this) (send_queue k₁ this) _ (some t) p found (
        dequeue_matching_sender-Taken k₁.msg_type label_filter (send_queue k₁ this)
          (l Side.senders this) (v₁.queue Side.senders this) (v₁.nodup Side.senders this)
          (length-Waits k₁ l Side.senders this v₁)) in
    rw (receive_met k₁ this receiver (some d) max_len timeout_ticks t p taken.0) (
      received-Delivered (set_send_queue k₁ this p.1) t receiver sch lt' lt (ground arith) s d
        max_len (ground (arith, buf)) apart)

-- A blocking `call` by a task that does not wait, where `r` is the first receiver that asks for the
-- label of the message or for any, and the buffers do not overlap, delivers the message to `r`: as
-- many bytes as the smallest of its length, what `r` takes and 4096, the label, the caller's number
-- and badge; the caller blocks for the reply of `r`, which is woken, with the caller's priority if
-- that is higher.
pub call-Delivered :
    (k : System) (l : Side → ℕ → List ℕ) (this sender r s d len n : ℕ) (reply_buf : Option ℕ)
    (max_reply_len timeout_ticks badge : ℕ)
    → Waits k l
    → Idle k sender
    → Schedulable k.sched
    → sender < k.sched.task_count
    → r < k.sched.task_count
    → timeout_ticks == nonblock ≡ false
    → find_first
        (λ t. k.label_filter t == 0 || k.label_filter t == label_of k.memory (some s) len)
        (l Side.receivers this)
      ≡ some r
    → k.msg_buf r ≡ some d
    → IsLeast n len (k.max_len r)
    → (s + n ≤ d) ⊎ (d + n ≤ s)
    → let after = call k this sender (some s) len reply_buf max_reply_len timeout_ticks badge in
      Delivered k.memory k.sched sender r badge (label_of k.memory (some s) len) n s d after
      × (after.1.sched.state r ≡ TaskState.ready)
call-Delivered k l this sender r s d len n reply_buf max_reply_len timeout_ticks badge v idle sch lt
      lt' off found buf least apart =
    let e = clamp-least n len (k.max_len r) least in
    let (given, awake) =
      call-clamped k l this sender r s d len reply_buf max_reply_len timeout_ticks badge v idle sch
        lt lt' off found buf (rw e apart) in
    (
      Delivered-cast k.memory k.sched sender r badge badge _ _ (clamp len (k.max_len r)) n s d _
          refl refl (sym e) given,
      awake,
    )

-- `receive` by a task that does not wait, where `t` is the first sender of a message with the label
-- asked for, or of any if that is 0, and the buffers do not overlap, delivers the message of `t`:
-- as many bytes as the smallest of its length, what is asked for and 4096, the label, the number
-- and badge of `t`, which blocks for the reply of the receiver; the receiver inherits the priority
-- of `t` if that is higher.
pub receive-Delivered :
    (k : System) (l : Side → ℕ → List ℕ)
    (this receiver t s d max_len n timeout_ticks label_filter : ℕ)
    → Waits k l
    → Idle k receiver
    → Schedulable k.sched
    → receiver < k.sched.task_count
    → t < k.sched.task_count
    → find_first (λ t. label_filter == 0 || k.msg_type t == label_filter) (l Side.senders this)
      ≡ some t
    → k.msg_buf t ≡ some s
    → IsLeast n (k.msg_len t) max_len
    → (s + n ≤ d) ⊎ (d + n ≤ s)
    → Delivered k.memory k.sched t receiver
        (k.badge t)
        (k.msg_type t)
        n
        s
        d
        (receive k this receiver (some d) max_len timeout_ticks label_filter)
receive-Delivered k l this receiver t s d max_len n timeout_ticks label_filter v idle sch lt lt'
      found buf least apart =
    let e = clamp-least n (k.msg_len t) max_len least in
    Delivered-cast k.memory k.sched t receiver (k.badge t) (k.badge t) _ _
      (clamp (k.msg_len t) max_len) n s d _ refl refl (sym e)
      (receive-clamped k l this receiver t s d max_len timeout_ticks label_filter v idle sch lt lt'
        found buf (rw e apart))
