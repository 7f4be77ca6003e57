-- ===== src/Kernel/Ipc/CancelWaits.antt =====
-- `Endpoint::cancel_waiter`, `reply` and the queues.
use aurora_os.Prelude.{
  ℕ, ◌≡◌, refl, inl, inr, ◌∙◌, sym, ap, false, ◌&&◌, some, List, arith, contains, erase,
  erase_of_not-contains, is_nodup-erase, contains-erase, ◌==◌, Bool-cases, ==_iff, ltb,
}
use aurora_os.Kernel.Ready.{max_tasks}
use aurora_os.Kernel.WaitQueue.{remove}
use aurora_os.Kernel.WaitQueue.Chain.{IsQueue}
use aurora_os.Kernel.WaitQueue.Remove.{Removed, remove-IsQueue}
use aurora_os.Kernel.Ipc.{
  System, IpcStatus, is_reply_blocked, send_queue, recv_queue, set_send_queue, set_recv_queue,
  stop_waiting,
}
use aurora_os.Kernel.Ipc.Inherit.{recalculate_receiver_priority}
use aurora_os.Kernel.Ipc.Endpoint.{wake}
use aurora_os.Kernel.Ipc.Cancel.{cancel_waiter, restore}
use aurora_os.Kernel.Ipc.Waits.{
  Side, queue_at, side_of, Waits, IsQueue-frame, length-Waits, Waits-same, elsewhere,
}
use aurora_os.Kernel.Ipc.Waits.Leave.{without}

-- A new priority leaves the queues as they are.
restore-Waits : (k : System) (l : Side → ℕ → List ℕ) (t : ℕ) → Waits k l → Waits (restore k t) l
unfolding recalculate_receiver_priority
restore-Waits k l t v = elim (Bool-cases (ltb t max_tasks && ltb t k.sched.task_count)) [
  | inl on ↦ rw on (Waits-same k _ l v (λ b e. refl) (λ j. refl) (λ b e j. refl))
  | inr off ↦ rw off v
]

module _ (k : System) (l : Side → ℕ → List ℕ) (this task : ℕ) (reason : IpcStatus) where
  abbrev first_out : System
  first_out = set_send_queue k this (remove (send_queue k this) task).1

  abbrev both_out : System
  both_out = set_recv_queue first_out this (remove (recv_queue first_out this) task).1

  first-Removed :
      Waits k l
      → Removed (send_queue k this) (l Side.senders this) task (remove (send_queue k this) task)
  first-Removed v =
      remove-IsQueue (send_queue k this) (l Side.senders this) task (v.queue Side.senders this)
        (v.nodup Side.senders this) (length-Waits k l Side.senders this v)

  second-Removed :
      Waits k l
      → Removed
          (recv_queue first_out this)
          (l Side.receivers this)
          task
          (remove (recv_queue first_out this) task)
  second-Removed v =
      remove-IsQueue (recv_queue first_out this) (l Side.receivers this) task
        (IsQueue-frame (queue_at k Side.receivers this) _ (l Side.receivers this) refl refl
          (λ j h.
            (first-Removed v).2 j (elsewhere k l Side.senders Side.receivers this this j v refl h))
          (v.queue Side.receivers this))
        (v.nodup Side.receivers this) (length-Waits k l Side.receivers this v)

  -- The links outside both queues of the endpoint.
  links :
      Waits k l
      → (j : ℕ) → contains j (l Side.senders this) ≡ false
      → contains j (l Side.receivers this) ≡ false
      → both_out.blocked_next j ≡ k.blocked_next j
  links v j a b = (second-Removed v).2 j b ∙ (first-Removed v).2 j a

  -- The task is in no list of another endpoint.
  absent :
      (b : Side) (e : ℕ)
      → Waits k l
      → k.waiting_endpoint task ≡ some this
      → this == e ≡ false
      → contains task (l b e) ≡ false
  absent b e v at ne = v.member b e task ∙ ground (arith, at, ne)

  out_of_other :
      (b : Side) (e : ℕ)
      → Waits k l
      → k.waiting_endpoint task ≡ some this
      → this == e ≡ false
      → side_of both_out.send_ends both_out.recv_ends b e ≡ side_of k.send_ends k.recv_ends b e
      → IsQueue (queue_at both_out b e) (erase (l b e) task)
  out_of_other b e v at ne same = rw (erase_of_not-contains task (l b e) (absent b e v at ne)) (
      IsQueue-frame (queue_at k b e) _ (l b e) (ap (λ x. x.head) same) (ap (λ x. x.tail) same)
        (λ j h.
          links v j (elsewhere k l Side.senders b this e j v (ground arith) h)
            (elsewhere k l Side.receivers b this e j v (ground arith) h))
        (v.queue b e))

  out_of_both :
      (b : Side) (e : ℕ)
      → Waits k l
      → k.waiting_endpoint task ≡ some this
      → IsQueue (queue_at both_out b e) (erase (l b e) task)
  out_of_both Side.senders e v at = elim (Bool-cases (this == e)) [
    | inl here ↦ rw (sym ((==_iff this e).0 here)) (
        IsQueue-frame (remove (send_queue k this) task).1 _ (erase (l Side.senders this) task)
          (ground arith) (ground arith)
          (λ j h. (second-Removed v).2 j (
            elsewhere k l Side.receivers Side.senders this this j v refl (
              ground
                (arith, contains-erase task j (l Side.senders this) (v.nodup Side.senders this)))))
          (first-Removed v).1)
    | inr other ↦ out_of_other Side.senders e v at other (ground arith)
  ]
  out_of_both Side.receivers e v at = elim (Bool-cases (this == e)) [
    | inl here ↦ rw (sym ((==_iff this e).0 here)) (
        IsQueue-frame (remove (recv_queue first_out this) task).1 _
          (erase (l Side.receivers this) task) (ground arith) (ground arith) (λ j h. refl)
          (second-Removed v).1)
    | inr other ↦ out_of_other Side.receivers e v at other (ground arith)
  ]

  stopped-Waits :
      Waits k l
      → k.waiting_endpoint task ≡ some this
      → Waits (wake (stop_waiting both_out task reason) task) (without l task)
  stopped-Waits v at = record {
    queue = λ b e. out_of_both b e v at;
    nodup = λ b e. is_nodup-erase task (l b e) (v.nodup b e);
    member = λ b e j. contains-erase task j (l b e) (v.nodup b e) ∙ ground (arith, v.member b e j);
    table = λ b e j h. v.table b e j (ground (arith, contains-erase task j (l b e) (v.nodup b e)));
  }

-- `cancel_waiter` on a task that waits at the endpoint takes it out of the endpoint's queues, whether
-- it sends, receives or awaits a reply, and keeps all other queues right.
pub cancel_waiter-Waits :
    (k : System) (l : Side → ℕ → List ℕ) (this task : ℕ) (reason : IpcStatus)
    → Waits k l
    → k.waiting_endpoint task ≡ some this
    → Waits (cancel_waiter k this task reason) (without l task)
unfolding cancel_waiter
cancel_waiter-Waits k l this task reason v at =
    elim (Bool-cases (is_reply_blocked (k.ipc_state task))) [
      | inl on ↦ rw on (
          restore-Waits _ (without l task) (k.receiver_id task)
            (stopped-Waits k l this task reason v at))
      | inr off ↦ rw off (stopped-Waits k l this task reason v at)
    ]
