-- ===== src/Kernel/Tests/Ipc.antt =====
-- The endpoint's theorems at a system of three tasks: task 2 waits at endpoint 7 to receive, to send,
-- or for a reply of task 1.
use aurora_os.Prelude.{
  ℕ, ◌≡◌, refl, inl, inr, false, none, some, List, [], ◌∷◌, arith, ltb, ◌==◌, ◌||◌, ◌&&◌,
  if◌then◌else◌, Bool-cases, contains,
}
use aurora_os.Kernel.Ready.{TaskState, create_at, push_ready, init}
use aurora_os.Kernel.WaitQueue.Chain.{IsQueue, find_first}
use aurora_os.Kernel.Ipc.{System, IpcState, IpcStatus, Ends, label_of}
use aurora_os.Kernel.Ipc.Inherit.{recalculate_receiver_priority}
use aurora_os.Kernel.Ipc.Endpoint.{call, receive, reply}
use aurora_os.Kernel.Ipc.Cancel.{cancel_waiter}
use aurora_os.Kernel.Ipc.Schedulable.{Schedulable}
use aurora_os.Kernel.Ipc.Restore.{IsServing, recalculate-IsServing}
use aurora_os.Kernel.Ipc.Answer.{Answered, reply-refused, reply-Answered}
use aurora_os.Kernel.Ipc.Waits.{Side, side_eq, Waits, queue_at, waits_in, waits_as}
use aurora_os.Kernel.Ipc.Waits.Leave.{without}
use aurora_os.Kernel.Ipc.CallWaits.{called, call-Waits}
use aurora_os.Kernel.Ipc.ReceiveWaits.{received, receive-Waits}
use aurora_os.Kernel.Ipc.CancelWaits.{cancel_waiter-Waits}
use aurora_os.Kernel.Ipc.Deliver.{Delivered}
use aurora_os.Kernel.Ipc.Meeting.{call-Delivered, receive-Delivered}
use aurora_os.Kernel.Tests.Sched.{with_two, two_queues, with_two-IsValid}

abbrev no_task : Ends
no_task = record { head = none; tail = none }

abbrev task_two : Ends
task_two = record { head = some 2; tail = some 2 }

-- Task 2 in a state, with the queues of endpoint 7.
abbrev system : IpcState → Ends → Ends → System
system st sends recvs = record {
  sched = with_two;
  ipc_state = λ t. if t == 2 then st else IpcState.ready;
  status = λ t. IpcStatus.ok;
  blocked_next = λ t. none;
  msg_buf = λ t. some 200;
  reply_buf = λ t. some 300;
  msg_len = λ t. 12;
  max_len = λ t. 10;
  sender_id = λ t. 0;
  receiver_id = λ t. 1;
  badge = λ t. 5;
  msg_type = λ t. 0;
  label_filter = λ t. 0;
  waiting_endpoint = λ t. if t == 2 then some 7 else none;
  send_ends = λ e. if e == 7 then sends else no_task;
  recv_ends = λ e. if e == 7 then recvs else no_task;
  memory = λ a. if ltb a 110 then 7 else 0;
}

abbrev pub receiving : System
receiving = system IpcState.receiving no_task task_two

abbrev sending : System
sending = system IpcState.sending task_two no_task

abbrev replying : System
replying = system IpcState.reply_blocked no_task no_task

-- Task 2 on one side of endpoint 7.
abbrev two_at : Side → Side → ℕ → List ℕ
two_at b b' e = if side_eq b b' && e == 7 then 2 ∷ [] else []

abbrev nobody : Side → ℕ → List ℕ
nobody b e = []

receiving-Waits : Waits receiving (two_at Side.receivers)
receiving-Waits = record {
  queue = λ b e. queues b e;
  nodup = λ b e. ground arith;
  member = λ b e t. members b e t;
  table = λ b e t h. ground arith;
}
  where
    queues : (b : Side) (e : ℕ) → IsQueue (queue_at receiving b e) (two_at Side.receivers b e)
    queues Side.senders e = (ground arith, ground arith)
    queues Side.receivers e = elim (Bool-cases (e == 7)) [
      | inl on ↦ rw on (refl, refl, refl)
      | inr off ↦ rw off (refl, refl)
    ]

    members :
        (b : Side) (e t : ℕ) → contains t (two_at Side.receivers b e) ≡ waits_in receiving b e t
    members Side.senders e t = ground arith
    members Side.receivers e t = ground arith

sending-Waits : Waits sending (two_at Side.senders)
sending-Waits = record {
  queue = λ b e. queues b e;
  nodup = λ b e. ground arith;
  member = λ b e t. members b e t;
  table = λ b e t h. ground arith;
}
  where
    queues : (b : Side) (e : ℕ) → IsQueue (queue_at sending b e) (two_at Side.senders b e)
    queues Side.receivers e = (ground arith, ground arith)
    queues Side.senders e = elim (Bool-cases (e == 7)) [
      | inl on ↦ rw on (refl, refl, refl)
      | inr off ↦ rw off (refl, refl)
    ]

    members : (b : Side) (e t : ℕ) → contains t (two_at Side.senders b e) ≡ waits_in sending b e t
    members Side.senders e t = ground arith
    members Side.receivers e t = ground arith

two-Schedulable : Schedulable with_two
two-Schedulable = record { queues = two_queues; valid = with_two-IsValid }

three_tasks : with_two.task_count ≡ 3
unfolding create_at push_ready init
three_tasks = refl

one_idle : (b : Side) → waits_as b IpcState.ready ≡ false
one_idle Side.senders = refl
one_idle Side.receivers = refl

call-Waits_example : Waits (call sending 7 1 (some 100) 12 (some 400) 16 20 5).1 (
    called (two_at Side.senders) sending.sched.current_priority 7 1 20 (
      find_first
        (λ t.
          sending.label_filter t == 0
          || sending.label_filter t == label_of sending.memory (some 100) 12)
        []))
call-Waits_example =
    call-Waits sending (two_at Side.senders) 7 1 (some 100) 12 (some 400) 16 20 5 sending-Waits
      one_idle (omega arith)

receive-Waits_example : Waits (receive receiving 7 1 (some 400) 16 20 0).1 (
    received
      (two_at Side.receivers)
      receiving.sched.current_priority
      7
      1
      20
      (find_first (λ t. 0 == 0 || receiving.msg_type t == 0) []))
receive-Waits_example =
    receive-Waits receiving (two_at Side.receivers) 7 1 (some 400) 16 20 0 receiving-Waits one_idle
      (omega arith)

cancel_waiter-Waits_example :
    Waits (cancel_waiter sending 7 2 IpcStatus.timeout) (without (two_at Side.senders) 2)
cancel_waiter-Waits_example =
    cancel_waiter-Waits sending (two_at Side.senders) 7 2 IpcStatus.timeout sending-Waits refl

call-Delivered_example :
    let after = call receiving 7 1 (some 100) 12 (some 400) 16 20 5 in
    Delivered receiving.memory receiving.sched 1 2 5
      (label_of receiving.memory (some 100) 12)
      10
      100
      200
      after
    × (after.1.sched.state 2 ≡ TaskState.ready)
call-Delivered_example =
    call-Delivered receiving (two_at Side.receivers) 7 1 2 100 200 12 10 (some 400) 16 20 5
      receiving-Waits one_idle two-Schedulable (omega (arith, three_tasks))
      (omega (arith, three_tasks)) refl refl refl
      (omega arith, omega arith, omega arith, inr (inl refl)) (inl (omega arith))

receive-Delivered_example :
    Delivered sending.memory sending.sched 2 1 5 0 10 200 400
      (receive sending 7 1 (some 400) 10 20 0)
receive-Delivered_example =
    receive-Delivered sending (two_at Side.senders) 7 1 2 200 400 10 10 20 0 sending-Waits one_idle
      two-Schedulable (omega (arith, three_tasks)) (omega (arith, three_tasks)) refl refl
      (omega arith, omega arith, omega arith, inr (inl refl)) (inl (omega arith))

reply-Answered_example : Answered replying 1 2 10 100 300 (reply replying 1 2 (some 100) 12)
reply-Answered_example =
    reply-Answered replying 1 2 100 300 12 10 two-Schedulable (omega (arith, three_tasks))
      (omega (arith, three_tasks)) refl refl refl
      (omega arith, omega arith, omega arith, inr (inl refl)) (inl (omega arith))

reply-refused_example : reply replying 0 2 (some 100) 12 ≡ (IpcStatus.invalid, replying)
unfolding create_at push_ready init
reply-refused_example =
    reply-refused replying 0 2 (some 100) 12 two-Schedulable
      (λ blocked e. absurd (omega (arith, e)))

recalculate-IsServing_example :
    Schedulable (recalculate_receiver_priority replying 1).sched
    × IsServing (recalculate_receiver_priority replying 1) 1
recalculate-IsServing_example =
    recalculate-IsServing replying 1 two-Schedulable (omega (arith, three_tasks))
