-- ===== src/Kernel/Ipc/Answer.antt =====
-- `Endpoint::reply` answers the task that waits for it, and no other.
use aurora_os.Prelude.{
  ℕ, ◌+◌, ◌≤◌, ◌<◌, ◌≡◌, ◌≢◌, refl, ◌⊎◌, inl, inr, ◌∙◌, ap, ltb, leb, ◌==◌, ◌&&◌, ◌||◌, true, false,
  Option, none, some, arith, if◌then◌else◌, Bool-cases,
}
use aurora_os.Prelude.Store.{update}
use aurora_os.Kernel.Ready.{TaskState, max_tasks}
use aurora_os.Kernel.Ready.Change.{set_task_state-same, state-set_task_state}
use aurora_os.Kernel.Ready.Rerank.{set_task_priority-same}
use aurora_os.Kernel.Ipc.{
  System, IpcState, IpcStatus, is_reply_blocked, clamp, transfer, stop_waiting,
}
use aurora_os.Kernel.Ipc.Inherit.{awaits, recalculate_receiver_priority}
use aurora_os.Kernel.Ipc.Endpoint.{reply, reply_found, wake}
use aurora_os.Kernel.Ipc.Copy.{Transferred, transfer-Transferred, IsLeast, clamp-least}
use aurora_os.Kernel.Ipc.Schedulable.{Schedulable, state-Schedulable, sleep-Schedulable}
use aurora_os.Kernel.Ipc.Restore.{IsServing, recalculate-IsServing}

-- What a recalculation leaves alone.
pub recalculate-same :
    (k : System) (t : ℕ)
    → let k' = recalculate_receiver_priority k t in
      (k'.sched.state ≡ k.sched.state)
      × (k'.ipc_state ≡ k.ipc_state)
      × (k'.status ≡ k.status)
      × (k'.waiting_endpoint ≡ k.waiting_endpoint)
      × (k'.msg_len ≡ k.msg_len)
      × (k'.memory ≡ k.memory)
unfolding recalculate_receiver_priority
recalculate-same k t = ((set_task_priority-same k.sched t _).0, refl, refl, refl, refl, refl)

-- `reply` answered `sender`: the task is awake with the reply in its buffer, and `receiver` runs
-- with the priority that it is due.
pub record Answered (k : System) (receiver sender n s d : ℕ) (r : IpcStatus × System) : Type 0 where
  pub status : r.0 ≡ IpcStatus.ok
  pub awake : r.1.sched.state sender ≡ TaskState.ready
  pub idle : r.1.ipc_state sender ≡ IpcState.ready
  pub told : r.1.status sender ≡ IpcStatus.ok
  pub free : r.1.waiting_endpoint sender ≡ none
  pub copied : Transferred n s d k.memory (r.1.msg_len sender, r.1.memory)
  pub schedulable : Schedulable r.1.sched
  pub serving : IsServing r.1 receiver

module _ (k : System) (receiver sender : ℕ) (msg : Option ℕ) (len : ℕ) where
  abbrev moved : ℕ × (ℕ → ℕ)
  moved = transfer (clamp len (k.max_len sender)) msg (k.reply_buf sender) k.memory

  abbrev otherwise : IpcStatus × System
  otherwise =
      if awaits k receiver sender
      then (IpcStatus.ok, reply_found k receiver sender moved)
      else (IpcStatus.invalid, k)

  reply_missing :
      leb k.sched.task_count sender ≡ true
      → reply k receiver sender msg len ≡ (IpcStatus.receiver_dead, k)
  unfolding reply
  reply_missing out =
      let bad : (leb max_tasks sender || leb k.sched.task_count sender) ≡ true = ground arith in
      ap (λ b. if b then (IpcStatus.receiver_dead, k) else otherwise) bad

  reply_in :
      k.sched.task_count ≤ max_tasks
      → leb k.sched.task_count sender ≡ false
      → reply k receiver sender msg len ≡ otherwise
  unfolding reply
  reply_in c inside =
      let fine : (leb max_tasks sender || leb k.sched.task_count sender) ≡ false = ground arith in
      ap (λ b. if b then (IpcStatus.receiver_dead, k) else otherwise) fine

-- `awaits` is the test of the state of `i` and of the task that it waits for.
awaits-true :
    (k : System) (receiver i : ℕ)
    → k.ipc_state i ≡ IpcState.reply_blocked
    → k.receiver_id i ≡ receiver
    → awaits k receiver i ≡ true
awaits-true k receiver i e e' = rw (e, e') (ground arith)

is_reply_blocked→eq : (a : IpcState) → is_reply_blocked a ≡ true → a ≡ IpcState.reply_blocked
is_reply_blocked→eq a h = ground arith

awaits-false :
    (k : System) (receiver i : ℕ)
    → (k.ipc_state i ≡ IpcState.reply_blocked → k.receiver_id i ≢ receiver)
    → awaits k receiver i ≡ false
awaits-false k receiver i never = elim (Bool-cases (awaits k receiver i)) [
  | inl on ↦
      absurd (never (is_reply_blocked→eq (k.ipc_state i) (ground (arith, on))) (ground (arith, on)))
  | inr off ↦ off
]

-- `reply` to a task that is not blocked for a reply, or is so for that of another task, fails and
-- changes nothing.
pub reply-refused :
    (k : System) (receiver sender : ℕ) (msg : Option ℕ) (len : ℕ)
    → Schedulable k.sched
    → (k.ipc_state sender ≡ IpcState.reply_blocked → k.receiver_id sender ≢ receiver)
    → reply k receiver sender msg len
      ≡ ((if leb k.sched.task_count sender then IpcStatus.receiver_dead else IpcStatus.invalid), k)
reply-refused k receiver sender msg len v never =
    elim (Bool-cases (leb k.sched.task_count sender)) [
      | inl out ↦ rw out (reply_missing k receiver sender msg len out)
      | inr inside ↦ rw inside (
          reply_in k receiver sender msg len v.valid.count inside
          ∙ ap
              (λ b.
                if b
                then (IpcStatus.ok, reply_found k receiver sender (moved k receiver sender msg len))
                else (IpcStatus.invalid, k))
              (awaits-false k receiver sender never))
    ]

module _ (k : System) (receiver sender : ℕ) (n : ℕ) (memory : ℕ → ℕ) where
  -- The state once `sender` is awake.
  abbrev roused : System
  roused =
      wake
        (record (stop_waiting k sender IpcStatus.ok) {
          msg_len = update k.msg_len sender n;
          memory = memory;
        })
        sender

  roused-Schedulable : Schedulable k.sched → Schedulable roused.sched
  roused-Schedulable v =
      state-Schedulable (record k.sched { sleep_ticks = update k.sched.sleep_ticks sender 0 })
        sender TaskState.ready (sleep-Schedulable k.sched _ v)

  roused-ready :
      Schedulable k.sched
      → sender < k.sched.task_count
      → roused.sched.state sender ≡ TaskState.ready
  roused-ready v lt =
      state-set_task_state (record k.sched { sleep_ticks = update k.sched.sleep_ticks sender 0 })
        sender TaskState.ready sender v.valid.count
      ∙ ap (λ b. if b then TaskState.ready else k.sched.state sender)
          (let in_table : (ltb sender k.sched.task_count && sender == sender) ≡ true =
              ground arith in
            in_table)

found-Answered :
    (k : System) (receiver sender n s d m : ℕ) (memory : ℕ → ℕ)
    → Schedulable k.sched
    → receiver < k.sched.task_count
    → sender < k.sched.task_count
    → Transferred n s d k.memory (m, memory)
    → Answered k receiver sender n s d (IpcStatus.ok, reply_found k receiver sender (m, memory))
unfolding reply_found
found-Answered k receiver sender n s d m memory v r lt t =
    let k₁ = roused k receiver sender m memory in
    let same = recalculate-same k₁ receiver in
    let count =
      (set_task_state-same (record k.sched { sleep_ticks = update k.sched.sleep_ticks sender 0 })
        sender TaskState.ready).3 in
    let (valid, serving) =
      recalculate-IsServing k₁ receiver (roused-Schedulable k receiver sender m memory v)
        (omega (arith, count)) in
    record {
      status = refl;
      awake = ap (λ f. f sender) same.0 ∙ roused-ready k receiver sender m memory v lt;
      idle = ap (λ f. f sender) same.1 ∙ ground arith;
      told = ap (λ f. f sender) same.2 ∙ ground arith;
      free = ap (λ f. f sender) same.3 ∙ ground arith;
      copied = record {
        length = ap (λ f. f sender) same.4 ∙ ground (arith, t.length);
        inside = λ i p. ap (λ f. f (d + i)) same.5 ∙ t.inside i p;
        outside = λ j p. ap (λ f. f j) same.5 ∙ t.outside j p;
      };
      schedulable = valid;
      serving = serving;
    }

-- The reply is copied with the length that the code computes.
reply-clamped :
    (k : System) (receiver sender s d len : ℕ)
    → Schedulable k.sched
    → receiver < k.sched.task_count
    → sender < k.sched.task_count
    → awaits k receiver sender ≡ true
    → k.reply_buf sender ≡ some d
    → (let n = clamp len (k.max_len sender) in (s + n ≤ d) ⊎ (d + n ≤ s))
    → Answered k receiver sender
        (clamp len (k.max_len sender))
        s
        d
        (reply k receiver sender (some s) len)
reply-clamped k receiver sender s d len v r lt on buf apart =
    rw
      (
        reply_in k receiver sender (some s) len v.valid.count (ground arith)
            ∙ ap
                (λ b.
                  if b
                  then (
                    IpcStatus.ok,
                    reply_found k receiver sender (moved k receiver sender (some s) len),
                  )
                  else (IpcStatus.invalid, k))
                on,
        buf,
      )
      (found-Answered k receiver sender (clamp len (k.max_len sender)) s d
        (transfer (clamp len (k.max_len sender)) (some s) (some d) k.memory).0
        (transfer (clamp len (k.max_len sender)) (some s) (some d) k.memory).1 v r lt
        (transfer-Transferred (clamp len (k.max_len sender)) s d k.memory apart))

-- `reply` to a task that is blocked for a reply from the caller, with buffers that do not overlap,
-- copies as many bytes of the reply as the smallest of its length, what the task takes and 4096,
-- wakes the task with that length and the status `Ok`, and leaves the caller with the priority that
-- it is due.
pub reply-Answered :
    (k : System) (receiver sender s d len n : ℕ)
    → Schedulable k.sched
    → receiver < k.sched.task_count
    → sender < k.sched.task_count
    → k.ipc_state sender ≡ IpcState.reply_blocked
    → k.receiver_id sender ≡ receiver
    → k.reply_buf sender ≡ some d
    → IsLeast n len (k.max_len sender)
    → (s + n ≤ d) ⊎ (d + n ≤ s)
    → Answered k receiver sender n s d (reply k receiver sender (some s) len)
reply-Answered k receiver sender s d len n v r lt blocked from buf least apart =
    let e = clamp-least n len (k.max_len sender) least in
    rw e at (
      reply-clamped k receiver sender s d len v r lt (awaits-true k receiver sender blocked from)
        buf (rw e apart))
