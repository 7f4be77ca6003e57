-- ===== src/Kernel/Ipc/Meet.antt =====
-- What the scheduler sees when a sender meets a receiver: the sender blocks, the receiver inherits
-- its priority, and is woken.
use aurora_os.Prelude.{
  ℕ, ◌<◌, ◌≡◌, refl, inl, inr, ◌∙◌, ap, ltb, ◌==◌, false, arith, Bool-cases, if◌then◌else◌,
}
use aurora_os.Kernel.Ready.{Sched, TaskState, set_task_state}
use aurora_os.Kernel.Ready.Change.{set_task_state-same, state-set_task_state}
use aurora_os.Kernel.Ready.Rerank.{set_task_priority-same, current_priority-set_task_priority}
use aurora_os.Kernel.Ipc.Endpoint.{inherit}
use aurora_os.Kernel.Ipc.Schedulable.{Schedulable, state-Schedulable, inherit-Schedulable}

-- The higher of two priorities.
abbrev pub higher : ℕ → ℕ → ℕ
higher p q = if ltb p q then q else p

module _ (s : Sched) (sender receiver : ℕ) (v : Schedulable s) (lt : sender < s.task_count)
    (lt' : receiver < s.task_count) where
  pub inherit_lem :
      let s' = inherit s sender receiver in
      (s'.state ≡ s.state)
      × (s'.task_count ≡ s.task_count)
      × (s'.current_priority receiver
          ≡ higher (s.current_priority receiver) (s.current_priority sender))
  inherit_lem = elim (Bool-cases (ltb (s.current_priority receiver) (s.current_priority sender))) [
    | inl on ↦
        let same = set_task_priority-same s receiver (s.current_priority sender) in
        rw on (
          same.0,
          same.3,
          current_priority-set_task_priority s receiver (s.current_priority sender) receiver
                v.valid.count
              ∙ ground arith,
        )
    | inr off ↦ rw off (refl, refl, refl)
  ]

module _ (s : Sched) (sender receiver : ℕ) (v : Schedulable s) (lt : sender < s.task_count)
    (lt' : receiver < s.task_count) (ne : sender == receiver ≡ false) where
  abbrev blocked : Sched
  blocked = set_task_state s sender TaskState.blocked_on_notify

  pub blocked-Schedulable : Schedulable blocked
  blocked-Schedulable = state-Schedulable s sender TaskState.blocked_on_notify v

  pub blocked_lem :
      (blocked.state sender ≡ TaskState.blocked_on_notify)
      × (blocked.task_count ≡ s.task_count)
      × (blocked.current_priority ≡ s.current_priority)
  blocked_lem =
      let same = set_task_state-same s sender TaskState.blocked_on_notify in
      (
        ground
            (arith, state-set_task_state s sender TaskState.blocked_on_notify sender v.valid.count),
        same.3,
        same.0,
      )

  -- The sender waits, and the receiver has the higher of the two priorities.
  pub record Met (s' : Sched) : Type 0 where
    pub waits : s'.state sender ≡ TaskState.blocked_on_notify
    pub rank :
        s'.current_priority receiver
        ≡ higher (s.current_priority receiver) (s.current_priority sender)
    pub schedulable : Schedulable s'

  pub inherit-Met : Met (inherit blocked sender receiver)
  inherit-Met =
      let i =
        inherit_lem blocked sender receiver blocked-Schedulable (omega (arith, blocked_lem.1))
          (omega (arith, blocked_lem.1)) in
      record {
        waits = ap (λ f. f sender) i.0 ∙ blocked_lem.0;
        rank = i.2 ∙ ap (λ f. higher (f receiver) (f sender)) blocked_lem.2;
        schedulable =
            inherit-Schedulable blocked sender receiver blocked-Schedulable
              (omega (arith, blocked_lem.1));
      }

  abbrev woken : Sched
  woken = set_task_state (inherit blocked sender receiver) receiver TaskState.ready

  pub wake-Met : Met woken × (woken.state receiver ≡ TaskState.ready)
  wake-Met =
      let s₁ = inherit blocked sender receiver in
      let i =
        inherit_lem blocked sender receiver blocked-Schedulable (omega (arith, blocked_lem.1))
          (omega (arith, blocked_lem.1)) in
      let now = state-set_task_state s₁ receiver TaskState.ready in
      let m = inherit-Met in
      (
        record {
          waits = now sender m.schedulable.valid.count ∙ ground (arith, m.waits);
          rank = ap (λ f. f receiver) (set_task_state-same s₁ receiver TaskState.ready).0 ∙ m.rank;
          schedulable = state-Schedulable s₁ receiver TaskState.ready m.schedulable;
        },
        now receiver m.schedulable.valid.count ∙ ground (arith, i.1, blocked_lem.1),
      )
