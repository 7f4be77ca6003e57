-- ===== src/Kernel/Dispatch/Outcome.antt =====
-- The task that `schedule` runs next, for a valid scheduler.
use aurora_os.Prelude.{
  ℕ, ◌≤◌, ◌<◌, ◌≡◌, refl, ◌∙◌, ap, inl, inr, Bool, true, false, ◌&&◌, some, List, [], ◌∷◌, ◌++◌,
  ◌==◌, arith, is_nodup, ==_self, Bool-cases,
}
use aurora_os.Kernel.Ready.{Sched, is_ready}
use aurora_os.Kernel.Ready.Inv.{IsValid}
use aurora_os.Kernel.Dispatch.{first_choice, second_choice, last_choice, choose, turn}
use aurora_os.Kernel.Dispatch.Choice.{
  IsHead, ready_head-IsHead, bit-head, first_choice-highest, first_choice-lt, last_choice-ready,
}
use aurora_os.Kernel.Dispatch.Turn.{first_of, ready_head-first, turned, turn-IsValid, turn-same}

last_choice_of_ready : (s : Sched) (n : ℕ) → is_ready (s.state n) ≡ true → last_choice s n ≡ n
unfolding last_choice
last_choice_of_ready s n h = rw h

second_choice-lt :
    (s : Sched) (q : ℕ → List ℕ)
    → IsValid s q
    → (cur n : ℕ) → n < s.task_count
    → second_choice s cur n < s.task_count
unfolding second_choice
second_choice-lt s q v cur n lt = elim (Bool-cases (n == cur && s.ready_bitmask 0)) [
  | inl e ↦
      let (k, f) = bit-head s q v 0 (omega arith) (ground arith) in
      rw (e, f) (ready_head-IsHead s q v 0 k (omega arith) f).lt
  | inr e ↦ rw e lt
]

-- If any task is ready, `schedule` chooses one that is, whatever the frame scheduler allows.
pub choose-ready :
    (s : Sched) (q : ℕ → List ℕ) (allowed : ℕ → Bool) (cur i : ℕ)
    → IsValid s q
    → cur < s.task_count
    → i < s.task_count
    → is_ready (s.state i) ≡ true
    → let n = choose allowed s cur in (n < s.task_count) × (is_ready (s.state n) ≡ true)
unfolding choose
choose-ready s q allowed cur i v cur_lt lt ready =
    last_choice-ready s q v (second_choice s cur (first_choice allowed s cur)) i lt ready second
  where
    second : second_choice s cur (first_choice allowed s cur) < s.task_count
    second =
        second_choice-lt s q v cur (first_choice allowed s cur)
          (first_choice-lt s q v allowed cur cur_lt)

-- The current task has the highest priority: the first stage takes the head of its queue.
own_head :
    (s : Sched) (q : ℕ → List ℕ) (allowed : ℕ → Bool) (cur y : ℕ)
    → IsValid s q
    → cur < s.task_count
    → is_ready (s.state cur) ≡ true
    → allowed (s.current_priority cur) ≡ true
    → ((i : ℕ)
        → i < s.task_count
        → is_ready (s.state i) ≡ true
        → s.current_priority i ≤ s.current_priority cur)
    → s.ready_head (s.current_priority cur) ≡ some y
    → (first_choice allowed s cur ≡ y) × (is_ready (s.state y) ≡ true)
own_head s q allowed cur y v lt ready on top e = (same, rw (← same) head.ready)
  where
    n : ℕ
    n = first_choice allowed s cur

    found :
        IsHead s (s.current_priority n) n
        × (allowed (s.current_priority n) ≡ true)
        × (s.current_priority cur ≤ s.current_priority n)
    found = first_choice-highest s q v allowed cur cur lt ready on

    head : IsHead s (s.current_priority n) n
    head = found.0

    level : s.current_priority n ≡ s.current_priority cur
    level = omega (arith, top n head.lt head.ready, found.2)

    same : n ≡ y
    same = ground (arith, head.first, level)

-- The turn of a current task that is ready leaves its queue with this head.
turned_head :
    (s : Sched) (q : ℕ → List ℕ) (cur y : ℕ) (l : List ℕ)
    → IsValid s q
    → cur < s.task_count
    → is_ready (s.state cur) ≡ true
    → q (s.current_priority cur) ≡ cur ∷ l
    → first_of (l ++ cur ∷ []) ≡ some y
    → (turn s cur).ready_head (s.current_priority cur) ≡ some y
turned_head s q cur y l v lt ready e f =
    ready_head-first (turn s cur) (turned s q cur) (s.current_priority cur)
      (turn-IsValid s q cur v lt).queues.queues (v.current cur lt)
    ∙ ground arith

choose_first :
    (s : Sched) (allowed : ℕ → Bool) (cur y : ℕ)
    → first_choice allowed s cur ≡ y
    → is_ready (s.state y) ≡ true
    → (y == cur && s.ready_bitmask 0) ≡ false
    → choose allowed s cur ≡ y
unfolding choose second_choice
choose_first s allowed cur y e ready other = rw (e, other) (last_choice_of_ready s y ready)

choose_second :
    (s : Sched) (allowed : ℕ → Bool) (cur k : ℕ)
    → first_choice allowed s cur ≡ cur
    → s.ready_bitmask 0 ≡ true
    → s.ready_head 0 ≡ some k
    → is_ready (s.state k) ≡ true
    → choose allowed s cur ≡ k
unfolding choose second_choice
choose_second s allowed cur k e bit head ready =
    rw (e, ==_self cur, bit, head) (last_choice_of_ready s k ready)

-- The first stage, after the turn of a current task of the highest priority.
after_turn :
    (s : Sched) (q : ℕ → List ℕ) (allowed : ℕ → Bool) (cur y : ℕ) (l : List ℕ)
    → IsValid s q
    → cur < s.task_count
    → is_ready (s.state cur) ≡ true
    → allowed (s.current_priority cur) ≡ true
    → ((i : ℕ)
        → i < s.task_count
        → is_ready (s.state i) ≡ true
        → s.current_priority i ≤ s.current_priority cur)
    → q (s.current_priority cur) ≡ cur ∷ l
    → first_of (l ++ cur ∷ []) ≡ some y
    → (first_choice allowed (turn s cur) cur ≡ y) × (is_ready ((turn s cur).state y) ≡ true)
after_turn s q allowed cur y l v lt ready on top e f =
    own_head (turn s cur) (turned s q cur) allowed cur y (turn-IsValid s q cur v lt)
      (ground (arith, turn-same s cur)) (ground (arith, turn-same s cur))
      (ground (arith, turn-same s cur)) (λ i h r. ground (arith, turn-same s cur, top i))
      (ground (arith, turn-same s cur, turned_head s q cur y l v lt ready e f))

-- Tasks of one priority take turns: where the current task is ready, first in its queue and of the
-- highest priority, and this priority is allowed, `schedule` goes on with the next in that queue.
pub choose-turn :
    (s : Sched) (q : ℕ → List ℕ) (allowed : ℕ → Bool) (cur y : ℕ) (l : List ℕ)
    → IsValid s q
    → cur < s.task_count
    → is_ready (s.state cur) ≡ true
    → allowed (s.current_priority cur) ≡ true
    → ((i : ℕ)
        → i < s.task_count
        → is_ready (s.state i) ≡ true
        → s.current_priority i ≤ s.current_priority cur)
    → q (s.current_priority cur) ≡ cur ∷ y ∷ l
    → choose allowed (turn s cur) cur ≡ y
choose-turn s q allowed cur y l v lt ready on top e =
    let (first, fine) = after_turn s q allowed cur y (y ∷ l) v lt ready on top e refl in
    choose_first (turn s cur) allowed cur y first fine (ground (arith, distinct))
  where
    distinct : is_nodup (cur ∷ y ∷ l) ≡ true
    distinct = rw e at (v.queues.queues.nodup (s.current_priority cur) (v.current cur lt))

-- A current task that is ready, of the highest priority, and alone in its queue is put aside for the
-- idle queue whenever that has a task, though the current priority is allowed and higher.
pub choose_idle :
    (s : Sched) (q : ℕ → List ℕ) (allowed : ℕ → Bool) (cur k : ℕ) (l : List ℕ)
    → IsValid s q
    → cur < s.task_count
    → is_ready (s.state cur) ≡ true
    → allowed (s.current_priority cur) ≡ true
    → ((i : ℕ)
        → i < s.task_count
        → is_ready (s.state i) ≡ true
        → s.current_priority i ≤ s.current_priority cur)
    → q (s.current_priority cur) ≡ cur ∷ []
    → 0 < s.current_priority cur
    → q 0 ≡ k ∷ l
    → (choose allowed (turn s cur) cur ≡ k) × (s.current_priority k < s.current_priority cur)
choose_idle s q allowed cur k l v lt ready on top e above idle = (
  choose_second (turn s cur) allowed cur k
      (after_turn s q allowed cur cur [] v lt ready on top e refl).0
      (ground (arith, v'.queues.queues.bit 0 (omega arith), kept)) head'
      (ground (arith, turn-same s cur, waiting.ready)),
  ground (arith, waiting.prio),
)
  where
    v' : IsValid (turn s cur) (turned s q cur)
    v' = turn-IsValid s q cur v lt

    kept : turned s q cur 0 ≡ k ∷ l
    kept = ground arith

    head' : (turn s cur).ready_head 0 ≡ some k
    head' =
        ready_head-first (turn s cur) (turned s q cur) 0 v'.queues.queues (omega arith)
        ∙ ap first_of kept

    waiting : IsHead s 0 k
    waiting =
        ready_head-IsHead s q v 0 k (omega arith)
          (ready_head-first s q 0 v.queues.queues (omega arith) ∙ ap first_of idle)
