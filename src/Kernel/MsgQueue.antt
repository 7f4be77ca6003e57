-- ===== src/Kernel/MsgQueue.antt =====
-- kernel/core/msg_queue.hpp: `MessageQueue`, a ring for one producer and one consumer, with the counts
-- of its two semaphores.
pub mod Counts
pub mod Kept
pub mod Fifo
pub mod Blocking
use aurora_os.Prelude.{
  ℕ, zero, suc, ◌+◌, ◌-◌, ◌%◌, ◌≡◌, Bool, true, false, Option, none, some, ltb, if◌then◌else◌,
}
use aurora_os.Prelude.Store.{update}

pub record MessageQueue {ℓ} (A : Type ℓ) : Type ℓ where
  pub buffer : ℕ → A
  pub head : ℕ
  pub tail : ℕ
  pub items : ℕ
  pub spaces : ℕ

-- `Semaphore::try_wait` on a count: what it leaves, or the refusal.
abbrev pub try_wait : ℕ → Option ℕ
try_wait count = if ltb 0 count then some (count - 1) else none

-- What comes of `Semaphore::wait` without a timeout: one is taken and the count is left; the call
-- fails, as no task runs; or the task is suspended, and tries again when it wakes.
pub data Waited : Type 0 where
  taken : ℕ → Waited
  refused : Waited
  blocked : Waited

-- Here `tasks` says whether there is a current task.
abbrev pub wait : Bool → ℕ → Waited
wait tasks count =
    if ltb 0 count
    then Waited.taken (count - 1)
    else if tasks
    then Waited.blocked
    else Waited.refused

abbrev pub init {ℓ} : {A : Type ℓ} → ℕ → MessageQueue A → MessageQueue A
init capacity q = record q { items = 0; spaces = capacity }

-- The parts of `try_push`, after the wait for a space.
abbrev pub put {ℓ} : {A : Type ℓ} → MessageQueue A → A → MessageQueue A
put q item = record q { buffer = update q.buffer q.tail item }

abbrev pub publish {ℓ} : {A : Type ℓ} → ℕ → MessageQueue A → MessageQueue A
publish capacity q = record q { tail = (q.tail + 1) % capacity }

abbrev pub signal_items {ℓ} : {A : Type ℓ} → MessageQueue A → MessageQueue A
signal_items q = record q { items = q.items + 1 }

-- `try_push` by what the wait gives.
abbrev pub push_after {ℓ} : {A : Type ℓ} → ℕ → MessageQueue A → A → Option ℕ → Bool × MessageQueue A
push_after capacity q item none = (false, q)
push_after capacity q item (some n) =
    (true, signal_items (publish capacity (put (record q { spaces = n }) item)))

unfoldable pub try_push {ℓ} : {A : Type ℓ} → ℕ → MessageQueue A → A → Bool × MessageQueue A
try_push capacity q item = push_after capacity q item (try_wait q.spaces)

-- The parts of `try_pop`, after the wait for an item.
abbrev pub release {ℓ} : {A : Type ℓ} → ℕ → MessageQueue A → MessageQueue A
release capacity q = record q { head = (q.head + 1) % capacity }

abbrev pub signal_spaces {ℓ} : {A : Type ℓ} → MessageQueue A → MessageQueue A
signal_spaces q = record q { spaces = q.spaces + 1 }

abbrev pub pop_after {ℓ} : {A : Type ℓ} → ℕ → MessageQueue A → Option ℕ → Option A × MessageQueue A
pop_after capacity q none = (none, q)
pop_after capacity q (some n) =
    (some (q.buffer q.head), signal_spaces (release capacity (record q { items = n })))

unfoldable pub try_pop {ℓ} : {A : Type ℓ} → ℕ → MessageQueue A → Option A × MessageQueue A
try_pop capacity q = pop_after capacity q (try_wait q.items)

-- `push`, where `none` stands for a task that is suspended. It goes on when the wait fails.
abbrev pub push_waited {ℓ} :
    {A : Type ℓ} → ℕ → MessageQueue A → A → Waited → Option (MessageQueue A)
push_waited capacity q item (Waited.taken n) =
    some (signal_items (publish capacity (put (record q { spaces = n }) item)))
push_waited capacity q item Waited.refused = some (signal_items (publish capacity (put q item)))
push_waited capacity q item Waited.blocked = none

unfoldable pub push {ℓ} : {A : Type ℓ} → Bool → ℕ → MessageQueue A → A → Option (MessageQueue A)
push tasks capacity q item = push_waited capacity q item (wait tasks q.spaces)

-- `pop`, likewise.
abbrev pub pop_waited {ℓ} : {A : Type ℓ} → ℕ → MessageQueue A → Waited → Option (A × MessageQueue A)
pop_waited capacity q (Waited.taken n) =
    some (q.buffer q.head, signal_spaces (release capacity (record q { items = n })))
pop_waited capacity q Waited.refused = some (q.buffer q.head, signal_spaces (release capacity q))
pop_waited capacity q Waited.blocked = none

unfoldable pub pop {ℓ} : {A : Type ℓ} → Bool → ℕ → MessageQueue A → Option (A × MessageQueue A)
pop tasks capacity q = pop_waited capacity q (wait tasks q.items)

-- Where the producer stands in a push, and the consumer in a pop.
pub data Producer {ℓ} (A : Type ℓ) : Type ℓ where
  idle : Producer A
  reserved : A → Producer A
  written : A → Producer A
  published : Producer A

pub data Consumer {ℓ} (A : Type ℓ) : Type ℓ where
  idle : Consumer A
  claimed : Consumer A
  read : A → Consumer A
  released : Consumer A

-- A queue between its two tasks, with the items so far: item `i` of those sent and of those
-- received.
pub record System {ℓ} (A : Type ℓ) : Type ℓ where
  pub queue : MessageQueue A
  pub producer : Producer A
  pub consumer : Consumer A
  pub sent : ℕ → A
  pub n_sent : ℕ
  pub received : ℕ → A
  pub n_received : ℕ

-- The accesses to shared memory, one at a time and in the order of the code, by either side: `reserve`
-- and `claim` are the waits of `try_push` and `try_pop`; `await_space` and `await_item` those of `push`
-- and `pop`, which go on by `push_anyway` and `pop_anyway` where the wait fails. A wait that blocks
-- changes nothing.
pub data Step {ℓ} {A : Type ℓ} (tasks : Bool) (capacity : ℕ) : System A → System A → Type ℓ where
  reserve :
      (s : System A) (item : A) (n : ℕ)
      → s.producer ≡ Producer.idle
      → try_wait s.queue.spaces ≡ some n
      → Step tasks capacity s
          (record s { queue = record s.queue { spaces = n }; producer = Producer.reserved item })
  await_space :
      (s : System A) (item : A) (n : ℕ)
      → s.producer ≡ Producer.idle
      → wait tasks s.queue.spaces ≡ Waited.taken n
      → Step tasks capacity s
          (record s { queue = record s.queue { spaces = n }; producer = Producer.reserved item })
  push_anyway :
      (s : System A) (item : A)
      → s.producer ≡ Producer.idle
      → wait tasks s.queue.spaces ≡ Waited.refused
      → Step tasks capacity s (record s { producer = Producer.reserved item })
  write :
      (s : System A) (item : A)
      → s.producer ≡ Producer.reserved item
      → Step tasks capacity s
          (record s { queue = put s.queue item; producer = Producer.written item })
  store_tail :
      (s : System A) (item : A)
      → s.producer ≡ Producer.written item
      → Step tasks capacity s (record s {
        queue = publish capacity s.queue;
        producer = Producer.published;
        sent = update s.sent s.n_sent item;
        n_sent = s.n_sent + 1;
      })
  notify :
      (s : System A)
      → s.producer ≡ Producer.published
      → Step tasks capacity s (record s { queue = signal_items s.queue; producer = Producer.idle })
  claim :
      (s : System A) (n : ℕ)
      → s.consumer ≡ Consumer.idle
      → try_wait s.queue.items ≡ some n
      → Step tasks capacity s
          (record s { queue = record s.queue { items = n }; consumer = Consumer.claimed })
  await_item :
      (s : System A) (n : ℕ)
      → s.consumer ≡ Consumer.idle
      → wait tasks s.queue.items ≡ Waited.taken n
      → Step tasks capacity s
          (record s { queue = record s.queue { items = n }; consumer = Consumer.claimed })
  pop_anyway :
      (s : System A)
      → s.consumer ≡ Consumer.idle
      → wait tasks s.queue.items ≡ Waited.refused
      → Step tasks capacity s (record s { consumer = Consumer.claimed })
  fetch :
      (s : System A)
      → s.consumer ≡ Consumer.claimed
      → Step tasks capacity s (record s { consumer = Consumer.read (s.queue.buffer s.queue.head) })
  store_head :
      (s : System A) (out : A)
      → s.consumer ≡ Consumer.read out
      → Step tasks capacity s (record s {
        queue = release capacity s.queue;
        consumer = Consumer.released;
        received = update s.received s.n_received out;
        n_received = s.n_received + 1;
      })
  give_back :
      (s : System A)
      → s.consumer ≡ Consumer.released
      → Step tasks capacity s (record s { queue = signal_spaces s.queue; consumer = Consumer.idle })

pub data Reach {ℓ} {A : Type ℓ} (tasks : Bool) (capacity : ℕ) (s : System A)
    : System A → Type ℓ where
  here : Reach tasks capacity s s
  next :
      {t u : System A}
      → Reach tasks capacity s t
      → Step tasks capacity t u
      → Reach tasks capacity s u
