-- ===== src/Kernel/MsgQueue/Fifo.antt =====
-- The queue is first in, first out, and never holds more than its capacity, however the steps of its
-- two tasks are interleaved.
use aurora_os.Prelude.{
  ℕ, ◌+◌, ◌≤◌, ◌<◌, ◌≡◌, refl, sym, Bool, true, false, Option, none, some, arith,
}
use native.Mathlib.Nat.{zero-mod}
use aurora_os.Prelude.Store.{update}
use aurora_os.Kernel.MsgQueue.{
  MessageQueue, Producer, Consumer, System, Step, Reach, try_wait, try_push, try_pop, push_after,
  pop_after, init,
}
use aurora_os.Kernel.MsgQueue.Counts.{Inv, wait-taken, wait-refused}
use aurora_os.Kernel.MsgQueue.Kept.{
  unread, reserve-Inv, write-Inv, store_tail-Inv, notify-Inv, claim-Inv, fetch-Inv, store_head-Inv,
  give_back-Inv,
}

-- A queue after `init`, with no task in the middle of an operation.
abbrev pub fresh {ℓ} : {A : Type ℓ} → ℕ → (ℕ → A) → System A
fresh capacity buffer = record {
  queue = init capacity (record { buffer = buffer; head = 0; tail = 0; items = 0; spaces = 0 });
  producer = Producer.idle;
  consumer = Consumer.idle;
  sent = buffer;
  n_sent = 0;
  received = buffer;
  n_received = 0;
}

fresh-Inv {ℓ} : {A : Type ℓ} (capacity : ℕ) (buffer : ℕ → A) → Inv capacity (fresh capacity buffer)
fresh-Inv capacity buffer = record {
  at_head = sym (zero-mod capacity);
  at_tail = sym (zero-mod capacity);
  counted = refl;
  spare = omega arith;
  held = λ i from below. absurd (omega (arith, below));
  writing = tt;
  reading = tt;
  same = λ i lt. absurd (omega (arith, lt));
}

Step-Inv {ℓ} :
    {A : Type ℓ} (capacity : ℕ) {s t : System A}
    → Step true capacity s t
    → Inv capacity s
    → Inv capacity t
Step-Inv capacity (Step.reserve s item n e w) v = reserve-Inv capacity s item n v e w
Step-Inv capacity (Step.await_space s item n e w) v =
    reserve-Inv capacity s item n v e (wait-taken true s.queue.spaces n w)
Step-Inv capacity (Step.push_anyway s item e w) v = absurd (wait-refused s.queue.spaces w)
Step-Inv capacity (Step.write s item e) v = write-Inv capacity s item v e
Step-Inv capacity (Step.store_tail s item e) v = store_tail-Inv capacity s item v e
Step-Inv capacity (Step.notify s e) v = notify-Inv capacity s v e
Step-Inv capacity (Step.claim s n e w) v = claim-Inv capacity s n v e w
Step-Inv capacity (Step.await_item s n e w) v =
    claim-Inv capacity s n v e (wait-taken true s.queue.items n w)
Step-Inv capacity (Step.pop_anyway s e w) v = absurd (wait-refused s.queue.items w)
Step-Inv capacity (Step.fetch s e) v = fetch-Inv capacity s v e
Step-Inv capacity (Step.store_head s out e) v = store_head-Inv capacity s out v e
Step-Inv capacity (Step.give_back s e) v = give_back-Inv capacity s v e

Reach-Inv {ℓ} :
    {A : Type ℓ} (capacity : ℕ) {s t : System A}
    → Reach true capacity s t
    → Inv capacity s
    → Inv capacity t
Reach-Inv capacity Reach.here v = v
Reach-Inv capacity (Reach.next before step) v = Step-Inv capacity step (Reach-Inv capacity before v)

-- However the steps of a producer and a consumer that are tasks, so that a wait suspends them where
-- there is nothing to take, are interleaved from a new queue on, the items received are those sent,
-- in their order and without loss, and no more than the capacity of them are under way.
pub Reach-fifo {ℓ} :
    {A : Type ℓ} (capacity : ℕ) (buffer : ℕ → A) (t : System A)
    → Reach true capacity (fresh capacity buffer) t
    → ((i : ℕ) → i < t.n_received → t.received i ≡ t.sent i)
      × (t.n_received ≤ t.n_sent)
      × (t.n_sent ≤ t.n_received + capacity)
Reach-fifo capacity buffer t r =
    let v = Reach-Inv capacity r (fresh-Inv capacity buffer) in
    (v.same, unread capacity t v, omega (arith, v.spare))

-- The state after a push that succeeds, and after a pop.
abbrev pub pushed {ℓ} : {A : Type ℓ} → System A → A → MessageQueue A → System A
pushed s item q = record s {
  queue = q;
  producer = Producer.idle;
  sent = update s.sent s.n_sent item;
  n_sent = s.n_sent + 1;
}

abbrev pub popped {ℓ} : {A : Type ℓ} → System A → A → MessageQueue A → System A
popped s out q = record s {
  queue = q;
  consumer = Consumer.idle;
  received = update s.received s.n_received out;
  n_received = s.n_received + 1;
}

abbrev pub PushResult {ℓ} : {A : Type ℓ} → Bool → ℕ → System A → A → Bool × MessageQueue A → Type ℓ
PushResult tasks capacity s item (true, q) = Reach tasks capacity s (pushed s item q)
PushResult tasks capacity s item (false, q) = (q ≡ s.queue) × (s.queue.spaces ≡ 0)

abbrev pub PopResult {ℓ} : {A : Type ℓ} → Bool → ℕ → System A → Option A × MessageQueue A → Type ℓ
PopResult tasks capacity s (some out, q) = Reach tasks capacity s (popped s out q)
PopResult tasks capacity s (none, q) = (q ≡ s.queue) × (s.queue.items ≡ 0)

push_cases {ℓ} :
    {A : Type ℓ} (tasks : Bool) (capacity : ℕ) (s : System A) (item : A) (o : Option ℕ)
    → s.producer ≡ Producer.idle
    → try_wait s.queue.spaces ≡ o
    → PushResult tasks capacity s item (push_after capacity s.queue item o)
push_cases tasks capacity s item none e w = (refl, ground arith)
push_cases tasks capacity s item (some n) e w =
    Reach.next
      (Reach.next
        (Reach.next (Reach.next Reach.here (Step.reserve s item n e w)) (Step.write _ item refl))
        (Step.store_tail _ item refl))
      (Step.notify _ refl)

pop_cases {ℓ} :
    {A : Type ℓ} (tasks : Bool) (capacity : ℕ) (s : System A) (o : Option ℕ)
    → s.consumer ≡ Consumer.idle
    → try_wait s.queue.items ≡ o
    → PopResult tasks capacity s (pop_after capacity s.queue o)
pop_cases tasks capacity s none e w = (refl, ground arith)
pop_cases tasks capacity s (some n) e w =
    Reach.next
      (Reach.next (Reach.next (Reach.next Reach.here (Step.claim s n e w)) (Step.fetch _ refl))
        (Step.store_head _ _ refl))
      (Step.give_back _ refl)

-- A call of `try_push` either succeeds, as a run of the producer's steps that sends the item, or
-- is refused, for want of a space, and changes nothing.
pub try_push-Reach {ℓ} :
    {A : Type ℓ} (tasks : Bool) (capacity : ℕ) (s : System A) (item : A)
    → s.producer ≡ Producer.idle
    → PushResult tasks capacity s item (try_push capacity s.queue item)
unfolding try_push
try_push-Reach tasks capacity s item e =
    push_cases tasks capacity s item (try_wait s.queue.spaces) e refl

-- A call of `try_pop` either gives an item, as a run of the consumer's steps that receives it, or
-- is refused, for want of an item, and changes nothing.
pub try_pop-Reach {ℓ} :
    {A : Type ℓ} (tasks : Bool) (capacity : ℕ) (s : System A)
    → s.consumer ≡ Consumer.idle
    → PopResult tasks capacity s (try_pop capacity s.queue)
unfolding try_pop
try_pop-Reach tasks capacity s e = pop_cases tasks capacity s (try_wait s.queue.items) e refl
