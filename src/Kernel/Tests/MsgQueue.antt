-- ===== src/Kernel/Tests/MsgQueue.antt =====
-- The theorems on the message queue at a queue of two slots of numbers.
use aurora_os.Prelude.{◌≡◌, refl, ℕ, ◌+◌, ◌≤◌, ◌<◌, true, false, Option, none, some, Bool}
use aurora_os.Prelude.Store.{update}
use aurora_os.Kernel.MsgQueue.{
  System, Step, Reach, Producer, Consumer, MessageQueue, push, try_push, try_pop,
}
use aurora_os.Kernel.MsgQueue.Fifo.{
  fresh, pushed, PushResult, PopResult, Reach-fifo, try_push-Reach, try_pop-Reach,
}

abbrev zeros : ℕ → ℕ
zeros i = 0

abbrev start : System ℕ
start = fresh 2 zeros

abbrev one_sent : System ℕ
one_sent = pushed start 7 (try_push 2 start.queue 7).1

try_push-Reach_example : PushResult true 2 start 7 (try_push 2 start.queue 7)
try_push-Reach_example = try_push-Reach true 2 start 7 refl

try_pop-Reach_example : PopResult true 2 one_sent (try_pop 2 one_sent.queue)
try_pop-Reach_example = try_pop-Reach true 2 one_sent refl

-- The producer begins its second item between two steps of the consumer.
abbrev interleaved : System ℕ
interleaved = record one_sent {
  queue = record one_sent.queue { items = 0; spaces = 0; head = 1 };
  consumer = Consumer.released;
  received = update one_sent.received 0 7;
  n_received = 1;
  producer = Producer.reserved 8;
}

one_sent_reached : Reach true 2 start one_sent
unfolding try_push
one_sent_reached = try_push-Reach_example

interleaved_reached : Reach true 2 start interleaved
unfolding try_push
interleaved_reached =
    Reach.next
      (Reach.next
        (Reach.next (Reach.next one_sent_reached (Step.claim one_sent 0 refl refl))
          (Step.reserve _ 8 0 refl refl))
        (Step.fetch _ refl))
      (Step.store_head _ 7 refl)

Reach-fifo_example :
    ((i : ℕ) → i < 1 → interleaved.received i ≡ interleaved.sent i)
    × (1 ≤ interleaved.n_sent)
    × (interleaved.n_sent ≤ 1 + 2)
Reach-fifo_example = Reach-fifo 2 zeros interleaved interleaved_reached

-- A third item is refused until one is taken.
full_refused : (try_push 2 (try_push 2 (try_push 2 start.queue 7).1 8).1 9).0 ≡ false
unfolding try_push
full_refused = refl

-- With no current task, a push to a full queue goes on: the first of three items is overwritten, and
-- the count of the items is 3 in a queue of two. A task is suspended instead.
abbrev push_to : Bool → Option (MessageQueue ℕ) → ℕ → Option (MessageQueue ℕ)
push_to tasks none item = none
push_to tasks (some q) item = push tasks 2 q item

abbrev three_pushed : Bool → Option (MessageQueue ℕ)
three_pushed tasks = push_to tasks (push_to tasks (push tasks 2 start.queue 7) 8) 9

abbrev first_and_count : Option (MessageQueue ℕ) → Option (ℕ × ℕ)
first_and_count none = none
first_and_count (some q) = some (q.buffer q.head, q.items)

overwritten : first_and_count (three_pushed false) ≡ some (9, 3)
unfolding push
overwritten = refl

suspended : first_and_count (three_pushed true) ≡ none
unfolding push
suspended = refl
