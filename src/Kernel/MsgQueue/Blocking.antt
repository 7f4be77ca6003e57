-- ===== src/Kernel/MsgQueue/Blocking.antt =====
-- The blocking `push` and `pop`, which are runs of the same steps.
use aurora_os.Prelude.{ℕ, ◌≡◌, refl, Bool, some}
use mathlib.Core.Option.{some-injective}
use mathlib.Core.Path.{subst}
use aurora_os.Kernel.MsgQueue.{
  MessageQueue, Producer, Consumer, System, Step, Reach, Waited, wait, push, pop, push_waited,
  pop_waited, put, publish, release, signal_items, signal_spaces,
}
use aurora_os.Kernel.MsgQueue.Fifo.{pushed, popped}

push_returns {ℓ} :
    {A : Type ℓ} (tasks : Bool) (capacity : ℕ) (s : System A) (item : A) (o : Waited)
    (q : MessageQueue A)
    → s.producer ≡ Producer.idle
    → wait tasks s.queue.spaces ≡ o
    → push_waited capacity s.queue item o ≡ some q
    → Reach tasks capacity s (pushed s item q)
push_returns tasks capacity s item (Waited.taken n) q e w h =
    let same : signal_items (publish capacity (put (record s.queue { spaces = n }) item)) ≡ q =
      some-injective _ _ h in
    subst (λ x. Reach tasks capacity s (pushed s item x)) same
      (Reach.next
        (Reach.next
          (Reach.next (Reach.next Reach.here (Step.await_space s item n e w))
            (Step.write _ item refl))
          (Step.store_tail _ item refl))
        (Step.notify _ refl))
push_returns tasks capacity s item Waited.refused q e w h =
    let same : signal_items (publish capacity (put s.queue item)) ≡ q = some-injective _ _ h in
    subst (λ x. Reach tasks capacity s (pushed s item x)) same
      (Reach.next
        (Reach.next
          (Reach.next (Reach.next Reach.here (Step.push_anyway s item e w))
            (Step.write _ item refl))
          (Step.store_tail _ item refl))
        (Step.notify _ refl))
push_returns tasks capacity s item Waited.blocked q e w h = absurd cc

-- A call of `push` that returns is a run of the producer's steps that sends the item.
push-Reach {ℓ} :
    {A : Type ℓ} (tasks : Bool) (capacity : ℕ) (s : System A) (item : A) (q : MessageQueue A)
    → s.producer ≡ Producer.idle
    → push tasks capacity s.queue item ≡ some q
    → Reach tasks capacity s (pushed s item q)
unfolding push
push-Reach tasks capacity s item q e h =
    push_returns tasks capacity s item (wait tasks s.queue.spaces) q e refl h

pop_returns {ℓ} :
    {A : Type ℓ} (tasks : Bool) (capacity : ℕ) (s : System A) (o : Waited) (r : A × MessageQueue A)
    → s.consumer ≡ Consumer.idle
    → wait tasks s.queue.items ≡ o
    → pop_waited capacity s.queue o ≡ some r
    → Reach tasks capacity s (popped s r.0 r.1)
pop_returns tasks capacity s (Waited.taken n) r e w h =
    let same : (
      s.queue.buffer s.queue.head,
      signal_spaces (release capacity (record s.queue { items = n })),
    )
        ≡ r =
      some-injective _ _ h in
    subst (λ x. Reach tasks capacity s (popped s x.0 x.1)) same
      (Reach.next
        (Reach.next
          (Reach.next (Reach.next Reach.here (Step.await_item s n e w)) (Step.fetch _ refl))
          (Step.store_head _ _ refl))
        (Step.give_back _ refl))
pop_returns tasks capacity s Waited.refused r e w h =
    let same : (s.queue.buffer s.queue.head, signal_spaces (release capacity s.queue)) ≡ r =
      some-injective _ _ h in
    subst (λ x. Reach tasks capacity s (popped s x.0 x.1)) same
      (Reach.next
        (Reach.next (Reach.next (Reach.next Reach.here (Step.pop_anyway s e w)) (Step.fetch _ refl))
          (Step.store_head _ _ refl))
        (Step.give_back _ refl))
pop_returns tasks capacity s Waited.blocked r e w h = absurd cc

-- A call of `pop` that returns is a run of the consumer's steps that receives its item.
pop-Reach {ℓ} :
    {A : Type ℓ} (tasks : Bool) (capacity : ℕ) (s : System A) (r : A × MessageQueue A)
    → s.consumer ≡ Consumer.idle
    → pop tasks capacity s.queue ≡ some r
    → Reach tasks capacity s (popped s r.0 r.1)
unfolding pop
pop-Reach tasks capacity s r e h =
    pop_returns tasks capacity s (wait tasks s.queue.items) r e refl h
