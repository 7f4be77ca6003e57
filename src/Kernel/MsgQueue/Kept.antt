-- ===== src/Kernel/MsgQueue/Kept.antt =====
-- Each step of the queue keeps what holds between any two.
use aurora_os.Prelude.{
  ℕ, ◌+◌, ◌%◌, ◌≤◌, ◌<◌, ◌≡◌, refl, inl, inr, ◌∙◌, sym, ap, false, some, ltb, ◌==◌, if◌then◌else◌,
  arith, Bool-cases, ==_iff, ==_self,
}
use mathlib.Core.Path.{subst}
use native.Mathlib.Nat.{mod-add-mod}
use aurora_os.Prelude.Store.{update}
use aurora_os.Kernel.MsgQueue.{
  Producer, Consumer, System, try_wait, put, publish, release, signal_items, signal_spaces,
}
use aurora_os.Kernel.MsgQueue.Counts.{
  reserving, storing, claiming, releasing, Writing, Reading, Inv, slots_apart, waited,
}

module _ {ℓ} {A : Type ℓ} (capacity : ℕ) where
  pub reserve-Inv :
      (s : System A) (item : A) (n : ℕ)
      → Inv capacity s
      → s.producer ≡ Producer.idle
      → try_wait s.queue.spaces ≡ some n
      → Inv capacity
          (record s { queue = record s.queue { spaces = n }; producer = Producer.reserved item })
  reserve-Inv s item n v e w = record {
    at_head = v.at_head;
    at_tail = v.at_tail;
    counted = omega (arith, v.counted, ap storing e);
    spare = omega (arith, v.spare, ap reserving e, waited s.queue.spaces n w);
    held = v.held;
    writing = tt;
    reading = v.reading;
    same = v.same;
  }

  pub unread : (s : System A) → Inv capacity s → s.n_received ≤ s.n_sent
  unread s v = omega (arith, v.counted)

  pub write-Inv :
      (s : System A) (item : A)
      → Inv capacity s
      → s.producer ≡ Producer.reserved item
      → Inv capacity (record s { queue = put s.queue item; producer = Producer.written item })
  write-Inv s item v e = record {
    at_head = v.at_head;
    at_tail = v.at_tail;
    counted = omega (arith, v.counted, ap storing e);
    spare = omega (arith, v.spare, ap reserving e);
    held = λ i from below.
        ap (λ t. if t == i % capacity then item else s.queue.buffer (i % capacity)) v.at_tail
        ∙ ap (λ b. if b then item else s.queue.buffer (i % capacity))
            (slots_apart capacity i s.n_sent below (omega (arith, v.spare, ap reserving e, from)))
        ∙ v.held i from below;
    writing =
        ap (λ t. if t == s.n_sent % capacity then item else s.queue.buffer (s.n_sent % capacity))
          v.at_tail
        ∙ ap (λ b. if b then item else s.queue.buffer (s.n_sent % capacity))
            (==_self (s.n_sent % capacity));
    reading = v.reading;
    same = v.same;
  }

  sent_other :
      (s : System A) (item : A) (i : ℕ) → i < s.n_sent → update s.sent s.n_sent item i ≡ s.sent i
  sent_other s item i lt = ap (λ b. if b then item else s.sent i) (later s.n_sent i lt)
    where
      later : (n i : ℕ) → i < n → n == i ≡ false
      later n i lt = ground arith

  sent_this : (s : System A) (item : A) → update s.sent s.n_sent item s.n_sent ≡ item
  sent_this s item = ap (λ b. if b then item else s.sent s.n_sent) (==_self s.n_sent)

  Reading-kept : (y z : A) (c : Consumer A) → (claiming c ≡ 1 → y ≡ z) → Reading y c → Reading z c
  Reading-kept y z Consumer.idle same r = tt
  Reading-kept y z Consumer.claimed same r = tt
  Reading-kept y z (Consumer.read x) same r = r ∙ same refl
  Reading-kept y z Consumer.released same r = tt

  pub store_tail-Inv :
      (s : System A) (item : A)
      → Inv capacity s
      → s.producer ≡ Producer.written item
      → Inv capacity (record s {
        queue = publish capacity s.queue;
        producer = Producer.published;
        sent = update s.sent s.n_sent item;
        n_sent = s.n_sent + 1;
      })
  store_tail-Inv s item v e = record {
    at_head = v.at_head;
    at_tail = ap (λ t. (t + 1) % capacity) v.at_tail ∙ mod-add-mod s.n_sent capacity 1;
    counted = omega (arith, v.counted, ap storing e);
    spare = omega (arith, v.spare, ap reserving e);
    held = λ i from below. elim (Bool-cases (ltb i s.n_sent)) [
      | inl old ↦ v.held i from (ground arith) ∙ sym (sent_other s item i (ground arith))
      | inr new ↦
          let this : s.n_sent ≡ i = ground (arith, below) in
          ap (λ j. s.queue.buffer (j % capacity)) (sym this)
          ∙ subst (Writing s.queue.buffer (s.n_sent % capacity)) e v.writing
          ∙ sym (sent_this s item)
          ∙ ap (update s.sent s.n_sent item) this
    ];
    writing = tt;
    reading =
        Reading-kept (s.sent s.n_received) _ s.consumer
          (λ one. sym (sent_other s item s.n_received (omega (arith, v.counted, one)))) v.reading;
    same = λ i lt. v.same i lt ∙ sym (sent_other s item i (omega (arith, lt, unread s v)));
  }

  pub notify-Inv :
      (s : System A)
      → Inv capacity s
      → s.producer ≡ Producer.published
      → Inv capacity (record s { queue = signal_items s.queue; producer = Producer.idle })
  notify-Inv s v e = record {
    at_head = v.at_head;
    at_tail = v.at_tail;
    counted = omega (arith, v.counted, ap storing e);
    spare = omega (arith, v.spare, ap reserving e);
    held = v.held;
    writing = tt;
    reading = v.reading;
    same = v.same;
  }

  pub claim-Inv :
      (s : System A) (n : ℕ)
      → Inv capacity s
      → s.consumer ≡ Consumer.idle
      → try_wait s.queue.items ≡ some n
      → Inv capacity
          (record s { queue = record s.queue { items = n }; consumer = Consumer.claimed })
  claim-Inv s n v e w = record {
    at_head = v.at_head;
    at_tail = v.at_tail;
    counted = omega (arith, v.counted, ap claiming e, waited s.queue.items n w);
    spare = omega (arith, v.spare, ap releasing e);
    held = v.held;
    writing = v.writing;
    reading = tt;
    same = v.same;
  }

  pub fetch-Inv :
      (s : System A)
      → Inv capacity s
      → s.consumer ≡ Consumer.claimed
      → Inv capacity (record s { consumer = Consumer.read (s.queue.buffer s.queue.head) })
  fetch-Inv s v e = record {
    at_head = v.at_head;
    at_tail = v.at_tail;
    counted = omega (arith, v.counted, ap claiming e);
    spare = omega (arith, v.spare, ap releasing e);
    held = v.held;
    writing = v.writing;
    reading =
        ap s.queue.buffer v.at_head
        ∙ v.held s.n_received (omega arith) (omega (arith, v.counted, ap claiming e));
    same = v.same;
  }

  pub store_head-Inv :
      (s : System A) (out : A)
      → Inv capacity s
      → s.consumer ≡ Consumer.read out
      → Inv capacity (record s {
        queue = release capacity s.queue;
        consumer = Consumer.released;
        received = update s.received s.n_received out;
        n_received = s.n_received + 1;
      })
  store_head-Inv s out v e = record {
    at_head = ap (λ t. (t + 1) % capacity) v.at_head ∙ mod-add-mod s.n_received capacity 1;
    at_tail = v.at_tail;
    counted = omega (arith, v.counted, ap claiming e);
    spare = omega (arith, v.spare, ap releasing e);
    held = λ i from below. v.held i (omega (arith, from)) below;
    writing = v.writing;
    reading = tt;
    same = λ i lt. elim (Bool-cases (s.n_received == i)) [
      | inl this ↦
          ap (λ b. if b then out else s.received i) this
          ∙ subst (Reading (s.sent s.n_received)) e v.reading
          ∙ ap s.sent ((==_iff s.n_received i).0 this)
      | inr that ↦
          ap (λ b. if b then out else s.received i) that ∙ v.same i (ground (arith, lt, that))
    ];
  }

  pub give_back-Inv :
      (s : System A)
      → Inv capacity s
      → s.consumer ≡ Consumer.released
      → Inv capacity (record s { queue = signal_spaces s.queue; consumer = Consumer.idle })
  give_back-Inv s v e = record {
    at_head = v.at_head;
    at_tail = v.at_tail;
    counted = omega (arith, v.counted, ap claiming e);
    spare = omega (arith, v.spare, ap releasing e);
    held = v.held;
    writing = v.writing;
    reading = tt;
    same = v.same;
  }
