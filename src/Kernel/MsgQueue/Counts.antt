-- ===== src/Kernel/MsgQueue/Counts.antt =====
-- What holds between any two steps of the queue: the counts of its semaphores make up, with what
-- the two tasks have under way, for the items and the spaces.
use aurora_os.Prelude.{
  ℕ, suc, ◌+◌, ◌*◌, ◌/◌, ◌%◌, ◌≤◌, ◌<◌, ◌≡◌, inl, inr, ◌∙◌, sym, ap, Bool, true, false, some, ltb,
  ◌==◌, arith, Bool-cases, ==_iff,
}
use native.Mathlib.Nat.{mod-add-div}
use aurora_os.Kernel.MsgQueue.{Producer, Consumer, System, Waited, wait, try_wait}

-- What a task in the middle of its operation accounts for: a space taken but not yet filled, an
-- item stored but not yet counted, an item claimed but not yet released, a slot released but not
-- yet counted.
abbrev pub reserving {ℓ} : {A : Type ℓ} → Producer A → ℕ
reserving Producer.idle = 0
reserving (Producer.reserved x) = 1
reserving (Producer.written x) = 1
reserving Producer.published = 0

abbrev pub storing {ℓ} : {A : Type ℓ} → Producer A → ℕ
storing Producer.idle = 0
storing (Producer.reserved x) = 0
storing (Producer.written x) = 0
storing Producer.published = 1

abbrev pub claiming {ℓ} : {A : Type ℓ} → Consumer A → ℕ
claiming Consumer.idle = 0
claiming Consumer.claimed = 1
claiming (Consumer.read x) = 1
claiming Consumer.released = 0

abbrev pub releasing {ℓ} : {A : Type ℓ} → Consumer A → ℕ
releasing Consumer.idle = 0
releasing Consumer.claimed = 0
releasing (Consumer.read x) = 0
releasing Consumer.released = 1

abbrev pub Writing {ℓ} : {A : Type ℓ} → (ℕ → A) → ℕ → Producer A → Type ℓ
Writing buffer slot Producer.idle = Unit
Writing buffer slot (Producer.reserved x) = Unit
Writing buffer slot (Producer.written x) = buffer slot ≡ x
Writing buffer slot Producer.published = Unit

abbrev pub Reading {ℓ} : {A : Type ℓ} → A → Consumer A → Type ℓ
Reading y Consumer.idle = Unit
Reading y Consumer.claimed = Unit
Reading y (Consumer.read x) = x ≡ y
Reading y Consumer.released = Unit

pub record Inv {ℓ} {A : Type ℓ} (capacity : ℕ) (s : System A) : Type ℓ where
  pub at_head : s.queue.head ≡ s.n_received % capacity
  pub at_tail : s.queue.tail ≡ s.n_sent % capacity
  pub counted : s.n_received + s.queue.items + storing s.producer + claiming s.consumer ≡ s.n_sent
  pub spare :
      s.n_sent + s.queue.spaces + reserving s.producer + releasing s.consumer
      ≡ s.n_received + capacity
  pub held : (i : ℕ) → s.n_received ≤ i → i < s.n_sent → s.queue.buffer (i % capacity) ≡ s.sent i
  pub writing : Writing s.queue.buffer (s.n_sent % capacity) s.producer
  pub reading : Reading (s.sent s.n_received) s.consumer
  pub same : (i : ℕ) → i < s.n_received → s.received i ≡ s.sent i

scale : (c a b : ℕ) → a ≤ b → c * a ≤ c * b
scale c a b h = grind arith

step : (c q : ℕ) → c * suc q ≡ c * q + c
step c q = omega arith

-- Items less than the capacity apart are in different slots.
same_quotient : (c i j r q q' : ℕ) → i ≡ r + c * q → j ≡ r + c * q' → i < j → j < i + c → ⊥
same_quotient c i j r q q' e f lt near = elim (Bool-cases (ltb q q')) [
  | inl more ↦ omega (arith, e, f, near, scale c (suc q) q' (ground arith), step c q)
  | inr less ↦ omega (arith, e, f, lt, scale c q' q (ground arith))
]

pub slots_apart : (c i j : ℕ) → i < j → j < i + c → j % c == i % c ≡ false
slots_apart c i j lt near = elim (Bool-cases (j % c == i % c)) [
  | inr ne ↦ ne
  | inl eq ↦
      let same = (==_iff (j % c) (i % c)).0 eq in
      absurd (
        same_quotient c i j (i % c) (i / c) (j / c) (sym (mod-add-div i c))
          (sym (mod-add-div j c) ∙ ap (λ r. r + c * (j / c)) same) lt near)
]

-- A wait takes what `try_wait` takes, and for a task it does not fail.
pub wait-taken :
    (tasks : Bool) (count n : ℕ) → wait tasks count ≡ Waited.taken n → try_wait count ≡ some n
wait-taken tasks count n h = ground (arith, h)

pub wait-refused : (count : ℕ) → wait true count ≡ Waited.refused → ⊥
wait-refused count h = ground (arith, h)

pub waited : (count n : ℕ) → try_wait count ≡ some n → count ≡ suc n
waited count n h = ground arith
