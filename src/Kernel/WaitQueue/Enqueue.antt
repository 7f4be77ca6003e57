-- ===== src/Kernel/WaitQueue/Enqueue.antt =====
-- `WaitQueue::enqueue` inserts by priority.
use aurora_os.Prelude.{
  ℕ, zero, suc, ◌≤◌, ◌<◌, ◌≡◌, refl, ◌∙◌, ap, inl, inr, true, false, Option, none, some, List, [],
  ◌∷◌, ltb, leb, ◌==◌, if◌then◌else◌, arith, contains, is_nodup, length, Bool-cases,
}
use aurora_os.Prelude.Store.{update}
use aurora_os.Kernel.Ready.{max_tasks}
use aurora_os.Kernel.WaitQueue.{WaitQueue, find_place, enqueue, enqueue_at, link_first, link_after}
use aurora_os.Kernel.WaitQueue.Chain.{Chain, IsQueue, Chain-frame, contains-last, insert, last}

module _ (prio : ℕ → ℕ) (next : ℕ → Option ℕ) (t : ℕ) (cut : next t ≡ none) where
  place-mem :
      (fuel x : ℕ) (l : List ℕ)
      → Chain next x l
      → contains (find_place fuel prio next t x) (x ∷ l) ≡ true
  unfolding find_place
  place-mem zero x l c = ground arith
  place-mem (suc fuel) x [] c = ground arith
  place-mem (suc fuel) x (y ∷ l) c = ground (arith, place-mem fuel y l)

  step_on :
      (fuel x y : ℕ)
      → next x ≡ some y
      → leb (prio t) (prio y) ≡ true
      → find_place (suc fuel) prio next t x ≡ find_place fuel prio next t y
  unfolding find_place
  step_on fuel x y e on = rw (e, find_place) (rw on)

  step_off :
      (fuel x y : ℕ)
      → next x ≡ some y
      → leb (prio t) (prio y) ≡ false
      → find_place (suc fuel) prio next t x ≡ x
  unfolding find_place
  step_off fuel x y e off = rw (e, find_place) (rw off)

  step_end : (fuel x : ℕ) → next x ≡ none → find_place (suc fuel) prio next t x ≡ x
  unfolding find_place
  step_end fuel x e = rw (e, find_place)

  not_before : (y : ℕ) → leb (prio t) (prio y) ≡ true → ltb (prio y) (prio t) ≡ false
  not_before y on = ground arith

  before : (y : ℕ) → leb (prio t) (prio y) ≡ false → ltb (prio y) (prio t) ≡ true
  before y off = ground arith

  -- The links after `t` is put behind the place that the loop finds.
  abbrev placed : ℕ → ℕ → Option ℕ
  placed c = update (update next t (next c)) c (some t)

  place-Chain :
      (fuel x : ℕ) (l : List ℕ)
      → length l < fuel
      → is_nodup (x ∷ l) ≡ true
      → contains t (x ∷ l) ≡ false
      → Chain next x l
      → Chain (placed (find_place fuel prio next t x)) x (insert prio t l)
  unfolding find_place
  place-Chain zero x l f d out c = absurd (omega arith)
  place-Chain (suc fuel) x [] f d out c = rw (c, find_place) (ground arith, ground arith)
  place-Chain (suc fuel) x (y ∷ l) f d out c = elim (Bool-cases (leb (prio t) (prio y))) [
    | inl on ↦
        rw (step_on fuel x y c.0 on, not_before y on)
          (
            ground (arith, c.0, place-mem fuel y l c.1),
            place-Chain fuel y l (omega arith) (ground arith) (ground arith) c.1,
          )
    | inr off ↦
        rw (step_off fuel x y c.0 off, before y off)
          (
            ground arith,
            (ground (arith, c.0), Chain-frame next (placed x) y l (λ j k. ground arith) c.1),
          )
  ]

  place-last :
      (fuel x : ℕ) (l : List ℕ)
      → length l < fuel
      → is_nodup (x ∷ l) ≡ true
      → Chain next x l
      → last x (insert prio t l)
        ≡ (if last x l == find_place fuel prio next t x then t else last x l)
  place-last zero x l f d c = absurd (omega arith)
  place-last (suc fuel) x [] f d c = rw (step_end fuel x c) (ground arith)
  place-last (suc fuel) x (y ∷ l) f d c = elim (Bool-cases (leb (prio t) (prio y))) [
    | inl on ↦
        rw (step_on fuel x y c.0 on, not_before y on)
          (place-last fuel y l (omega arith) (ground arith) c.1)
    | inr off ↦ rw (step_off fuel x y c.0 off, before y off) (ground (arith, contains-last y l))
  ]

module _ (prio : ℕ → ℕ) (w : WaitQueue) (t : ℕ) where
  abbrev cut_first : WaitQueue
  cut_first = record w { next = update w.next t none }

  abbrev place : ℕ → ℕ
  place h = find_place max_tasks prio cut_first.next t h

  enqueue_empty : w.head ≡ none → enqueue prio w t ≡ link_first cut_first t
  unfolding enqueue
  enqueue_empty e = ap (enqueue_at prio cut_first t) e

  enqueue_front :
      (h : ℕ)
      → w.head ≡ some h
      → ltb (prio h) (prio t) ≡ true
      → enqueue prio w t ≡ link_first cut_first t
  unfolding enqueue
  enqueue_front h e f =
      ap (enqueue_at prio cut_first t) e
      ∙ ap (λ b. if b then link_first cut_first t else link_after cut_first t (place h)) f

  enqueue_behind :
      (h : ℕ)
      → w.head ≡ some h
      → ltb (prio h) (prio t) ≡ false
      → enqueue prio w t ≡ link_after cut_first t (place h)
  unfolding enqueue
  enqueue_behind h e f =
      ap (enqueue_at prio cut_first t) e
      ∙ ap (λ b. if b then link_first cut_first t else link_after cut_first t (place h)) f

-- `enqueue` puts a task that is in no place of the queue before the first task of lower priority,
-- and leaves the links of the tasks outside the queue.
pub enqueue-IsQueue :
    (prio : ℕ → ℕ) (w : WaitQueue) (l : List ℕ) (t : ℕ)
    → IsQueue w l
    → is_nodup l ≡ true
    → contains t l ≡ false
    → length l ≤ max_tasks
    → IsQueue (enqueue prio w t) (insert prio t l)
      × ((j : ℕ) → contains j (t ∷ l) ≡ false → (enqueue prio w t).next j ≡ w.next j)
enqueue-IsQueue prio w [] t v d out f =
    rw (enqueue_empty prio w t v.0)
      ((refl, ground (arith, v.0), ground (arith, v.1)), λ j k. ground arith)
enqueue-IsQueue prio w (h ∷ l) t v d out f = elim (Bool-cases (ltb (prio h) (prio t))) [
  | inl front ↦
      rw (enqueue_front prio w t h v.0 front, front)
        (
          (
            refl,
            (ground (arith, v.0), Chain-frame w.next _ h l (λ j k. ground arith) v.1),
            ground (arith, v.2),
          ),
          λ j k. ground arith,
        )
  | inr behind ↦
      rw (enqueue_behind prio w t h v.0 behind, behind)
        (
          (
            v.0,
            place-Chain prio (cut_first prio w t).next t (ground arith) max_tasks h l (omega arith)
                d out chain,
            ground (
              arith,
              v.2,
              place-last prio (cut_first prio w t).next t (ground arith) max_tasks h l (omega arith)
                  d chain,
            ),
          ),
          λ j k. ground (
            arith,
            place-mem prio (cut_first prio w t).next t (ground arith) max_tasks h l chain,
          ),
        )
]
  where
    chain : Chain (cut_first prio w t).next h l
    chain = Chain-frame w.next _ h l (λ j k. ground arith) v.1
