-- ===== src/Kernel/WaitQueue/Arrival.antt =====
-- What `WaitQueue::enqueue` promises: the queue stays sorted by priority, and tasks of one priority
-- in the order of their arrival.
use aurora_os.Prelude.{
  ℕ, ◌≤◌, ◌≡◌, true, false, if◌then◌else◌, ◌==◌, List, [], ◌∷◌, ◌++◌, contains, is_nodup, length,
}
use aurora_os.Kernel.Ready.{max_tasks}
use aurora_os.Kernel.WaitQueue.{WaitQueue, enqueue}
use aurora_os.Kernel.WaitQueue.Chain.{IsQueue, insert}
use aurora_os.Kernel.WaitQueue.Enqueue.{enqueue-IsQueue}
use aurora_os.Kernel.WaitQueue.Order.{IsSorted, level, insert-IsSorted, level-insert}

-- `t` came to the queue `l`, which became `m`: sorted, and at each level behind those there before.
abbrev pub Arrived : (ℕ → ℕ) → List ℕ → ℕ → List ℕ → Type 0
Arrived prio l t m =
    IsSorted prio m
    × ((p : ℕ)
        → level prio p m ≡ (if prio t == p then level prio p l ++ t ∷ [] else level prio p l))

-- `enqueue` on a sorted queue of at most 16 tasks, without `t` and without repetition, gives a
-- queue that is sorted again, where `t` is the last of its priority and every other priority's
-- tasks are as they were, and leaves the links of the tasks outside the queue.
pub enqueue-Arrived :
    (prio : ℕ → ℕ) (w : WaitQueue) (l : List ℕ) (t : ℕ)
    → IsQueue w l
    → IsSorted prio l
    → is_nodup l ≡ true
    → contains t l ≡ false
    → length l ≤ max_tasks
    → (m : List ℕ) × IsQueue (enqueue prio w t) m
      × Arrived prio l t m
      × ((j : ℕ) → contains j (t ∷ l) ≡ false → (enqueue prio w t).next j ≡ w.next j)
enqueue-Arrived prio w l t v s d out f =
    let (q, frame) = enqueue-IsQueue prio w l t v d out f in
    (insert prio t l, q, (insert-IsSorted prio t l s, λ p. level-insert prio p t l s), frame)
