-- ===== src/Kernel/Tests/WaitQueue.antt =====
-- The wait queue's theorems at a queue of three tasks, of the priorities 9, 7 and 7.
use aurora_os.Prelude.{
  ℕ, ◌≡◌, refl, false, none, some, List, [], ◌∷◌, arith, ◌==◌, if◌then◌else◌, contains,
}
use aurora_os.Kernel.WaitQueue.{
  WaitQueue, enqueue, remove, dequeue_matching_sender, dequeue_matching_receiver,
}
use aurora_os.Kernel.WaitQueue.Chain.{IsQueue}
use aurora_os.Kernel.WaitQueue.Order.{IsSorted}
use aurora_os.Kernel.WaitQueue.Arrival.{Arrived, enqueue-Arrived}
use aurora_os.Kernel.WaitQueue.Remove.{Removed, remove-IsQueue}
use aurora_os.Kernel.WaitQueue.Matching.{
  Taken, dequeue_matching_sender-Taken, dequeue_matching_receiver-Taken,
}

abbrev priority : ℕ → ℕ
priority t = if t == 3 then 9 else if t == 4 then 8 else 7

abbrev tasks : List ℕ
tasks = 3 ∷ 5 ∷ 6 ∷ []

abbrev waiting : WaitQueue
waiting = record {
  next = λ t. if t == 3 then some 5 else if t == 5 then some 6 else none;
  head = some 3;
  tail = some 6;
}

-- The label of a task's message, or the one it asks for.
abbrev label : ℕ → ℕ
label t = if t == 3 then 20 else 30

waiting-IsQueue : IsQueue waiting tasks
waiting-IsQueue = (refl, (refl, (refl, refl)), refl)

tasks-IsSorted : IsSorted priority tasks
tasks-IsSorted = (omega arith, (omega arith, tt))

enqueue-Arrived_example :
    (m : List ℕ) × IsQueue (enqueue priority waiting 4) m
    × Arrived priority tasks 4 m
    × ((j : ℕ)
        → contains j (4 ∷ tasks) ≡ false
        → (enqueue priority waiting 4).next j ≡ waiting.next j)
enqueue-Arrived_example =
    enqueue-Arrived priority waiting tasks 4 waiting-IsQueue tasks-IsSorted refl refl (omega arith)

remove-IsQueue_example : Removed waiting tasks 6 (remove waiting 6)
remove-IsQueue_example = remove-IsQueue waiting tasks 6 waiting-IsQueue refl (omega arith)

dequeue_matching_sender-Taken_example :
    Taken tasks waiting (some 5) (dequeue_matching_sender label 30 waiting)
dequeue_matching_sender-Taken_example =
    dequeue_matching_sender-Taken label 30 waiting tasks waiting-IsQueue refl (omega arith)

dequeue_matching_receiver-Taken_example :
    Taken tasks waiting (some 5) (dequeue_matching_receiver label 30 waiting)
dequeue_matching_receiver-Taken_example =
    dequeue_matching_receiver-Taken label 30 waiting tasks waiting-IsQueue refl (omega arith)
