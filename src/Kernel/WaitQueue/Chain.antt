-- ===== src/Kernel/WaitQueue/Chain.antt =====
-- The list of tasks that a wait queue holds.
use aurora_os.Prelude.{
  ℕ, ◌≡◌, Bool, true, Option, none, some, List, [], ◌∷◌, ltb, if◌then◌else◌, arith, contains,
}
use aurora_os.Kernel.WaitQueue.{WaitQueue}

-- From `x` the links lead through `l` to the end.
abbrev pub Chain : (ℕ → Option ℕ) → ℕ → List ℕ → Type 0
Chain next x [] = next x ≡ none
Chain next x (y ∷ l) = (next x ≡ some y) × Chain next y l

abbrev pub last : ℕ → List ℕ → ℕ
last x [] = x
last x (y ∷ l) = last y l

-- The queue holds these tasks in this order, with its tail at the last of them.
abbrev pub IsQueue : WaitQueue → List ℕ → Type 0
IsQueue w [] = (w.head ≡ none) × (w.tail ≡ none)
IsQueue w (x ∷ l) = (w.head ≡ some x) × Chain w.next x l × (w.tail ≡ some (last x l))

pub Chain-frame :
    (next next' : ℕ → Option ℕ) (x : ℕ) (l : List ℕ)
    → ((j : ℕ) → contains j (x ∷ l) ≡ true → next' j ≡ next j)
    → Chain next x l
    → Chain next' x l
Chain-frame next next' x [] h c = ground (arith, h x)
Chain-frame next next' x (y ∷ l) h c =
    (ground (arith, h x), Chain-frame next next' y l (λ j k. h j (ground arith)) c.1)

pub contains-last : (x : ℕ) (l : List ℕ) → contains (last x l) (x ∷ l) ≡ true
contains-last x [] = ground arith
contains-last x (y ∷ l) = ground (arith, contains-last y l)

-- Insertion by priority, behind the tasks of the same one.
abbrev pub insert : (ℕ → ℕ) → ℕ → List ℕ → List ℕ
insert prio t [] = t ∷ []
insert prio t (x ∷ l) = if ltb (prio x) (prio t) then t ∷ x ∷ l else x ∷ insert prio t l

-- The first task of the list that fits.
abbrev pub find_first : (ℕ → Bool) → List ℕ → Option ℕ
find_first fits [] = none
find_first fits (x ∷ l) = if fits x then some x else find_first fits l
