-- ===== src/Kernel/WaitQueue/Order.antt =====
-- Insertion by priority keeps a queue sorted, and tasks of one priority in the order of arrival.
use aurora_os.Prelude.{ℕ, ◌≤◌, ◌<◌, ◌≡◌, refl, List, [], ◌∷◌, ◌++◌, ◌==◌, if◌then◌else◌, arith}
use aurora_os.Kernel.WaitQueue.Chain.{insert}

-- The priorities fall along the list, from at most `p` on.
abbrev pub Below : (ℕ → ℕ) → ℕ → List ℕ → Type 0
Below prio p [] = Unit {0}
Below prio p (x ∷ l) = (prio x ≤ p) × Below prio (prio x) l

abbrev pub IsSorted : (ℕ → ℕ) → List ℕ → Type 0
IsSorted prio [] = Unit {0}
IsSorted prio (x ∷ l) = Below prio (prio x) l

-- The tasks of one priority, in their order.
abbrev pub level : (ℕ → ℕ) → ℕ → List ℕ → List ℕ
level prio p [] = []
level prio p (x ∷ l) = if prio x == p then x ∷ level prio p l else level prio p l

Below-insert :
    (prio : ℕ → ℕ) (p t : ℕ) (l : List ℕ)
    → prio t ≤ p
    → Below prio p l
    → Below prio p (insert prio t l)
Below-insert prio p t [] h b = (h, tt)
Below-insert prio p t (x ∷ l) h b = ground (arith, Below-insert prio (prio x) t l)

pub insert-IsSorted :
    (prio : ℕ → ℕ) (t : ℕ) (l : List ℕ) → IsSorted prio l → IsSorted prio (insert prio t l)
insert-IsSorted prio t [] b = tt
insert-IsSorted prio t (x ∷ l) b = ground (arith, Below-insert prio (prio x) t l)

level_above : (prio : ℕ → ℕ) (p q : ℕ) (l : List ℕ) → Below prio q l → q < p → level prio p l ≡ []
level_above prio p q [] b h = refl
level_above prio p q (x ∷ l) b h = ground (arith, level_above prio p (prio x) l)

level-insert-Below :
    (prio : ℕ → ℕ) (p q t : ℕ) (l : List ℕ)
    → Below prio q l
    → level prio p (insert prio t l)
      ≡ (if prio t == p then level prio p l ++ t ∷ [] else level prio p l)
level-insert-Below prio p q t [] b = ground arith
level-insert-Below prio p q t (x ∷ l) b =
    ground (arith, level-insert-Below prio p (prio x) t l b.1, level_above prio p (prio x) l b.1)

pub level-insert :
    (prio : ℕ → ℕ) (p t : ℕ) (l : List ℕ)
    → IsSorted prio l
    → level prio p (insert prio t l)
      ≡ (if prio t == p then level prio p l ++ t ∷ [] else level prio p l)
level-insert prio p t [] b = ground arith
level-insert prio p t (x ∷ l) b =
    ground (arith, level-insert-Below prio p (prio x) t l b, level_above prio p (prio x) l b)
