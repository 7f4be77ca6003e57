-- ===== src/Kernel/Cspace/Alloc.antt =====
-- `cap_alloc_slot` finds the lowest free slot.
use aurora_os.Prelude.{ℕ, ◌<◌, ◌≡◌, true, false, not, Option, none, some, arith}
use aurora_os.Prelude.Lowest.{IsLowest, find_lowest_bit-IsLowest}
use aurora_os.Kernel.Cspace.{Caps, max_cspace_slots, cap_alloc_slot}

-- What is free or not below the slot given.
abbrev pub Allocated : Caps → ℕ → Option ℕ → Type 0
Allocated c t none = (j : ℕ) → j < max_cspace_slots → c.occupied_mask t j ≡ true
Allocated c t (some m) =
    (m < max_cspace_slots)
    × (c.occupied_mask t m ≡ false)
    × ((j : ℕ) → j < m → c.occupied_mask t j ≡ true)

Allocated-IsLowest :
    (c : Caps) (t : ℕ) (o : Option ℕ)
    → IsLowest (λ i. not (c.occupied_mask t i)) 0 max_cspace_slots o
    → Allocated c t o
Allocated-IsLowest c t none h = λ j p. ground (arith, h j)
Allocated-IsLowest c t (some m) h =
    (omega (arith, h.1), ground (arith, h.2), λ j p. ground (arith, h.3 j))

-- `cap_alloc_slot` gives the lowest free slot, and none only if all 16 are occupied.
pub alloc-Allocated : (c : Caps) (t : ℕ) → Allocated c t (cap_alloc_slot c t)
unfolding cap_alloc_slot
alloc-Allocated c t =
    Allocated-IsLowest c t _
      (find_lowest_bit-IsLowest max_cspace_slots 0 (λ i. not (c.occupied_mask t i)))
