-- ===== src/Kernel/Dispatch/Pick.antt =====
-- The first loop of `schedule` finds the highest priority that is allowed and in use.
use aurora_os.Prelude.{
  ℕ, zero, suc, ◌≤◌, ◌<◌, ◌≡◌, inl, inr, Bool, true, false, Option, none, some, ◌==◌, if◌then◌else◌,
  arith, Bool-cases, Option-cases,
}
use aurora_os.Prelude.Store.{
  update, BitSet, find_highest_bit, find_highest_bit-some, find_highest_bit-none,
}
use aurora_os.Kernel.Ready.{num_priorities}
use aurora_os.Kernel.Dispatch.{pick}

-- `r` is the highest of the bits of `mask` that are allowed, or none is.
abbrev pub IsHighest : (ℕ → Bool) → BitSet → Option ℕ → Type 0
IsHighest allowed mask none = (p : ℕ) → p < num_priorities → mask p ≡ true → allowed p ≡ false
IsHighest allowed mask (some p) =
    (p < num_priorities)
    × (mask p ≡ true)
    × (allowed p ≡ true)
    × ((p' : ℕ) → p < p' → p' < num_priorities → mask p' ≡ true → allowed p' ≡ false)

-- Clearing a bit that is not allowed changes nothing.
IsHighest-clear :
    (allowed : ℕ → Bool) (mask : BitSet) (p : ℕ) (r : Option ℕ)
    → allowed p ≡ false
    → IsHighest allowed (update mask p false) r
    → IsHighest allowed mask r
IsHighest-clear allowed mask p none off h = λ p' lt on. elim (Bool-cases (p == p')) [
  | inl same ↦ ground arith
  | inr other ↦ h p' lt (ground arith)
]
IsHighest-clear allowed mask p (some b) off h = (
  h.0,
  ground (arith, h.1),
  h.2,
  λ p' above lt on. elim (Bool-cases (p == p')) [
    | inl same ↦ ground arith
    | inr other ↦ h.3 p' above lt (ground arith)
  ],
)

-- The loop ends with the highest allowed bit, or shows that there is none, whenever no bit from the
-- fuel on is set.
pub pick-IsHighest :
    (fuel : ℕ) (allowed : ℕ → Bool) (mask : BitSet)
    → ((p : ℕ) → fuel ≤ p → p < num_priorities → mask p ≡ false)
    → IsHighest allowed mask (pick fuel allowed mask)
unfolding pick
pick-IsHighest zero allowed mask clear = λ p h on. absurd (ground (arith, clear p))
pick-IsHighest (suc fuel) allowed mask clear =
    elim (Option-cases (find_highest_bit num_priorities mask)) [
      | inl e ↦
          rw (e, pick)
            (λ p h on. absurd (ground (arith, find_highest_bit-none num_priorities mask p e h)))
      | inr (p, e) ↦
          let top = find_highest_bit-some num_priorities mask p e in
          rw (e, pick)
            (found p top (
              pick-IsHighest fuel allowed (update mask p false)
                (λ p' ge lt. ground (arith, clear p, top.2 p' lt))))
    ]
  where
    found :
        (p : ℕ)
        → (p < num_priorities)
          × (mask p ≡ true)
          × ((j : ℕ) → j < num_priorities → p < j → mask j ≡ false)
        → IsHighest allowed (update mask p false) (pick fuel allowed (update mask p false))
        → IsHighest allowed mask
            (if allowed p then some p else pick fuel allowed (update mask p false))
    found p top ih = elim (Bool-cases (allowed p)) [
      | inl on ↦
          rw on (top.0, top.1, on, λ p' above lt set. absurd (ground (arith, top.2 p' lt above)))
      | inr off ↦
          rw off (IsHighest-clear allowed mask p (pick fuel allowed (update mask p false)) off ih)
    ]
