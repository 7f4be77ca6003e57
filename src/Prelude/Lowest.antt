-- ===== src/Prelude/Lowest.antt =====
-- What the search for the lowest bit of a word finds.
use Prim.Native.Nat.{ℕ, zero, suc, ◌+◌, ◌≤◌, ◌<◌}
use mathlib.Core.Path.{◌≡◌}
use mathlib.Core.Logic.{inl, inr}
use mathlib.Core.Bool.{true, false}
use mathlib.Core.Option.{Option, none, some}
use native.Mathlib.Omega.{arith}
use aurora_os.Prelude.Tests.{◌==◌, Bool-cases}
use aurora_os.Prelude.Store.{BitSet, find_lowest_bit}

-- The lowest of the `n` bits from `i` on, or none is set.
abbrev pub IsLowest : BitSet → ℕ → ℕ → Option ℕ → Type 0
IsLowest w i n none = (j : ℕ) → i ≤ j → j < i + n → w j ≡ false
IsLowest w i n (some m) =
    (i ≤ m) × (m < i + n) × (w m ≡ true) × ((j : ℕ) → i ≤ j → j < m → w j ≡ false)

IsLowest-later :
    (w : BitSet) (i n : ℕ) (o : Option ℕ)
    → w i ≡ false
    → IsLowest w (suc i) n o
    → IsLowest w i (suc n) o
IsLowest-later w i n none off h = λ j p q. elim (Bool-cases (i == j)) [
  | inl e ↦ ground (arith, off)
  | inr ne ↦ h j (ground arith) (omega arith)
]
IsLowest-later w i n (some m) off h = (
  omega (arith, h.0),
  omega (arith, h.1),
  h.2,
  λ j p q. elim (Bool-cases (i == j)) [
    | inl e ↦ ground (arith, off)
    | inr ne ↦ h.3 j (ground arith) q
  ],
)

pub find_lowest_bit-IsLowest : (n i : ℕ) (w : BitSet) → IsLowest w i n (find_lowest_bit n i w)
unfolding find_lowest_bit
find_lowest_bit-IsLowest zero i w = λ j p q. absurd (omega arith)
find_lowest_bit-IsLowest (suc n) i w = elim (Bool-cases (w i)) [
  | inl on ↦ rw on (omega arith, omega arith, on, λ j p q. absurd (omega arith))
  | inr off ↦ rw off (IsLowest-later w i n _ off (find_lowest_bit-IsLowest n (suc i) w))
]
