-- ===== src/Prelude/Store.antt =====
-- Arrays as functions of the index, and machine words that are used as bit sets.
use Prim.Native.Nat.{ℕ, zero, suc, ◌<◌}
use mathlib.Core.Path.{◌≡◌}
use mathlib.Core.Bool.{Bool, true, false}
use mathlib.Core.Logic.{inl, inr}
use mathlib.Core.Option.{Option, none, some}
use native.Mathlib.Omega.{arith}
use aurora_os.Prelude.Tests.{◌==◌, if◌then◌else◌, Bool-cases}

-- `f[i] = v`
abbrev pub update {ℓ} : {A : Type ℓ} → (ℕ → A) → ℕ → A → ℕ → A
update f i v j = if i == j then v else f j

-- `f[i] = v` at an index that may be -1. A write at -1 is out of bounds in the source; here it
-- changes nothing.
abbrev pub update? {ℓ} : {A : Type ℓ} → (ℕ → A) → Option ℕ → A → ℕ → A
update? f none v j = f j
update? f (some i) v j = if i == j then v else f j

-- A word as the function of its bits: `w | (1u << i)` is `update w i true`, and
-- `w & ~(1u << i)` is `update w i false`.
abbrev pub BitSet : Type 0
BitSet = ℕ → Bool

abbrev pub no_bits : BitSet
no_bits i = false

-- `Arch::find_highest_bit` on the bits below `n`; its -1 is `none`.
unfoldable pub find_highest_bit : ℕ → BitSet → Option ℕ
find_highest_bit zero w = none
find_highest_bit (suc n) w = let rest = find_highest_bit n w in if w n then some n else rest

-- `Arch::find_lowest_bit` on the `n` bits from `i` on; its -1 is `none`.
unfoldable pub find_lowest_bit : ℕ → ℕ → BitSet → Option ℕ
find_lowest_bit zero i w = none
find_lowest_bit (suc n) i w = let rest = find_lowest_bit n (suc i) w in if w i then some i else rest

pub find_highest_bit-some :
    (n : ℕ) (w : BitSet) (i : ℕ)
    → find_highest_bit n w ≡ some i
    → (i < n) × (w i ≡ true) × ((j : ℕ) → j < n → i < j → w j ≡ false)
unfolding find_highest_bit
find_highest_bit-some zero w i h = cc
find_highest_bit-some (suc n) w i h = elim (Bool-cases (w n)) [
  | inl on ↦ (ground arith, ground arith, λ j p q. absurd (ground arith))
  | inr off ↦
      let (a, b, c) = find_highest_bit-some n w i (ground arith) in
      (
        omega arith,
        b,
        λ j p q. elim (Bool-cases (j == n)) [
          | inl e ↦ ground arith
          | inr ne ↦ c j (ground arith) q
        ],
      )
]

pub find_highest_bit-none :
    (n : ℕ) (w : BitSet) (j : ℕ) → find_highest_bit n w ≡ none → j < n → w j ≡ false
unfolding find_highest_bit
find_highest_bit-none zero w j h p = absurd (omega arith)
find_highest_bit-none (suc n) w j h p = ground (arith, find_highest_bit-none n w j)
