-- ===== src/Prelude/Pigeonhole.antt =====
-- A list of different numbers below a bound is no longer than the bound.
use Prim.Native.Nat.{ℕ, zero, suc, ◌≤◌, ◌<◌}
use mathlib.Core.Path.{◌≡◌}
use mathlib.Core.Bool.{true}
use mathlib.Core.List.{List, [], ◌∷◌}
use native.Mathlib.Omega.{arith}
use aurora_os.Prelude.Lists.{length, contains, is_nodup, erase, contains-erase, is_nodup-erase}

length-erase : (n : ℕ) (l : List ℕ) → length l ≤ suc (length (erase l n))
length-erase n [] = omega arith
length-erase n (x ∷ l) = ground (arith, length-erase n l)

pub length_of_nodup :
    (n : ℕ) (l : List ℕ)
    → is_nodup l ≡ true
    → ((j : ℕ) → contains j l ≡ true → j < n)
    → length l ≤ n
length_of_nodup zero [] d h = omega arith
length_of_nodup zero (x ∷ l) d h = absurd (ground (arith, h x))
length_of_nodup (suc n) l d h = omega (
  arith,
  length-erase n l,
  length_of_nodup n (erase l n) (is_nodup-erase n l d)
      (λ j k. ground (arith, contains-erase n j l d, h j)),
)
