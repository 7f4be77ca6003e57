-- ===== src/Prelude/Lists.antt =====
-- Lists measured and indexed by native numbers, under the library's names, and lists of indices
-- with a Boolean membership test.
use Prim.Native.Nat.{ℕ, zero, suc, ◌+◌}
use mathlib.Core.Path.{◌≡◌, refl}
use mathlib.Core.Logic.{inl, inr}
use mathlib.Core.Bool.{Bool, true, false, ◌||◌, ◌&&◌, not}
use mathlib.Core.List.{List, [], ◌∷◌, ◌++◌}
use mathlib.Core.Option.{Option, none, some}
use native.Mathlib.Omega.{arith}
use aurora_os.Prelude.Tests.{◌==◌, if◌then◌else◌, Bool-cases}

module _ {ℓ} {A : Type ℓ} where
  abbrev pub length : List A → ℕ
  length [] = 0
  length (x ∷ xs) = suc (length xs)

  abbrev pub get_elem? : List A → ℕ → Option A
  get_elem? [] i = none
  get_elem? (x ∷ xs) zero = some x
  get_elem? (x ∷ xs) (suc i) = get_elem? xs i

  abbrev pub is_empty : List A → Bool
  is_empty [] = true
  is_empty (x ∷ xs) = false

  pub length-append : (xs ys : List A) → length (xs ++ ys) ≡ length xs + length ys
  length-append [] ys = omega arith
  length-append (x ∷ xs) ys = omega (arith, length-append xs ys)

-- Membership of a list of indices, as a test.
abbrev pub contains : ℕ → List ℕ → Bool
contains i [] = false
contains i (x ∷ xs) = (x == i) || contains i xs

-- No index occurs twice.
abbrev pub is_nodup : List ℕ → Bool
is_nodup [] = true
is_nodup (x ∷ xs) = not (contains x xs) && is_nodup xs

-- The list without the first occurrence of an index.
abbrev pub erase : List ℕ → ℕ → List ℕ
erase [] i = []
erase (x ∷ xs) i = if x == i then xs else x ∷ erase xs i

pub contains-append :
    (i : ℕ) (xs ys : List ℕ) → contains i (xs ++ ys) ≡ (contains i xs || contains i ys)
contains-append i [] ys = refl
contains-append i (x ∷ xs) ys = ground (arith, contains-append i xs ys)

pub is_nodup-append :
    (xs : List ℕ) (i : ℕ)
    → is_nodup xs ≡ true
    → contains i xs ≡ false
    → is_nodup (xs ++ i ∷ []) ≡ true
is_nodup-append [] i h k = refl
is_nodup-append (x ∷ xs) i h k = ground (arith, is_nodup-append xs i, contains-append x xs (i ∷ []))

pub contains-erase :
    (i j : ℕ) (xs : List ℕ)
    → is_nodup xs ≡ true
    → contains j (erase xs i) ≡ (contains j xs && not (j == i))
contains-erase i j [] h = refl
contains-erase i j (x ∷ xs) h = ground (arith, contains-erase i j xs)

pub is_nodup-erase : (i : ℕ) (xs : List ℕ) → is_nodup xs ≡ true → is_nodup (erase xs i) ≡ true
is_nodup-erase i [] h = refl
is_nodup-erase i (x ∷ xs) h = ground (arith, is_nodup-erase i xs, contains-erase i x xs)

pub erase_of_not-contains : (i : ℕ) (xs : List ℕ) → contains i xs ≡ false → erase xs i ≡ xs
erase_of_not-contains i [] h = refl
erase_of_not-contains i (x ∷ xs) h = ground (arith, erase_of_not-contains i xs)

-- The two parts of a list without repetition have no index in common.
pub disjoint_of_nodup :
    (j : ℕ) (xs ys : List ℕ)
    → is_nodup (xs ++ ys) ≡ true
    → contains j xs ≡ true
    → contains j ys ≡ false
disjoint_of_nodup j [] ys h k = absurd (ground arith)
disjoint_of_nodup j (x ∷ xs) ys h k =
    ground (arith, disjoint_of_nodup j xs ys, contains-append j xs ys)

pub is_nodup_right : (xs ys : List ℕ) → is_nodup (xs ++ ys) ≡ true → is_nodup ys ≡ true
is_nodup_right [] ys h = h
is_nodup_right (x ∷ xs) ys h = is_nodup_right xs ys (ground arith)

pub is_nodup_left : (xs ys : List ℕ) → is_nodup (xs ++ ys) ≡ true → is_nodup xs ≡ true
is_nodup_left [] ys h = refl
is_nodup_left (x ∷ xs) ys h = ground (arith, is_nodup_left xs ys, contains-append x xs ys)

-- Where an index first occurs.
pub split_at :
    (i : ℕ) (xs : List ℕ)
    → contains i xs ≡ true
    → (a : List ℕ) × (b : List ℕ) × (xs ≡ a ++ i ∷ b)
      × (erase xs i ≡ a ++ b)
      × (contains i a ≡ false)
split_at i [] h = absurd (ground arith)
split_at i (x ∷ xs) h = elim (Bool-cases (x == i)) [
  | inl hit ↦ ([], xs, ground arith, ground arith, refl)
  | inr miss ↦
      let (a, b, e, f, g) = split_at i xs (ground arith) in
      (x ∷ a, b, ground arith, ground arith, ground arith)
]
