-- ===== src/Kernel/Ready/Ring.antt =====
-- Circular doubly linked lists through arrays of next and previous indices.
use aurora_os.Prelude.{ℕ, ◌≡◌, true, Option, some, List, [], ◌∷◌, ◌++◌, arith, contains}

-- From `x` the next links lead through `l` to `z`, and the previous links lead back.
abbrev pub Seg : (ℕ → Option ℕ) → (ℕ → Option ℕ) → ℕ → List ℕ → ℕ → Type 0
Seg next prev x [] z = (next x ≡ some z) × (prev z ≡ some x)
Seg next prev x (y ∷ l) z = (next x ≡ some y) × (prev y ≡ some x) × Seg next prev y l z

-- The last of `x ∷ l`.
abbrev pub last : ℕ → List ℕ → ℕ
last x [] = x
last x (y ∷ l) = last y l

-- The first of `l ++ z ∷ []`.
abbrev pub first : List ℕ → ℕ → ℕ
first [] z = z
first (y ∷ l) z = y

pub Seg-prev :
    (next prev : ℕ → Option ℕ) (x : ℕ) (l : List ℕ) (z : ℕ)
    → Seg next prev x l z
    → prev z ≡ some (last x l)
Seg-prev next prev x [] z s = s.1
Seg-prev next prev x (y ∷ l) z s = Seg-prev next prev y l z s.2

pub Seg-next :
    (next prev : ℕ → Option ℕ) (x : ℕ) (l : List ℕ) (z : ℕ)
    → Seg next prev x l z
    → next x ≡ some (first l z)
Seg-next next prev x [] z s = s.0
Seg-next next prev x (y ∷ l) z s = s.0

pub Seg-split :
    (next prev : ℕ → Option ℕ) (x : ℕ) (a : List ℕ) (i : ℕ) (b : List ℕ) (z : ℕ)
    → Seg next prev x (a ++ i ∷ b) z
    → Seg next prev x a i × Seg next prev i b z
Seg-split next prev x [] i b z s = ((s.0, s.1), s.2)
Seg-split next prev x (y ∷ a) i b z s =
    let (l, r) = Seg-split next prev y a i b z s.2 in ((s.0, s.1, l), r)

pub Seg-join :
    (next prev : ℕ → Option ℕ) (x : ℕ) (a : List ℕ) (i : ℕ) (b : List ℕ) (z : ℕ)
    → Seg next prev x a i
    → Seg next prev i b z
    → Seg next prev x (a ++ i ∷ b) z
Seg-join next prev x [] i b z l r = (l.0, l.1, r)
Seg-join next prev x (y ∷ a) i b z l r = (l.0, l.1, Seg-join next prev y a i b z l.2 r)

-- A segment reads the next links of `x ∷ l` and the previous links of `l` and `z` only.
pub Seg-frame :
    (next prev next' prev' : ℕ → Option ℕ) (x : ℕ) (l : List ℕ) (z : ℕ)
    → ((j : ℕ) → contains j (x ∷ l) ≡ true → next' j ≡ next j)
    → ((j : ℕ) → contains j (l ++ z ∷ []) ≡ true → prev' j ≡ prev j)
    → Seg next prev x l z
    → Seg next' prev' x l z
Seg-frame next prev next' prev' x [] z hn hp s = (ground (arith, hn x), ground (arith, hp z))
Seg-frame next prev next' prev' x (y ∷ l) z hn hp s = (
  ground (arith, hn x),
  ground (arith, hp y),
  Seg-frame next prev next' prev' y l z (λ j h. hn j (ground arith)) (λ j h. hp j (ground arith))
      s.2,
)
