-- ===== src/Kernel/Heap/Classes.antt =====
-- The two-level classes: a block of the class that `mapping_search` gives, or of a higher one, is
-- large enough.
use aurora_os.Prelude.{
  ℕ, zero, suc, ◌+◌, ◌-◌, ◌*◌, ◌/◌, ◌≤◌, ◌<◌, ◌≡◌, refl, ◌⊎◌, inl, inr, ◌∙◌, ap, sym, ltb, leb,
  arith, Bool-cases,
}
use native.Mathlib.Nat.{mod-eq_of_lt}
use aurora_os.Kernel.Heap.{pow2, highest, mapping_insert, mapping_search, round_up}

pub pow2-pos : (k : ℕ) → 0 < pow2 k
unfolding pow2
pow2-pos zero = omega arith
pow2-pos (suc k) = omega (arith, pow2-pos k)

-- The power of two that `highest` finds.
pub highest-bounds :
    (f n : ℕ) → 0 < n → n < pow2 f → (pow2 (highest f n) ≤ n) × (n < 2 * pow2 (highest f n))
unfolding highest pow2
highest-bounds zero n p h = (omega arith, omega arith)
highest-bounds (suc f) n p h = elim (Bool-cases (ltb n 2)) [
  | inl small ↦ rw small (ground arith)
  | inr large ↦ rw large (
      let (a, b) = highest-bounds f (n / 2) (ground arith) (ground arith) in
      (omega (arith, a), omega (arith, b)))
]

pub pow2_mono : (i j : ℕ) → i ≤ j → pow2 i ≤ pow2 j
unfolding pow2
pow2_mono zero j h = omega (arith, pow2-pos j)
pow2_mono (suc i) zero h = absurd (omega arith)
pow2_mono (suc i) (suc j) h = omega (arith, pow2_mono i j (omega arith))

-- A size in its class: `m` is the exponent, `u` the width of the classes of the second level, and
-- `t` the place of the size among them.
pub record InClass (n m u t : ℕ) : Type 0 where
  pub exponent : highest 32 n ≡ m
  pub width : u ≡ pow2 (m - 4)
  pub power : pow2 m ≡ 16 * u
  pub least : 5 ≤ m
  pub place : (n - pow2 m) / u ≡ t
  pub from : 16 * u + t * u ≤ n
  pub to : n < 16 * u + t * u + u
  pub below : n < 32 * u
  pub few : t < 16

pow2_four : (k : ℕ) → pow2 (suc (suc (suc (suc k)))) ≡ 16 * pow2 k
unfolding pow2
pow2_four k = omega arith

pow2_above : (m : ℕ) → 4 ≤ m → pow2 m ≡ 16 * pow2 (m - 4)
pow2_above m h =
    let e : m ≡ suc (suc (suc (suc (m - 4)))) = omega arith in ap pow2 e ∙ pow2_four (m - 4)

div_place : (a u : ℕ) → 0 < u → (a / u * u ≤ a) × (a < a / u * u + u)
div_place a u p = grind arith

place_few : (a u t : ℕ) → t * u ≤ a → a < 16 * u → t < 16
place_few a u t h k = grind arith

exponent_least : (n m : ℕ) → 32 ≤ n → n < 2 * pow2 m → 5 ≤ m
exponent_least n m h k = elim (Bool-cases (leb 5 m)) [
  | inl ok ↦ ground arith
  | inr bad ↦ absurd (omega (arith, pow2_mono m 4 (ground arith), pow2_four 0, pow2-one))
]
  where
    pow2-one : pow2 0 ≡ 1
    pow2-one = unfold pow2 in refl

pub size-InClass :
    (n : ℕ)
    → 32 ≤ n
    → n < 4294967296
    → let m = highest 32 n in InClass n m (pow2 (m - 4)) ((n - pow2 m) / pow2 (m - 4))
size-InClass n h k =
    let m = highest 32 n in
    let (low, high) = highest-bounds 32 n (omega arith) (unfold pow2 in k) in
    let least = exponent_least n m h high in
    let power = pow2_above m (omega (arith, least)) in
    let u = pow2 (m - 4) in
    let (down, up) = div_place (n - pow2 m) u (pow2-pos (m - 4)) in
    record {
      exponent = refl;
      width = refl;
      power = power;
      least = least;
      place = refl;
      from = omega (arith, power, low, down);
      to = omega (arith, power, low, up);
      below = omega (arith, power, high);
      few = place_few (n - pow2 m) u ((n - pow2 m) / u) down (omega (arith, power, low, high));
    }

-- The order in which the search goes through the classes.
abbrev pub AtLeast : ℕ × ℕ → ℕ × ℕ → Type 0
AtLeast (f, s) (f', s') = (f < f') ⊎ ((f ≡ f') × (s ≤ s'))

-- The largest size whose class the tables tell from those of larger sizes is below this.
abbrev pub large : ℕ
large = 33554432

exponent_small : (n : ℕ) → pow2 (highest 32 n) ≤ n → n < large → highest 32 n < 25
exponent_small n h k = elim (Bool-cases (ltb (highest 32 n) 25)) [
  | inl ok ↦ ground arith
  | inr bad ↦ absurd (omega (arith, pow2_mono 25 (highest 32 n) (ground arith), top))
]
  where
    top : pow2 25 ≡ large
    top = unfold pow2 in refl

pub class_lem :
    (n : ℕ)
    → 32 ≤ n
    → n < large
    → let m = highest 32 n in (mapping_insert n ≡ (m - 5, (n - pow2 m) / pow2 (m - 4))) × (m < 25)
unfolding mapping_insert
class_lem n h k =
    let c = size-InClass n h (omega arith) in
    let small =
      exponent_small n (highest-bounds 32 n (omega arith) (unfold pow2 in (omega arith))).0 k in
    (ground (arith, c.few, small, c.least), small)

-- Sizes of the same exponent are told apart by their place.
even_exponents : (i j : ℕ) → j ≤ i → ((j < i) → ⊥) → i ≡ j
even_exponents i j h k = elim (Bool-cases (ltb j i)) [
  | inl lt ↦ absurd (k (ground arith))
  | inr ge ↦ ground arith
]

pow2_double : (i j : ℕ) → i < j → 2 * pow2 i ≤ pow2 j
unfolding pow2
pow2_double i j h = pow2_mono (suc i) j h

abbrev unit : ℕ → ℕ
unit n = pow2 (highest 32 n - 4)

same_exponent : (t t' u : ℕ) → t ≤ t' → t * u ≤ t' * u
same_exponent t t' u h = grind arith

-- At one exponent the rounding makes up for the width of a class.
level_fits :
    (n r b u u' u'' t t' : ℕ)
    → u' ≡ u
    → u'' ≡ u
    → r ≡ n + (u' - 1)
    → 0 < u
    → r < 16 * u + t * u + u
    → t ≤ t'
    → 16 * u'' + t' * u'' ≤ b
    → n ≤ b
level_fits n r b u u' u'' t t' e e' h p k le from =
    omega (arith, e, h, p, k, same_exponent t t' u le, (rw e' at from))

fits_small :
    (n b : ℕ)
    → 32 ≤ n
    → round_up n < large
    → 32 ≤ b
    → b < large
    → AtLeast (mapping_insert (round_up n)) (mapping_insert b)
    → n ≤ b
fits_small n b hn hr hb hl above = elim ordered [
  | inl lower ↦ omega (
    arith,
    r.from,
    r.below,
    r.power,
    q.from,
    q.power,
    pow2_double (highest 32 r') (highest 32 b) lower,
    up,
  )
  | inr (same, le) ↦ elim (Bool-cases (ltb (highest 32 n) (highest 32 r'))) [
    | inl carried ↦ omega (
      arith,
      c.from,
      c.below,
      c.power,
      q.from,
      q.power,
      pow2_double (highest 32 n) (highest 32 r') (ground arith),
      ap pow2 same,
    )
    | inr level ↦
        let even : highest 32 n ≡ highest 32 r' =
          even_exponents (highest 32 n) (highest 32 r') (ground arith) (λ lt. omega (
            arith,
            r.below,
            r.power,
            c.from,
            c.power,
            up,
            pow2_double (highest 32 r') (highest 32 n) lt,
          )) in
        level_fits n r' b (unit r') (unit n) (unit b) ((r' - pow2 (highest 32 r')) / unit r')
          ((b - pow2 (highest 32 b)) / unit b) (ap (λ m. pow2 (m - 4)) even)
          (ap (λ m. pow2 (m - 4)) (sym same)) (ground arith) (pow2-pos (highest 32 r' - 4)) r.to le
          q.from
  ]
]
  where
    r' : ℕ
    r' = round_up n

    up : n ≤ r'
    up = ground arith

    bound : r' < large
    bound = hr

    c : InClass n (highest 32 n) (unit n) ((n - pow2 (highest 32 n)) / unit n)
    c = size-InClass n hn (omega (arith, up, bound))

    r : InClass r' (highest 32 r') (unit r') ((r' - pow2 (highest 32 r')) / unit r')
    r = size-InClass r' (omega (arith, up)) (omega (arith, bound))

    q : InClass b (highest 32 b) (unit b) ((b - pow2 (highest 32 b)) / unit b)
    q = size-InClass b hb (omega arith)

    ordered :
        (highest 32 r' < highest 32 b)
        ⊎ ((highest 32 r' ≡ highest 32 b)
            × ((r' - pow2 (highest 32 r')) / unit r' ≤ (b - pow2 (highest 32 b)) / unit b))
    ordered =
        ground
          (arith, above, class_lem r' (omega (arith, up)) hr, class_lem b hb hl, r.least, q.least)

-- A block of 32 bytes or more, below 2 ^ 32, whose class is that which `mapping_search` gives for a
-- size of 32 or more, or a later one, has at least that size, if the size rounded up is below
-- 2 ^ 25.
pub mapping_search-fits :
    (n b : ℕ)
    → 32 ≤ n
    → round_up n < large
    → 32 ≤ b
    → b < 4294967296
    → AtLeast (mapping_search n) (mapping_insert b)
    → n ≤ b
unfolding mapping_search
mapping_search-fits n b hn hr hb hl above = elim (Bool-cases (ltb b large)) [
  | inl ok ↦
      fits_small n b hn hr hb (ground arith)
        (rw (mod-eq_of_lt {n = round_up n} {m = 4294967296} (omega (arith, hr))) at above)
  | inr big ↦ ground arith
]
