-- ===== src/Kernel/Heap/Merge.antt =====
-- Two neighbouring blocks that are joined.
use aurora_os.Prelude.{
  ℕ, ◌+◌, ◌<◌, ◌≡◌, refl, ◌⊎◌, inl, inr, ◌∙◌, sym, ap, true, false, Option, none, some, holds, List,
  [], ◌∷◌, ◌==◌, if◌then◌else◌, arith, contains, is_nodup, erase, Bool-cases, ==_iff, ==_self,
}
use mathlib.Core.Path.{subst}
use aurora_os.Prelude.Store.{update, update?}
use aurora_os.Kernel.Heap.Links.{first, first-mem, Linked, in_tail, head-ne, Linked-erase, next-mem}
use aurora_os.Kernel.Heap.Tiles.{Span, Span-low, Span-frame}

-- The links to the two neighbours agree.
pub back_link :
    (next prev : ℕ → Option ℕ) (before : Option ℕ) (l : List ℕ) (x y : ℕ)
    → Linked next prev before l
    → contains x l ≡ true
    → next x ≡ some y
    → prev y ≡ some x
back_link next prev before [] x y v h e = absurd (ground arith)
back_link next prev before (z ∷ []) x y v h e = absurd (ground (arith, v.1))
back_link next prev before (z ∷ w ∷ l) x y v h e = elim (Bool-cases (z == x)) [
  | inl this ↦ ground (arith, v.1, v.2.0)
  | inr that ↦ back_link next prev (some z) (w ∷ l) x y v.2 (ground arith) e
]

pub fore_link :
    (next prev : ℕ → Option ℕ) (before : Option ℕ) (l : List ℕ) (x y : ℕ)
    → Linked next prev before l
    → contains y l ≡ true
    → prev y ≡ some x
    → ((before ≡ some x) × (first l ≡ some y)) ⊎ ((contains x l ≡ true) × (next x ≡ some y))
fore_link next prev before [] x y v h e = absurd (ground arith)
fore_link next prev before (z ∷ l) x y v h e = elim (Bool-cases (z == y)) [
  | inl this ↦ inl (ground (arith, v.0), ground arith)
  | inr that ↦ elim (fore_link next prev (some z) l x y v.2 (ground arith) e) [
    | inl (a, b) ↦ inr (ground arith, ground (arith, v.1))
    | inr (a, b) ↦ inr (in_tail z x l a, b)
  ]
]

pub next-ne :
    (next prev : ℕ → Option ℕ) (before : Option ℕ) (l : List ℕ) (x y : ℕ)
    → Linked next prev before l
    → is_nodup l ≡ true
    → contains x l ≡ true
    → next x ≡ some y
    → x == y ≡ false
next-ne next prev before [] x y v d h e = absurd (ground arith)
next-ne next prev before (z ∷ l) x y v d h e = elim (Bool-cases (z == x)) [
  | inl this ↦
      let same = (==_iff z x).0 this in
      let inside = first-mem l y (sym v.1 ∙ ap next same ∙ e) in
      ap (λ i. i == y) (sym same) ∙ head-ne z y l d inside
  | inr that ↦ next-ne next prev (some z) l x y v.2 (ground arith) (ground arith) e
]

-- A block ends where the next one starts.
pub Span-adjacent :
    (size : ℕ → ℕ) (next prev : ℕ → Option ℕ) (before : Option ℕ) (l : List ℕ) (a e x y : ℕ)
    → Linked next prev before l
    → Span size l a e
    → contains x l ≡ true
    → next x ≡ some y
    → x + size x ≡ y
Span-adjacent size next prev before [] a e x y c v k n = absurd (ground arith)
Span-adjacent size next prev before (z ∷ []) a e x y c v k n = absurd (ground (arith, c.1))
Span-adjacent size next prev before (z ∷ w ∷ l) a e x y c v k n = elim (Bool-cases (z == x)) [
  | inl this ↦
      let same = (==_iff z x).0 this in
      let ahead : w ≡ y = ground (arith, c.1) in
      omega (arith, sym (ap (λ i. i + size i) same), v.0, v.3.0, ahead)
  | inr that ↦
      Span-adjacent size next prev (some z) (w ∷ l) (a + size z) e x y c.2 v.3 (ground arith) n
]

-- The first block has none before it.
pub not_first :
    (next prev : ℕ → Option ℕ) (l : List ℕ) (x y : ℕ)
    → Linked next prev none l
    → prev y ≡ some x
    → holds (first l) y ≡ false
not_first next prev [] x y v e = refl
not_first next prev (z ∷ l) x y v e = ground (arith, v.0)

module _ (size : ℕ → ℕ) (next prev : ℕ → Option ℕ) (x y : ℕ) where
  abbrev pub joined : ℕ → ℕ
  joined = update size x (size x + size y)

  pub joined_here : joined x ≡ size x + size y
  joined_here = ap (λ b. if b then size x + size y else size x) (==_self x)

  pub joined_other : (j : ℕ) → x == j ≡ false → joined j ≡ size j
  joined_other j h = ap (λ b. if b then size x + size y else size j) h

  apart : (i j : ℕ) → i < j → i == j ≡ false
  apart i j h = ground arith

  turned : (i j : ℕ) → i == j ≡ false → j == i ≡ false
  turned i j h = ground arith

  -- `z` is `x` and stands first, `w` is `y` and stands behind it.
  at_head :
      (z w : ℕ) (l : List ℕ) (a e : ℕ)
      → z ≡ x
      → w ≡ y
      → Span size (z ∷ w ∷ l) a e
      → Span joined (z ∷ l) a e
  at_head z w l a e ex ey v =
      let here : joined z ≡ size z + size w =
        ap joined ex
        ∙ joined_here
        ∙ sym (ap (λ n. n + size w) (ap size ex) ∙ ap (λ n. size x + n) (ap size ey)) in
      (
        v.0,
        omega (arith, here, v.1),
        omega (arith, here, v.2, v.3.2),
        Span-frame size joined l (a + joined z) e
            (λ j k.
              let low = Span-low size l (a + size z + size w) e j v.3.3 k in
              joined_other j (apart x j (omega (arith, low, ex, v.0, v.1))))
            (subst (λ n. Span size l n e) (omega (arith, here)) v.3.3),
      )

  head_join :
      (z : ℕ) (l : List ℕ) (a e : ℕ)
      → z ≡ x
      → first l ≡ some y
      → is_nodup (z ∷ l) ≡ true
      → Span size (z ∷ l) a e
      → Span joined (erase (z ∷ l) y) a e
  head_join z [] a e ex f d v = absurd cc
  head_join z (w ∷ l) a e ex f d v =
      let ey : w ≡ y = ground (arith, f) in
      let this : w == y ≡ true = ground (arith, ey) in
      let that : z == y ≡ false = ground (arith, ey, head-ne z w (w ∷ l) d (ground arith)) in
      rw (that, this) (at_head z w l a e ex ey v)

  pub Span-join :
      (before : Option ℕ) (l : List ℕ) (a e : ℕ)
      → Linked next prev before l
      → Span size l a e
      → is_nodup l ≡ true
      → contains x l ≡ true
      → next x ≡ some y
      → Span joined (erase l y) a e
  Span-join before [] a e c v d h n = absurd (ground arith)
  Span-join before (z ∷ l) a e c v d h n = elim (Bool-cases (z == x)) [
    | inl this ↦
        head_join z l a e ((==_iff z x).0 this) (sym c.1 ∙ ap next ((==_iff z x).0 this) ∙ n) d v
    | inr that ↦
        let inside : contains x l ≡ true = ground arith in
        let out : z == y ≡ false =
          head-ne z y l d (next-mem next prev (some z) l x y c.2 inside n) in
        let eq = joined_other z (turned z x that) in
        rw (out, eq)
          (v.0, v.1, v.2, Span-join (some z) l (a + size z) e c.2 v.3 (ground arith) inside n)
  ]

  pub chain_join :
      (l : List ℕ)
      → Linked next prev none l
      → is_nodup l ≡ true
      → contains y l ≡ true
      → prev y ≡ some x
      → Linked (update next x (next y)) (update? prev (next y) (some x)) none (erase l y)
  chain_join l c d h e =
      subst (λ o. Linked (update? next o (next y)) (update? prev (next y) o) none (erase l y)) e
        (Linked-erase next prev y none l c d h (λ z k. cc)).0

  pub first_join :
      (l : List ℕ)
      → Linked next prev none l
      → is_nodup l ≡ true
      → contains y l ≡ true
      → prev y ≡ some x
      → first (erase l y) ≡ first l
  first_join l c d h e =
      (Linked-erase next prev y none l c d h (λ z k. cc)).1
      ∙ ap (λ b. if b then next y else first l) (not_first next prev l x y c e)
