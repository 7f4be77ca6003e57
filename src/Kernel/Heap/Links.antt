-- ===== src/Kernel/Heap/Links.antt =====
-- Doubly linked lists without a ring: the free lists of the heap.
use aurora_os.Prelude.{
  ℕ, ◌≡◌, ◌⊎◌, refl, inl, inr, ◌∙◌, sym, ap, true, false, Option, none, some, holds, List, [], ◌∷◌,
  ◌==◌, if◌then◌else◌, arith, contains, is_nodup, erase, Bool-cases, ==_self,
}
use mathlib.Core.Path.{subst}
use aurora_os.Prelude.Store.{update, update?}

abbrev pub first : List ℕ → Option ℕ
first [] = none
first (x ∷ l) = some x

-- The links lead through the list, after `before`.
abbrev pub Linked : (ℕ → Option ℕ) → (ℕ → Option ℕ) → Option ℕ → List ℕ → Type 0
Linked next prev before [] = Unit {0}
Linked next prev before (x ∷ l) =
    (prev x ≡ before) × (next x ≡ first l) × Linked next prev (some x) l

pub Linked-frame :
    (next next' prev prev' : ℕ → Option ℕ) (before : Option ℕ) (l : List ℕ)
    → ((j : ℕ) → contains j l ≡ true → (next' j ≡ next j) × (prev' j ≡ prev j))
    → Linked next prev before l
    → Linked next' prev' before l
Linked-frame next next' prev prev' before [] same v = tt
Linked-frame next next' prev prev' before (x ∷ l) same v = (
  (same x (ground arith)).1 ∙ v.0,
  (same x (ground arith)).0 ∙ v.1,
  Linked-frame next next' prev prev' (some x) l (λ j h. same j (ground arith)) v.2,
)

pub in_tail : (x j : ℕ) (l : List ℕ) → contains j l ≡ true → contains j (x ∷ l) ≡ true
in_tail x j l h = ground arith

pub head-ne :
    (x j : ℕ) (l : List ℕ) → is_nodup (x ∷ l) ≡ true → contains j l ≡ true → x == j ≡ false
head-ne x j l d h = ground arith

-- Another element before the list, which only its first element sees.
pub Linked-before :
    (next next' prev prev' : ℕ → Option ℕ) (before before' : Option ℕ) (l : List ℕ)
    → ((j : ℕ) → contains j l ≡ true → next' j ≡ next j)
    → ((j : ℕ) → contains j l ≡ true → prev' j ≡ (if holds (first l) j then before' else prev j))
    → is_nodup l ≡ true
    → Linked next prev before l
    → Linked next' prev' before' l
Linked-before next next' prev prev' before before' [] sn sp d v = tt
Linked-before next next' prev prev' before before' (x ∷ l) sn sp d v = (
  ground (arith, sp x),
  ground (arith, sn x, v.1),
  Linked-frame next next' prev prev' (some x) l
      (λ j h. (
        sn j (in_tail x j l h),
        sp j (in_tail x j l h) ∙ ap (λ b. if b then before' else prev j) (head-ne x j l d h),
      ))
      v.2,
)

push_first :
    (next prev : ℕ → Option ℕ) (b : ℕ) (l : List ℕ)
    → is_nodup l ≡ true
    → contains b l ≡ false
    → Linked next prev none l
    → Linked
        (update next b (first l))
        (update? (update prev b none) (first l) (some b))
        none
        (b ∷ l)
push_first next prev b [] d out v = (ground arith, ground arith, tt)
push_first next prev b (y ∷ l) d out v = (
  ground arith,
  ground arith,
  Linked-before next _ prev _ none (some b) (y ∷ l) (λ j h. ground arith) (λ j h. ground arith) d v,
)

-- A new first element, where `o` is the old one.
pub Linked-push :
    (next prev : ℕ → Option ℕ) (b : ℕ) (l : List ℕ) (o : Option ℕ)
    → o ≡ first l
    → is_nodup l ≡ true
    → contains b l ≡ false
    → Linked next prev none l
    → Linked (update next b o) (update? (update prev b none) o (some b)) none (b ∷ l)
Linked-push next prev b l o e d out v =
    subst (λ o. Linked (update next b o) (update? (update prev b none) o (some b)) none (b ∷ l))
      (sym e) (push_first next prev b l d out v)

pub first-mem : (l : List ℕ) (y : ℕ) → first l ≡ some y → contains y l ≡ true
first-mem [] y e = cc
first-mem (x ∷ l) y e = ground arith

-- What the links of an element lead to.
pub next-mem :
    (next prev : ℕ → Option ℕ) (before : Option ℕ) (l : List ℕ) (t y : ℕ)
    → Linked next prev before l
    → contains t l ≡ true
    → next t ≡ some y
    → contains y l ≡ true
next-mem next prev before [] t y v h e = absurd (ground arith)
next-mem next prev before (x ∷ []) t y v h e = absurd (ground (arith, v.1))
next-mem next prev before (x ∷ z ∷ l) t y v h e =
    ground (arith, v.1, next-mem next prev (some x) (z ∷ l) t y v.2)

-- The element before `t`: that before the list, if `t` is first, or one of the list.
pub prev-mem :
    (next prev : ℕ → Option ℕ) (before : Option ℕ) (l : List ℕ) (t : ℕ)
    → Linked next prev before l
    → contains t l ≡ true
    → is_nodup l ≡ true
    → ((prev t ≡ before) × (first l ≡ some t))
      ⊎ ((z : ℕ) × (prev t ≡ some z) × (contains z l ≡ true) × (holds (first l) t ≡ false))
prev-mem next prev before [] t v h d = absurd (ground arith)
prev-mem next prev before (x ∷ l) t v h d = elim (Bool-cases (x == t)) [
  | inl this ↦ inl (ground (arith, v.0), ground arith)
  | inr that ↦ inr (elim (prev-mem next prev (some x) l t v.2 (ground arith) (ground arith)) [
    | inl (e, f) ↦ (x, e, ground arith, ground arith)
    | inr (z, e, k, m) ↦ (z, e, ground arith, ground arith)
  ])
]

-- `t` taken out by its own links.
module _ (next prev : ℕ → Option ℕ) (t : ℕ) where
  abbrev pub next_without : ℕ → Option ℕ
  next_without = update? next (prev t) (next t)

  abbrev pub prev_without : ℕ → Option ℕ
  prev_without = update? prev (next t) (prev t)

  -- The links of an element whose neighbours do not include `t`.
  pub next_kept : (j : ℕ) (o : Option ℕ) → prev t ≡ o → holds o j ≡ false → next_without j ≡ next j
  next_kept j none e h = rw e refl
  next_kept j (some z) e h = rw e (ground arith)

  pub prev_kept : (j : ℕ) (o : Option ℕ) → next t ≡ o → holds o j ≡ false → prev_without j ≡ prev j
  prev_kept j none e h = rw e refl
  prev_kept j (some z) e h = rw e (ground arith)

  next_moved : (j : ℕ) → prev t ≡ some j → next_without j ≡ next t
  next_moved j e = rw e (ap (λ b. if b then next t else next j) (==_self j))

  other_of : (z x : ℕ) (l : List ℕ) → contains z l ≡ true → contains x l ≡ false → z == x ≡ false
  other_of z x l h k = ground arith

  prev_moved :
      (j : ℕ) (o before : Option ℕ)
      → next t ≡ o
      → prev t ≡ before
      → prev_without j ≡ (if holds o j then before else prev j)
  prev_moved j none before e f = rw e refl
  prev_moved j (some z) before e f = rw (e, f) refl

  pub holds-mem :
      (o : Option ℕ) (j : ℕ) (l : List ℕ)
      → ((y : ℕ) → o ≡ some y → contains y l ≡ true)
      → contains j l ≡ false
      → holds o j ≡ false
  holds-mem none j l h out = refl
  holds-mem (some y) j l h out = ground (arith, h y refl)

  holds-out :
      (o : Option ℕ) (j : ℕ) (l : List ℕ)
      → ((z : ℕ) → o ≡ some z → contains z l ≡ false)
      → contains j l ≡ true
      → holds o j ≡ false
  holds-out none j l h inside = refl
  holds-out (some z) j l h inside = ground (arith, h z refl)

  pub Linked-erase :
      (before : Option ℕ) (l : List ℕ)
      → Linked next prev before l
      → is_nodup l ≡ true
      → contains t l ≡ true
      → ((z : ℕ) → before ≡ some z → contains z l ≡ false)
      → Linked next_without prev_without before (erase l t)
        × (first (erase l t) ≡ (if holds (first l) t then next t else first l))
  Linked-erase before [] v d h out = absurd (ground arith)
  Linked-erase before (x ∷ l) v d h out = elim (Bool-cases (x == t)) [
    | inl this ↦ rw this (
      Linked-before next next_without prev prev_without (some x) before l
          (λ j k.
            next_kept j before (ground (arith, v.0))
              (holds-out before j (x ∷ l) out (in_tail x j l k)))
          (λ j k. prev_moved j (first l) before (ground (arith, v.1)) (ground (arith, v.0)))
          (ground arith) v.2,
      ground (arith, v.1),
    )
    | inr that ↦
        let (rest, start) =
          Linked-erase (some x) l v.2 (ground arith) (ground arith) (λ z e. ground arith) in
        rw that (
          (
            prev_kept x (next t) refl (
                  holds-mem (next t) x l
                    (λ y e. next-mem next prev (some x) l t y v.2 (ground arith) e) (ground arith))
                ∙ v.0,
            elim (prev-mem next prev (some x) l t v.2 (ground arith) (ground arith)) [
              | inl (e, f) ↦
                  next_moved x e
                  ∙ sym (
                      start
                      ∙ ap (λ o. if holds o t then next t else o) f
                      ∙ ap (λ b. if b then next t else some t) (==_self t))
              | inr (z, e, k, m) ↦
                  next_kept x (some z) e (other_of z x l k (ground arith))
                  ∙ v.1
                  ∙ sym (start ∙ ap (λ b. if b then next t else first l) m)
            ],
            rest,
          ),
          refl,
        )
  ]
