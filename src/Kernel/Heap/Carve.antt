-- ===== src/Kernel/Heap/Carve.antt =====
-- The split of a block: the rest behind the space that is used becomes a block of its own.
use aurora_os.Prelude.{
  ℕ, ◌+◌, ◌-◌, ◌%◌, ◌≤◌, ◌<◌, ◌≡◌, refl, inl, inr, ◌∙◌, sym, ap, Bool, true, false, ◌||◌, Option,
  none, some, holds, List, [], ◌∷◌, ◌==◌, if◌then◌else◌, arith, contains, is_nodup, Bool-cases,
  ==_iff, ==_self,
}
use mathlib.Core.Path.{subst}
use aurora_os.Prelude.Store.{update, update?}
use aurora_os.Kernel.Heap.Links.{first, first-mem, Linked, Linked-before, holds-mem, next-mem}
use aurora_os.Kernel.Heap.Tiles.{Span, Span-low, Span-out, Span-frame}

abbrev pub insert_after : List ℕ → ℕ → ℕ → List ℕ
insert_after [] x r = []
insert_after (y ∷ l) x r = if y == x then y ∷ r ∷ l else y ∷ insert_after l x r

pub first-insert_after : (l : List ℕ) (x r : ℕ) → first (insert_after l x r) ≡ first l
first-insert_after [] x r = refl
first-insert_after (y ∷ l) x r = ground arith

pub contains-insert_after :
    (l : List ℕ) (x r j : ℕ)
    → contains x l ≡ true
    → contains j (insert_after l x r) ≡ (r == j) || contains j l
contains-insert_after [] x r j h = absurd (ground arith)
contains-insert_after (y ∷ l) x r j h = ground (arith, contains-insert_after l x r j)

pub insert_after-here :
    (l : List ℕ) (x r : ℕ) → contains x l ≡ true → contains r (insert_after l x r) ≡ true
insert_after-here l x r h =
    contains-insert_after l x r r h ∙ ap (λ b. b || contains r l) (==_self r)

pub insert_after-kept :
    (l : List ℕ) (x r j : ℕ)
    → contains x l ≡ true
    → contains j l ≡ true
    → contains j (insert_after l x r) ≡ true
insert_after-kept l x r j h k =
    contains-insert_after l x r j h ∙ ap (λ b. (r == j) || b) k ∙ or_true (r == j)
  where
    or_true : (b : Bool) → b || true ≡ true
    or_true true = refl
    or_true false = refl

-- No block begins within another.
pub Span-gap :
    (size : ℕ → ℕ) (l : List ℕ) (a e x r : ℕ)
    → Span size l a e
    → contains x l ≡ true
    → x < r
    → r < x + size x
    → contains r l ≡ false
Span-gap size [] a e x r v h p k = absurd (ground arith)
Span-gap size (y ∷ l) a e x r v h p k = elim (Bool-cases (y == x)) [
  | inl this ↦
      let same = (==_iff y x).0 this in
      let out = Span-out size l (a + size y) e r v.3 (omega (arith, v.0, same, ap size same, k)) in
      ground (arith, out)
  | inr that ↦
      let low = Span-low size l (a + size y) e x v.3 (ground arith) in
      let out = Span-gap size l (a + size y) e x r v.3 (ground arith) p k in
      let ne : y < r = omega (arith, low, v.0) in ground (arith, out, ne)
]

module _ (size : ℕ → ℕ) (x req : ℕ) where
  abbrev pub carved : ℕ → ℕ
  carved = update (update size (x + req) (size x - req)) x req

  pub carved_rest : 40 ≤ req → carved (x + req) ≡ size x - req
  carved_rest h = ground arith

  pub carved_here : carved x ≡ req
  carved_here = ap (λ b. if b then req else update size (x + req) (size x - req) x) (==_self x)

  pub carved_other : (j : ℕ) → x == j ≡ false → (x + req) == j ≡ false → carved j ≡ size j
  carved_other j h k = ground arith

  apart : (i j : ℕ) → i < j → i == j ≡ false
  apart i j h = ground arith

  behind : (i j : ℕ) → j < i → i == j ≡ false
  behind i j h = ground arith

  pub Span-carve :
      (l : List ℕ) (a e : ℕ)
      → Span size l a e
      → contains x l ≡ true
      → 40 ≤ req
      → req + 40 ≤ size x
      → req % 8 ≡ 0
      → (size x - req) % 8 ≡ 0
      → Span carved (insert_after l x (x + req)) a e
  Span-carve [] a e v h p k m n = absurd (ground arith)
  Span-carve (y ∷ l) a e v h p k m n = elim (Bool-cases (y == x)) [
    | inl this ↦
        let same = (==_iff y x).0 this in
        rw (this, same, carved_here, carved_rest p)
          (
            sym same ∙ v.0,
            p,
            m,
            (
              ap (λ z. z + req) (sym same ∙ v.0),
              omega (arith, k),
              n,
              Span-frame size carved l _ e
                  (λ j q.
                    let low = Span-low size l (a + size y) e j v.3 q in
                    carved_other j (apart x j (omega (arith, low, v.0, same, v.1)))
                      (apart (x + req) j (omega (arith, low, v.0, same, ap size same, k))))
                  (subst (λ z. Span size l z e) (omega (arith, ap size same, k)) v.3),
            ),
          )
    | inr that ↦
        let low = Span-low size l (a + size y) e x v.3 (ground arith) in
        let eq =
          carved_other y (behind x y (omega (arith, low, v.0, v.1)))
            (behind (x + req) y (omega (arith, low, v.0, v.1))) in
        rw (that, eq) (v.0, v.1, v.2, Span-carve l (a + size y) e v.3 (ground arith) p k m n)
  ]

out_tail : (y r : ℕ) (l : List ℕ) → contains r (y ∷ l) ≡ false → contains r l ≡ false
out_tail y r l h = ground arith

out_head : (y r : ℕ) (l : List ℕ) → contains r (y ∷ l) ≡ false → y == r ≡ false
out_head y r l h = ground arith

head-out : (y : ℕ) (l : List ℕ) → is_nodup (y ∷ l) ≡ true → contains y l ≡ false
head-out y l h = ground arith

tail-nodup : (y : ℕ) (l : List ℕ) → is_nodup (y ∷ l) ≡ true → is_nodup l ≡ true
tail-nodup y l h = ground arith

turned : (i j : ℕ) → i == j ≡ false → j == i ≡ false
turned i j h = ground arith

module _ (next prev : ℕ → Option ℕ) (x r : ℕ) where
  abbrev next_with : ℕ → Option ℕ
  next_with = update (update next r (next x)) x (some r)

  abbrev prev_with : ℕ → Option ℕ
  prev_with = update? (update prev r (some x)) (next x) (some r)

  with_here : next_with x ≡ some r
  with_here = ap (λ b. if b then some r else update next r (next x) x) (==_self x)

  with_rest : x == r ≡ false → next_with r ≡ next x
  with_rest h = ground arith

  with_other : (j : ℕ) → x == j ≡ false → r == j ≡ false → next_with j ≡ next j
  with_other j h k = ground arith

  read_prev :
      (o : Option ℕ) (j : ℕ)
      → update? (update prev r (some x)) o (some r) j
        ≡ (if holds o j then some r else update prev r (some x) j)
  read_prev none j = refl
  read_prev (some z) j = refl

  prev_moved :
      (j : ℕ) → r == j ≡ false → prev_with j ≡ (if holds (next x) j then some r else prev j)
  prev_moved j h =
      read_prev (next x) j
      ∙ ap (λ b. if holds (next x) j then some r else (if b then some x else prev j)) h

  prev_other : (j : ℕ) → r == j ≡ false → holds (next x) j ≡ false → prev_with j ≡ prev j
  prev_other j h k = prev_moved j h ∙ ap (λ b. if b then some r else prev j) k

  prev_rest : holds (next x) r ≡ false → prev_with r ≡ some x
  prev_rest k =
      read_prev (next x) r
      ∙ ap (λ b. if b then some r else update prev r (some x) r) k
      ∙ ap (λ b. if b then some x else prev r) (==_self r)

  first_out :
      (l : List ℕ) (j : ℕ) → next x ≡ first l → contains j l ≡ false → holds (next x) j ≡ false
  first_out l j e out = holds-mem next prev x (next x) j l (λ y k. first-mem l y (sym e ∙ k)) out

  miss : (j : ℕ) (l : List ℕ) (i : ℕ) → contains i l ≡ true → contains j l ≡ false → j == i ≡ false
  miss j l i h k = ground arith

  -- `x` stands first.
  at_head :
      (before : Option ℕ) (l : List ℕ)
      → Linked next prev before (x ∷ l)
      → is_nodup (x ∷ l) ≡ true
      → contains r (x ∷ l) ≡ false
      → Linked next_with prev_with before (x ∷ r ∷ l)
  at_head before l v d out =
      let out_l = out_tail x r l out in
      let ne = out_head x r l out in
      let x_out = head-out x l d in
      (
        prev_other x (turned x r ne) (first_out l x v.1 x_out) ∙ v.0,
        with_here,
        (
          prev_rest (first_out l r v.1 out_l),
          with_rest ne ∙ v.1,
          Linked-before next _ prev _ (some x) (some r) l
              (λ j k. with_other j (miss x l j k x_out) (miss r l j k out_l))
              (λ j k.
                prev_moved j (miss r l j k out_l)
                ∙ ap (λ o. if holds o j then some r else prev j) v.1)
              (tail-nodup x l d) v.2,
        ),
      )

  pub Linked-insert_after :
      (before : Option ℕ) (l : List ℕ)
      → Linked next prev before l
      → is_nodup l ≡ true
      → contains x l ≡ true
      → contains r l ≡ false
      → Linked next_with prev_with before (insert_after l x r)
  Linked-insert_after before [] v d h out = absurd (ground arith)
  Linked-insert_after before (y ∷ l) v d h out = elim (Bool-cases (y == x)) [
    | inl this ↦ rw this (
        subst
          (λ z.
            Linked next prev before (z ∷ l)
            → is_nodup (z ∷ l) ≡ true
            → contains r (z ∷ l) ≡ false
            → Linked next_with prev_with before (z ∷ r ∷ l))
          (sym ((==_iff y x).0 this)) (at_head before l) v d out)
    | inr that ↦ rw that (
      prev_other y (ground arith) (
            holds-mem next prev x (next x) y l
              (λ z e. next-mem next prev (some y) l x z v.2 (ground arith) e) (ground arith))
          ∙ v.0,
      with_other y (ground arith) (ground arith) ∙ v.1 ∙ sym (first-insert_after l x r),
      Linked-insert_after (some y) l v.2 (ground arith) (ground arith) (ground arith),
    )
  ]
