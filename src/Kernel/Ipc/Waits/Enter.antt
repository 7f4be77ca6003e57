-- ===== src/Kernel/Ipc/Waits/Enter.antt =====
-- A task enters a queue.
use aurora_os.Prelude.{
  ℕ, ◌<◌, ◌≡◌, refl, inl, inr, ◌∙◌, sym, ap, true, false, ◌&&◌, ◌||◌, List, [], ◌∷◌, arith,
  contains, is_nodup, ◌==◌, if◌then◌else◌, Bool-cases, ==_iff,
}
use aurora_os.Kernel.Ready.{max_tasks}
use aurora_os.Kernel.WaitQueue.Chain.{IsQueue, insert}
use aurora_os.Kernel.Ipc.{System}
use aurora_os.Kernel.Ipc.Waits.{
  Side, side_eq, ends_of, queue_at, waits_in, Waits, IsQueue-frame, waits_once, same_place,
}

pub contains-insert :
    (prio : ℕ → ℕ) (t j : ℕ) (l : List ℕ) → contains j (insert prio t l) ≡ (t == j || contains j l)
contains-insert prio t j [] = refl
contains-insert prio t j (x ∷ l) = ground (arith, contains-insert prio t j l)

pub is_nodup-insert :
    (prio : ℕ → ℕ) (t : ℕ) (l : List ℕ)
    → is_nodup l ≡ true
    → contains t l ≡ false
    → is_nodup (insert prio t l) ≡ true
is_nodup-insert prio t [] d out = refl
is_nodup-insert prio t (x ∷ l) d out =
    ground (arith, is_nodup-insert prio t l, contains-insert prio t x l)

-- The lists with another one at a place.
abbrev pub at_place : (Side → ℕ → List ℕ) → Side → ℕ → List ℕ → Side → ℕ → List ℕ
at_place l b e m b' e' = if side_eq b b' && e == e' then m else l b' e'

module _ (k k' : System) (l : Side → ℕ → List ℕ) (b : Side) (e t : ℕ) (prio : ℕ → ℕ) where
  -- What entering is: `t` did not wait, and only its new queue changes.
  pub record Entered : Type 0 where
    pub was : (b' : Side) (e' : ℕ) → waits_in k b' e' t ≡ false
    pub in_table : t < max_tasks
    pub queue : IsQueue (queue_at k' b e) (insert prio t (l b e))
    pub frame : (j : ℕ) → contains j (t ∷ l b e) ≡ false → k'.blocked_next j ≡ k.blocked_next j
    pub ends :
        (b' : Side) (e' : ℕ) → side_eq b b' && e == e' ≡ false → ends_of k' b' e' ≡ ends_of k b' e'
    pub others : (b' : Side) (e' j : ℕ) → t == j ≡ false → waits_in k' b' e' j ≡ waits_in k b' e' j
    pub own : (b' : Side) (e' : ℕ) → waits_in k' b' e' t ≡ (side_eq b b' && e == e')

  outside-contains :
      (b' : Side) (e' j : ℕ)
      → Waits k l
      → Entered
      → side_eq b b' && e == e' ≡ false
      → contains j (l b' e') ≡ true
      → contains j (t ∷ l b e) ≡ false
  outside-contains b' e' j v f other h = elim (Bool-cases (contains j (t ∷ l b e))) [
    | inr out ↦ out
    | inl inside ↦ elim (Bool-cases (t == j)) [
      | inl this ↦ absurd (ground (arith, f.was b' e', v.member b' e' j, (==_iff t j).0 this))
      | inr that ↦ absurd (
          ground (
            arith,
            waits_once k b b' e e' j (sym (v.member b e j) ∙ ground arith) other,
            v.member b' e' j,
          ))
    ]
  ]

  now :
      (b' : Side) (e' j : ℕ)
      → Waits k l
      → Entered
      → contains j (at_place l b e (insert prio t (l b e)) b' e') ≡ waits_in k' b' e' j
  now b' e' j v f = elim (Bool-cases (side_eq b b' && e == e')) [
    | inl here ↦
        let (p, q) = same_place b b' e e' here in
        rw here (
          contains-insert prio t j (l b e) ∙ elim (Bool-cases (t == j)) [
            | inl this ↦
                rw this
                  (sym (ap (waits_in k' b' e') (sym ((==_iff t j).0 this)) ∙ f.own b' e' ∙ here))
            | inr that ↦ rw that (v.member b e j ∙ (rw (p, q) (sym (f.others b' e' j that))))
          ])
    | inr other ↦ rw other (
        v.member b' e' j ∙ elim (Bool-cases (t == j)) [
          | inl this ↦ rw (sym ((==_iff t j).0 this)) (f.was b' e' ∙ sym other ∙ sym (f.own b' e'))
          | inr that ↦ sym (f.others b' e' j that)
        ])
  ]

  pub Entered-Waits : Waits k l → Entered → Waits k' (at_place l b e (insert prio t (l b e)))
  Entered-Waits v f = record {
    queue = λ b' e'. elim (Bool-cases (side_eq b b' && e == e')) [
      | inl here ↦ let (p, q) = same_place b b' e e' here in rw here (rw (sym p, sym q) f.queue)
      | inr other ↦ rw other (
          IsQueue-frame (queue_at k b' e') (queue_at k' b' e') (l b' e')
            (ap (λ x. x.head) (f.ends b' e' other)) (ap (λ x. x.tail) (f.ends b' e' other))
            (λ j h. f.frame j (outside-contains b' e' j v f other h)) (v.queue b' e'))
    ];
    nodup = λ b' e'. elim (Bool-cases (side_eq b b' && e == e')) [
      | inl here ↦
          rw here (is_nodup-insert prio t (l b e) (v.nodup b e) (v.member b e t ∙ f.was b e))
      | inr other ↦ rw other (v.nodup b' e')
    ];
    member = λ b' e' j. now b' e' j v f;
    table = λ b' e' j h. elim (Bool-cases (side_eq b b' && e == e')) [
      | inl here ↦ ground (arith, contains-insert prio t j (l b e), v.table b e j, f.in_table)
      | inr other ↦ v.table b' e' j (ground arith)
    ];
  }
