-- ===== src/Kernel/Ipc/Waits/Leave.antt =====
-- A task leaves the queue where it waits.
use aurora_os.Prelude.{
  ℕ, ◌≡◌, inl, inr, ◌∙◌, sym, ap, true, false, ◌&&◌, not, List, arith, contains, erase, ◌==◌,
  Bool-cases, ==_iff, contains-erase, is_nodup-erase, erase_of_not-contains,
}
use aurora_os.Kernel.WaitQueue.Chain.{IsQueue}
use aurora_os.Kernel.Ipc.{System}
use aurora_os.Kernel.Ipc.Waits.{
  Side, side_eq, ends_of, queue_at, waits_in, Waits, IsQueue-frame, waits_once, same_place,
  elsewhere,
}

-- The lists without a task.
abbrev pub without : (Side → ℕ → List ℕ) → ℕ → Side → ℕ → List ℕ
without l t b e = erase (l b e) t

module _ (k k' : System) (l : Side → ℕ → List ℕ) (b : Side) (e t : ℕ) where
  -- What leaving is: `t` waits no more, and only its own queue changes.
  pub record Left : Type 0 where
    pub was : waits_in k b e t ≡ true
    pub queue : IsQueue (queue_at k' b e) (erase (l b e) t)
    pub frame : (j : ℕ) → contains j (l b e) ≡ false → k'.blocked_next j ≡ k.blocked_next j
    pub ends :
        (b' : Side) (e' : ℕ) → side_eq b b' && e == e' ≡ false → ends_of k' b' e' ≡ ends_of k b' e'
    pub others : (b' : Side) (e' j : ℕ) → t == j ≡ false → waits_in k' b' e' j ≡ waits_in k b' e' j
    pub own : (b' : Side) (e' : ℕ) → waits_in k' b' e' t ≡ false

  absent :
      (b' : Side) (e' : ℕ)
      → Waits k l
      → waits_in k b e t ≡ true
      → side_eq b b' && e == e' ≡ false
      → contains t (l b' e') ≡ false
  absent b' e' v was other = v.member b' e' t ∙ waits_once k b b' e e' t was other

  still :
      (b' : Side) (e' j : ℕ)
      → Waits k l
      → Left
      → (contains j (l b' e') && not (j == t)) ≡ waits_in k' b' e' j
  still b' e' j v f = elim (Bool-cases (t == j)) [
    | inl this ↦ rw (sym ((==_iff t j).0 this), f.own b' e') (ground arith)
    | inr that ↦ rw (f.others b' e' j that, v.member b' e' j) (ground arith)
  ]

  pub Left-Waits : Waits k l → Left → Waits k' (without l t)
  Left-Waits v f = record {
    queue = λ b' e'. elim (Bool-cases (side_eq b b' && e == e')) [
      | inl here ↦ let (p, q) = same_place b b' e e' here in rw (sym p, sym q) f.queue
      | inr other ↦
          let out = absent b' e' v f.was other in
          rw (erase_of_not-contains t (l b' e') out) (
            IsQueue-frame (queue_at k b' e') (queue_at k' b' e') (l b' e')
              (ap (λ x. x.head) (f.ends b' e' other)) (ap (λ x. x.tail) (f.ends b' e' other))
              (λ j h. f.frame j (elsewhere k l b b' e e' j v other h)) (v.queue b' e'))
    ];
    nodup = λ b' e'. is_nodup-erase t (l b' e') (v.nodup b' e');
    member = λ b' e' j. contains-erase t j (l b' e') (v.nodup b' e') ∙ still b' e' j v f;
    table =
        λ b' e' j h. v.table b' e' j (ground (arith, contains-erase t j (l b' e') (v.nodup b' e')));
  }
