-- ===== src/Kernel/Ipc/Highest.antt =====
-- What `recalculate_receiver_priority` computes.
use aurora_os.Prelude.{
  ℕ, zero, suc, ◌+◌, ◌≤◌, ◌<◌, ◌≡◌, refl, ◌⊎◌, inl, inr, ltb, true, false, arith, Bool-cases, ◌&&◌,
  ◌==◌, sym,
}
use aurora_os.Kernel.Ipc.{System}
use aurora_os.Kernel.Ipc.Inherit.{awaits, scan_senders}

-- The highest of `m` and the priorities of the `n` tasks from `i` on that wait for `receiver`.
pub record IsHighest (k : System) (receiver n i m h : ℕ) : Type 0 where
  pub own : m ≤ h
  pub others :
      (j : ℕ) → i ≤ j → j < i + n → awaits k receiver j ≡ true → k.sched.current_priority j ≤ h
  pub reached :
      (h ≡ m)
      ⊎ ((j : ℕ) × (i ≤ j)
          × (j < i + n)
          × (awaits k receiver j ≡ true)
          × (k.sched.current_priority j ≡ h))

module _ (k : System) (receiver n i m h : ℕ) where
  raised :
      (awaits k receiver i && ltb m (k.sched.current_priority i)) ≡ true
      → IsHighest k receiver n (suc i) (k.sched.current_priority i) h
      → IsHighest k receiver (suc n) i m h
  raised on rest = record {
    own = ground (arith, rest.own);
    others = λ j p q a. elim (Bool-cases (i == j)) [
      | inl e ↦ ground (arith, rest.own)
      | inr ne ↦ rest.others j (ground arith) (ground arith) a
    ];
    reached = inr (elim rest.reached [
      | inl e ↦ (i, omega arith, omega arith, ground arith, sym e)
      | inr (j, p, q, a, e) ↦ (j, omega arith, omega arith, a, e)
    ]);
  }

  kept :
      (awaits k receiver i && ltb m (k.sched.current_priority i)) ≡ false
      → IsHighest k receiver n (suc i) m h
      → IsHighest k receiver (suc n) i m h
  kept off rest = record {
    own = rest.own;
    others = λ j p q a. elim (Bool-cases (i == j)) [
      | inl e ↦ ground (arith, rest.own)
      | inr ne ↦ rest.others j (ground arith) (ground arith) a
    ];
    reached = elim rest.reached [
      | inl e ↦ inl e
      | inr (j, p, q, a, e) ↦ inr (j, omega arith, omega arith, a, e)
    ];
  }

pub scan_senders-IsHighest :
    (n : ℕ) (k : System) (receiver i m : ℕ)
    → IsHighest k receiver n i m (scan_senders n k receiver i m)
unfolding scan_senders
scan_senders-IsHighest zero k receiver i m = record {
  own = omega arith;
  others = λ j p q a. absurd (omega arith);
  reached = inl refl;
}
scan_senders-IsHighest (suc n) k receiver i m =
    elim (Bool-cases (awaits k receiver i && ltb m (k.sched.current_priority i))) [
      | inl on ↦ rw on (
          raised k receiver n i m _ on
            (scan_senders-IsHighest n k receiver (suc i) (k.sched.current_priority i)))
      | inr off ↦
          rw off (kept k receiver n i m _ off (scan_senders-IsHighest n k receiver (suc i) m))
    ]
