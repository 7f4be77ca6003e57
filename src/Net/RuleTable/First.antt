-- ===== src/Net/RuleTable/First.antt =====
-- The first rule that applies decides, and a rule is added at the first place that is free.
use aurora_os.Prelude.{
  ℕ, zero, suc, ◌+◌, ◌≤◌, ◌<◌, ◌≡◌, refl, ◌⊎◌, inl, inr, ap, Bool, true, false, arith, Bool-cases,
  ◌==◌, ==_iff, sym,
}
use aurora_os.Prelude.Store.{update}
use aurora_os.Net.RuleTable.{
  FwAction, FwRule, Fields, max_rules, add_from, add_rule, applies, match_from, match_fields, match,
  fields_at,
}
use aurora_os.Net.RuleTable.Meets.{
  IsReadable, Meets, header_length, applies-Meets, Meets-applies, parse-cases,
}

-- The action is that of the first of `n` rules from `i` on that applies, or acceptance if none does.
abbrev IsFirst : ℕ → ℕ → (ℕ → FwRule) → Fields → ℕ → FwAction → Type 0
IsFirst n i rules f interface a =
    ((j : ℕ) × (i ≤ j)
      × (j < i + n)
      × (applies (rules j) f interface ≡ true)
      × ((k : ℕ) → i ≤ k → k < j → applies (rules k) f interface ≡ false)
      × (a ≡ (rules j).action))
    ⊎ (((k : ℕ) → i ≤ k → k < i + n → applies (rules k) f interface ≡ false)
        × (a ≡ FwAction.accept))

-- A test that fails at `i` and after it.
fails_from :
    (w : ℕ → Bool) (i k : ℕ) → w i ≡ false → i ≤ k → (suc i ≤ k → w k ≡ false) → w k ≡ false
fails_from w i k off p h = elim (Bool-cases (i == k)) [
  | inl e ↦ rw (sym ((==_iff i k).0 e)) off
  | inr ne ↦ h (ground arith)
]

from-IsFirst :
    (n i : ℕ) (rules : ℕ → FwRule) (f : Fields) (interface : ℕ)
    → IsFirst n i rules f interface (match_from n i rules f interface)
unfolding match_from
from-IsFirst zero i rules f interface = inr (λ k p q. absurd (omega arith), refl)
from-IsFirst (suc n) i rules f interface = elim (Bool-cases (applies (rules i) f interface)) [
  | inl on ↦ rw on (inl (i, omega arith, omega arith, on, λ k p q. absurd (omega arith), refl))
  | inr off ↦ rw off (elim (from-IsFirst n (suc i) rules f interface) [
    | inl (j, p, q, on, before, e) ↦ inl (
      j,
      omega arith,
      omega arith,
      on,
      λ k p' q'. fails_from (λ k. applies (rules k) f interface) i k off p' (λ s. before k s q'),
      e,
    )
    | inr (all, e) ↦ inr (
      λ k p q.
          fails_from (λ k. applies (rules k) f interface) i k off p (λ s. all k s (omega arith)),
      e,
    )
  ])
]

-- Not a packet that the rules can read, and it is accepted; or the action is that of the first of the
-- 16 rules that the packet meets, or acceptance if it meets none.
abbrev pub IsDecided : (ℕ → FwRule) → (ℕ → ℕ) → ℕ → ℕ → FwAction → Type 0
IsDecided rules packet len interface a =
    ((IsReadable packet len → ⊥) × (a ≡ FwAction.accept))
    ⊎ (IsReadable packet len
        × (((j : ℕ) × (j < 16)
              × Meets (rules j) packet len interface
              × ((k : ℕ) → k < j → Meets (rules k) packet len interface → ⊥)
              × (a ≡ (rules j).action))
            ⊎ (((k : ℕ) → k < 16 → Meets (rules k) packet len interface → ⊥)
                × (a ≡ FwAction.accept))))

module _ (rules : ℕ → FwRule) (packet : ℕ → ℕ) (len interface : ℕ) where
  not_met :
      (k : ℕ)
      → applies (rules k) (fields_at packet len (header_length packet)) interface ≡ false
      → Meets (rules k) packet len interface
      → ⊥
  not_met k off m = ground (arith, Meets-applies (rules k) packet len interface m, off)

  first-IsDecided :
      (a : FwAction)
      → IsReadable packet len
      → IsFirst 16 0 rules (fields_at packet len (header_length packet)) interface a
      → IsDecided rules packet len interface a
  first-IsDecided a v (inl (j, p, q, on, before, e)) = inr (
    v,
    inl (
      j,
      q,
      applies-Meets (rules j) packet len interface on,
      λ k lt. not_met k (before k (omega arith) lt),
      e,
    ),
  )
  first-IsDecided a v (inr (all, e)) = inr (v, inr (λ k lt. not_met k (all k (omega arith) lt), e))

-- `match` accepts a packet that is not IPv4 with whole headers and an IP header of 20 bytes or
-- more. On one that is, it takes the action of the first of the 16 rules that the packet meets, and
-- accepts the packet if it meets none. A packet meets an enabled rule if the interface, the
-- addresses, the protocol, the ports and, for TCP, the flags under the mask are those of each match
-- that the rule asks for; where the packet has no ports or its flags are cut off, these count as 0.
pub match-IsDecided :
    (rules : ℕ → FwRule) (packet : ℕ → ℕ) (len interface : ℕ)
    → IsDecided rules packet len interface (match rules packet len interface)
unfolding match match_fields
match-IsDecided rules packet len interface = elim (parse-cases packet len) [
  | inl (v, e) ↦ inl (v, ap (λ x. match_fields rules x interface) e)
  | inr (v, e) ↦ rw (ap (λ x. match_fields rules x interface) e) (
      first-IsDecided rules packet len interface _ v
        (from-IsFirst max_rules 0 rules (fields_at packet len (header_length packet)) interface))
]

-- The rule went to the first of `n` places from `i` on that was free; or none was, and all is as it was.
abbrev pub IsAdded : ℕ → ℕ → (ℕ → FwRule) → FwRule → Bool × (ℕ → FwRule) → Type 0
IsAdded n i rules rule r =
    ((j : ℕ) × (i ≤ j)
      × (j < i + n)
      × ((rules j).enabled ≡ false)
      × ((k : ℕ) → i ≤ k → k < j → (rules k).enabled ≡ true)
      × (r ≡ (true, update rules j (record rule { enabled = true }))))
    ⊎ (((k : ℕ) → i ≤ k → k < i + n → (rules k).enabled ≡ true) × (r ≡ (false, rules)))

holds_from : (w : ℕ → Bool) (i k : ℕ) → w i ≡ true → i ≤ k → (suc i ≤ k → w k ≡ true) → w k ≡ true
holds_from w i k on p h = elim (Bool-cases (i == k)) [
  | inl e ↦ rw (sym ((==_iff i k).0 e)) on
  | inr ne ↦ h (ground arith)
]

from-IsAdded :
    (n i : ℕ) (rules : ℕ → FwRule) (rule : FwRule)
    → IsAdded n i rules rule (add_from n i rules rule)
unfolding add_from
from-IsAdded zero i rules rule = inr (λ k p q. absurd (omega arith), refl)
from-IsAdded (suc n) i rules rule = elim (Bool-cases (rules i).enabled) [
  | inr off ↦ rw off (inl (i, omega arith, omega arith, off, λ k p q. absurd (omega arith), refl))
  | inl on ↦ rw on (elim (from-IsAdded n (suc i) rules rule) [
    | inl (j, p, q, off, before, e) ↦ inl (
      j,
      omega arith,
      omega arith,
      off,
      λ k p' q'. holds_from (λ k. (rules k).enabled) i k on p' (λ s. before k s q'),
      e,
    )
    | inr (all, e) ↦
        inr (λ k p q. holds_from (λ k. (rules k).enabled) i k on p (λ s. all k s (omega arith)), e)
  ])
]

-- `add_rule` puts the rule, enabled, at the first of the 16 places whose rule is not enabled, and
-- fails only if there is none, which changes nothing.
pub add_rule-IsAdded :
    (rules : ℕ → FwRule) (rule : FwRule) → IsAdded max_rules 0 rules rule (add_rule rules rule)
unfolding add_rule
add_rule-IsAdded rules rule = from-IsAdded max_rules 0 rules rule
