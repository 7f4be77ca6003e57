-- ===== src/Kernel/Ipc/Copy.antt =====
-- The copy of a message between two buffers.
use aurora_os.Prelude.{
  ℕ, zero, suc, ◌+◌, ◌≤◌, ◌<◌, ◌≡◌, refl, ◌∙◌, ◌⊎◌, inl, inr, ltb, some, ◌==◌, ap, arith,
  Bool-cases,
}
use aurora_os.Prelude.Store.{update}
use aurora_os.Kernel.Ipc.{copy_bytes, transfer, clamp, max_msg_size}

pub copy-outside :
    (n src dst : ℕ) (memory : ℕ → ℕ) (j : ℕ)
    → (j < dst) ⊎ (dst + n ≤ j)
    → copy_bytes n src dst memory j ≡ memory j
unfolding copy_bytes
copy-outside zero src dst memory j h = refl
copy-outside (suc n) src dst memory j h =
    copy-outside n (suc src) (suc dst) (update memory dst (memory src)) j (ground arith)
    ∙ ground arith

pub copy-inside :
    (n src dst : ℕ) (memory : ℕ → ℕ) (j k : ℕ)
    → (src + n ≤ dst) ⊎ (dst + n ≤ src)
    → dst ≤ j
    → j < dst + n
    → k + dst ≡ j + src
    → copy_bytes n src dst memory j ≡ memory k
unfolding copy_bytes
copy-inside zero src dst memory j k h le lt e = absurd (omega arith)
copy-inside (suc n) src dst memory j k h le lt e = elim (Bool-cases (dst == j)) [
  | inl here ↦
      copy-outside n (suc src) (suc dst) (update memory dst (memory src)) j (inl (ground arith))
      ∙ (rw here (ap memory (ground arith)))
  | inr later ↦
      copy-inside n (suc src) (suc dst) (update memory dst (memory src)) j k (ground arith)
        (ground arith) (omega arith) (omega arith)
      ∙ ground arith
]

-- What a transfer between buffers that do not overlap does to the memory, and the length that it
-- reports.
pub record Transferred (n s d : ℕ) (before : ℕ → ℕ) (r : ℕ × (ℕ → ℕ)) : Type 0 where
  pub length : r.0 ≡ n
  pub inside : (i : ℕ) → i < n → r.1 (d + i) ≡ before (s + i)
  pub outside : (j : ℕ) → (j < d) ⊎ (d + n ≤ j) → r.1 j ≡ before j

pub transfer-Transferred :
    (n s d : ℕ) (memory : ℕ → ℕ)
    → (s + n ≤ d) ⊎ (d + n ≤ s)
    → Transferred n s d memory (transfer n (some s) (some d) memory)
unfolding transfer
transfer-Transferred n s d memory h = elim (Bool-cases (ltb 0 n)) [
  | inl on ↦ rw on (record {
    length = refl;
    inside = λ i lt.
        copy-inside n s d memory (d + i) (s + i) h (omega arith) (omega arith) (omega arith);
    outside = λ j k. copy-outside n s d memory j k;
  })
  | inr off ↦ rw off (record {
    length = ground arith;
    inside = λ i lt. absurd (ground arith);
    outside = λ j k. refl;
  })
]

-- The bytes copied fit the message, the buffer and the limit, and are one of the three.
pub clamp-bounds :
    (len max_len : ℕ)
    → (clamp len max_len ≤ len) × (clamp len max_len ≤ max_len) × (clamp len max_len ≤ max_msg_size)
clamp-bounds len max_len = ground arith

-- The smallest of the length of a message, that of the buffer, and the limit of 4096 bytes.
abbrev pub IsLeast : ℕ → ℕ → ℕ → Type 0
IsLeast n len max_len =
    (n ≤ len) × (n ≤ max_len) × (n ≤ 4096) × ((n ≡ len) ⊎ (n ≡ max_len) ⊎ (n ≡ 4096))

pub clamp-least : (n len max_len : ℕ) → IsLeast n len max_len → clamp len max_len ≡ n
clamp-least n len max_len h = ground (arith, h)
