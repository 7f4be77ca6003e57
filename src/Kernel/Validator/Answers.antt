-- ===== src/Kernel/Validator/Answers.antt =====
-- When `validate_user_ptr` refuses and that it gives an answer.
use aurora_os.Prelude.{
  ℕ, suc, ◌+◌, ◌*◌, ◌/◌, ◌≤◌, ◌<◌, ◌≡◌, refl, ap, Bool, true, false, Option, none, some, ltb, ◌==◌,
  if◌then◌else◌, arith,
}
use aurora_os.Kernel.Heap.Ops.{word}
use aurora_os.Kernel.Validator.{
  Memory, Owner, MapFlags, end_of, in_canary, in_sandbox, mapped, page_size, validate_with_stack,
  validate_task, validate_user_ptr, user_pages,
}
use aurora_os.Kernel.Validator.Pages.{user_pages-returns}

-- A range that reaches past the end of the address space is refused, whatever the task, its
-- memory and its address space. The address and the length are words of 32 bits.
pub validate_user_ptr-wrapped :
    (fuel : ℕ) (m : Memory) (task : Option Owner) (p len : ℕ) (need_write : Bool)
    → p < word
    → len < word
    → word ≤ p + len
    → validate_user_ptr fuel m task (some p) len need_write ≡ some false
unfolding validate_user_ptr
validate_user_ptr-wrapped fuel m task p len need_write low small over =
    ap
      (λ b. if b then some false else if len == 0 then some true else elim task [
        | none ↦ some (validate_with_stack m (some p) len 0 0 need_write)
        | some t ↦ validate_task fuel m t p len need_write
      ])
      (wraps p len low small over)
  where
    wraps : (p len : ℕ) → p < word → len < word → word ≤ p + len → ltb (end_of p len) p ≡ true
    wraps p len low small over = ground arith

four_returns :
    (a b c d : Bool) (o : Option Bool)
    → ((x : Bool) × (o ≡ some x))
    → (x : Bool) × ((if a
          then some true
          else if b
          then some true
          else if c
          then some true
          else elim o [ none ↦ none | some y ↦ if y then some true else some d ])
        ≡ some x)
four_returns true b c d o h = (true, refl)
four_returns false true c d o h = (true, refl)
four_returns false false true d o h = (true, refl)
four_returns false false false d none h = absurd cc
four_returns false false false d (some true) h = (true, refl)
four_returns false false false d (some false) h = (d, refl)

mapped_returns :
    (fuel : ℕ) (o : Option (ℕ → Option MapFlags)) (p len : ℕ) (w : Bool)
    → p + len ≤ 4294963200
    → len ≤ fuel * 4096
    → (x : Bool) × (elim o [
      | none ↦ some false
      | some f ↦ user_pages (suc (suc fuel)) f w (p / page_size * page_size) (end_of p len)
    ]
        ≡ some x)
mapped_returns fuel none p len w h k = (false, refl)
mapped_returns fuel (some f) p len w h k =
    user_pages-returns f w (suc fuel) (p / page_size * page_size) (end_of p len) (omega (arith, h))
      (omega (arith, h, k))

guarded_returns :
    (bad empty : Bool) (o : Option Bool)
    → ((x : Bool) × (o ≡ some x))
    → (x : Bool) × ((if bad then some false else if empty then some true else o) ≡ some x)
guarded_returns true empty o h = (false, refl)
guarded_returns false true o h = (true, refl)
guarded_returns false false o h = h

-- `validate_user_ptr` gives an answer on every pointer and task, if the range does not reach into
-- the last page of the address space: its loop makes no more rounds than the range has pages,
-- and one more.
pub validate_user_ptr-returns :
    (fuel : ℕ) (m : Memory) (task : Option Owner) (p len : ℕ) (need_write : Bool)
    → p + len ≤ 4294963200
    → len ≤ fuel * 4096
    → (b : Bool) × (validate_user_ptr (suc (suc fuel)) m task (some p) len need_write ≡ some b)
unfolding validate_user_ptr
validate_user_ptr-returns fuel m none p len need_write h k =
    guarded_returns (ltb (end_of p len) p) (len == 0) _ (_, refl)
validate_user_ptr-returns fuel m (some t) p len need_write h k =
    guarded_returns (ltb (end_of p len) p) (len == 0) _ (
      four_returns _ (in_canary t p (end_of p len)) (in_sandbox t p (end_of p len)) _
        (mapped (suc (suc fuel)) t need_write p len)
        (mapped_returns fuel t.vasp p len need_write h k))
