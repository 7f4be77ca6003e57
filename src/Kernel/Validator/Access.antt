-- ===== src/Kernel/Validator/Access.antt =====
-- Which addresses `validate_user_ptr` lets through.
use aurora_os.Prelude.{
  ℕ, ◌+◌, ◌*◌, ◌/◌, ◌≤◌, ◌<◌, ◌≡◌, ◌⊎◌, refl, inl, inr, ◌∙◌, sym, ap, not, ◌&&◌, ◌||◌, Bool, true,
  false, Option, none, some, ltb, ◌==◌, if◌then◌else◌, arith, Bool-cases,
}
use aurora_os.Kernel.Heap.Ops.{word}
use aurora_os.Kernel.Validator.{
  Memory, Owner, MapFlags, end_of, in_span, in_canary, in_sandbox, stack_size, mapped, page_size,
  validate_with_stack, validate_task, validate_user_ptr, user_pages, page_ok,
}
use aurora_os.Kernel.Validator.Pages.{page_of, user_pages-all}
use aurora_os.Kernel.Validator.Rules.{TaskAt, MayUse, no_wrap, in_span-Within, with_stack-Common}

stack_small : (k : ℕ) → stack_size k < word
stack_small k = elim (Bool-cases (ltb 0 k)) [
  | inl on ↦ rw on (omega arith)
  | inr off ↦ rw off (omega arith)
]

-- The rule that lets a range through, in the order of the checks.
pick_rule :
    (a b c : Bool) (o : Option Bool) (d : Bool)
    → (if a
        then some true
        else if b
        then some true
        else if c
        then some true
        else elim o [ none ↦ none | some x ↦ if x then some true else some d ])
      ≡ some true
    → (a ≡ true) ⊎ (b ≡ true) ⊎ (c ≡ true) ⊎ (o ≡ some true) ⊎ (d ≡ true)
pick_rule true b c o d h = inl refl
pick_rule false true c o d h = inr (inl refl)
pick_rule false false true o d h = inr (inr (inl refl))
pick_rule false false false none d h = absurd cc
pick_rule false false false (some true) d h = inr (inr (inr (inl refl)))
pick_rule false false false (some false) d h = inr (inr (inr (inr cc)))

canary_of :
    (t : Owner) (o : Option ℕ) (p e a : ℕ) (w : Bool)
    → t.stack_canary_ptr ≡ o
    → elim o [ none ↦ false | some c ↦ in_span c (stack_size t.size_pow2) p e ] ≡ true
    → p ≤ a
    → a < e
    → TaskAt t w a
canary_of t none p e a w at_ h le lt = absurd cc
canary_of t (some c) p e a w at_ h le lt =
    TaskAt.above_canary c at_
      (in_span-Within c (stack_size t.size_pow2) p e a (stack_small t.size_pow2) h le lt)

page_lem :
    (t : Owner) (f : ℕ → Option MapFlags) (a : ℕ) (w : Bool)
    → t.vasp ≡ some f
    → (o : Option MapFlags) → f (page_of a) ≡ o
    → page_ok f w (page_of a) ≡ true
    → TaskAt t w a
page_lem t f a w at_ none e h = absurd (ground (arith, e, h))
page_lem t f a w at_ (some flags) e h =
    let on =
      ap (λ o. elim o [ none ↦ false | some flags ↦ flags.user && (not w || flags.write) ]) (sym e)
      ∙ h in
    TaskAt.in_page f flags at_ e (ground arith) (may_write w flags.write (ground arith))
  where
    may_write : (w b : Bool) → not w || b ≡ true → (w ≡ false) ⊎ (b ≡ true)
    may_write false b h = inl refl
    may_write true b h = inr h

pages_of :
    (fuel : ℕ) (t : Owner) (o : Option (ℕ → Option MapFlags)) (p len a : ℕ) (w : Bool)
    → t.vasp ≡ o
    → elim o [
      | none ↦ some false
      | some f ↦ user_pages fuel f w (p / page_size * page_size) (end_of p len)
    ]
      ≡ some true
    → p ≤ a
    → a < end_of p len
    → TaskAt t w a
pages_of fuel t none p len a w at_ h le lt = absurd cc
pages_of fuel t (some f) p len a w at_ h le lt = page_lem t f a w at_ (f (page_of a)) refl (
    user_pages-all f w fuel (p / page_size * page_size) (end_of p len) a (omega arith) (omega arith)
      h (omega (arith, le)) lt)

validate_task-MayUse :
    (fuel : ℕ) (m : Memory) (t : Owner) (p len a : ℕ) (w : Bool)
    → ltb (end_of p len) p ≡ false
    → 0 < len
    → validate_task fuel m t p len w ≡ some true
    → p ≤ a
    → a < end_of p len
    → MayUse m (some t) w a
validate_task-MayUse fuel m t p len a w ok pos h le lt =
    elim (pick_rule _ (in_canary t p (end_of p len)) (in_sandbox t p (end_of p len))
      (mapped fuel t w p len) _ h) [
        | inl k ↦ inl (
            TaskAt.in_stack (
              in_span-Within t.stack_base (stack_size t.size_pow2) p (end_of p len) a
                (stack_small t.size_pow2) k le lt))
        | inr (inl k) ↦ inl (canary_of t t.stack_canary_ptr p (end_of p len) a w refl k le lt)
        | inr (inr (inl k)) ↦ inl (
            TaskAt.in_sandbox_of (ground arith) (
              in_span-Within t.sandbox_base (stack_size t.sandbox_pow2) p (end_of p len) a
                (stack_small t.sandbox_pow2) (ground arith) le lt))
        | inr (inr (inr (inl k))) ↦ inl (pages_of fuel t t.vasp p len a w refl k le lt)
        | inr (inr (inr (inr k))) ↦
            elim (with_stack-Common m w p len a le lt t.stack_base (stack_size t.size_pow2) pos
              (stack_small t.size_pow2) k) [
                | inl inside ↦ inl (TaskAt.in_stack inside)
                | inr common ↦ inr common
              ]
      ]

guarded_some :
    (bad empty : Bool) (o : Option Bool)
    → (if bad then some false else if empty then some true else o) ≡ some true
    → empty ≡ false
    → (bad ≡ false) × (o ≡ some true)
guarded_some true empty o h e = absurd cc
guarded_some false true o h e = absurd cc
guarded_some false false o h e = (refl, h)

chosen-MayUse :
    (fuel : ℕ) (m : Memory) (task : Option Owner) (p len a : ℕ) (w : Bool)
    → ltb (end_of p len) p ≡ false
    → 0 < len
    → elim task [
      | none ↦ some (validate_with_stack m (some p) len 0 0 w)
      | some t ↦ validate_task fuel m t p len w
    ]
      ≡ some true
    → p ≤ a
    → a < end_of p len
    → MayUse m task w a
chosen-MayUse fuel m none p len a w ok pos h le lt =
    elim (with_stack-Common m w p len a le lt 0 0 pos (omega arith) cc) [
      | inl inside ↦ absurd (omega (arith, inside.1))
      | inr common ↦ common
    ]
chosen-MayUse fuel m (some t) p len a w ok pos h le lt =
    validate_task-MayUse fuel m t p len a w ok pos h le lt

-- Where `validate_user_ptr` accepts a pointer, which is not null, to a range that is not empty,
-- the range does not wrap, and the task may use every byte of it: as its own memory, or as the
-- heap and the data of the system, or, to read, as flash. A byte in a page of its address space
-- counts only if that page is mapped for users, and writable where the task is to write. The
-- address and the length are words of 32 bits.
pub validate_user_ptr-MayUse :
    (fuel : ℕ) (m : Memory) (task : Option Owner) (p len : ℕ) (need_write : Bool)
    → 0 < len
    → len < word
    → p < word
    → validate_user_ptr fuel m task (some p) len need_write ≡ some true
    → (p + len < word) × ((a : ℕ) → p ≤ a → a < p + len → MayUse m task need_write a)
unfolding validate_user_ptr
validate_user_ptr-MayUse fuel m task p len need_write pos small low h =
    let (ok, chosen) = guarded_some (ltb (end_of p len) p) (len == 0) _ h (ground arith) in
    let e = no_wrap p len small ok low in
    (
      omega (arith, e),
      λ a le lt.
          chosen-MayUse fuel m task p len a need_write ok pos chosen le (omega (arith, e, lt)),
    )
