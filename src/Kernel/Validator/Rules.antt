-- ===== src/Kernel/Validator/Rules.antt =====
-- The memory that a task may use, and the tests for each part of it.
use aurora_os.Prelude.{
  ℕ, ◌+◌, ◌≤◌, ◌<◌, ◌≡◌, ◌⊎◌, refl, inl, inr, ◌∙◌, sym, Bool, true, false, not, Option, none, some,
  ltb, ◌==◌, ◌&&◌, ◌||◌, if◌then◌else◌, arith,
}
use aurora_os.Kernel.Heap.{Heap}
use aurora_os.Kernel.Heap.Ops.{contains_range, heap_start, word}
use aurora_os.Kernel.Validator.{
  Memory, Region, Owner, MapFlags, end_of, in_span, in_region, in_low_flash, in_common, stack_size,
  validate_with_stack,
}
use aurora_os.Kernel.Validator.Pages.{page_of}

abbrev pub Within : ℕ → ℕ → ℕ → Type 0
Within start finish a = (start ≤ a) × (a < finish)

-- The memory that a task may use whatever its address space: the heap and the data of the system
-- for all accesses, and the flash to read.
pub data CommonAt (m : Memory) (need_write : Bool) (a : ℕ) : Type 0 where
  in_heap :
      Within (heap_start m.kernel_heap) (heap_start m.kernel_heap + m.kernel_heap.total_size) a
      → CommonAt m need_write a
  in_heap_section : Within m.heap.start m.heap.finish a → CommonAt m need_write a
  in_data : Within m.data_section.start m.data_section.finish a → CommonAt m need_write a
  in_bss : Within m.bss.start m.bss.finish a → CommonAt m need_write a
  in_flash : need_write ≡ false → Within m.flash.start m.flash.finish a → CommonAt m need_write a
  in_low : need_write ≡ false → m.low_flash ≡ true → a < 0x20000000 → CommonAt m need_write a

-- The memory of the task: its stack, by either of its two addresses, its sandbox, and the pages
-- of its address space that are mapped for users, and for writing where it writes.
pub data TaskAt (t : Owner) (need_write : Bool) (a : ℕ) : Type 0 where
  in_stack : Within t.stack_base (t.stack_base + stack_size t.size_pow2) a → TaskAt t need_write a
  above_canary :
      (c : ℕ)
      → t.stack_canary_ptr ≡ some c
      → Within c (c + stack_size t.size_pow2) a
      → TaskAt t need_write a
  in_sandbox_of :
      t.sandbox_is_valid ≡ true
      → Within t.sandbox_base (t.sandbox_base + stack_size t.sandbox_pow2) a
      → TaskAt t need_write a
  in_page :
      (translate : ℕ → Option MapFlags) (flags : MapFlags)
      → t.vasp ≡ some translate
      → translate (page_of a) ≡ some flags
      → flags.user ≡ true
      → (need_write ≡ false) ⊎ (flags.write ≡ true)
      → TaskAt t need_write a

abbrev pub MayUse : Memory → Option Owner → Bool → ℕ → Type 0
MayUse m none need_write a = CommonAt m need_write a
MayUse m (some t) need_write a = TaskAt t need_write a ⊎ CommonAt m need_write a

-- The end of a range that the checks of the pointer let through is its start and length, unwrapped.
pub no_wrap :
    (p len : ℕ) → len < word → ltb (end_of p len) p ≡ false → p < word → end_of p len ≡ p + len
no_wrap p len small ok low = ground arith

pub in_span-Within :
    (base size p e a : ℕ)
    → size < word
    → in_span base size p e ≡ true
    → p ≤ a
    → a < e
    → Within base (base + size) a
in_span-Within base size p e a small ok h k = (ground arith, ground arith)

in_region-Within :
    (r : Region) (p e a : ℕ) → in_region r p e ≡ true → p ≤ a → a < e → Within r.start r.finish a
in_region-Within r p e a ok h k = (ground arith, ground arith)

contains_range-Within :
    (h : Heap) (p len a : ℕ)
    → contains_range h (some p) len ≡ true
    → p ≤ a
    → a < end_of p len
    → Within (heap_start h) (heap_start h + h.total_size) a
unfolding contains_range
contains_range-Within h p len a ok le lt = ground arith

or_cases : (a b : Bool) → a || b ≡ true → (a ≡ true) ⊎ (b ≡ true)
or_cases true b h = inl refl
or_cases false b h = inr h

flash_cases : (w a b : Bool) → not w && (a || b) ≡ true → (w ≡ false) × ((a ≡ true) ⊎ (b ≡ true))
flash_cases true a b h = absurd cc
flash_cases false a b h = (refl, or_cases a b h)

guarded :
    (bad empty ok : Bool)
    → (if bad then false else if empty then true else ok) ≡ true
    → empty ≡ false
    → ok ≡ true
guarded true empty ok h e = absurd cc
guarded false true ok h e = absurd cc
guarded false false ok h e = h

module _ (m : Memory) (need_write : Bool) (p len a : ℕ) (le : p ≤ a) (lt : a < end_of p len) where
  low-Common :
      (w : Bool)
      → w ≡ need_write
      → (w ≡ false)
      → in_low_flash m p (end_of p len) ≡ true
      → CommonAt m need_write a
  low-Common w e off h = CommonAt.in_low (sym e ∙ off) (ground arith) (ground arith)

  in_common-CommonAt : in_common m p len need_write ≡ true → CommonAt m need_write a
  in_common-CommonAt h =
      elim (or_cases _
        (not need_write && (in_region m.flash p (end_of p len) || in_low_flash m p (end_of p len)))
        h) [
          | inr h₄ ↦
              let (off, which) = flash_cases need_write _ _ h₄ in
              elim which [
                | inl k ↦
                    CommonAt.in_flash off (in_region-Within m.flash p (end_of p len) a k le lt)
                | inr k ↦ low-Common need_write refl off k
              ]
          | inl h₁ ↦ elim (or_cases _ (in_region m.bss p (end_of p len)) h₁) [
            | inr k ↦ CommonAt.in_bss (in_region-Within m.bss p (end_of p len) a k le lt)
            | inl h₂ ↦ elim (or_cases _ (in_region m.data_section p (end_of p len)) h₂) [
              | inr k ↦
                  CommonAt.in_data (in_region-Within m.data_section p (end_of p len) a k le lt)
              | inl h₃ ↦ elim (or_cases _ (in_region m.heap p (end_of p len)) h₃) [
                | inr k ↦
                    CommonAt.in_heap_section (in_region-Within m.heap p (end_of p len) a k le lt)
                | inl k ↦ CommonAt.in_heap (contains_range-Within m.kernel_heap p len a k le lt)
              ]
            ]
          ]
        ]

  pub with_stack-Common :
      (base size : ℕ)
      → 0 < len
      → size < word
      → validate_with_stack m (some p) len base size need_write ≡ true
      → Within base (base + size) a ⊎ CommonAt m need_write a
  unfolding validate_with_stack
  with_stack-Common base size pos small h =
      elim (or_cases (in_span base size p (end_of p len)) (in_common m p len need_write)
        (guarded (ltb (end_of p len) p) (len == 0) _ h (ground arith))) [
          | inl k ↦ inl (in_span-Within base size p (end_of p len) a small k le lt)
          | inr k ↦ inr (in_common-CommonAt k)
        ]
