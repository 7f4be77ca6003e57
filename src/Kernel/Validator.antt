-- ===== src/Kernel/Validator.antt =====
-- kernel/core/syscall_validator.cpp: the addresses that a task may pass to a system call.
pub mod Pages
pub mod Rules
pub mod Access
pub mod Answers
use aurora_os.Prelude.{
  ℕ, zero, suc, ◌+◌, ◌*◌, ◌/◌, ◌%◌, ◌-◌, Bool, true, false, not, Option, none, some, ltb, leb, ◌==◌,
  ◌&&◌, ◌||◌, if◌then◌else◌,
}
use aurora_os.Kernel.Heap.{Heap, pow2}
use aurora_os.Kernel.Heap.Ops.{contains_range, word}

-- The addresses of two symbols of the linker script.
pub record Region : Type 0 where
  pub start : ℕ
  pub finish : ℕ

-- The memory of the system. `low_flash` says whether the platform has its flash below 0x20000000.
pub record Memory : Type 0 where
  pub kernel_heap : Heap
  pub heap : Region
  pub data_section : Region
  pub bss : Region
  pub flash : Region
  pub low_flash : Bool

-- The bits of `MapFlags` that the check reads.
pub record MapFlags : Type 0 where
  pub user : Bool
  pub write : Bool

-- What the check reads of a task. `translate` of its address space is a function of the address.
pub record Owner : Type 0 where
  pub stack_base : ℕ
  pub size_pow2 : ℕ
  pub stack_canary_ptr : Option ℕ
  pub sandbox_is_valid : Bool
  pub sandbox_base : ℕ
  pub sandbox_pow2 : ℕ
  pub vasp : Option (ℕ → Option MapFlags)

abbrev pub page_size : ℕ
page_size = 4096

-- `p + len` wraps.
abbrev pub end_of : ℕ → ℕ → ℕ
end_of p len = (p + len) % word

abbrev pub in_span : ℕ → ℕ → ℕ → ℕ → Bool
in_span base size p end = ltb 0 size && leb base p && leb end ((base + size) % word)

abbrev pub in_region : Region → ℕ → ℕ → Bool
in_region r p end = not (r.start == r.finish) && leb r.start p && leb end r.finish

abbrev pub in_low_flash : Memory → ℕ → ℕ → Bool
in_low_flash m p end = m.low_flash && ltb p 0x20000000 && leb end 0x20000000

-- `validate_user_ptr` with a stack, past the checks of the pointer.
abbrev pub in_common : Memory → ℕ → ℕ → Bool → Bool
in_common m p len need_write =
    contains_range m.kernel_heap (some p) len
    || in_region m.heap p (end_of p len)
    || in_region m.data_section p (end_of p len)
    || in_region m.bss p (end_of p len)
    || not need_write && (in_region m.flash p (end_of p len) || in_low_flash m p (end_of p len))

unfoldable pub validate_with_stack : Memory → Option ℕ → ℕ → ℕ → ℕ → Bool → Bool
validate_with_stack m none len task_stack_base task_stack_size need_write = false
validate_with_stack m (some p) len task_stack_base task_stack_size need_write =
    if ltb (end_of p len) p
    then false
    else if len == 0
    then true
    else in_span task_stack_base task_stack_size p (end_of p len) || in_common m p len need_write

abbrev pub stack_size : ℕ → ℕ
stack_size size_pow2 = if ltb 0 size_pow2 then pow2 size_pow2 % word else 0

abbrev pub in_canary : Owner → ℕ → ℕ → Bool
in_canary t p end = elim t.stack_canary_ptr [
  | none ↦ false
  | some a ↦ in_span a (stack_size t.size_pow2) p end
]

abbrev pub in_sandbox : Owner → ℕ → ℕ → Bool
in_sandbox t p end = t.sandbox_is_valid && in_span t.sandbox_base (stack_size t.sandbox_pow2) p end

abbrev pub page_ok : (ℕ → Option MapFlags) → Bool → ℕ → Bool
page_ok translate need_write va = elim (translate va) [
  | none ↦ false
  | some flags ↦ flags.user && (not need_write || flags.write)
]

-- The loop over the pages from `cur_va` on; `none` where the fuel runs out.
unfoldable pub user_pages : ℕ → (ℕ → Option MapFlags) → Bool → ℕ → ℕ → Option Bool
user_pages zero translate need_write cur_va end = none
user_pages (suc fuel) translate need_write cur_va end =
    let rest = user_pages fuel translate need_write ((cur_va + page_size) % word) end in
    if ltb cur_va end
    then (if page_ok translate need_write cur_va then rest else some false)
    else some true

abbrev pub mapped : ℕ → Owner → Bool → ℕ → ℕ → Option Bool
mapped fuel t need_write p len = elim t.vasp [
  | none ↦ some false
  | some translate ↦ user_pages fuel translate need_write (p / page_size * page_size) (end_of p len)
]

-- `validate_user_ptr` with a task, past the checks of the pointer.
abbrev pub validate_task : ℕ → Memory → Owner → ℕ → ℕ → Bool → Option Bool
validate_task fuel m t p len need_write =
    if in_span t.stack_base (stack_size t.size_pow2) p (end_of p len)
    then some true
    else if in_canary t p (end_of p len)
    then some true
    else if in_sandbox t p (end_of p len)
    then some true
    else elim (mapped fuel t need_write p len) [
      | none ↦ none
      | some all_mapped_valid ↦
          if all_mapped_valid
          then some true
          else some
              (validate_with_stack m (some p) len t.stack_base (stack_size t.size_pow2) need_write)
    ]

-- `validate_user_ptr` with a task, which may be null; `none` if the fuel of the loop over
-- pages runs out.
unfoldable pub validate_user_ptr : ℕ → Memory → Option Owner → Option ℕ → ℕ → Bool → Option Bool
validate_user_ptr fuel m task none len need_write = some false
validate_user_ptr fuel m task (some p) len need_write =
    if ltb (end_of p len) p then some false else if len == 0 then some true else elim task [
      | none ↦ some (validate_with_stack m (some p) len 0 0 need_write)
      | some t ↦ validate_task fuel m t p len need_write
    ]
