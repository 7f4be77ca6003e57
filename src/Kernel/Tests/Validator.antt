-- ===== src/Kernel/Tests/Validator.antt =====
-- The theorems on pointers of system calls at a task with a stack of 256 bytes and one page.
use aurora_os.Prelude.{
  ◌≡◌, refl, Bool, ℕ, ◌+◌, ◌≤◌, ◌<◌, true, false, none, some, arith, ◌==◌, if◌then◌else◌,
}
use aurora_os.Kernel.Heap.{pow2, insert_free_block}
use aurora_os.Kernel.Heap.Ops.{contains_range, init}
use aurora_os.Kernel.Validator.{
  Memory, Region, Owner, validate_with_stack, validate_user_ptr, user_pages,
}
use aurora_os.Kernel.Validator.Rules.{MayUse}
use aurora_os.Kernel.Validator.Access.{validate_user_ptr-MayUse}
use aurora_os.Kernel.Validator.Answers.{validate_user_ptr-wrapped, validate_user_ptr-returns}
use aurora_os.Kernel.Tests.Heap.{started}

abbrev region : ℕ → ℕ → Region
region a b = record { start = a; finish = b }

abbrev memory : Memory
memory = record {
  kernel_heap = started;
  heap = region 4096 8192;
  data_section = region 1000 2000;
  bss = region 2000 3000;
  flash = region 0x8000000 0x8010000;
  low_flash = false;
}

abbrev task : Owner
task = record {
  stack_base = 0x30000000;
  size_pow2 = 8;
  stack_canary_ptr = none;
  sandbox_is_valid = false;
  sandbox_base = 0;
  sandbox_pow2 = 0;
  vasp =
      some (λ va. if va == 0x40000000 then some (record { user = true; write = false }) else none);
}

-- 16 bytes of a page that may be read.
read_page : validate_user_ptr 3 memory (some task) (some 0x40000010) 16 false ≡ some true
unfolding validate_user_ptr user_pages pow2
read_page = refl

-- The page may not be written.
written_page : validate_user_ptr 3 memory (some task) (some 0x40000010) 16 true ≡ some false
unfolding validate_user_ptr user_pages pow2 validate_with_stack contains_range init
    insert_free_block
written_page = refl

validate_user_ptr-MayUse_example :
    (0x40000010 + 16 < 4294967296)
    × ((a : ℕ) → 0x40000010 ≤ a → a < 0x40000010 + 16 → MayUse memory (some task) false a)
validate_user_ptr-MayUse_example =
    validate_user_ptr-MayUse 3 memory (some task) 0x40000010 16 false (omega arith) (omega arith)
      (omega arith) read_page

validate_user_ptr-wrapped_example :
    validate_user_ptr 3 memory (some task) (some 0xFFFFFFF0) 32 false ≡ some false
validate_user_ptr-wrapped_example =
    validate_user_ptr-wrapped 3 memory (some task) 0xFFFFFFF0 32 false (omega arith) (omega arith)
      (omega arith)

validate_user_ptr-returns_example :
    (b : Bool) × (validate_user_ptr 3 memory (some task) (some 0x40000010) 16 true ≡ some b)
validate_user_ptr-returns_example =
    validate_user_ptr-returns 1 memory (some task) 0x40000010 16 true (omega arith) (omega arith)
