-- ===== src/Lib.antt =====
-- A model of AuroraOS, an operating system for wearables in C++, and of what its parts guarantee.
--
-- The model covers the core of the kernel, its heap, its memory pools, its message queue and its check
-- of the pointers of system calls, and the rules of the packet filter:
--   - Kernel/Ready and Kernel/Dispatch: kernel/task/task.hpp, the class `Scheduler`. Ready has the task
--     table and the ready queues (`push_ready`, `remove_ready`, `set_task_state`, `set_task_priority`,
--     `create_task`, `free_task`), Dispatch the choice of the next task in `schedule`. The queues are
--     circular doubly linked lists through the tasks, one for each priority, with a bit map of those in
--     use; Ready/Ring to Ready/Inv refine them to one list of tasks for each priority.
--   - Kernel/WaitQueue: kernel/task/wait_queue.hpp and wait_queue.cpp, the class `WaitQueue`, a singly
--     linked list with a tail pointer, refined to a list of tasks.
--   - Kernel/Ipc: kernel/core/ipc.hpp and ipc.cpp, the class `Endpoint`: messages between tasks. It calls
--     the wait queues, and the scheduler's `set_task_state` and `set_task_priority`.
--     Ipc has the state, Ipc/Inherit, Ipc/Endpoint and Ipc/Cancel the operations; Ipc/Waits has the
--     invariant of the queues of all endpoints, Ipc/CallWaits, Ipc/ReceiveWaits and Ipc/CancelWaits that
--     the operations keep it, Ipc/Meeting and Ipc/Answer what a message and a reply deliver.
--   - Kernel/Cspace: kernel/core/cspace.hpp, cspace.cpp and kernel_object.hpp, the class `CSpace`: the
--     capabilities of tasks and the references of objects. The loss of an endpoint ends a wait there,
--     and the last release of one all waits, by the operations of Kernel/Ipc. Cspace/Revoke has
--     `cap_revoke`.
--   - Kernel/Heap: kernel/mm/memory.hpp, the class `KernelHeap`: `init`, `allocate`, `deallocate`,
--     `get_requested_size`. Heap has the free lists and their classes, Heap/Ops the operations on blocks.
--     Heap/Classes has the arithmetic of the classes, Heap/Links to Heap/Unlist refine the free lists to
--     lists, Heap/Search the search; Heap/Tiles has the invariant of the blocks, Heap/Free to
--     Heap/Release that each step keeps it, and Heap/Isolation the promises of the whole. A header is a
--     field by address, sizes are those of a 32-bit machine.
--   - Kernel/Validator: kernel/core/syscall_validator.cpp, the class `SyscallValidator`: the pointers that a
--     task may pass to a system call. It asks `contains` of the heap. Validator/Rules says which memory a
--     task may use, Validator/Pages has the loop over the pages, whose fuel is a parameter, Access and
--     Answers what the check promises.
--   - Kernel/MsgQueue: kernel/core/msg_queue.hpp, the class `MessageQueue`, a ring between one producer and
--     one consumer. Its calls are given whole and as the accesses to shared memory that they make, one
--     step each, so that the two sides interleave; a parameter says whether there is a current task,
--     without which a wait fails where it would suspend the task, and `push` and `pop` go on.
--     MsgQueue/Counts has the invariant of the steps, MsgQueue/Kept that each keeps it, MsgQueue/Fifo what
--     the queue promises, MsgQueue/Blocking how `push` and `pop` are runs of the steps.
--   - Kernel/MemoryPool: kernel/mm/memory_pool.hpp, the class `MemoryPool`, slots of one size;
--     MemoryPool/Slots has its theorems.
--   - Kernel/Tests: each of the kernel's theorems at a concrete state.
--   - Net/RuleTable: net/firewall/rule_table.hpp and rule_table.cpp, `add_rule` and `match` of the class
--     `RuleTable`. The packet is a function from positions to bytes with a length; the name of an
--     interface is one number, and its comparison by `strncmp` the test of equality. RuleTable/Meets says in
--     terms of the bytes what it is for a packet to meet a rule. Net/Tests has its
--     theorems at a concrete table.
--   - Prelude: what the parts share.
--
-- How the state is modelled. A struct of each task becomes one function of the task's number for each
-- field, so that `tasks[i].scheduler.state` is `s.state i`. Pointers to tasks, to endpoints and into
-- memory are numbers, and a null pointer or an index of -1 is `none`. Memory is a function from
-- addresses to bytes. A machine word that serves as a set of bits is a function to Bool. An operation
-- takes the state and gives the new one; the disabling of interrupts around an operation, or its lock,
-- is what makes it one step. `create_task`, `init`, and the operations of CSpace, as `cap_grant` and
-- `cap_delete`, of RuleTable and of SyscallValidator have neither: of these the model assumes that
-- nothing comes between. In `schedule` the turn and the choice are two steps. A call with a null task
-- has no counterpart, since it does nothing.
--
-- Bounds and fuel. MAX_TASKS is 16 and there are 32 priorities, the defaults of the code. A loop along
-- a list of tasks runs on fuel of 16: a list without repetition of tasks of the table is no longer
-- (Prelude/Pigeonhole), and each theorem on such a loop shows that the fuel is enough. A loop over the
-- bits of a word (`highest`, `find_lowest_bit`) runs on fuel of 32, or of 16 for a mask of slots,
-- since each round goes on past one bit or clears it. The loop of the pointer check over the pages of
-- a range takes its fuel as an argument; Validator/Answers says how much is enough.
--
-- What is not modelled: the machine code of the context switch, the stacks, registers and the memory
-- protection of tasks, and the parts of the system outside those named above. The waking of a task by
-- a semaphore of the message queue, and the translation of a task's address space, a parameter, belong
-- to these. The test `frame_scheduler_is_task_allowed` is a parameter of the choice, which may be any
-- test of a priority.
pub mod Prelude
pub mod Kernel
pub mod Net
