-- ===== src/Kernel/Tests.antt =====
-- The kernel's theorems at concrete states, and runs of its operations.
mod Sched
mod WaitQueue
mod Ipc
mod Cspace
mod Heap
mod Validator
mod MsgQueue
mod MemoryPool
