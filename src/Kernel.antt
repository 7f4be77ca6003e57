-- ===== src/Kernel.antt =====
-- The kernel.
pub mod Ready
pub mod Dispatch
pub mod WaitQueue
pub mod Ipc
pub mod Cspace
pub mod Heap
pub mod Validator
pub mod MsgQueue
pub mod MemoryPool
mod Tests
