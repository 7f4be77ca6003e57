-- ===== src/Kernel/Ipc.antt =====
-- kernel/core/ipc.hpp and ipc.cpp: messages between tasks through endpoints. This file has the state
-- and what the operations share; the operations are in Ipc/Inherit, Ipc/Endpoint and Ipc/Cancel.
pub mod Inherit
pub mod Endpoint
pub mod Cancel
pub mod Copy
pub mod Highest
pub mod Schedulable
pub mod Restore
pub mod Answer
pub mod Waits
pub mod Meet
pub mod Deliver
pub mod CallWaits
pub mod Meeting
pub mod ReceiveWaits
pub mod CancelWaits
use aurora_os.Prelude.{
  ℕ, zero, suc, ◌+◌, ◌*◌, ◌%◌, Bool, true, false, Option, none, some, ltb, leb, ◌==◌, if◌then◌else◌,
}
use aurora_os.Prelude.Store.{update}
use aurora_os.Kernel.Ready.{Sched}
use aurora_os.Kernel.WaitQueue.{WaitQueue}

-- `enum class IpcState`
pub data IpcState : Type 0 where
  ready receiving reply_blocked sending : IpcState

-- `enum class IpcStatus`
pub data IpcStatus : Type 0 where
  ok timeout would_block invalid no_permission receiver_dead : IpcStatus

abbrev pub is_reply_blocked : IpcState → Bool
is_reply_blocked IpcState.reply_blocked = true
is_reply_blocked _ = false

-- The two pointers of a wait queue.
pub record Ends : Type 0 where
  pub head : Option ℕ
  pub tail : Option ℕ

-- The scheduler, the `IpcContext` of each task, field by field, the queues of each endpoint, and the
-- bytes of the memory. Tasks and endpoints are numbers, and so are addresses; a null pointer is
-- `none`.
pub record System : Type 0 where
  pub sched : Sched
  pub ipc_state : ℕ → IpcState
  pub status : ℕ → IpcStatus
  pub blocked_next : ℕ → Option ℕ
  pub msg_buf : ℕ → Option ℕ
  pub reply_buf : ℕ → Option ℕ
  pub msg_len : ℕ → ℕ
  pub max_len : ℕ → ℕ
  pub sender_id : ℕ → ℕ
  pub receiver_id : ℕ → ℕ
  pub badge : ℕ → ℕ
  pub msg_type : ℕ → ℕ
  pub label_filter : ℕ → ℕ
  pub waiting_endpoint : ℕ → Option ℕ
  pub send_ends : ℕ → Ends
  pub recv_ends : ℕ → Ends
  pub memory : ℕ → ℕ

-- The queues of an endpoint. All share the links of the tasks.
abbrev pub send_queue : System → ℕ → WaitQueue
send_queue k e = record {
  next = k.blocked_next;
  head = (k.send_ends e).head;
  tail = (k.send_ends e).tail;
}

abbrev pub recv_queue : System → ℕ → WaitQueue
recv_queue k e = record {
  next = k.blocked_next;
  head = (k.recv_ends e).head;
  tail = (k.recv_ends e).tail;
}

abbrev pub set_send_queue : System → ℕ → WaitQueue → System
set_send_queue k e w = record k {
  blocked_next = w.next;
  send_ends = update k.send_ends e (record { head = w.head; tail = w.tail });
}

abbrev pub set_recv_queue : System → ℕ → WaitQueue → System
set_recv_queue k e w = record k {
  blocked_next = w.next;
  recv_ends = update k.recv_ends e (record { head = w.head; tail = w.tail });
}

-- `IPC_TIMEOUT_INFINITE`, `IPC_NONBLOCK` and `MAX_IPC_MSG_SIZE`.
abbrev pub timeout_infinite : ℕ
timeout_infinite = 4294967295

abbrev pub nonblock : ℕ
nonblock = 0

abbrev pub max_msg_size : ℕ
max_msg_size = 4096

-- The ticks that a waiting task sleeps; 0 is for ever.
abbrev pub sleep_of : ℕ → ℕ
sleep_of timeout_ticks = if timeout_ticks == timeout_infinite then 0 else timeout_ticks

-- The bytes to copy: no more than there are, than the buffer takes, and than the limit.
abbrev pub clamp : ℕ → ℕ → ℕ
clamp len max_len =
    let copy_len = if ltb len max_len then len else max_len in
    if ltb max_msg_size copy_len then max_msg_size else copy_len

-- `for (i = 0; i < copy_len; ++i) dst[i] = src[i];`
unfoldable pub copy_bytes : ℕ → ℕ → ℕ → (ℕ → ℕ) → ℕ → ℕ
copy_bytes zero src dst memory = memory
copy_bytes (suc n) src dst memory =
    copy_bytes n (suc src) (suc dst) (update memory dst (memory src))

-- The copy, if neither buffer is null, and the length that the other side is told.
unfoldable pub transfer : ℕ → Option ℕ → Option ℕ → (ℕ → ℕ) → ℕ × (ℕ → ℕ)
unfolding copy_bytes
transfer copy_len none dst memory = (0, memory)
transfer copy_len (some s) none memory = (0, memory)
transfer copy_len (some s) (some d) memory =
    if ltb 0 copy_len then (copy_len, copy_bytes copy_len s d memory) else (0, memory)

-- The label of a message: the first four bytes of its header, of 8 bytes, if it has one.
unfoldable pub label_of : (ℕ → ℕ) → Option ℕ → ℕ → ℕ
label_of memory none len = 0
label_of memory (some a) len =
    if leb 8 len
    then memory a + 256 * memory (a + 1) + 65536 * memory (a + 2) + 16777216 * memory (a + 3)
    else 0

-- A task waits no longer.
abbrev pub stop_waiting : System → ℕ → IpcStatus → System
stop_waiting k t st = record k {
  sched = record k.sched { sleep_ticks = update k.sched.sleep_ticks t 0 };
  ipc_state = update k.ipc_state t IpcState.ready;
  status = update k.status t st;
  waiting_endpoint = update k.waiting_endpoint t none;
}
