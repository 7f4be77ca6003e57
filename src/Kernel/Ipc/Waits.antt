-- ===== src/Kernel/Ipc/Waits.antt =====
-- The invariant of the endpoints: their queues hold exactly the tasks that wait there.
use aurora_os.Prelude.{
  ℕ, ◌≤◌, ◌<◌, ◌≡◌, refl, inl, inr, ◌∙◌, ◌⊎◌, sym, ap, Bool, true, false, ◌&&◌, ◌||◌, Option, none,
  some, holds, List, [], ◌∷◌, arith, contains, is_nodup, erase, length, ◌==◌, if◌then◌else◌,
  Bool-cases, contains-erase, is_nodup-erase, erase_of_not-contains, ltb,
}
use aurora_os.Prelude.Pigeonhole.{length_of_nodup}
use aurora_os.Kernel.Ready.{max_tasks}
use aurora_os.Kernel.WaitQueue.{WaitQueue}
use aurora_os.Kernel.WaitQueue.Chain.{IsQueue, Chain-frame, insert}
use aurora_os.Kernel.Ipc.{System, IpcState, Ends, send_queue, recv_queue}
pub mod Leave
pub mod Enter

-- The two queues of an endpoint.
pub data Side : Type 0 where
  senders receivers : Side

abbrev pub side_eq : Side → Side → Bool
side_eq Side.senders Side.senders = true
side_eq Side.receivers Side.receivers = true
side_eq _ _ = false

abbrev pub side_of : (ℕ → Ends) → (ℕ → Ends) → Side → ℕ → Ends
side_of sends recvs Side.senders = sends
side_of sends recvs Side.receivers = recvs

abbrev pub ends_of : System → Side → ℕ → Ends
ends_of k b e = side_of k.send_ends k.recv_ends b e

abbrev pub queue_at : System → Side → ℕ → WaitQueue
queue_at k b e = record {
  next = k.blocked_next;
  head = (ends_of k b e).head;
  tail = (ends_of k b e).tail;
}

-- A task waits on this side of this endpoint.
abbrev pub waits_as : Side → IpcState → Bool
waits_as Side.senders IpcState.sending = true
waits_as Side.receivers IpcState.receiving = true
waits_as _ _ = false

abbrev pub waits_in : System → Side → ℕ → ℕ → Bool
waits_in k b e t = waits_as b (k.ipc_state t) && holds (k.waiting_endpoint t) e

pub record Waits (k : System) (l : Side → ℕ → List ℕ) : Type 0 where
  pub queue : (b : Side) (e : ℕ) → IsQueue (queue_at k b e) (l b e)
  pub nodup : (b : Side) (e : ℕ) → is_nodup (l b e) ≡ true
  pub member : (b : Side) (e t : ℕ) → contains t (l b e) ≡ waits_in k b e t
  pub table : (b : Side) (e t : ℕ) → contains t (l b e) ≡ true → t < max_tasks

pub length-Waits :
    (k : System) (l : Side → ℕ → List ℕ) (b : Side) (e : ℕ) → Waits k l → length (l b e) ≤ max_tasks
length-Waits k l b e v = length_of_nodup max_tasks (l b e) (v.nodup b e) (v.table b e)

-- A queue whose ends and links are as they were.
pub IsQueue-frame :
    (w w' : WaitQueue) (l : List ℕ)
    → (w'.head ≡ w.head)
    → (w'.tail ≡ w.tail)
    → ((j : ℕ) → contains j l ≡ true → w'.next j ≡ w.next j)
    → IsQueue w l
    → IsQueue w' l
IsQueue-frame w w' [] h t n v = (h ∙ v.0, t ∙ v.1)
IsQueue-frame w w' (x ∷ l) h t n v = (h ∙ v.0, Chain-frame w.next w'.next x l n v.1, t ∙ v.2)

pub same_place : (b b' : Side) (e e' : ℕ) → side_eq b b' && e == e' ≡ true → (b ≡ b') × (e ≡ e')
same_place Side.senders Side.senders e e' h = (refl, ground arith)
same_place Side.senders Side.receivers e e' h = cc
same_place Side.receivers Side.senders e e' h = cc
same_place Side.receivers Side.receivers e e' h = (refl, ground arith)

-- A task waits at one place.
pub waits_once :
    (k : System) (b b' : Side) (e e' t : ℕ)
    → waits_in k b e t ≡ true
    → side_eq b b' && e == e' ≡ false
    → waits_in k b' e' t ≡ false
waits_once k b b' e e' t h other = ground arith

-- A task of one place is not in the list of another.
pub elsewhere :
    (k : System) (l : Side → ℕ → List ℕ) (b b' : Side) (e e' j : ℕ)
    → Waits k l
    → side_eq b b' && e == e' ≡ false
    → contains j (l b' e') ≡ true
    → contains j (l b e) ≡ false
elsewhere k l b b' e e' j v other h = elim (Bool-cases (contains j (l b e))) [
  | inr out ↦ out
  | inl inside ↦ absurd (
      ground
        (arith, waits_once k b b' e e' j (sym (v.member b e j) ∙ inside) other, v.member b' e' j))
]

-- Nothing that the queues depend on has changed.
pub Waits-same :
    (k k' : System) (l : Side → ℕ → List ℕ)
    → Waits k l
    → ((b : Side) (e : ℕ) → ends_of k' b e ≡ ends_of k b e)
    → ((j : ℕ) → k'.blocked_next j ≡ k.blocked_next j)
    → ((b : Side) (e t : ℕ) → waits_in k' b e t ≡ waits_in k b e t)
    → Waits k' l
Waits-same k k' l v ends links same = record {
  queue = λ b e.
      IsQueue-frame (queue_at k b e) (queue_at k' b e) (l b e) (ap (λ x. x.head) (ends b e))
        (ap (λ x. x.tail) (ends b e)) (λ j h. links j) (v.queue b e);
  nodup = v.nodup;
  member = λ b e t. v.member b e t ∙ sym (same b e t);
  table = v.table;
}

-- Only the receivers of one endpoint, or only its senders, have changed.
module _ (sends sends' recvs recvs' : ℕ → Ends) (this : ℕ) where
  pub ends_but_receivers :
      ((e : ℕ) → sends' e ≡ sends e)
      → ((e : ℕ) → this == e ≡ false → recvs' e ≡ recvs e)
      → (b : Side) (e : ℕ) → side_eq Side.receivers b && this == e ≡ false
      → side_of sends' recvs' b e ≡ side_of sends recvs b e
  ends_but_receivers s r Side.senders e other = s e
  ends_but_receivers s r Side.receivers e other = r e other

  pub ends_but_senders :
      ((e : ℕ) → this == e ≡ false → sends' e ≡ sends e)
      → ((e : ℕ) → recvs' e ≡ recvs e)
      → (b : Side) (e : ℕ) → side_eq Side.senders b && this == e ≡ false
      → side_of sends' recvs' b e ≡ side_of sends recvs b e
  ends_but_senders s r Side.senders e other = s e other
  ends_but_senders s r Side.receivers e other = r e

  pub ends_same :
      ((e : ℕ) → sends' e ≡ sends e)
      → ((e : ℕ) → recvs' e ≡ recvs e)
      → (b : Side) (e : ℕ) → side_of sends' recvs' b e ≡ side_of sends recvs b e
  ends_same s r Side.senders e = s e
  ends_same s r Side.receivers e = r e

pub as_sender : (b : Side) → waits_as b IpcState.sending ≡ side_eq Side.senders b
as_sender Side.senders = refl
as_sender Side.receivers = refl

pub as_receiver : (b : Side) → waits_as b IpcState.receiving ≡ side_eq Side.receivers b
as_receiver Side.senders = refl
as_receiver Side.receivers = refl
