-- ===== src/Kernel/WaitQueue/Matching.antt =====
-- `WaitQueue::dequeue` takes the head, and `dequeue_matching_sender` and
-- `dequeue_matching_receiver` the first task that fits.
use aurora_os.Prelude.{
  ℕ, zero, suc, ◌≤◌, ◌<◌, ◌≡◌, refl, ◌∙◌, ap, fun_ext, sym, inl, inr, Bool, true, false, Option,
  none, some, List, [], ◌∷◌, ◌==◌, ◌||◌, if◌then◌else◌, arith, contains, is_nodup, erase, length,
  Bool-cases, ==_self,
}
use aurora_os.Kernel.Ready.{max_tasks}
use aurora_os.Kernel.WaitQueue.{
  WaitQueue, find_before, find_fit, dequeue, dequeue_at, dequeue_matching, matching_at, take_fit,
  unlink_first, dequeue_matching_sender, dequeue_matching_receiver,
}
use aurora_os.Kernel.WaitQueue.Chain.{Chain, IsQueue, find_first}
use aurora_os.Kernel.WaitQueue.Remove.{
  unlink_first-IsQueue, unlink_after-IsQueue, before_on, before_here, Frame,
}

-- One task left the queue, and the links of the tasks outside are as they were; or all is as it was.
abbrev pub Taken : List ℕ → WaitQueue → Option ℕ → Option ℕ × WaitQueue → Type 0
Taken l w none r = r ≡ (none, w)
Taken l w (some t) r = (r.0 ≡ some t) × IsQueue r.1 (erase l t) × Frame l w r.1

dequeue-some : (w : WaitQueue) (h : ℕ) → w.head ≡ some h → dequeue w ≡ (some h, unlink_first w h)
unfolding dequeue
dequeue-some w h e = ap (dequeue_at w) e

module _ (next : ℕ → Option ℕ) (fits : ℕ → Bool) where
  fit_here :
      (fuel x y : ℕ)
      → next x ≡ some y
      → fits y ≡ true
      → find_fit (suc fuel) next fits x ≡ some (x, y)
  unfolding find_fit
  fit_here fuel x y e f = rw (e, find_fit) (rw f)

  fit_on :
      (fuel x y : ℕ)
      → next x ≡ some y
      → fits y ≡ false
      → find_fit (suc fuel) next fits x ≡ find_fit fuel next fits y
  unfolding find_fit
  fit_on fuel x y e f = rw (e, find_fit) (rw f)

  fit_end : (fuel x : ℕ) → next x ≡ none → find_fit (suc fuel) next fits x ≡ none
  unfolding find_fit
  fit_end fuel x e = rw (e, find_fit)

  -- The same task, and the task before it, as the loop of `remove` finds.
  abbrev with_before : ℕ → ℕ → Option ℕ → Option (ℕ × ℕ)
  with_before fuel x none = none
  with_before fuel x (some t) = some (find_before fuel next t x, t)

  pub first-contains : (l : List ℕ) (t : ℕ) → find_first fits l ≡ some t → contains t l ≡ true
  first-contains [] t e = cc
  first-contains (x ∷ l) t e = elim (Bool-cases (fits x)) [
    | inl on ↦ ground (arith, on)
    | inr off ↦ ground (arith, off, first-contains l t)
  ]

  fit_lem :
      (fuel x : ℕ) (l : List ℕ)
      → length l < fuel
      → is_nodup (x ∷ l) ≡ true
      → Chain next x l
      → find_fit fuel next fits x ≡ with_before fuel x (find_first fits l)
  fit_lem zero x l f d c = absurd (omega arith)
  fit_lem (suc fuel) x [] f d c = fit_end fuel x c
  fit_lem (suc fuel) x (y ∷ l) f d c = elim (Bool-cases (fits y)) [
    | inl on ↦ rw (fit_here fuel x y c.0 on, on) (rw (before_here next y fuel x c.0) refl)
    | inr off ↦
        rw (fit_on fuel x y c.0 off, off)
          (fit_lem fuel y l (omega arith) (ground arith) c.1 ∙ moved (find_first fits l) refl)
  ]
    where
      moved :
          (o : Option ℕ) → o ≡ find_first fits l → with_before fuel y o ≡ with_before (suc fuel) x o
      moved none e = refl
      moved (some t) e =
          ap (λ b. some (b, t))
            (sym (before_on next t fuel x y c.0 (ground (arith, first-contains l t (sym e)))))

-- The first task that fits is taken out, and else nothing changes.
take_fit-Taken :
    (w : WaitQueue) (h : ℕ) (l : List ℕ) (fits : ℕ → Bool)
    → IsQueue w (h ∷ l)
    → is_nodup (h ∷ l) ≡ true
    → length (h ∷ l) ≤ max_tasks
    → Taken (h ∷ l) w (find_first fits l) (take_fit w (find_fit max_tasks w.next fits h))
unfolding take_fit
take_fit-Taken w h l fits v d f =
    rw (fit_lem w.next fits max_tasks h l (omega arith) d v.1) (taken (find_first fits l) refl)
  where
    taken :
        (o : Option ℕ)
        → o ≡ find_first fits l
        → Taken (h ∷ l) w o (take_fit w (with_before w.next fits max_tasks h o))
    taken none e = refl
    taken (some t) e =
        let there = first-contains w.next fits l t (sym e) in
        let miss : h == t ≡ false = ground (arith, there) in
        let (q, frame) = unlink_after-IsQueue w h t l v d f miss there in (refl, rw miss q, frame)

-- `dequeue`, on a queue without repetition, takes out the head, and changes nothing if the queue is
-- empty.
pub dequeue-Taken :
    (w : WaitQueue) (l : List ℕ)
    → IsQueue w l
    → is_nodup l ≡ true
    → Taken l w (find_first (λ t. true) l) (dequeue w)
unfolding dequeue
dequeue-Taken w [] v d = ap (dequeue_at w) v.0
dequeue-Taken w (h ∷ l) v d =
    rw (dequeue-some w h v.0, ==_self h)
      (refl, unlink_first-IsQueue w h l v d, λ j out. ground arith)

module _ (head_fits fits : ℕ → Bool) (w : WaitQueue) (h : ℕ) (e : w.head ≡ some h) where
  abbrev behind : Option ℕ × WaitQueue
  behind = take_fit w (find_fit max_tasks w.next fits h)

  matching_head : head_fits h ≡ true → dequeue_matching head_fits fits w ≡ dequeue w
  unfolding dequeue_matching
  matching_head on =
      ap (matching_at head_fits fits w) e ∙ ap (λ b. if b then dequeue w else behind) on

  matching_behind : head_fits h ≡ false → dequeue_matching head_fits fits w ≡ behind
  unfolding dequeue_matching
  matching_behind off =
      ap (matching_at head_fits fits w) e ∙ ap (λ b. if b then dequeue w else behind) off

-- Both tests agree once the one of the head fails.
dequeue_matching-Taken :
    (head_fits fits : ℕ → Bool) (w : WaitQueue) (l : List ℕ)
    → ((x y : ℕ) → head_fits x ≡ false → fits y ≡ head_fits y)
    → IsQueue w l
    → is_nodup l ≡ true
    → length l ≤ max_tasks
    → Taken l w (find_first head_fits l) (dequeue_matching head_fits fits w)
unfolding dequeue_matching
dequeue_matching-Taken head_fits fits w [] same v d f = ap (matching_at head_fits fits w) v.0
dequeue_matching-Taken head_fits fits w (h ∷ l) same v d f = elim (Bool-cases (head_fits h)) [
  | inl on ↦ rw (matching_head head_fits fits w h v.0 on, on) (dequeue-Taken w (h ∷ l) v d)
  | inr off ↦
      rw (matching_behind head_fits fits w h v.0 off, off, fun_ext (λ y. same h y off))
        (take_fit-Taken w h l head_fits v d f)
]

-- `dequeue_matching_sender`, on a queue of at most 16 tasks without repetition, takes out the first
-- task whose message has the label asked for, or the head if the label is 0, and changes nothing if
-- there is none.
pub dequeue_matching_sender-Taken :
    (msg_type : ℕ → ℕ) (label_filter : ℕ) (w : WaitQueue) (l : List ℕ)
    → IsQueue w l
    → is_nodup l ≡ true
    → length l ≤ max_tasks
    → Taken l w
        (find_first (λ t. label_filter == 0 || msg_type t == label_filter) l)
        (dequeue_matching_sender msg_type label_filter w)
unfolding dequeue_matching_sender
dequeue_matching_sender-Taken msg_type label_filter w l v d f =
    dequeue_matching-Taken _ _ w l (λ x y k. ground arith) v d f

-- `dequeue_matching_receiver`, on a queue of at most 16 tasks without repetition, takes out the
-- first task that asks for the sender's label or for none, and changes nothing if there is none.
pub dequeue_matching_receiver-Taken :
    (label_filter : ℕ → ℕ) (sender_label : ℕ) (w : WaitQueue) (l : List ℕ)
    → IsQueue w l
    → is_nodup l ≡ true
    → length l ≤ max_tasks
    → Taken l w
        (find_first (λ t. label_filter t == 0 || label_filter t == sender_label) l)
        (dequeue_matching_receiver label_filter sender_label w)
unfolding dequeue_matching_receiver
dequeue_matching_receiver-Taken label_filter sender_label w l v d f =
    dequeue_matching-Taken _ _ w l (λ x y k. refl) v d f
