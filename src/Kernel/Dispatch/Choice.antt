-- ===== src/Kernel/Dispatch/Choice.antt =====
-- What `schedule` chooses, for a valid scheduler.
use aurora_os.Prelude.{
  ℕ, suc, ◌≤◌, ◌<◌, ◌≡◌, refl, sym, ◌∙◌, inl, inr, Bool, true, false, not, Option, none, some, List,
  [], ◌∷◌, ◌==◌, arith, contains, is_empty, Bool-cases,
}
use aurora_os.Prelude.Store.{find_highest_bit, find_highest_bit-some, find_highest_bit-none}
use aurora_os.Kernel.Ready.{Sched, is_ready, num_priorities, queue_of}
use aurora_os.Kernel.Ready.Inv.{IsValid, runnable}
use aurora_os.Kernel.Ready.Change.{queue_of_lt}
use aurora_os.Kernel.Dispatch.{index_or, pick, candidate, fallback, first_choice, last_choice}
use aurora_os.Kernel.Dispatch.Pick.{IsHighest, pick-IsHighest}
use aurora_os.Kernel.Dispatch.Turn.{first_of, ready_head-first}

contains-first_of : (l : List ℕ) (n : ℕ) → first_of l ≡ some n → contains n l ≡ true
contains-first_of [] n e = cc
contains-first_of (x ∷ l) n e = ground arith

first_of-some : (l : List ℕ) → not (is_empty l) ≡ true → (n : ℕ) × (first_of l ≡ some n)
first_of-some [] h = absurd (ground arith)
first_of-some (x ∷ l) h = (x, refl)

not_empty_of_contains : (i : ℕ) (l : List ℕ) → contains i l ≡ true → is_empty l ≡ false
not_empty_of_contains i [] h = absurd (ground arith)
not_empty_of_contains i (x ∷ l) h = refl

-- The head of a queue is a ready task of that priority.
pub record IsHead (s : Sched) (p n : ℕ) : Type 0 where
  pub ready : is_ready (s.state n) ≡ true
  pub lt : n < s.task_count
  pub prio : s.current_priority n ≡ p
  pub first : s.ready_head p ≡ some n

module _ (s : Sched) (q : ℕ → List ℕ) (v : IsValid s q) where
  pub ready_head-IsHead : (p n : ℕ) → p < num_priorities → s.ready_head p ≡ some n → IsHead s p n
  ready_head-IsHead p n h e = record {
    ready = ground (arith, facts);
    lt = ground (arith, facts);
    prio =
        ground
          (arith, facts, queue_of_lt (s.current_priority n) (v.current n (ground (arith, facts))));
    first = e;
  }
    where
      member : contains n (q p) ≡ true
      member = contains-first_of (q p) n (sym (ready_head-first s q p v.queues.queues h) ∙ e)

      facts : (runnable s n ≡ true) × (queue_of (s.current_priority n) == p ≡ true)
      facts = (
        ground (arith, member, v.queues.queues.member n p h, v.queues.queued n),
        ground (arith, member, v.queues.queues.member n p h),
      )

  -- A bit that is set has a head.
  pub bit-head :
      (p : ℕ) → p < num_priorities → s.ready_bitmask p ≡ true → (n : ℕ) × (s.ready_head p ≡ some n)
  bit-head p h on =
      let (n, e) = first_of-some (q p) (sym (v.queues.queues.bit p h) ∙ on) in
      (n, ready_head-first s q p v.queues.queues h ∙ e)

  -- The bit of a ready task is set.
  pub ready-bit :
      (i : ℕ)
      → i < s.task_count
      → is_ready (s.state i) ≡ true
      → s.ready_bitmask (s.current_priority i) ≡ true
  ready-bit i lt ready = ground (
    arith,
    v.queues.queues.bit (s.current_priority i) (v.current i lt),
    v.queues.queues.member i (s.current_priority i) (v.current i lt),
    v.queues.queued i,
    queue_of_lt (s.current_priority i) (v.current i lt),
    not_empty_of_contains i (q (s.current_priority i)),
  )

  -- The second fallback takes the head of the highest queue in use.
  fallback-head :
      (fuel p n : ℕ)
      → find_highest_bit num_priorities s.ready_bitmask ≡ some p
      → s.ready_head p ≡ some n
      → IsHead s p n
      → fallback (suc fuel) s s.ready_bitmask ≡ some n
  unfolding fallback
  fallback-head fuel p n e f h =
      rw (e, fallback) (rw (f, candidate) (ground (arith, h.ready, h.lt)))

  -- If any task is ready, the last stage gives one that is.
  pub last_choice-ready :
      (n i : ℕ)
      → i < s.task_count
      → is_ready (s.state i) ≡ true
      → (n < s.task_count)
      → let m = last_choice s n in (m < s.task_count) × (is_ready (s.state m) ≡ true)
  unfolding last_choice
  last_choice-ready n i lt ready n_lt = elim (Bool-cases (is_ready (s.state n))) [
    | inl yes_ready ↦ rw yes_ready (n_lt, yes_ready)
    | inr not_ready ↦ rw not_ready (from (find_highest_bit num_priorities s.ready_bitmask) refl)
  ]
    where
      from :
          (r : Option ℕ)
          → find_highest_bit num_priorities s.ready_bitmask ≡ r
          → let m = index_or n (fallback num_priorities s s.ready_bitmask) in
            (m < s.task_count) × (is_ready (s.state m) ≡ true)
      from none e = absurd (
          ground (
            arith,
            ready-bit i lt ready,
            find_highest_bit-none num_priorities s.ready_bitmask (s.current_priority i) e
                (v.current i lt),
          ))
      from (some p) e =
          let top = find_highest_bit-some num_priorities s.ready_bitmask p e in
          let (m, f) = bit-head p top.0 top.1 in
          let h = ready_head-IsHead p m top.0 f in rw (fallback-head 31 p m e f h) (h.lt, h.ready)

  module _ (allowed : ℕ → Bool) where
    -- The first stage: the head of the highest queue in use that is allowed.
    pub first_choice-some :
        (cur p n : ℕ)
        → pick num_priorities allowed s.ready_bitmask ≡ some p
        → s.ready_head p ≡ some n
        → first_choice allowed s cur ≡ n
    unfolding first_choice
    first_choice-some cur p n e f = rw (e, first_choice) (rw f)

    first_choice-none :
        (cur : ℕ)
        → pick num_priorities allowed s.ready_bitmask ≡ none
        → first_choice allowed s cur ≡ cur
    unfolding first_choice
    first_choice-none cur e = rw (e, first_choice)

    pub picked : IsHighest allowed s.ready_bitmask (pick num_priorities allowed s.ready_bitmask)
    picked = pick-IsHighest num_priorities allowed s.ready_bitmask (λ p ge lt. absurd (omega arith))

    pub first_choice-highest :
        (cur i : ℕ)
        → i < s.task_count
        → is_ready (s.state i) ≡ true
        → allowed (s.current_priority i) ≡ true
        → let n = first_choice allowed s cur in
          IsHead s (s.current_priority n) n
          × (allowed (s.current_priority n) ≡ true)
          × (s.current_priority i ≤ s.current_priority n)
    first_choice-highest cur i lt ready on =
        from (pick num_priorities allowed s.ready_bitmask) refl picked
      where
        from :
            (r : Option ℕ)
            → pick num_priorities allowed s.ready_bitmask ≡ r
            → IsHighest allowed s.ready_bitmask r
            → let n = first_choice allowed s cur in
              IsHead s (s.current_priority n) n
              × (allowed (s.current_priority n) ≡ true)
              × (s.current_priority i ≤ s.current_priority n)
        from none e h =
            absurd
              (ground (arith, h (s.current_priority i) (v.current i lt) (ready-bit i lt ready)))
        from (some p) e h =
            let (n, f) = bit-head p h.0 h.1 in
            let head = ready_head-IsHead p n h.0 f in
            rw (first_choice-some cur p n e f, head.prio)
              (
                head,
                h.2,
                ground (arith, h.3 (s.current_priority i), v.current i lt, ready-bit i lt ready),
              )

    pub first_choice-lt : (cur : ℕ) → cur < s.task_count → first_choice allowed s cur < s.task_count
    first_choice-lt cur lt = from (pick num_priorities allowed s.ready_bitmask) refl picked
      where
        from :
            (r : Option ℕ)
            → pick num_priorities allowed s.ready_bitmask ≡ r
            → IsHighest allowed s.ready_bitmask r
            → first_choice allowed s cur < s.task_count
        from none e h = rw (first_choice-none cur e) lt
        from (some p) e h =
            let (n, f) = bit-head p h.0 h.1 in
            rw (first_choice-some cur p n e f) (ready_head-IsHead p n h.0 f).lt
