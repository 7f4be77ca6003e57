-- ===== src/Kernel/WaitQueue/Remove.antt =====
-- `WaitQueue::dequeue`, `remove` and the two selective operations take out one task, and keep the
-- order of the others.
use aurora_os.Prelude.{
  ℕ, zero, suc, ◌≤◌, ◌<◌, ◌≡◌, refl, ◌∙◌, ap, sym, inl, inr, Bool, true, false, Option, none, some,
  List, [], ◌∷◌, ◌==◌, if◌then◌else◌, holds, arith, contains, is_nodup, erase,
  erase_of_not-contains, length, Bool-cases, ==_iff, ==_self,
}
use aurora_os.Prelude.Store.{update}
use aurora_os.Kernel.Ready.{max_tasks}
use aurora_os.Kernel.WaitQueue.{
  WaitQueue, find_before, remove, remove_from, unlink_first, unlink_after,
}
use aurora_os.Kernel.WaitQueue.Chain.{Chain, IsQueue, Chain-frame, contains-last, last}

-- The head taken out.
pub unlink_first-IsQueue :
    (w : WaitQueue) (x : ℕ) (l : List ℕ)
    → IsQueue w (x ∷ l)
    → is_nodup (x ∷ l) ≡ true
    → IsQueue (unlink_first w x) l
unlink_first-IsQueue w x [] v d = (ground (arith, v.1), ground (arith, v.1))
unlink_first-IsQueue w x (y ∷ l) v d =
    (v.1.0, Chain-frame w.next _ y l (λ j k. ground arith) v.1.1, ground (arith, v.1.0, v.2))

module _ (next : ℕ → Option ℕ) (task : ℕ) where
  pub before_on :
      (fuel x y : ℕ)
      → next x ≡ some y
      → y == task ≡ false
      → find_before (suc fuel) next task x ≡ find_before fuel next task y
  unfolding find_before
  before_on fuel x y e ne = rw (e, find_before) (rw ne)

  pub before_here : (fuel x : ℕ) → next x ≡ some task → find_before (suc fuel) next task x ≡ x
  unfolding find_before
  before_here fuel x e = rw (e, find_before) (rw (==_self task))

  before_end : (fuel x : ℕ) → next x ≡ none → find_before (suc fuel) next task x ≡ x
  unfolding find_before
  before_end fuel x e = rw (e, find_before)

  -- The links once the task behind `c` is taken out.
  abbrev cut_out : ℕ → ℕ → Option ℕ
  cut_out c = update (update next c (next task)) task none

  -- What the loop of `remove` finds, if the task is in the queue behind `x`.
  record Found (x : ℕ) (l : List ℕ) (c : ℕ) : Type 0 where
    leads : next c ≡ some task
    inside : contains c (x ∷ l) ≡ true
    other : c == task ≡ false
    rest : Chain (cut_out c) x (erase l task)
    end : last x (erase l task) ≡ (if last x l == task then c else last x l)

  Found-here :
      (x y : ℕ) (l : List ℕ)
      → y == task ≡ true
      → is_nodup (x ∷ y ∷ l) ≡ true
      → x == task ≡ false
      → Chain next x (y ∷ l)
      → Found x (y ∷ l) x
  Found-here x y [] hit d ne c = record {
    leads = ground (arith, c.0);
    inside = ground arith;
    other = ne;
    rest = ground (arith, c.1);
    end = ground arith;
  }
  Found-here x y (z ∷ l) hit d ne c = record {
    leads = ground (arith, c.0);
    inside = ground arith;
    other = ne;
    rest =
        rw hit
          (ground (arith, c.1.0), Chain-frame next (cut_out x) z l (λ j k. ground arith) c.1.1);
    end = ground (arith, contains-last z l);
  }

  Found-later :
      (x y c : ℕ) (l : List ℕ)
      → y == task ≡ false
      → is_nodup (x ∷ y ∷ l) ≡ true
      → x == task ≡ false
      → next x ≡ some y
      → Found y l c
      → Found x (y ∷ l) c
  Found-later x y c l miss d ne e f = record {
    leads = f.leads;
    inside = ground (arith, f.inside);
    other = f.other;
    rest = rw miss (ground (arith, f.inside), f.rest);
    end = rw miss f.end;
  }

  before-Found :
      (fuel x : ℕ) (l : List ℕ)
      → length l < fuel
      → is_nodup (x ∷ l) ≡ true
      → x == task ≡ false
      → contains task l ≡ true
      → Chain next x l
      → Found x l (find_before fuel next task x)
  before-Found zero x l f d ne k c = absurd (omega arith)
  before-Found (suc fuel) x [] f d ne k c = absurd (ground arith)
  before-Found (suc fuel) x (y ∷ l) f d ne k c = elim (Bool-cases (y == task)) [
    | inl hit ↦ rw (before_here fuel x (ground (arith, c.0))) (Found-here x y l hit d ne c)
    | inr miss ↦ rw (before_on fuel x y c.0 miss) (
        Found-later x y (find_before fuel next task y) l miss d ne c.0
          (before-Found fuel y l (omega arith) (ground arith) miss (ground arith) c.1))
  ]

  -- It finds the end if the task is not there.
  before-missing :
      (fuel x : ℕ) (l : List ℕ)
      → length l < fuel
      → contains task l ≡ false
      → Chain next x l
      → next (find_before fuel next task x) ≡ none
  before-missing zero x l f k c = absurd (omega arith)
  before-missing (suc fuel) x [] f k c = rw (before_end fuel x c) c
  before-missing (suc fuel) x (y ∷ l) f k c =
      rw (before_on fuel x y c.0 (ground arith))
        (before-missing fuel y l (omega arith) (ground arith) c.1)

-- The links of the tasks outside a list are as they were.
abbrev pub Frame : List ℕ → WaitQueue → WaitQueue → Type 0
Frame l w w' = (j : ℕ) → contains j l ≡ false → w'.next j ≡ w.next j

-- A task behind the head taken out.
pub unlink_after-IsQueue :
    (w : WaitQueue) (h task : ℕ) (l : List ℕ)
    → IsQueue w (h ∷ l)
    → is_nodup (h ∷ l) ≡ true
    → length (h ∷ l) ≤ max_tasks
    → h == task ≡ false
    → contains task l ≡ true
    → let w' = unlink_after w (find_before max_tasks w.next task h) task in
      IsQueue w' (h ∷ erase l task) × Frame (h ∷ l) w w'
unlink_after-IsQueue w h task l v d f miss there = (
  (v.0, found.rest, ground (arith, v.2, found.end)),
  λ j out. ground (arith, out, there, found.inside),
)
  where
    found : Found w.next task h l (find_before max_tasks w.next task h)
    found = before-Found w.next task max_tasks h l (omega arith) d miss there v.1

module _ (w : WaitQueue) (task h : ℕ) (e : w.head ≡ some h) where
  abbrev prev : ℕ
  prev = find_before max_tasks w.next task h

  abbrev tail_part : Bool × WaitQueue
  tail_part = if holds (w.next prev) task then (true, unlink_after w prev task) else (false, w)

  remove_hit : h == task ≡ true → remove w task ≡ (true, unlink_first w task)
  unfolding remove
  remove_hit hit =
      ap (remove_from w task) e ∙ ap (λ b. if b then (true, unlink_first w task) else tail_part) hit

  remove_there :
      h == task ≡ false
      → holds (w.next prev) task ≡ true
      → remove w task ≡ (true, unlink_after w prev task)
  unfolding remove
  remove_there miss on =
      ap (remove_from w task) e
      ∙ ap (λ b. if b then (true, unlink_first w task) else tail_part) miss
      ∙ ap (λ b. if b then (true, unlink_after w prev task) else (false, w)) on

  remove_gone : h == task ≡ false → holds (w.next prev) task ≡ false → remove w task ≡ (false, w)
  unfolding remove
  remove_gone miss off =
      ap (remove_from w task) e
      ∙ ap (λ b. if b then (true, unlink_first w task) else tail_part) miss
      ∙ ap (λ b. if b then (true, unlink_after w prev task) else (false, w)) off

holds_of_some : (o : Option ℕ) (i : ℕ) → o ≡ some i → holds o i ≡ true
holds_of_some o i e = rw e (==_self i)

holds_of_none : (o : Option ℕ) (i : ℕ) → o ≡ none → holds o i ≡ false
holds_of_none o i e = rw e refl

-- The result of `remove`: whether the task was in the queue, the queue without it, and the links of
-- the tasks outside as they were.
abbrev pub Removed : WaitQueue → List ℕ → ℕ → Bool × WaitQueue → Type 0
Removed w l task (b, w') = (b ≡ contains task l) × IsQueue w' (erase l task) × Frame l w w'

-- `remove`, on a queue of at most 16 tasks without repetition, says whether the task was in it, and
-- leaves the queue without the task, its tail included, and the links of the tasks outside as
-- they were.
pub remove-IsQueue :
    (w : WaitQueue) (l : List ℕ) (task : ℕ)
    → IsQueue w l
    → is_nodup l ≡ true
    → length l ≤ max_tasks
    → Removed w l task (remove w task)
unfolding remove
remove-IsQueue w [] task v d f = rw (ap (remove_from w task) v.0) (refl, v, λ j out. refl)
remove-IsQueue w (h ∷ l) task v d f = elim (Bool-cases (h == task)) [
  | inl hit ↦
      rw (remove_hit w task h v.0 hit, hit)
        (
          refl,
          unlink_first-IsQueue w task l (rw (sym ((==_iff h task).0 hit)) v)
              (rw (sym ((==_iff h task).0 hit)) d),
          λ j out. ground arith,
        )
  | inr miss ↦ elim (Bool-cases (contains task l)) [
    | inl there ↦
        rw
          (
            remove_there w task h v.0 miss (
                holds_of_some _ task
                  (before-Found w.next task max_tasks h l (omega arith) d miss there v.1).leads),
            miss,
          )
          (let (q, frame) = unlink_after-IsQueue w h task l v d f miss there in
            (sym there, q, frame))
    | inr gone ↦
        rw
          (
            remove_gone w task h v.0 miss (
                holds_of_none _ task
                  (before-missing w.next task max_tasks h l (omega arith) gone v.1)),
            miss,
            erase_of_not-contains task l gone,
          )
          (sym gone, v, λ j out. refl)
  ]
]
