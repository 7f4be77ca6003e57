-- ===== src/Kernel/Ready/Splice.antt =====
-- Insertion into a ring, and removal from it: the writes of `push_ready` and `remove_ready`.
use mathlib.Core.List.{append-nil}
use aurora_os.Prelude.{
  ℕ, ◌≡◌, true, false, Option, none, some, List, [], ◌∷◌, ◌++◌, ◌==◌, if◌then◌else◌, arith,
  contains, is_nodup, contains-append, disjoint_of_nodup, is_nodup_left, is_nodup_right, Bool-cases,
  inl, inr,
}
use aurora_os.Prelude.Store.{update, update?}
use aurora_os.Kernel.Ready.Ring.{Seg, last, first, Seg-prev, Seg-split, Seg-join, Seg-frame}

pub contains-last : (x : ℕ) (l : List ℕ) → contains (last x l) (x ∷ l) ≡ true
contains-last x [] = ground arith
contains-last x (y ∷ l) = ground (arith, contains-last y l)

-- The end of a segment led to another index.
Seg-retarget :
    (next prev next' prev' : ℕ → Option ℕ) (x : ℕ) (l : List ℕ) (z i : ℕ)
    → is_nodup (x ∷ l) ≡ true
    → ((j : ℕ) → contains j (x ∷ l) ≡ true → next' j ≡ (if j == last x l then some i else next j))
    → ((j : ℕ) → contains j l ≡ true → prev' j ≡ prev j)
    → prev' i ≡ some (last x l)
    → Seg next prev x l z
    → Seg next' prev' x l i
Seg-retarget next prev next' prev' x [] z i d hn hp e s = (ground (arith, hn x), e)
Seg-retarget next prev next' prev' x (y ∷ l) z i d hn hp e s = (
  ground (arith, hn x, contains-last y l),
  ground (arith, hp y),
  Seg-retarget next prev next' prev' y l z i (ground arith) (λ j h. hn j (ground arith))
      (λ j h. hp j (ground arith)) e s.2,
)

-- `push_ready` at a queue in use: the new index goes before the head, which is after the tail.
pub push_ring :
    (next prev : ℕ → Option ℕ) (h : ℕ) (t : List ℕ) (i : ℕ)
    → is_nodup (h ∷ t) ≡ true
    → contains i (h ∷ t) ≡ false
    → Seg next prev h t h
    → Seg
        (update (update? next (prev h) (some i)) i (some h))
        (update (update prev i (prev h)) h (some i))
        h
        (t ++ i ∷ [])
        h
push_ring next prev h t i d n s =
    Seg-join next' prev' h t i [] h
      (Seg-retarget next prev next' prev' h t h i d (λ j c. ground (arith, tail))
        (λ j c. ground arith) (ground (arith, tail)) s)
      (ground arith, ground arith)
  where
    tail : prev h ≡ some (last h t)
    tail = Seg-prev next prev h t h s

    next' : ℕ → Option ℕ
    next' = update (update? next (prev h) (some i)) i (some h)

    prev' : ℕ → Option ℕ
    prev' = update (update prev i (prev h)) h (some i)

module _ (next prev : ℕ → Option ℕ) (i n : ℕ) where
  -- The links that `remove_ready` leaves when `n` follows `i`.
  abbrev pub next_without : ℕ → Option ℕ
  next_without = update (update? next (prev i) (some n)) i none

  abbrev pub prev_without : ℕ → Option ℕ
  prev_without = update (update prev n (prev i)) i none

-- The head of a longer ring removed.
pub remove_head :
    (next prev : ℕ → Option ℕ) (i y : ℕ) (t : List ℕ)
    → is_nodup (i ∷ y ∷ t) ≡ true
    → Seg next prev i (y ∷ t) i
    → Seg (next_without next prev i y) (prev_without next prev i y) y t y
remove_head next prev i y t d s =
    Seg-retarget next prev (next_without next prev i y) (prev_without next prev i y) y t i y
      (ground arith) (λ j c. ground (arith, tail)) (λ j c. ground arith) (ground (arith, tail)) s.2
  where
    tail : prev i ≡ some (last y t)
    tail = Seg-prev next prev i (y ∷ t) i s

module _ (next prev : ℕ → Option ℕ) (h : ℕ) (a : List ℕ) (i : ℕ) (b : List ℕ)
    (d : is_nodup (h ∷ (a ++ i ∷ b)) ≡ true) (s : Seg next prev h (a ++ i ∷ b) h) where
  abbrev before : Seg next prev h a i
  before = (Seg-split next prev h a i b h s).0

  abbrev behind : Seg next prev i b h
  behind = (Seg-split next prev h a i b h s).1

  before_last : prev i ≡ some (last h a)
  before_last = Seg-prev next prev h a i before

  apart : (j : ℕ) → contains j (h ∷ a) ≡ true → contains j (i ∷ b) ≡ false
  apart j = disjoint_of_nodup j (h ∷ a) (i ∷ b) d

  nodup_before : is_nodup (h ∷ a) ≡ true
  nodup_before = is_nodup_left (h ∷ a) (i ∷ b) d

  nodup_behind : is_nodup (i ∷ b) ≡ true
  nodup_behind = is_nodup_right (h ∷ a) (i ∷ b) d

  -- The part before `i` leads to any index `n` that stands outside of it, or to its own head.
  led_on :
      (n : ℕ)
      → contains n a ≡ false
      → i == n ≡ false
      → Seg (next_without next prev i n) (prev_without next prev i n) h a n
  led_on n out ne =
      Seg-retarget next prev (next_without next prev i n) (prev_without next prev i n) h a i n
        nodup_before (λ j c. ground (arith, before_last, apart j)) (λ j c. ground (arith, apart j))
        (ground (arith, before_last)) before

remove_last :
    (next prev : ℕ → Option ℕ) (h : ℕ) (a : List ℕ) (i : ℕ)
    → is_nodup (h ∷ (a ++ i ∷ [])) ≡ true
    → Seg next prev h (a ++ i ∷ []) h
    → Seg (next_without next prev i h) (prev_without next prev i h) h a h
remove_last next prev h a i d s =
    led_on next prev h a i [] d s h (ground (arith, nodup_before next prev h a i [] d s))
      (ground (arith, apart next prev h a i [] d s h))

remove_middle :
    (next prev : ℕ → Option ℕ) (h : ℕ) (a : List ℕ) (i y : ℕ) (b : List ℕ)
    → is_nodup (h ∷ (a ++ i ∷ y ∷ b)) ≡ true
    → Seg next prev h (a ++ i ∷ y ∷ b) h
    → Seg (next_without next prev i y) (prev_without next prev i y) h (a ++ y ∷ b) h
remove_middle next prev h a i y b d s =
    Seg-join N P h a y b h
      (led_on next prev h a i (y ∷ b) d s y
        (elim (Bool-cases (contains y a)) [ inl c ↦ absurd (ground (arith, away y)) | inr c ↦ c ])
        (ground (arith, fresh)))
      (Seg-frame next prev N P y b h
        (λ j c. ground (arith, fresh, tail, away (last h a), contains-last h a))
        (λ j c. ground (arith, fresh, away h, contains-append j b (h ∷ [])))
        (behind next prev h a i (y ∷ b) d s).2)
  where
    N : ℕ → Option ℕ
    N = next_without next prev i y

    P : ℕ → Option ℕ
    P = prev_without next prev i y

    tail : prev i ≡ some (last h a)
    tail = before_last next prev h a i (y ∷ b) d s

    away : (j : ℕ) → contains j (h ∷ a) ≡ true → contains j (i ∷ y ∷ b) ≡ false
    away = apart next prev h a i (y ∷ b) d s

    fresh : is_nodup (i ∷ y ∷ b) ≡ true
    fresh = nodup_behind next prev h a i (y ∷ b) d s

-- An index behind the head removed.
pub remove_inner :
    (next prev : ℕ → Option ℕ) (h : ℕ) (a : List ℕ) (i : ℕ) (b : List ℕ)
    → is_nodup (h ∷ (a ++ i ∷ b)) ≡ true
    → Seg next prev h (a ++ i ∷ b) h
    → Seg (next_without next prev i (first b h)) (prev_without next prev i (first b h)) h (a ++ b) h
remove_inner next prev h a i [] d s = rw append-nil (remove_last next prev h a i d s)
remove_inner next prev h a i (y ∷ b) d s = remove_middle next prev h a i y b d s
