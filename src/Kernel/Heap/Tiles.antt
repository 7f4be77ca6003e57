-- ===== src/Kernel/Heap/Tiles.antt =====
-- The blocks of the heap, in the order of their addresses: they cover it without a gap, the links
-- to their neighbours lead through them, and the free ones are in the free lists.
use aurora_os.Prelude.{
  ℕ, ◌+◌, ◌%◌, ◌≤◌, ◌<◌, ◌≡◌, refl, ◌⊎◌, inl, inr, ◌∙◌, sym, ap, Bool, true, false, Option, none,
  holds, List, [], ◌∷◌, ◌==◌, arith, contains, is_nodup, Bool-cases, ==_iff,
}
use mathlib.Core.Path.{subst}
use aurora_os.Kernel.Heap.{Heap, mapping_insert, tlsf_magic}
use aurora_os.Kernel.Heap.Ops.{heap_start}
use aurora_os.Kernel.Heap.Links.{first, Linked}
use aurora_os.Kernel.Heap.Lists.{Lists}

-- Blocks of at least the smallest size, each where the one before it ends, from `a` to `e`.
abbrev pub Span : (ℕ → ℕ) → List ℕ → ℕ → ℕ → Type 0
Span size [] a e = a ≡ e
Span size (x ∷ l) a e = (x ≡ a) × (40 ≤ size x) × (size x % 8 ≡ 0) × Span size l (a + size x) e

pub Span-low :
    (size : ℕ → ℕ) (l : List ℕ) (a e j : ℕ) → Span size l a e → contains j l ≡ true → a ≤ j
Span-low size [] a e j v k = absurd (ground arith)
Span-low size (x ∷ l) a e j v k = elim (Bool-cases (x == j)) [
  | inl this ↦ ground (arith, v.0)
  | inr that ↦ omega (arith, Span-low size l (a + size x) e j v.3 (ground arith))
]

pub Span-end : (size : ℕ → ℕ) (l : List ℕ) (a e : ℕ) → Span size l a e → a ≤ e
Span-end size [] a e v = omega (arith, v)
Span-end size (x ∷ l) a e v = omega (arith, Span-end size l (a + size x) e v.3)

pub Span-high :
    (size : ℕ → ℕ) (l : List ℕ) (a e j : ℕ) → Span size l a e → contains j l ≡ true → j + size j ≤ e
Span-high size [] a e j v k = absurd (ground arith)
Span-high size (x ∷ l) a e j v k = elim (Bool-cases (x == j)) [
  | inl this ↦
      let same = (==_iff x j).0 this in
      let ends = Span-end size l (a + size x) e v.3 in
      omega (arith, sym (ap (λ y. y + size y) same), v.0, ends)
  | inr that ↦ Span-high size l (a + size x) e j v.3 (ground arith)
]

pub Span-size :
    (size : ℕ → ℕ) (l : List ℕ) (a e j : ℕ)
    → Span size l a e
    → contains j l ≡ true
    → (40 ≤ size j) × (size j % 8 ≡ 0)
Span-size size [] a e j v k = absurd (ground arith)
Span-size size (x ∷ l) a e j v k = elim (Bool-cases (x == j)) [
  | inl this ↦ subst (λ y. (40 ≤ size y) × (size y % 8 ≡ 0)) ((==_iff x j).0 this) (v.1, v.2)
  | inr that ↦ Span-size size l (a + size x) e j v.3 (ground arith)
]

pub Span-out :
    (size : ℕ → ℕ) (l : List ℕ) (a e j : ℕ) → Span size l a e → j < a → contains j l ≡ false
Span-out size l a e j v lt = elim (Bool-cases (contains j l)) [
  | inl k ↦ absurd (omega (arith, Span-low size l a e j v k, lt))
  | inr out ↦ out
]

pub Span-nodup : (size : ℕ → ℕ) (l : List ℕ) (a e : ℕ) → Span size l a e → is_nodup l ≡ true
Span-nodup size [] a e v = refl
Span-nodup size (x ∷ l) a e v =
    let out : contains x l ≡ false =
      Span-out size l (a + size x) e x v.3 (omega (arith, v.0, v.1)) in
    ground (arith, out, Span-nodup size l (a + size x) e v.3)

-- Two blocks do not overlap.
pub Span-apart :
    (size : ℕ → ℕ) (l : List ℕ) (a e x y : ℕ)
    → Span size l a e
    → contains x l ≡ true
    → contains y l ≡ true
    → x == y ≡ false
    → (x + size x ≤ y) ⊎ (y + size y ≤ x)
Span-apart size [] a e x y v h k ne = absurd (ground arith)
Span-apart size (z ∷ l) a e x y v h k ne = elim (Bool-cases (z == x)) [
  | inl this ↦
      let same = (==_iff z x).0 this in
      let low = Span-low size l (a + size z) e y v.3 (ground arith) in
      inl (omega (arith, low, v.0, same, ap size same))
  | inr that ↦ elim (Bool-cases (z == y)) [
    | inl this ↦
        let same = (==_iff z y).0 this in
        let low = Span-low size l (a + size z) e x v.3 (ground arith) in
        inr (omega (arith, low, v.0, same, ap size same))
    | inr there ↦ Span-apart size l (a + size z) e x y v.3 (ground arith) (ground arith) ne
  ]
]

pub Span-frame :
    (size size' : ℕ → ℕ) (l : List ℕ) (a e : ℕ)
    → ((j : ℕ) → contains j l ≡ true → size' j ≡ size j)
    → Span size l a e
    → Span size' l a e
Span-frame size size' [] a e same v = v
Span-frame size size' (x ∷ l) a e same v =
    let eq = same x (ground arith) in
    (
      v.0,
      subst (λ n. 40 ≤ n) (sym eq) v.1,
      ap (λ n. n % 8) eq ∙ v.2,
      subst (λ n. Span size' l (a + n) e) (sym eq)
          (Span-frame size size' l (a + size x) e (λ j k. same j (ground arith)) v.3),
    )

-- A block is in the list of its class.
abbrev pub is_listed : (ℕ → ℕ) → (ℕ → ℕ → List ℕ) → ℕ → Bool
is_listed size q b = contains b (q (mapping_insert (size b)).0 (mapping_insert (size b)).1)

-- The heap is in order, but for the mark of block `e`.
pub record Valid (h : Heap) (q : ℕ → ℕ → List ℕ) (l : List ℕ) (e : Option ℕ) : Type 0 where
  pub head : h.head_block ≡ first l
  pub span : Span h.size l (heap_start h) (heap_start h + h.total_size)
  pub within : heap_start h + h.total_size < 4294967296
  pub chain : Linked h.next_phys h.prev_phys none l
  pub marked : (b : ℕ) → contains b l ≡ true → h.magic b ≡ tlsf_magic
  pub lists : Lists h q
  pub listed : (f s b : ℕ) → contains b (q f s) ≡ true → contains b l ≡ true
  pub free : (b : ℕ) → contains b l ≡ true → holds e b ≡ false → h.is_free b ≡ is_listed h.size q b

pub is_listed_of_class :
    (h : Heap) (q : ℕ → ℕ → List ℕ) (f s b : ℕ)
    → Lists h q
    → contains b (q f s) ≡ true
    → is_listed h.size q b ≡ true
is_listed_of_class h q f s b v k = ap (λ c. contains b (q c.0 c.1)) (v.class f s b k) ∙ k

pub in_no_list :
    (h : Heap) (q : ℕ → ℕ → List ℕ) (b : ℕ)
    → Lists h q
    → is_listed h.size q b ≡ false
    → (f s : ℕ) → contains b (q f s) ≡ false
in_no_list h q b v out f s = elim (Bool-cases (contains b (q f s))) [
  | inl k ↦ absurd (ground (arith, out, is_listed_of_class h q f s b v k))
  | inr none_there ↦ none_there
]
