-- ===== src/Kernel/MemoryPool/Slots.antt =====
-- The free slots of the pool are those without the mark of an allocated one.
use aurora_os.Prelude.{
  ℕ, suc, ◌+◌, ◌-◌, ◌*◌, ◌/◌, ◌≤◌, ◌<◌, ◌≡◌, refl, ◌⊎◌, inl, inr, ◌∙◌, sym, ap, true, false, not,
  Option, none, some, ltb, leb, ◌==◌, ◌&&◌, List, [], ◌∷◌, if◌then◌else◌, arith, contains, is_nodup,
  Bool-cases, ==_iff, ==_self,
}
use native.Mathlib.Nat.{mul-div_cancel}
use aurora_os.Prelude.Store.{update}
use aurora_os.Kernel.MemoryPool.{
  Layout, MemoryPool, slot_at, index_of, allocate, deallocate, may_release,
}

abbrev pub address : Layout → List ℕ → Option ℕ
address b [] = none
address b (i ∷ l) = some (slot_at b i)

abbrev pub Chained : Layout → (ℕ → Option ℕ) → List ℕ → Type 0
Chained b next [] = Unit {0}
Chained b next (i ∷ l) = (next (slot_at b i) ≡ address b l) × Chained b next l

-- The free list leads through the slots `l`, which are those of the pool that are not allocated.
pub record IsValid (b : Layout) (p : MemoryPool) (l : List ℕ) : Type 0 where
  pub top : p.free_list ≡ address b l
  pub chain : Chained b p.next l
  pub nodup : is_nodup l ≡ true
  pub exact : (i : ℕ) → contains i l ≡ ltb i b.pool_size && not (p.allocated i)

slot-index : (b : Layout) (i : ℕ) → 0 < b.slot_size → index_of b (slot_at b i) ≡ i
slot-index b i pos =
    ap (λ z. z / b.slot_size) (drop b.start (i * b.slot_size)) ∙ mul-div_cancel i pos
  where
    drop : (a x : ℕ) → a + x - a ≡ x
    drop a x = omega arith

slots_apart :
    (b : Layout) (i j : ℕ) → 0 < b.slot_size → i == j ≡ false → slot_at b i == slot_at b j ≡ false
slots_apart b i j pos ne = elim (Bool-cases (slot_at b i == slot_at b j)) [
  | inr other ↦ other
  | inl same ↦ absurd (
      ground (
        arith,
        ne,
        sym (slot-index b i pos) ∙ ap (index_of b) ((==_iff _ _).0 same) ∙ slot-index b j pos,
      ))
]

Chained-frame :
    (b : Layout) (next : ℕ → Option ℕ) (i : ℕ) (o : Option ℕ) (l : List ℕ)
    → 0 < b.slot_size
    → contains i l ≡ false
    → Chained b next l
    → Chained b (update next (slot_at b i) o) l
Chained-frame b next i o [] pos out c = tt
Chained-frame b next i o (j ∷ l) pos out c = (
  ap (λ x. if x then o else next (slot_at b j)) (slots_apart b i j pos (ground arith)) ∙ c.0,
  Chained-frame b next i o l pos (ground arith) c.1,
)

-- What an allocation gives: nothing, if every slot is allocated, or a slot that was not.
abbrev pub Given : Layout → MemoryPool → Option ℕ × MemoryPool → Type 0
Given b p (none, p') = (p' ≡ p) × ((i : ℕ) → i < b.pool_size → p.allocated i ≡ true)
Given b p (some slot, p') =
    (i : ℕ) × (l' : List ℕ) × (slot ≡ slot_at b i)
    × (i < b.pool_size)
    × (p.allocated i ≡ false)
    × IsValid b p' l'
    × (p'.allocated ≡ update p.allocated i true)

taken_exact :
    (b : Layout) (p : MemoryPool) (l : List ℕ) (i j : ℕ)
    → is_nodup (i ∷ l) ≡ true
    → contains j (i ∷ l) ≡ ltb j b.pool_size && not (p.allocated j)
    → contains j l ≡ ltb j b.pool_size && not (update p.allocated i true j)
taken_exact b p l i j d e = elim (Bool-cases (i == j)) [
  | inl this ↦ ground (arith, (==_iff i j).0 this)
  | inr that ↦ ground (arith, e)
]

given_exact :
    (b : Layout) (p : MemoryPool) (l : List ℕ) (i j : ℕ)
    → i < b.pool_size
    → contains j l ≡ ltb j b.pool_size && not (p.allocated j)
    → contains j (i ∷ l) ≡ ltb j b.pool_size && not (update p.allocated i false j)
given_exact b p l i j lt e = elim (Bool-cases (i == j)) [
  | inl this ↦ ground (arith, (==_iff i j).0 this, lt)
  | inr that ↦ ground (arith, e)
]

scale : (i n size : ℕ) → suc i ≤ n → suc i * size ≤ n * size
scale i n size h = grind arith

in_buffer :
    (b : Layout) (p : MemoryPool) (i : ℕ)
    → 0 < b.slot_size
    → i < b.pool_size
    → may_release b p (slot_at b i) ≡ p.allocated i
in_buffer b p i pos lt =
    ap (λ x. x && p.allocated (index_of b (slot_at b i)))
      (within b.start (i * b.slot_size) (b.pool_size * b.slot_size)
        (omega (arith, pos, scale i b.pool_size b.slot_size lt, wider i b.slot_size)))
    ∙ ap p.allocated (slot-index b i pos)
  where
    within : (a x y : ℕ) → x < y → leb a (a + x) && ltb (a + x) (a + y) ≡ true
    within a x y h = ground arith

    wider : (i size : ℕ) → suc i * size ≡ i * size + size
    wider i size = omega arith

Given-cases :
    (b : Layout) (p : MemoryPool) (l : List ℕ) (o : Option ℕ)
    → 0 < b.slot_size
    → IsValid b p l
    → o ≡ address b l
    → Given b p (elim o [
      | none ↦ (none, p)
      | some slot ↦ (
        some slot,
        record p { free_list = p.next slot; allocated = update p.allocated (index_of b slot) true },
      )
    ])
Given-cases b p [] none pos v e = (refl, λ i lt. ground (arith, v.exact i))
Given-cases b p (i ∷ l) none pos v e = absurd cc
Given-cases b p [] (some slot) pos v e = absurd cc
Given-cases b p (i ∷ l) (some slot) pos v e =
    let same : slot ≡ slot_at b i = some_inj e in
    let index = ap (index_of b) same ∙ slot-index b i pos in
    (
      i,
      l,
      same,
      ground (arith, v.exact i),
      ground (arith, v.exact i),
      record {
        top = ap p.next same ∙ v.chain.0;
        chain = v.chain.1;
        nodup = ground (arith, v.nodup);
        exact = λ j.
            taken_exact b p l i j v.nodup (v.exact j)
            ∙ ap (λ k. ltb j b.pool_size && not (update p.allocated k true j)) (sym index);
      },
      ap (λ k. update p.allocated k true) index,
    )
  where
    some_inj : {x y : ℕ} → some x ≡ some y → x ≡ y
    some_inj h = cc

-- `allocate` of a pool whose free list is exact gives a slot of the pool that was not allocated,
-- marks it and no other, and keeps the list exact; it gives none only if every slot is allocated.
pub allocate-Given :
    (b : Layout) (p : MemoryPool) (l : List ℕ)
    → 0 < b.slot_size
    → IsValid b p l
    → Given b p (allocate b p)
unfolding allocate
allocate-Given b p l pos v = Given-cases b p l p.free_list pos v v.top

abbrev released : Layout → MemoryPool → ℕ → MemoryPool
released b p i = record p {
  allocated = update p.allocated (index_of b (slot_at b i)) false;
  next = update p.next (slot_at b i) p.free_list;
  free_list = some (slot_at b i);
}

released-IsValid :
    (b : Layout) (p : MemoryPool) (l : List ℕ) (i : ℕ)
    → 0 < b.slot_size
    → i < b.pool_size
    → p.allocated i ≡ true
    → IsValid b p l
    → IsValid b (released b p i) (i ∷ l)
released-IsValid b p l i pos lt on v =
    let out : contains i l ≡ false = ground (arith, v.exact i, on) in
    record {
      top = refl;
      chain = (
        ap (λ x. if x then p.free_list else p.next (slot_at b i)) (==_self (slot_at b i)) ∙ v.top,
        Chained-frame b p.next i p.free_list l pos out v.chain,
      );
      nodup = ground (arith, out, v.nodup);
      exact = λ j.
          given_exact b p l i j lt (v.exact j)
          ∙ ap (λ k. ltb j b.pool_size && not (update p.allocated k false j))
              (sym (slot-index b i pos));
    }

-- `deallocate` with the address of a slot of the pool puts it back, and clears its mark and no
-- other, if it is allocated, and changes nothing if it is not; the free list stays exact.
pub deallocate-IsValid :
    (b : Layout) (p : MemoryPool) (l : List ℕ) (i : ℕ)
    → 0 < b.slot_size
    → i < b.pool_size
    → IsValid b p l
    → let p' = deallocate b p (some (slot_at b i)) in
      ((p.allocated i ≡ true) × IsValid b p' (i ∷ l) × (p'.allocated ≡ update p.allocated i false))
      ⊎ ((p.allocated i ≡ false) × (p' ≡ p))
unfolding deallocate
deallocate-IsValid b p l i pos lt v = elim (Bool-cases (p.allocated i)) [
  | inl on ↦
      let open_guard = in_buffer b p i pos lt ∙ on in
      rw open_guard (inl (on, back on, ap (λ k. update p.allocated k false) (slot-index b i pos)))
  | inr off ↦ inr (off, ap (λ c. if c then released b p i else p) (in_buffer b p i pos lt ∙ off))
]
  where
    back : p.allocated i ≡ true → IsValid b (released b p i) (i ∷ l)
    back on = released-IsValid b p l i pos lt on v
