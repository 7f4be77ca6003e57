-- ===== src/Kernel/Heap/Search.antt =====
-- `search_suitable_block` finds the best class: what the two levels of bits say of the lists.
use aurora_os.Prelude.{
  ℕ, ◌+◌, ◌≤◌, ◌<◌, ◌≡◌, refl, inl, inr, ◌∙◌, sym, ap, true, false, ◌&&◌, leb, ltb, Option, none,
  some, is_some, List, [], ◌∷◌, arith, contains, Bool-cases,
}
use aurora_os.Prelude.Store.{find_lowest_bit}
use aurora_os.Prelude.Lowest.{IsLowest, find_lowest_bit-IsLowest}
use aurora_os.Kernel.Heap.{
  Heap, search_higher, search_suitable_block, lowest_from, nonzero, fl_index_count,
}
use aurora_os.Kernel.Heap.Classes.{AtLeast}
use aurora_os.Kernel.Heap.Links.{first, first-mem}
use aurora_os.Kernel.Heap.Lists.{Lists, class_small, nonzero_of_bit}

-- The block is in the list of a class that reaches `c`, and no list of a class that reaches `c`
-- but lies before it has a block; or no list that reaches `c` has one.
abbrev pub Best : (ℕ → ℕ → List ℕ) → ℕ × ℕ → Option ℕ → Type 0
Best q c (some b) =
    (f : ℕ) × (s : ℕ) × (contains b (q f s) ≡ true)
    × AtLeast c (f, s)
    × ((f' s' x : ℕ) → contains x (q f' s') ≡ true → AtLeast c (f', s') → AtLeast (f, s) (f', s'))
Best q c none = (f' s' x : ℕ) → contains x (q f' s') ≡ true → AtLeast c (f', s') → ⊥

module _ (h : Heap) (q : ℕ → ℕ → List ℕ) (v : Lists h q) where
  listed_bits :
      (f s x : ℕ)
      → contains x (q f s) ≡ true
      → (f < 20) × (s < 16) × (h.sl_bitmap f s ≡ true) × (h.fl_bitmap f ≡ true)
  listed_bits f s x k =
      let small = class_small (h.size x) in
      let lf : f < 20 = ground (arith, small, v.class f s x k) in
      let ls : s < 16 = ground (arith, small, v.class f s x k) in
      let on = v.sl_bit f s ∙ ap is_some (v.top f s) ∙ listed (q f s) k in
      (lf, ls, on, v.fl_bit f ∙ nonzero_of_bit (h.sl_bitmap f) s (omega (arith, ls)) on)
    where
      listed : (l : List ℕ) → contains x l ≡ true → is_some (first l) ≡ true
      listed [] k = absurd (ground arith)
      listed (y ∷ l) k = refl

  -- The list of a class whose bit is set has a first block.
  first_of :
      (f s : ℕ)
      → h.sl_bitmap f s ≡ true
      → (b : ℕ) × (h.blocks f s ≡ some b) × (contains b (q f s) ≡ true)
  first_of f s on = from (h.blocks f s) refl
    where
      from :
          (o : Option ℕ)
          → h.blocks f s ≡ o
          → (b : ℕ) × (h.blocks f s ≡ some b) × (contains b (q f s) ≡ true)
      from none e = absurd (ground (arith, e, v.sl_bit f s, on))
      from (some b) e = (b, e, first-mem (q f s) b (sym (v.top f s) ∙ e))

  bit_here : (f : ℕ) → h.fl_bitmap f ≡ true → nonzero (h.sl_bitmap f) ≡ true
  bit_here f on = sym (v.fl_bit f) ∙ on

  not_before :
      (f s f' s' x : ℕ)
      → ((j : ℕ) → j < s → h.sl_bitmap f j ≡ false)
      → contains x (q f' s') ≡ true
      → f ≤ f'
      → AtLeast (f, s) (f', s')
  not_before f s f' s' x low m le = elim (Bool-cases (ltb f f')) [
    | inl lt ↦ inl (ground arith)
    | inr ge ↦
        let e : f ≡ f' = ground arith in
        inr (
          e,
          elim (Bool-cases (leb s s')) [
            | inl ok ↦ ground arith
            | inr lt ↦
                let on = ap (λ i. h.sl_bitmap i s') e ∙ (listed_bits f' s' x m).2 in
                absurd (ground (arith, low s' (ground arith), on))
          ],
        )
  ]

  past_level :
      (fl sl f' s' x : ℕ)
      → ((s x : ℕ) → contains x (q fl s) ≡ true → sl ≤ s → ⊥)
      → contains x (q f' s') ≡ true
      → AtLeast (fl, sl) (f', s')
      → fl < f'
  past_level fl sl f' s' x out k (inl lt) = lt
  past_level fl sl f' s' x out k (inr (e, le)) =
      absurd (out s' x (ap (λ i. contains x (q i s')) e ∙ k) le)

  -- The class of the first level where the search ends, with the lowest bit of the second.
  at_level :
      (c : ℕ × ℕ) (f : ℕ) (o : Option ℕ)
      → IsLowest (h.sl_bitmap f) 0 32 o
      → is_some o ≡ true
      → c.0 < f
      → ((f' s' x : ℕ) → contains x (q f' s') ≡ true → AtLeast c (f', s') → f ≤ f')
      → Best q c (elim o [ none ↦ none | some s ↦ h.blocks f s ])
  at_level c f none low on above least = absurd cc
  at_level c f (some s) low on above least =
      let (b, e, k) = first_of f s low.2 in
      rw e (
        f,
        s,
        k,
        inl above,
        λ f' s' x m a.
            not_before f s f' s' x (λ j lt. low.3 j (omega arith) lt) m (least f' s' x m a),
      )

  higher-Best :
      (fl sl : ℕ)
      → ((s x : ℕ) → contains x (q fl s) ≡ true → sl ≤ s → ⊥)
      → Best q (fl, sl) (search_higher h fl)
  unfolding search_higher
  higher-Best fl sl out = elim (Bool-cases (leb fl_index_count (fl + 1))) [
    | inl top ↦
        rw top
          (λ f' s' x k a. ground (arith, past_level fl sl f' s' x out k a, listed_bits f' s' x k))
    | inr more ↦
        rw more (with_level (lowest_from (fl + 1) h.fl_bitmap) (find_lowest_bit-IsLowest 32 0 _))
  ]
    where
      with_level :
          (o : Option ℕ)
          → IsLowest (λ j. leb (fl + 1) j && h.fl_bitmap j) 0 32 o
          → Best q
              (fl, sl)
              (elim o [
                | none ↦ none
                | some f ↦ elim (find_lowest_bit 32 0 (h.sl_bitmap f)) [
                  | none ↦ none
                  | some s ↦ h.blocks f s
                ]
              ])
      with_level none low = λ f' s' x k a.
          let lt = past_level fl sl f' s' x out k a in
          let (small, i, j, on) = listed_bits f' s' x k in
          absurd (ground (arith, low f' (omega arith) (omega (arith, small)), on, lt))
      with_level (some f) low =
          at_level (fl, sl) f (find_lowest_bit 32 0 (h.sl_bitmap f))
            (find_lowest_bit-IsLowest 32 0 _) (bit_here f (ground (arith, low.2)))
            (ground (arith, low.2))
            (λ f' s' x k a.
              let lt = past_level fl sl f' s' x out k a in
              let (small, i, j, on) = listed_bits f' s' x k in
              elim (Bool-cases (leb f f')) [
                | inl ok ↦ ground arith
                | inr before ↦
                    absurd (ground (arith, low.3 f' (omega arith) (ground arith), on, lt))
              ])

  -- `search_suitable_block` finds a block of the first class, from the given one on, whose list is
  -- not empty, and none only if there is no such class.
  pub search_suitable_block-Best : (fl sl : ℕ) → Best q (fl, sl) (search_suitable_block h (fl, sl))
  unfolding search_suitable_block
  search_suitable_block-Best fl sl = elim (Bool-cases (leb fl_index_count fl)) [
    | inl out ↦ rw out (λ f' s' x k a. ground (arith, a, listed_bits f' s' x k))
    | inr within ↦
        rw within (with_level (lowest_from sl (h.sl_bitmap fl)) (find_lowest_bit-IsLowest 32 0 _))
  ]
    where
      with_level :
          (o : Option ℕ)
          → IsLowest (λ j. leb sl j && h.sl_bitmap fl j) 0 32 o
          → Best q (fl, sl) (elim o [ none ↦ search_higher h fl | some s ↦ h.blocks fl s ])
      with_level none low = higher-Best fl sl (λ s x k le.
          let (i, small, on, j) = listed_bits fl s x k in
          absurd (ground (arith, low s (omega arith) (omega (arith, small)), on, le)))
      with_level (some s) low =
          let (b, e, k) = first_of fl s (ground (arith, low.2)) in
          rw e (
            fl,
            s,
            k,
            inr (refl, ground (arith, low.2)),
            λ f' s' x m a. elim a [
              | inl lt ↦ inl lt
              | inr (same, le) ↦ inr (
                same,
                elim (Bool-cases (leb s s')) [
                  | inl ok ↦ ground arith
                  | inr before ↦
                      let on = ap (λ i. h.sl_bitmap i s') same ∙ (listed_bits f' s' x m).2 in
                      absurd (ground (arith, low.3 s' (omega arith) (ground arith), on, le))
                ],
              )
            ],
          )
