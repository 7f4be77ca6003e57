-- ===== src/Kernel/Validator/Pages.antt =====
-- The loop of `validate_user_ptr` over the pages of a range.
use aurora_os.Prelude.{
  ℕ, zero, suc, ◌+◌, ◌*◌, ◌/◌, ◌%◌, ◌≤◌, ◌<◌, ◌≡◌, refl, inl, inr, ◌∙◌, ap, Bool, true, false,
  Option, none, some, ltb, if◌then◌else◌, arith, Bool-cases,
}
use aurora_os.Kernel.Validator.{MapFlags, page_ok, page_size, user_pages}

abbrev pub page_of : ℕ → ℕ
page_of a = a / page_size * page_size

in_page : (cur a : ℕ) → cur % 4096 ≡ 0 → cur ≤ a → a < cur + 4096 → page_of a ≡ cur
in_page cur a e h k = omega arith

next_aligned : (cur : ℕ) → cur % 4096 ≡ 0 → (cur + 4096) % 4294967296 % 4096 ≡ 0
next_aligned cur e = omega arith

step_on :
    (more ok : Bool) (rest : Option Bool) (b : Bool)
    → more ≡ true
    → ok ≡ true
    → (if more then (if ok then rest else some false) else some true) ≡ some b
    → rest ≡ some b
step_on more ok rest b e k h = ground arith

step_off :
    (more ok : Bool) (rest : Option Bool)
    → more ≡ true
    → ok ≡ false
    → (if more then (if ok then rest else some false) else some true) ≡ some true
    → ⊥
step_off more ok rest e k h = ground arith

answer_of :
    (ok b : Bool) (rest : Option Bool)
    → rest ≡ some b
    → (c : Bool) × ((if ok then rest else some false) ≡ some c)
answer_of true b rest e = (b, e)
answer_of false b rest e = (false, refl)

shut : (cur a : ℕ) → ltb a (cur + 4096) ≡ false → cur + 4096 ≤ a
shut cur a h = ground arith

past : (cur end : ℕ) → end ≤ cur → ltb cur end ≡ false
past cur end h = ground arith

reached : (cur end : ℕ) → ltb cur end ≡ true → cur < end
reached cur end h = ground arith

module _ (translate : ℕ → Option MapFlags) (need_write : Bool) where
  -- Where the loop accepts a range, it has looked at the page of every address in it.
  pub user_pages-all :
      (fuel cur end a : ℕ)
      → cur % 4096 ≡ 0
      → end < 4294967296
      → user_pages fuel translate need_write cur end ≡ some true
      → cur ≤ a
      → a < end
      → page_ok translate need_write (page_of a) ≡ true
  unfolding user_pages
  user_pages-all zero cur end a e small r h k = absurd cc
  user_pages-all (suc fuel) cur end a e small r h k =
      elim (Bool-cases (page_ok translate need_write cur)) [
        | inl ok ↦ elim (Bool-cases (ltb a (cur + 4096))) [
          | inl here ↦ ap (page_ok translate need_write) (in_page cur a e h (ground arith)) ∙ ok
          | inr later ↦
              user_pages-all fuel ((cur + 4096) % 4294967296) end a (next_aligned cur e) small
                (step_on (ltb cur end) _ _ _ (ground arith) ok r)
                (omega (arith, shut cur a later, small, k)) k
        ]
        | inr bad ↦ absurd (step_off (ltb cur end) _ _ (ground arith) bad r)
      ]

  -- The loop ends where the range does not reach into the last page of the address space.
  pub user_pages-returns :
      (fuel cur end : ℕ)
      → end ≤ 4294963200
      → end ≤ cur + fuel * 4096
      → (b : Bool) × (user_pages (suc fuel) translate need_write cur end ≡ some b)
  unfolding user_pages
  user_pages-returns zero cur end small enough = (
    true,
    ap
        (λ c.
          if c then (if page_ok translate need_write cur then none else some false) else some true)
        (past cur end (omega (arith, enough))),
  )
  user_pages-returns (suc fuel) cur end small enough = elim (Bool-cases (ltb cur end)) [
    | inl more ↦
        let (b, e) =
          user_pages-returns fuel ((cur + 4096) % 4294967296) end small
            (omega (arith, reached cur end more)) in
        rw more (answer_of (page_ok translate need_write cur) b _ e)
    | inr done ↦ (true, rw done refl)
  ]
