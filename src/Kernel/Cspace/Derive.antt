-- ===== src/Kernel/Cspace/Derive.antt =====
-- `cap_grant`, and `cap_derive` and `cap_mint`, which are grants within one task: a copy of a
-- capability never has more rights than the capability.
use aurora_os.Prelude.{
  ℕ, ◌≤◌, ◌<◌, ◌%◌, ◌/◌, ◌≡◌, refl, ◌⊎◌, inl, inr, ◌∙◌, ap, Bool, true, false, not, ◌==◌, ◌&&◌,
  ◌||◌, if◌then◌else◌, arith, Bool-cases,
}
use aurora_os.Kernel.Cspace.{
  Caps, CapType, reissue, CapRights, is_null, max_cspace_slots, is_valid_slot, cap_delete,
  cap_grant, copy_cap, requested, escalates,
}
use aurora_os.Kernel.Cspace.Mask.{IsConsistent, delete-cspace, write-same}

-- No right without the same right of the source.
abbrev pub IsWithin : CapRights → CapRights → Type 0
IsWithin r has =
    ((not r.read || has.read) ≡ true)
    × ((not r.write || has.write) ≡ true)
    × ((not r.grant || has.grant) ≡ true)

module _ (c : Caps) (src dst src_slot dst_slot : ℕ) (req : CapRights) (badge : ℕ) where
  abbrev apart : Bool
  apart = not (src == dst && src_slot == dst_slot)

  -- The slots after a copy to another slot.
  copy-cspace :
      (u i : ℕ)
      → dst_slot < max_cspace_slots
      → apart ≡ true
      → let c' = copy_cap c src src_slot dst dst_slot req badge in
        (c'.cspace u i ≡ (
          if dst == u && dst_slot == i
          then reissue (c.cspace src src_slot) req badge
          else c.cspace u i))
        × (c'.occupied_mask u i ≡ (if dst == u && dst_slot == i then true else c.occupied_mask u i))
  unfolding copy_cap
  copy-cspace u i lt ne =
      let c₁ = (cap_delete c dst dst_slot).1 in
      let d = delete-cspace c dst dst_slot in
      let from : c₁.cspace src src_slot ≡ c.cspace src src_slot =
        (d src src_slot lt).0 ∙ ground (arith, ne) in
      let w = write-same c₁ dst dst_slot (reissue (c₁.cspace src src_slot) req badge) u i in
      (
        w.0
            ∙ ap (λ x. if dst == u && dst_slot == i then reissue x req badge else c₁.cspace u i)
                from
            ∙ ground (arith, (d u i lt).0),
        w.1 ∙ ground (arith, (d u i lt).1),
      )

-- A grant took place: the copy has the object and type of the source, the rights asked for, none of
-- which the source lacks, and the badge given; every other slot is as it was.
pub record Granted (c : Caps) (src dst src_slot dst_slot rights badge : ℕ) (r : Bool × Caps)
    : Type 0 where
  pub success : r.0 ≡ true
  pub same_type : (r.1.cspace dst dst_slot).type ≡ (c.cspace src src_slot).type
  pub same_object : (r.1.cspace dst dst_slot).object ≡ (c.cspace src src_slot).object
  pub badged : (r.1.cspace dst dst_slot).badge ≡ badge
  pub read : (r.1.cspace dst dst_slot).rights.read ≡ (rights % 2 == 1)
  pub write : (r.1.cspace dst dst_slot).rights.write ≡ (rights / 2 % 2 == 1)
  pub grant : (r.1.cspace dst dst_slot).rights.grant ≡ (rights / 4 % 2 == 1)
  pub within : IsWithin (r.1.cspace dst dst_slot).rights (c.cspace src src_slot).rights
  pub others :
      (u i : ℕ)
      → (dst == u && dst_slot == i) ≡ false
      → (r.1.cspace u i ≡ c.cspace u i) × (r.1.occupied_mask u i ≡ c.occupied_mask u i)
  pub marked : r.1.occupied_mask dst dst_slot ≡ true

-- Why a grant fails: a slot out of range, an empty source, or a right that the source lacks.
abbrev pub Refusal : Caps → ℕ → ℕ → ℕ → ℕ → Type 0
Refusal c src src_slot dst_slot rights =
    let source = c.cspace src src_slot in
    (16 ≤ src_slot)
    ⊎ (16 ≤ dst_slot)
    ⊎ (source.type ≡ CapType.null)
    ⊎ ((rights % 2 ≡ 1) × (source.rights.read ≡ false))
    ⊎ ((rights / 2 % 2 ≡ 1) × (source.rights.write ≡ false))
    ⊎ ((rights / 4 % 2 ≡ 1) × (source.rights.grant ≡ false))

-- The guards of `cap_grant`.
abbrev pub refused : Caps → ℕ → ℕ → ℕ → ℕ → Bool
refused c src src_slot dst_slot rights =
    not (is_valid_slot src_slot)
    || not (is_valid_slot dst_slot)
    || is_null (c.cspace src src_slot).type
    || escalates (requested rights) (c.cspace src src_slot).rights

grant_eq :
    (c : Caps) (src dst src_slot dst_slot rights badge : ℕ) (b : Bool)
    → refused c src src_slot dst_slot rights ≡ b
    → cap_grant c src dst src_slot dst_slot rights badge ≡ (
        if b
        then (false, c)
        else (true, copy_cap c src src_slot dst dst_slot (requested rights) badge))
unfolding cap_grant
grant_eq c src dst src_slot dst_slot rights badge b e =
    ap
      (λ x.
        if x
        then (false, c)
        else (true, copy_cap c src src_slot dst dst_slot (requested rights) badge))
      e

-- `cap_grant` between different slots keeps every task's occupied mask right: a bit is set exactly
-- where the slot holds a capability.
pub grant-IsConsistent :
    (c : Caps) (src dst src_slot dst_slot rights badge : ℕ)
    → (src == dst && src_slot == dst_slot) ≡ false
    → IsConsistent c
    → IsConsistent (cap_grant c src dst src_slot dst_slot rights badge).1
grant-IsConsistent c src dst src_slot dst_slot rights badge ne v =
    elim (Bool-cases (refused c src src_slot dst_slot rights)) [
      | inl bad ↦ rw (grant_eq c src dst src_slot dst_slot rights badge true bad) v
      | inr fine ↦ rw (grant_eq c src dst src_slot dst_slot rights badge false fine) (λ u i small.
          let after =
            copy-cspace c src dst src_slot dst_slot (requested rights) badge u i (ground arith)
              (ground arith) in
          ground (arith, after, v u i, fine))
    ]

-- `cap_grant` of a capability onto its own slot, which `cap_derive` and `cap_mint` allow, reports
-- success, yet leaves the slot empty and its bit set, if the guards pass.
pub grant_onto_itself :
    (c : Caps) (t slot rights badge : ℕ)
    → refused c t slot slot rights ≡ false
    → let r = cap_grant c t t slot slot rights badge in
      (r.0 ≡ true) × (is_null (r.1.cspace t slot).type ≡ true) × (r.1.occupied_mask t slot ≡ true)
unfolding copy_cap
grant_onto_itself c t slot rights badge fine =
    let c₁ = (cap_delete c t slot).1 in
    let d = delete-cspace c t slot t slot (ground arith) in
    let w = write-same c₁ t slot (reissue (c₁.cspace t slot) (requested rights) badge) t slot in
    rw (grant_eq c t t slot slot rights badge false fine)
      (refl, ap (λ x. is_null x.type) w.0 ∙ ground (arith, d.0), w.1 ∙ ground arith)
