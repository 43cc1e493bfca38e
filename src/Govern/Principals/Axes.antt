-- ===== src/Govern/Principals/Axes.antt =====
-- infra/govern/principals.py: the cargo mode and the tier that a scope grants.
use cyberware.Prelude.{
  ℕ, ◌≤◌, ◌≡◌, ◌≢◌, ◌↔◌, refl, sym, ap, subst, ◌∙◌, true, false, not, ◌&&◌, ◌||◌, Option, none,
  some, ◌⊎◌, inl, inr, Text, codes, same_text, same_text_iff, text_ne, Bool-cases, some_injective,
  arith, passed_iff, ltb,
}
use cyberware.Govern.Principals.{
  Acl, allowed, acl_cargo_malformed, acl_cargo_denied, acl_cargo_rw_denied, acl_tier_denied,
  tier_rank, AclClaim, is_mode, over_ceiling, check_cargo,
}

-- A scope's cargo mode covers the mode that is asked for.
abbrev pub Covers : Option Text → Text → Type 0
Covers granted mode =
    (granted ≡ some (codes "rw")) × ((mode ≡ codes "rw") ⊎ (mode ≡ codes "ro"))
    ⊎ (granted ≡ some (codes "ro")) × (mode ≡ codes "ro")

not_below : (a b : ℕ) → (ltb a b ≡ false) ↔ (b ≤ a)
not_below a b = ground arith

pub tier_iff :
    (o t : Option Text)
    → (over_ceiling o t ≡ false)
      ↔ ((ceiling : Text) → o ≡ some ceiling → tier_rank 2 t ≤ tier_rank 0 (some ceiling))
unfolding over_ceiling
tier_iff none t = (λ h ceiling e. absurd (ground arith), λ h. refl)
tier_iff (some c) t = (
  λ h ceiling e. subst (λ x. tier_rank 2 t ≤ tier_rank 0 (some x)) (some_injective e) (below h),
  λ h. above (h c refl),
)
  where
    below :
        ltb (tier_rank 0 (some c)) (tier_rank 2 t) ≡ false → tier_rank 2 t ≤ tier_rank 0 (some c)
    below h = (not_below (tier_rank 0 (some c)) (tier_rank 2 t)).0 h

    above :
        tier_rank 2 t ≤ tier_rank 0 (some c) → ltb (tier_rank 0 (some c)) (tier_rank 2 t) ≡ false
    above h = (not_below (tier_rank 0 (some c)) (tier_rank 2 t)).1 h

mode_iff : (t : Text) (o : Option Text) → (is_mode t o ≡ true) ↔ (o ≡ some t)
mode_iff t none = ground arith
mode_iff t (some m) =
    (λ h. ap some ((same_text_iff m t).0 h), λ h. (same_text_iff m t).1 (some_injective h))

module _ (mode read write : Text) (granted : Option Text) where
  covered_of :
      not (same_text mode read || same_text mode write) ≡ false
      → not (is_mode read granted || is_mode write granted) ≡ false
      → (same_text mode write && not (is_mode write granted)) ≡ false
      → (granted ≡ some write) × ((mode ≡ write) ⊎ (mode ≡ read))
        ⊎ (granted ≡ some read) × (mode ≡ read)
  covered_of h k l = elim (Bool-cases (is_mode write granted)) [
    | inl wide ↦ inl (
      (mode_iff write granted).0 wide,
      elim (Bool-cases (same_text mode write)) [
        | inl is_rw ↦ inl ((same_text_iff mode write).0 is_rw)
        | inr other ↦ inr ((same_text_iff mode read).0 (ground arith))
      ],
    )
    | inr narrow ↦
        inr ((mode_iff read granted).0 (ground arith), (same_text_iff mode read).0 (ground arith))
  ]

  covered_mode :
      read ≢ write
      → (granted ≡ some write) × ((mode ≡ write) ⊎ (mode ≡ read))
        ⊎ (granted ≡ some read) × (mode ≡ read)
      → (not (same_text mode read || same_text mode write) ≡ false)
        × (not (is_mode read granted || is_mode write granted) ≡ false)
        × ((same_text mode write && not (is_mode write granted)) ≡ false)
  covered_mode apart (inl (wide, inl is_rw)) =
      let a = (mode_iff write granted).1 wide in
      let b = (same_text_iff mode write).1 is_rw in (ground arith, ground arith, ground arith)
  covered_mode apart (inl (wide, inr is_ro)) =
      let a = (mode_iff write granted).1 wide in
      let b = (same_text_iff mode read).1 is_ro in (ground arith, ground arith, ground arith)
  covered_mode apart (inr (narrow, is_ro)) =
      let a = (mode_iff read granted).1 narrow in
      let b = (same_text_iff mode read).1 is_ro in
      let c = text_ne mode write (λ e. apart (sym is_ro ∙ e)) in
      (ground arith, ground arith, ground arith)

pub cargo_iff :
    (a : Acl) (c : AclClaim) (o : Option Text)
    → (check_cargo o a c ≡ allowed)
      ↔ ((mode : Text) → o ≡ some mode → Covers a.cargo mode)
        × (over_ceiling a.max_tier c.perk_tier ≡ false)
unfolding check_cargo
cargo_iff a c none = (λ h. (λ mode e. absurd (ground arith), ground arith), λ (h, k). ground arith)
cargo_iff a c (some mode) =
    let g1 =
      passed_iff (not (same_text mode (codes "ro") || same_text mode (codes "rw")))
        acl_cargo_malformed allowed (λ e. ground arith) in
    let g2 =
      passed_iff (not (is_mode (codes "ro") a.cargo || is_mode (codes "rw") a.cargo))
        acl_cargo_denied allowed (λ e. ground arith) in
    let g3 =
      passed_iff (same_text mode (codes "rw") && not (is_mode (codes "rw") a.cargo))
        acl_cargo_rw_denied allowed (λ e. ground arith) in
    let g4 =
      passed_iff (over_ceiling a.max_tier c.perk_tier) acl_tier_denied allowed
        (λ e. ground arith) in
    (
      λ h.
          let (h1, r1) = g1.0 h in
          let (h2, r2) = g2.0 r1 in
          let (h3, r3) = g3.0 r2 in
          (
            λ mode' e.
                subst (Covers a.cargo) (some_injective e)
                  (covered_of mode (codes "ro") (codes "rw") a.cargo h1 h2 h3),
            (g4.0 r3).0,
          ),
      λ (h, k).
          let (h1, h2, h3) =
            covered_mode mode (codes "ro") (codes "rw") a.cargo (λ e. ground arith) (h mode refl) in
          g1.1 (h1, g2.1 (h2, g3.1 (h3, g4.1 (k, refl)))),
    )
