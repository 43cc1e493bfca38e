-- ===== src/Exec/Mounts/Exact.antt =====
-- infra/exec/capmanifest.py: what a profile that matches its manifest is.
use cyberware.Prelude.{
  ◌≡◌, ◌↔◌, refl, sym, ap, ◌∙◌, Bool, true, false, not, List, [], ◌∷◌, Text, same_text_iff,
  text_self, Bool-cases, inl, inr, arith, passed_iff,
}
use cyberware.Exec.Sandbox.{SandboxProfile}
use cyberware.Exec.Mounts.{
  CapabilityManifest, Mount, Mode, matches, ungranted_bind, dropped_bind, network_mismatch,
  same_mode, same_mount, has_mount, within, declared_mounts, materialized_mounts, same_flag,
  verify_materialized,
}

same_mode_iff : (m n : Mode) → (same_mode m n ≡ true) ↔ (m ≡ n)
same_mode_iff m n = ground arith

same_mount_eq : (m n : Mount) → same_mount m n ≡ true → m ≡ n
same_mount_eq (p, m) (q, n) h =
    pair_eq ((same_text_iff p q).0 (ground arith)) ((same_mode_iff m n).0 (ground arith))
  where
    pair_eq : {a b : Text} {k l : Mode} → a ≡ b → k ≡ l → ◌≡◌ {A = Mount} (a, k) (b, l)
    pair_eq e f = cc

same_mount_self : (m : Mount) → same_mount m m ≡ true
same_mount_self (p, m) = ground (arith, text_self p, same_mode_iff m m)

within_all :
    (xs ys : List Mount) (m : Mount)
    → within xs ys ≡ true
    → has_mount m xs ≡ true
    → has_mount m ys ≡ true
within_all [] ys m h there = absurd (ground arith)
within_all (x ∷ xs) ys m h there = elim (Bool-cases (same_mount m x)) [
  | inl here ↦ ap (λ y. has_mount y ys) (same_mount_eq m x here) ∙ first
  | inr later ↦ within_all xs ys m rest (ground arith)
]
  where
    first : has_mount x ys ≡ true
    first = ground arith

    rest : within xs ys ≡ true
    rest = ground arith

all_within :
    (xs ys : List Mount)
    → ((m : Mount) → has_mount m xs ≡ true → has_mount m ys ≡ true)
    → within xs ys ≡ true
all_within [] ys h = refl
all_within (x ∷ xs) ys h =
    let first = h x (ground (arith, same_mount_self x)) in
    let rest = all_within xs ys (λ m there. h m (ground arith)) in ground arith

both_ways : (a b : Bool) → (a ≡ true → b ≡ true) → (b ≡ true → a ≡ true) → a ≡ b
both_ways true true f g = refl
both_ways false false f g = refl
both_ways true false f g = sym (f refl)
both_ways false true f g = g refl

flags_iff : (a b : Bool) → (not (same_flag a b) ≡ false) ↔ (a ≡ b)
flags_iff a b = ground arith

not-true : (b : Bool) → (not b ≡ false) ↔ (b ≡ true)
not-true b = ground arith

-- A profile matches a manifest exactly where the mounts that are read off its command, which leave out the
-- binds under /proc, are as a set the mounts that the manifest declares, and both say the same of the network.
pub verify_materialized_iff :
    (exists : Text → Bool) (p : SandboxProfile) (m : CapabilityManifest)
    → (verify_materialized exists p m ≡ matches)
      ↔ ((mount : Mount)
          → has_mount mount (materialized_mounts exists p)
            ≡ has_mount mount (declared_mounts exists m))
        × (p.network ≡ m.network)
unfolding verify_materialized
verify_materialized_iff exists p m =
    let declared = declared_mounts exists m in
    let actual = materialized_mounts exists p in
    let g1 = passed_iff (not (within actual declared)) ungranted_bind matches (λ e. ground arith) in
    let g2 = passed_iff (not (within declared actual)) dropped_bind matches (λ e. ground arith) in
    let g3 =
      passed_iff (not (same_flag p.network m.network)) network_mismatch matches
        (λ e. ground arith) in
    (
      λ h.
          let (h1, r1) = g1.0 h in
          let (h2, r2) = g2.0 r1 in
          let (h3, _) = g3.0 r2 in
          (
            λ mount.
                both_ways (has_mount mount actual) (has_mount mount declared)
                  (within_all actual declared mount ((not-true (within actual declared)).0 h1))
                  (within_all declared actual mount ((not-true (within declared actual)).0 h2)),
            (flags_iff p.network m.network).0 h3,
          ),
      λ (same, net). g1.1 (
        (not-true (within actual declared)).1
            (all_within actual declared (λ mount there. sym (same mount) ∙ there)),
        g2.1 (
          (not-true (within declared actual)).1
              (all_within declared actual (λ mount there. same mount ∙ there)),
          g3.1 ((flags_iff p.network m.network).1 net, refl),
        ),
      ),
    )
