-- ===== src/Govern/SkillAcl/Opens.antt =====
-- infra/govern/skillacl.py: what it takes to reach a skill, and that a broken policy opens nothing.
use cyberware.Prelude.{
  ◌≡◌, ◌↔◌, ◌≤◌, refl, Bool, true, false, not, ◌||◌, Option, some, ◌⊎◌, inl, inr, Text, codes,
  same_text, same_text_iff, any, passed_iff, if◌then◌else◌, arith,
}
use cyberware.Cwp.Chain.{Value, flag}
use cyberware.Govern.SkillAcl.{
  Allowed, Floor, Policy, Access, Reached, reached, anyone, not_a_list, only, no_floor, floor,
  odd_floor, unhashable_floor, absent, broken, policy, skill_remote_closed, skill_principal_denied,
  load_access, tier_level, below, check_floor, same_principal, excluded, is_true, check_policy,
  check_access, access_allows,
}

-- The floor is met: the caller's tier, the lowest where it is unknown, is not under it, and a floor that is
-- no known tier is the highest.
abbrev pub Meets : Floor → Option Text → Type 0
Meets no_floor have = Unit
Meets (floor need) have = tier_level 2 (some need) ≤ tier_level 0 have
Meets odd_floor have = 2 ≤ tier_level 0 have
Meets unhashable_floor have = ⊥

-- The list names the caller, if there is one.
abbrev pub Named : Allowed → Option Text → Type 0
Named anyone principal = Unit
Named not_a_list principal = ⊥
Named (only names) principal = any (same_principal principal) names ≡ true

-- The skill is open to a caller from elsewhere.
abbrev pub Exposed : Access → Option Text → Option Text → Bool → Type 0
Exposed absent principal tier enforce = enforce ≡ false
Exposed broken principal tier enforce = ⊥
Exposed (policy p) principal tier enforce =
    (p.remote ≡ flag true) × Named p.principals principal × Meets p.min_tier tier

floor_iff : (f : Floor) (have : Option Text) → (check_floor f have ≡ reached) ↔ Meets f have
unfolding check_floor below tier_level
floor_iff no_floor have = (λ h. tt, λ h. refl)
floor_iff (floor need) have = ground arith
floor_iff odd_floor have = ground arith
floor_iff unhashable_floor have = ground arith

on_list_iff :
    (a : Allowed) (principal : Option Text) → (excluded a principal ≡ false) ↔ Named a principal
on_list_iff anyone principal = (λ h. tt, λ h. refl)
on_list_iff not_a_list principal = ground arith
on_list_iff (only names) principal = ground arith

remote_iff : (v : Value) → (not (is_true v) ≡ false) ↔ (v ≡ flag true)
remote_iff v = ground arith

policy_iff :
    (p : Policy) (principal tier : Option Text)
    → (check_policy p principal tier ≡ reached) ↔ Exposed (policy p) principal tier false
unfolding check_policy
policy_iff p principal tier =
    let remote =
      passed_iff (not (is_true p.remote)) skill_remote_closed reached (λ e. ground arith) in
    let listed =
      passed_iff (excluded p.principals principal) skill_principal_denied reached
        (λ e. ground arith) in
    let opened = remote_iff p.remote in
    let named = on_list_iff p.principals principal in
    let met = floor_iff p.min_tier tier in
    (
      λ h.
          let (r, rest) = remote.0 h in
          let (l, last) = listed.0 rest in (opened.0 r, named.0 l, met.0 last),
      λ h. remote.1 (opened.1 h.0, listed.1 (named.1 h.1, met.1 h.2)),
    )

access_iff :
    (a : Access) (principal tier : Option Text) (enforce : Bool)
    → (check_access a principal tier enforce ≡ reached) ↔ Exposed a principal tier enforce
unfolding check_access
access_iff absent principal tier enforce = ground arith
access_iff broken principal tier enforce = ground arith
access_iff (policy p) principal tier enforce = policy_iff p principal tier

-- A skill is reached exactly where the daemon is the developer's own, the caller is a local developer, or
-- the skill is open to callers from elsewhere: it has no policy and the flag is off, or its policy says
-- `remote`, names the caller if it lists any, and asks for no tier above the caller's.
pub access_allows_iff :
    (a : Access) (mode : Text) (local_dev : Bool) (principal tier : Option Text) (enforce : Bool)
    → (access_allows a mode local_dev principal tier enforce ≡ reached)
      ↔ ((mode ≡ codes "local") ⊎ ((local_dev ≡ true) ⊎ Exposed a principal tier enforce))
unfolding access_allows
access_allows_iff a mode local_dev principal tier enforce =
    let e = same_text_iff mode (codes "local") in
    let there = access_iff a principal tier enforce in
    split (same_text mode (codes "local")) local_dev e there
  where
    split :
        {Q R : Type 0} {w : Reached} (m l : Bool)
        → ((m ≡ true) ↔ Q)
        → ((w ≡ reached) ↔ R)
        → ((if m || l then reached else w) ≡ reached) ↔ (Q ⊎ ((l ≡ true) ⊎ R))
    split true l e f = (λ h. inl (e.0 refl), λ h. refl)
    split false true e f = (λ h. inr (inl refl), λ h. refl)
    split false false e f = (
      λ h. inr (inr (f.0 h)),
      λ h. elim h [
        | inl q ↦ absurd (let b = e.1 q in ground arith)
        | inr (inl b) ↦ absurd (ground arith)
        | inr (inr r) ↦ f.1 r
      ],
    )

-- A policy file that cannot be read, or that holds no object, opens the skill to nobody from elsewhere.
pub load_access-closed :
    (mode : Text) (principal tier : Option Text) (enforce : Bool)
    → same_text mode (codes "local") ≡ false
    → access_allows (load_access true broken) mode false principal tier enforce
      ≡ skill_remote_closed
unfolding access_allows check_access check_policy
load_access-closed mode principal tier enforce h = ground arith
