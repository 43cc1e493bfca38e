-- ===== src/Govern/Principals/Permits.antt =====
-- infra/govern/principals.py: what an actor's scope permits, told without the order of the checks.
use cyberware.Prelude.{
  ◌≤◌, ◌≡◌, refl, true, false, Option, none, some, ◌⊎◌, List, ◌∷◌, [], ℤ, ◌≤ℤ◌, Text, codes, arith,
}
use cyberware.Cwp.Chain.{truthy}
use cyberware.Govern.Principals.{Acl, among, pmap_entry, tier_rank, AclClaim, lists_perk}
use cyberware.Govern.Principals.Listed.{Listed}
use cyberware.Govern.Principals.Axes.{Covers}

-- The scope has not run out at a known time.
abbrev pub Current : Option ℤ → Option ℤ → Type 0
Current none now = Unit
Current (some exp) none = ⊥
Current (some exp) (some now) = now ≤ℤ exp

pub record Permits (a : Acl) (c : AclClaim) (now : Option ℤ) : Type 0 where
  pub in_force : truthy a.revoked ≡ false
  pub current : Current a.expires_at now
  pub skill :
      (a.skills ≡ some (codes "*" ∷ []))
      ⊎ (((skills : List Text) × (a.skills ≡ some skills) × Listed c.skill skills)
          ⊎ ((perks : List Text) × (pmap_entry c.skill a.perks ≡ some perks)))
  pub perk :
      (perks : List Text) → pmap_entry c.skill a.perks ≡ some perks → among c.perk perks ≡ true
  pub destructive :
      c.destructive ≡ true → (perks : List Text) × (pmap_entry c.skill a.perks ≡ some perks)
  pub secrets : c.credentialed ≡ true → truthy a.secrets ≡ true
  pub params : c.parameterized ≡ true → truthy a.params ≡ true
  pub cargo : (mode : Text) → c.cargo ≡ some mode → Covers a.cargo mode
  pub tier :
      (ceiling : Text)
      → a.max_tier ≡ some ceiling
      → tier_rank 2 c.perk_tier ≤ tier_rank 0 (some ceiling)

listed_in :
    (o : Option (List Text)) (perk : Text)
    → lists_perk perk o ≡ true
    → (ps : List Text) × (o ≡ some ps) × (among perk ps ≡ true)
listed_in none perk h = absurd (ground arith)
listed_in (some ps) perk h = (ps, refl, h)
