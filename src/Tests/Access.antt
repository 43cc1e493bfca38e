-- ===== src/Tests/Access.antt =====
-- Tests of the access policies of skills and of the organisations.
use cyberware.Prelude.{◌≡◌, refl, Bool, true, false, none, some, [], ◌∷◌, Text, codes, same_text}
use cyberware.Cwp.Chain.{missing, flag, truthy}
use cyberware.Govern.SkillAcl.{
  Access, Reached, policy, absent, broken, anyone, only, no_floor, floor, reached,
  skill_remote_closed, skill_principal_denied, skill_tier_below_floor, load_access, tier_level,
  access_allows,
}
use cyberware.Govern.Orgs.{Orgs, authorize}

abbrev listed : Access
listed =
    policy
      record { remote = flag true; principals = only (some (codes "pm") ∷ []); min_tier = no_floor }

abbrev core_only : Access
core_only =
    policy record { remote = flag true; principals = anyone; min_tier = floor (codes "core") }

abbrev ask : Access → Text → Text → Bool → Reached
ask access principal tier enforce =
    access_allows access (codes "remote") false (some principal) (some tier) enforce

open_by_default : ask absent (codes "x") (codes "core") false ≡ reached
unfolding access_allows same_text
open_by_default = refl

closed_by_flag : ask absent (codes "x") (codes "core") true ≡ skill_remote_closed
unfolding access_allows same_text
closed_by_flag = refl

broken_is_closed :
    ask (load_access true broken) (codes "x") (codes "core") false ≡ skill_remote_closed
unfolding access_allows same_text
broken_is_closed = refl

is_listed : ask listed (codes "pm") (codes "core") true ≡ reached
unfolding access_allows same_text
is_listed = refl

not_listed : ask listed (codes "x") (codes "core") true ≡ skill_principal_denied
unfolding access_allows same_text
not_listed = refl

under_floor : ask core_only (codes "x") (codes "community") true ≡ skill_tier_below_floor
unfolding access_allows tier_level same_text
under_floor = refl

-- Digests that are the tokens themselves; the second principal of the second organisation is revoked.
abbrev registry : Orgs
registry =
    (codes "a", (codes "a1", record { token_sha = codes "A"; revoked = missing }) ∷ [])
    ∷ (
      codes "b",
      (codes "b1", record { token_sha = codes "B"; revoked = flag false })
          ∷ (codes "b2", record { token_sha = codes "C"; revoked = flag true })
          ∷ [],
    )
    ∷ []

found_in_org :
    authorize (λ t. t) (codes "B") registry
    ≡ some
        record { org = codes "b"; principal = codes "b1"; spiffe = codes "spiffe://cyberware/b/b1" }
unfolding authorize same_text truthy
found_in_org = refl

revoked_is_refused : authorize (λ t. t) (codes "C") registry ≡ none
unfolding authorize same_text truthy
revoked_is_refused = refl
