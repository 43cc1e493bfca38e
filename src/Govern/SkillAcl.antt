-- ===== src/Govern/SkillAcl.antt =====
-- infra/govern/skillacl.py: a skill's own policy of access, whoever claims it. The policy is what
-- `load_access` makes of the skill's `access.json`; the detail of a problem is left out.
pub mod Opens
use cyberware.Prelude.{
  ℕ, Bool, true, false, not, ◌||◌, Option, none, some, List, [], ◌∷◌, ltb, Text, codes, same_text,
  any, if◌then◌else◌,
}
use cyberware.Cwp.Chain.{Value, missing, null, flag, int, text, other}

-- `access["principals"]`: absent or null, no list, or a list. What is neither text nor null in the list
-- equals no principal, and is left out.
pub data Allowed : Type 0 where
  anyone not_a_list : Allowed
  only : List (Option Text) → Allowed

-- `access["min_tier"]`: absent or null, a text, a value that no key of the table equals, or one that cannot
-- be a key.
pub data Floor : Type 0 where
  no_floor : Floor
  floor : Text → Floor
  odd_floor unhashable_floor : Floor

pub record Policy : Type 0 where
  pub remote : Value
  pub principals : Allowed
  pub min_tier : Floor

-- A skill has no file, a file that does not hold an object, or a policy.
pub data Access : Type 0 where
  absent broken : Access
  policy : Policy → Access

-- `_CLOSED`
abbrev pub closed : Policy
closed = record { remote = flag false; principals = anyone; min_tier = no_floor }

-- What `load_access` reads: whether the file is there, and what it parses to.
abbrev pub load_access : Bool → Access → Access
load_access false parsed = absent
load_access true (policy p) = policy p
load_access true parsed = policy closed

pub data Reached : Type 0 where
  reached skill_remote_closed skill_principal_denied skill_tier_below_floor raised : Reached

-- `_TIER.get(tier, default)`
unfoldable pub tier_level : ℕ → Option Text → ℕ
unfolding same_text
tier_level default none = default
tier_level default (some t) =
    if same_text t (codes "core")
    then 2
    else if same_text t (codes "verified")
    then 1
    else if same_text t (codes "community")
    then 0
    else default

-- `not _tier_at_least(have, need)`
unfoldable pub below : Option Text → Option Text → Bool
unfolding tier_level
below have need = ltb (tier_level 0 have) (tier_level 2 need)

unfoldable pub check_floor : Floor → Option Text → Reached
unfolding below
check_floor no_floor have = reached
check_floor (floor need) have = if below have (some need) then skill_tier_below_floor else reached
check_floor odd_floor have = if below have none then skill_tier_below_floor else reached
check_floor unhashable_floor have = raised

abbrev pub same_principal : Option Text → Option Text → Bool
same_principal none none = true
same_principal (some a) (some b) = same_text a b
same_principal a b = false

abbrev pub excluded : Allowed → Option Text → Bool
excluded anyone principal = false
excluded not_a_list principal = true
excluded (only names) principal = not (any (same_principal principal) names)

abbrev pub is_true : Value → Bool
is_true (flag b) = b
is_true v = false

-- A skill that has a policy, towards others.
unfoldable pub check_policy : Policy → Option Text → Option Text → Reached
unfolding check_floor
check_policy p principal tier =
    if not (is_true p.remote)
    then skill_remote_closed
    else if excluded p.principals principal
    then skill_principal_denied
    else check_floor p.min_tier tier

unfoldable pub check_access : Access → Option Text → Option Text → Bool → Reached
unfolding check_policy
check_access absent principal tier enforce = if not enforce then reached else skill_remote_closed
check_access broken principal tier enforce = skill_remote_closed
check_access (policy p) principal tier enforce = check_policy p principal tier

unfoldable pub access_allows : Access → Text → Bool → Option Text → Option Text → Bool → Reached
unfolding check_access
access_allows access mode is_local_dev principal tier enforce =
    if same_text mode (codes "local") || is_local_dev
    then reached
    else check_access access principal tier enforce
