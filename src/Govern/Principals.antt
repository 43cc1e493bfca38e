-- ===== src/Govern/Principals.antt =====
-- infra/govern/principals.py: who a bearer is, and the scope of an actor. The registry is the list of
-- its entries in their order; SHA-256 of a token and the registered schemes are parameters. The lists
-- of a scope hold texts, its expiry is in whole seconds, and the detail of a problem is left out.
pub mod Listed
pub mod Axes
pub mod Permits
use cyberware.Prelude.{
  ℕ, ◌+◌, ◌==◌, Bool, true, false, not, ◌&&◌, ◌||◌, Option, none, some, List, [], ◌∷◌, ◌++◌, ℤ,
  ltb_ℤ, ltb, Text, codes, same_text, any, if◌then◌else◌,
}
use cyberware.Cwp.Chain.{Value, truthy}

-- `acl["perks"]`: an object from skills to lists of perks, or nothing of the kind.
pub data Perks : Type 0 where
  no_perks : Perks
  perks_of : List (Text × List Text) → Perks

-- An `acl` block.
pub record Acl : Type 0 where
  pub skills : Option (List Text)
  pub perks : Perks
  pub max_tier : Option Text
  pub secrets : Value
  pub params : Value
  pub cargo : Option Text
  pub expires_at : Option ℤ
  pub revoked : Value

-- What `resolve_scope` finds: no scope, no object, or a block.
pub data Scope : Type 0 where
  unscoped misauthored : Scope
  scoped : Acl → Scope

-- An entry of the registry: `opaque` is no object, so that `get` on it raises; a known one has its
-- token_sha, its subject and its acl.
pub data Principal : Type 0 where
  opaque : Principal
  known : Option Text → Option Text → Scope → Principal

pub data AclVerdict : Type 0 where
  allowed acl_unscoped acl_malformed acl_revoked acl_expired acl_skill_denied acl_perk_denied
        acl_destructive_unlisted acl_secret_denied acl_params_denied acl_cargo_malformed
        acl_cargo_denied acl_cargo_rw_denied acl_tier_denied :
      AclVerdict

abbrev pub Registry : Type 0
Registry = List (Text × Principal)

-- An identity: the exception of an entry that is no object, or the id, if there is one.
pub data Identity : Type 0 where
  raised nobody : Identity
  principal : Text → Identity

-- `spec.get("token_sha", "")`, and `spec.get("subject") or ""`
abbrev pub text_or_empty : Option Text → Text
text_or_empty none = []
text_or_empty (some t) = t

-- The first entry whose token and subject pass the test.
unfoldable pub first_id : (Text → Text → Bool) → Registry → Identity
first_id p [] = nobody
first_id p ((pid, opaque) ∷ rest) = raised
first_id p ((pid, known t s a) ∷ rest) =
    let later = first_id p rest in
    if p (text_or_empty t) (text_or_empty s) then principal pid else later

-- `authenticate`; the argument is `token_sha`.
unfoldable pub authenticate : (Text → Text) → Text → Registry → Identity
unfolding first_id
authenticate sha [] registry = nobody
authenticate sha (c ∷ cs) registry =
    first_id (λ token subject. same_text token (sha (c ∷ cs))) registry

-- The registered schemes, by name; `none` of a scheme is a refusal or an exception.
abbrev pub Schemes : Type 0
Schemes = Text → Option (Text → Option Text)

-- `s or None`
abbrev pub not_empty : Option Text → Option Text
not_empty (some (c ∷ cs)) = some (c ∷ cs)
not_empty _ = none

unfoldable pub subject_of : Schemes → Text → Text → Option Text
subject_of schemes [] verifier = none
subject_of schemes (c ∷ cs) verifier = elim (schemes verifier) [
  | none ↦ none
  | some scheme ↦ not_empty (scheme (c ∷ cs))
]

abbrev pub is_empty : Text → Bool
is_empty [] = true
is_empty (c ∷ cs) = false

unfoldable pub resolve_principal : (Text → Text) → Schemes → Text → Registry → Text → Identity
unfolding authenticate subject_of
resolve_principal sha schemes bearer registry verifier =
    if is_empty verifier || same_text verifier (codes "token_sha")
    then authenticate sha bearer registry
    else elim (subject_of schemes bearer verifier) [
      | none ↦ nobody
      | some subject ↦ first_id (λ token own. not (is_empty own) && same_text own subject) registry
    ]

-- `acl` of the principal's entry.
abbrev pub acl_of : Principal → Scope
acl_of opaque = unscoped
acl_of (known t s a) = a

unfoldable pub resolve_scope : Registry → Text → Scope
resolve_scope [] pid = unscoped
resolve_scope ((id, spec) ∷ rest) pid =
    if same_text id pid then acl_of spec else resolve_scope rest pid

-- `s.split(":", 1)`, where there is a colon.
unfoldable pub split_colon : Text → Option (Text × Text)
split_colon [] = none
split_colon (c ∷ cs) =
    let rest = split_colon cs in
    if c == 58
    then some ([], cs)
    else elim rest [ none ↦ none | some (ns, name) ↦ some (c ∷ ns, name) ]

abbrev pub among : Text → List Text → Bool
among t ts = any (same_text t) ts

-- `_skill_listed`
unfoldable pub skill_listed : Text → Option (List Text) → Bool
unfolding split_colon
skill_listed skill none = false
skill_listed skill (some skills) = if among skill skills then true else elim (split_colon skill) [
  | none ↦ false
  | some (ns, name) ↦ among (ns ++ codes ":*") skills || among name skills
]

unfoldable pub lookup : Text → List (Text × List Text) → Option (List Text)
lookup k [] = none
lookup k ((j, v) ∷ rest) = if same_text j k then some v else lookup k rest

-- `_pmap_entry`, the list of perks.
unfoldable pub pmap_entry : Text → Perks → Option (List Text)
unfolding split_colon lookup
pmap_entry skill no_perks = none
pmap_entry skill (perks_of entries) = elim (lookup skill entries) [
  | some perks ↦ some perks
  | none ↦ elim (split_colon skill) [ none ↦ none | some (ns, leaf) ↦ lookup leaf entries ]
]

-- `_TIER_RANK.get(tier, default)`
unfoldable pub tier_rank : ℕ → Option Text → ℕ
unfolding same_text
tier_rank default none = default
tier_rank default (some t) =
    if same_text t (codes "core")
    then 0
    else if same_text t (codes "verified")
    then 1
    else if same_text t (codes "community")
    then 2
    else default

-- A claim of a skill's perk, with what it asks for.
pub record AclClaim : Type 0 where
  pub skill : Text
  pub perk : Text
  pub perk_tier : Option Text
  pub destructive : Bool
  pub credentialed : Bool
  pub parameterized : Bool
  pub cargo : Option Text

-- `exp is not None and (now is None or now > exp)`
abbrev pub expired : Option ℤ → Option ℤ → Bool
expired none now = false
expired (some exp) none = true
expired (some exp) (some now) = ltb_ℤ exp now

abbrev pub is_star : Option (List Text) → Bool
is_star (some (t ∷ [])) = same_text t (codes "*")
is_star _ = false

abbrev pub is_mode : Text → Option Text → Bool
is_mode t none = false
is_mode t (some m) = same_text m t

abbrev pub has_entry : Option (List Text) → Bool
has_entry none = false
has_entry (some perks) = true

abbrev pub lists_perk : Text → Option (List Text) → Bool
lists_perk perk none = false
lists_perk perk (some perks) = among perk perks

-- The tier of a perk is above the ceiling; an unknown tier counts as `community`, an unknown ceiling
-- as `core`.
unfoldable pub over_ceiling : Option Text → Option Text → Bool
unfolding tier_rank
over_ceiling none tier = false
over_ceiling (some ceiling) tier = ltb (tier_rank 0 (some ceiling)) (tier_rank 2 tier)

abbrev pub check_tier : Acl → AclClaim → AclVerdict
check_tier a c = if over_ceiling a.max_tier c.perk_tier then acl_tier_denied else allowed

-- The cargo axis, and then the ceiling.
unfoldable pub check_cargo : Option Text → Acl → AclClaim → AclVerdict
unfolding over_ceiling
check_cargo none a c = check_tier a c
check_cargo (some mode) a c =
    if not (same_text mode (codes "ro") || same_text mode (codes "rw"))
    then acl_cargo_malformed
    else if not (is_mode (codes "ro") a.cargo || is_mode (codes "rw") a.cargo)
    then acl_cargo_denied
    else if same_text mode (codes "rw") && not (is_mode (codes "rw") a.cargo)
    then acl_cargo_rw_denied
    else check_tier a c

-- The checks of a block, in their order.
unfoldable pub check_block : Acl → AclClaim → Option ℤ → AclVerdict
unfolding truthy skill_listed pmap_entry check_cargo
check_block a c now =
    let perks = pmap_entry c.skill a.perks in
    let listed = lists_perk c.perk perks in
    if truthy a.revoked
    then acl_revoked
    else if expired a.expires_at now
    then acl_expired
    else if not (is_star a.skills || skill_listed c.skill a.skills || has_entry perks)
    then acl_skill_denied
    else if has_entry perks && not listed
    then acl_perk_denied
    else if c.destructive && not listed
    then acl_destructive_unlisted
    else if c.credentialed && not (truthy a.secrets)
    then acl_secret_denied
    else if c.parameterized && not (truthy a.params)
    then acl_params_denied
    else check_cargo c.cargo a c

-- `acl_allows`
unfoldable pub acl_allows : Scope → AclClaim → Option ℤ → Bool → AclVerdict
unfolding check_block
acl_allows unscoped c now strict = if strict then acl_unscoped else allowed
acl_allows misauthored c now strict = acl_malformed
acl_allows (scoped a) c now strict = check_block a c now
