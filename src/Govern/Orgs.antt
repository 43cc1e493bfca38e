-- ===== src/Govern/Orgs.antt =====
-- infra/govern/orgs.py: organisations over principals. The registry is the list of its entries in their
-- order; SHA-256 of a token is a parameter, and the registered digests are ASCII texts.
pub mod Enrolment
use cyberware.Prelude.{
  Bool, true, false, not, ◌&&◌, Option, none, some, List, [], ◌∷◌, ◌++◌, Text, codes, same_text,
  if◌then◌else◌,
}
use cyberware.Cwp.Chain.{Value, truthy}

-- The entry of a principal: `token_sha`, or the empty text where it is absent, and `revoked`.
pub record Member : Type 0 where
  pub token_sha : Text
  pub revoked : Value

abbrev pub Members : Type 0
Members = List (Text × Member)

abbrev pub Orgs : Type 0
Orgs = List (Text × Members)

pub record Authorized : Type 0 where
  pub org : Text
  pub principal : Text
  pub spiffe : Text

-- `spiffe_id`
abbrev pub spiffe_id : Text → Text → Text
spiffe_id org pid = codes "spiffe://cyberware/" ++ (org ++ (codes "/" ++ pid))

-- A principal that is not revoked and has this digest.
abbrev pub matches : Text → Member → Bool
matches want m = not (truthy m.revoked) && same_text m.token_sha want

unfoldable pub find_member : Text → Text → Members → Option Authorized
find_member want org [] = none
find_member want org ((pid, m) ∷ rest) =
    let later = find_member want org rest in
    if matches want m
    then some record { org = org; principal = pid; spiffe = spiffe_id org pid }
    else later

abbrev pub or_else : Option Authorized → Option Authorized → Option Authorized
or_else (some a) later = some a
or_else none later = later

unfoldable pub find_org : Text → Orgs → Option Authorized
unfolding find_member
find_org want [] = none
find_org want ((org, members) ∷ rest) = or_else (find_member want org members) (find_org want rest)

-- `authorize`; the argument is `token_sha`.
unfoldable pub authorize : (Text → Text) → Text → Orgs → Option Authorized
unfolding find_org
authorize sha [] registry = none
authorize sha (c ∷ cs) registry = find_org (sha (c ∷ cs)) registry

-- `can_access`
abbrev pub can_access : Text → Text → Bool
can_access requester target = same_text requester target
