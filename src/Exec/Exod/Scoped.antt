-- ===== src/Exec/Exod/Scoped.antt =====
-- infra/exec/exod.py: a strict daemon runs a step only in the scope that the operator attests.
use cyberware.Prelude.{◌≡◌, none, some, ℤ, Text}
use cyberware.Cwp.Envelope.{Envelope}
use cyberware.Govern.Principals.Permits.{Permits}
use cyberware.Exec.Grant.{default_skew}
use cyberware.Exec.Acl.{Attestation, attested_acl}
use cyberware.Exec.Acl.Attested.{Attests}
use cyberware.Exec.Exod.{GrantBody, Request, Exod, claim_of_grant}

-- The operator's key is pinned and attests a scope that permits the grant's claim, with the digest
-- that the grant names.
pub record InScope (x : Exod) (r : Request) (g : GrantBody) (now : ℤ) : Type 0 where
  pub key : Text
  pub pinned : x.acl_issuer_pub ≡ some key
  pub att : Envelope
  pub sent : r.attestation ≡ some att
  pub body : Attestation
  pub attests : Attests x.acl key att now default_skew g.acl_sha body
  pub permits : Permits (attested_acl body) (claim_of_grant g r.env) none
