-- ===== src/Exec/Exod.antt =====
-- infra/exec/exod.py: the execution daemon, which verifies a grant against a request, runs the step in
-- its sandbox and signs the outcome. The reading of JSON, the directory of the step's code, the secrets
-- and the run of a sandboxed command are parameters; the time of the run and the log are left out. Run
-- ids, plan digests and steps are texts.
pub mod Steps
pub mod Confined
pub mod Ran
pub mod Once
pub mod Scoped
use cyberware.Prelude.{
  Bool, true, false, not, ◌&&◌, ◌||◌, Option, none, some, List, [], ◌∷◌, ◌++◌, map, ℤ, pos, is_zero,
  Text, codes, same_text, any, all, if◌then◌else◌,
}
use cyberware.Cwp.Chain.{Value, missing, null, text, is_text, truthy}
use cyberware.Cwp.Envelope.{Envelope}
use cyberware.Cwp.Sign.{EdVerify, keyid}
use cyberware.Govern.Principals.{
  AclClaim, AclVerdict, acl_allows, not_empty, allowed, scoped, among,
}
use cyberware.Exec.Grant.{
  Argv, Claim, Expected, Verifier, GrantVerdict, granted, NonceCache, spend, nonce_text,
  verify_grant, default_skew,
}
use cyberware.Exec.Acl.{
  Attestation, AclVerifier, Attesting, attested, attested_acl, verify_acl_attestation, Proof,
  ProofVerifier, Step, Proving, proven, verify_token_proof,
}
use cyberware.Exec.Sandbox.{SandboxProfile, backend_for_tier, strongest, core_ro}
use cyberware.Exec.Mounts.{CapabilityManifest, Materialized, matches, verify_materialized}
use cyberware.Exec.Closure.{Snip, closure_decision}
use cyberware.Exec.Vault.{Vault, Env, assign, inject_step_env}
use cyberware.Exec.Result.{StepResult}

-- The body of a grant: what `verify_grant` reads, and what the daemon reads besides.
pub record GrantBody : Type 0 where
  pub claim : Claim
  pub capabilities : List Text
  pub credentials : List Text
  pub snippet_shas : List (Text × Text)
  pub tier : Option Text
  pub sandbox_tier : Option Text
  pub acl_sha : Value
  pub skill : Text
  pub perk : Text
  pub destructive : Bool
  pub cargo : Option Text

abbrev pub is_nil : List Text → Bool
is_nil [] = true
is_nil (t ∷ ts) = false

-- A request. One that names no run or no plan has `none` there; one without a workspace or an argument
-- list ends in a KeyError before anything runs, and is left out.
pub record Request : Type 0 where
  pub run_id : Option Text
  pub plan_sha : Option Text
  pub step : Text
  pub grant : Envelope
  pub nonce : Option Text
  pub workspace : Text
  pub argv : List Text
  pub env : Env
  pub attestation : Option Envelope
  pub token_proof : Option Envelope

-- Why a request is refused off the operator's attestation.
pub data Deny : Type 0 where
  unscoped_grant no_issuer_pinned attestation_missing proof_missing proof_bad_pubkey : Deny
  unattested : Attesting → Deny
  denied : AclVerdict → Deny
  unproven : Proving → Deny

-- Why a request is refused.
pub data Refusal : Type 0 where
  by_grant : GrantVerdict → Refusal
  by_acl : Deny → Refusal
  by_capability : Text → Refusal
  by_closure : Text → Refusal
  by_mount : Materialized → Refusal
  grant_replay community_no_secrets vault_unavailable vault_resolve_failed sandbox_unavailable :
      Refusal

-- What the daemon is started with, and the parameters. `refusal_sha` is the digest of a refusal's tag;
-- `runner` gives the exit code and the output, `none` where it raises.
pub record Exod : Type 0 where
  pub ed_verify : EdVerify
  pub key_digest : Text → Text
  pub grant_of : Text → Option GrantBody
  pub acl : AclVerifier
  pub proofs : ProofVerifier
  pub decode : Text → Option Text
  pub sha : Text → Text
  pub refusal_sha : Refusal → Text
  pub public_key : Text
  pub issuer_pub : Text
  pub acl_issuer_pub : Option Text
  pub acl_strict : Bool
  pub profile : Text → SandboxProfile
  pub exists : Text → Bool
  pub join : Text → Text → Text
  pub snip : Text → Snip
  pub vault : Option Vault
  pub backend_floor : Text
  pub runner : SandboxProfile → List Text → Text → Option (ℤ × Text)

-- The two guards in the daemon's memory.
pub record Memory : Type 0 where
  pub grant_nonces : NonceCache
  pub proof_nonces : NonceCache

-- What a request comes to: a refusal, or a run of a command in a profile by a backend, with its exit
-- code and output.
pub data Outcome : Type 0 where
  refused : Refusal → Outcome
  ran : SandboxProfile → List Text → Text → ℤ → Text → Outcome

abbrev pub principal : Exod → Text → Text
principal x key = keyid (x.key_digest key)

-- The guards of `__init__`: no key is in two roles.
unfoldable pub separated : Exod → Bool
unfolding keyid same_text
separated x =
    let issuer = principal x x.issuer_pub in
    let own = principal x x.public_key in
    not (same_text issuer own) && elim x.acl_issuer_pub [
      | none ↦ true
      | some key ↦ not (same_text (principal x key) issuer) && not (same_text (principal x key) own)
    ]

-- `_banned_proof_pubs`
abbrev pub banned_proof_pubs : Exod → List Text
banned_proof_pubs x = elim x.acl_issuer_pub [
  | none ↦ x.issuer_pub ∷ x.public_key ∷ []
  | some key ↦ key ∷ x.issuer_pub ∷ x.public_key ∷ []
]

abbrev pub claim_in : Option GrantBody → Option Claim
claim_in none = none
claim_in (some g) = some g.claim

abbrev pub verifier_of : Exod → Verifier
verifier_of x = record {
  ed_verify = x.ed_verify;
  claim_of = λ t. claim_in (x.grant_of t);
  key_digest = x.key_digest;
}

-- What the request expects of its grant.
abbrev pub expected_of : Request → Expected
expected_of r = record {
  run_id = r.run_id;
  plan_sha = r.plan_sha;
  workspace = some r.workspace;
  argv = some r.argv;
}

abbrev pub fixed_env : List Text
fixed_env = codes "PATH" ∷ codes "SNIP" ∷ codes "RECORD_STORE" ∷ []

-- The request carries a value of its caller.
unfoldable pub parameterized : Env → Bool
unfolding same_text
parameterized env = any (λ p. not (among p.0 fixed_env)) env

abbrev pub claim_of_grant : GrantBody → Env → AclClaim
claim_of_grant g env = record {
  skill = g.skill;
  perk = g.perk;
  perk_tier = g.sandbox_tier;
  destructive = g.destructive;
  credentialed = not (is_nil g.credentials);
  parameterized = parameterized env;
  cargo = g.cargo;
}

-- The text of a run id or of a plan digest; `verify_grant` has compared both with texts.
abbrev pub shown : Value → Text
shown (text t) = t
shown _ = []

abbrev pub step_of : GrantBody → Attestation → Request → Step
step_of g b r = record {
  run_id = shown g.claim.run_id;
  plan_sha = shown g.claim.plan_sha;
  step = r.step;
  token_sha = b.token_sha;
}

abbrev pub deny_unproven : Proving → Option Deny
deny_unproven proven = none
deny_unproven w = some (unproven w)

-- The token proof, where the attestation names a key for it.
unfoldable pub check_token :
    Exod → Request → GrantBody → Attestation → NonceCache → Option Text → Option Deny × NonceCache
unfolding verify_token_proof
check_token x r g b seen none = (none, seen)
check_token x r g b seen (some encoded) = elim r.token_proof [
  | none ↦ (some proof_missing, seen)
  | some proof ↦ elim (x.decode encoded) [
    | none ↦ (some proof_bad_pubkey, seen)
    | some key ↦
        let (w, cache) =
          verify_token_proof x.proofs key proof (step_of g b r) (banned_proof_pubs x) (some seen) in
        (deny_unproven w, elim cache [ none ↦ seen | some seen' ↦ seen' ])
  ]
]

abbrev pub after_scope :
    AclVerdict → NonceCache → Option Deny × NonceCache → Option Deny × NonceCache
after_scope allowed seen rest = rest
after_scope v seen rest = (some (denied v), seen)

abbrev pub after_attested :
    Attesting → NonceCache → Option Deny × NonceCache → Option Deny × NonceCache
after_attested attested seen rest = rest
after_attested w seen rest = (some (unattested w), seen)

-- The scope that is attested, and then the token.
unfoldable pub check_scope :
    Exod → Request → GrantBody → NonceCache → Option Attestation → Option Deny × NonceCache
unfolding acl_allows check_token
check_scope x r g seen none = (some (unattested Attesting.malformed_body), seen)
check_scope x r g seen (some b) =
    after_scope (acl_allows (scoped (attested_acl b)) (claim_of_grant g r.env) none false) seen
      (check_token x r g b seen (not_empty b.proof_pubkey))

-- The attestation of the request.
unfoldable pub check_attested :
    Exod → Request → GrantBody → ℤ → NonceCache → Text → Option Envelope → Option Deny × NonceCache
unfolding verify_acl_attestation check_scope
check_attested x r g now seen key none = (some attestation_missing, seen)
check_attested x r g now seen key (some att) =
    after_attested (verify_acl_attestation x.acl key att now g.acl_sha default_skew) seen
      (check_scope x r g seen (x.acl.attestation_of att.payload))

abbrev pub is_absent : Value → Bool
is_absent missing = true
is_absent null = true
is_absent v = false

abbrev pub with_issuer :
    Exod → Request → GrantBody → ℤ → NonceCache → Option Text → Option Deny × NonceCache
with_issuer x r g now seen none = (some no_issuer_pinned, seen)
with_issuer x r g now seen (some key) = check_attested x r g now seen key r.attestation

-- `_acl_check`
unfoldable pub acl_check : Exod → Request → GrantBody → ℤ → NonceCache → Option Deny × NonceCache
unfolding check_attested
acl_check x r g now seen =
    if is_absent g.acl_sha
    then (if x.acl_strict then some unscoped_grant else none, seen)
    else with_issuer x r g now seen x.acl_issuer_pub
