-- ===== src/Exec/Acl.antt =====
-- infra/exec/aclverify.py: the offline check of an operator's attestation of an actor's scope and of a
-- client's proof that it holds its token; `acl_canonical` and `acl_sha` of infra/govern/principals.py.
-- The digest of a canonical scope, the reading of JSON and the decoding of a raw key are parameters.
pub mod Attested
use cyberware.Prelude.{
  Bool, true, false, not, ◌&&◌, ◌||◌, Option, none, some, List, [], ◌∷◌, ◌++◌, ℤ, pos, ◌+ℤ◌, ◌-ℤ◌,
  ltb_ℤ, Text, codes, same_text, any, if◌then◌else◌,
}
use cyberware.Cwp.Chain.{Value, missing, null, is_text}
use cyberware.Cwp.Envelope.{Envelope}
use cyberware.Cwp.Sign.{EdVerify, verify}
use cyberware.Govern.Principals.{Perks, Acl, among}
use cyberware.Exec.Grant.{NonceCache, spend, as_int}

-- The claim of an attestation.
pub record Attestation : Type 0 where
  pub nbf : Value
  pub exp : Value
  pub pid : Text
  pub token_sha : Text
  pub acl_sha : Value
  pub skills : Option (List Text)
  pub perks : Perks
  pub max_tier : Option Text
  pub secrets : Value
  pub params : Value
  pub cargo : Option Text
  pub proof_pubkey : Option Text

-- What `acl_canonical` writes out.
pub record AclBody : Type 0 where
  pub pid : Text
  pub token_sha : Text
  pub skills : Option (List Text)
  pub perks : Perks
  pub max_tier : Option Text
  pub secrets : Value
  pub params : Value
  pub cargo : Option Text

pub record AclVerifier : Type 0 where
  pub ed_verify : EdVerify
  pub attestation_of : Text → Option Attestation
  pub digest : AclBody → Text

pub data Attesting : Type 0 where
  attested bad_signature wrong_type malformed_body malformed_window not_yet_valid expired
        acl_sha_mismatch acl_join_mismatch :
      Attesting

abbrev pub acl_attestation_type : Text
acl_attestation_type = codes "application/vnd.cyberware.acl-attestation+json"

-- The scope that an attestation states.
abbrev pub attested_acl : Attestation → Acl
attested_acl b = record {
  skills = b.skills;
  perks = b.perks;
  max_tier = b.max_tier;
  secrets = b.secrets;
  params = b.params;
  cargo = b.cargo;
  expires_at = none;
  revoked = missing;
}

abbrev pub acl_canonical : Text → Text → Acl → AclBody
acl_canonical pid token_sha a = record {
  pid = pid;
  token_sha = token_sha;
  skills = a.skills;
  perks = a.perks;
  max_tier = a.max_tier;
  secrets = a.secrets;
  params = a.params;
  cargo = a.cargo;
}

abbrev pub acl_sha : (AclBody → Text) → Text → Text → Acl → Text
acl_sha digest pid token_sha a = digest (acl_canonical pid token_sha a)

-- `expect is not None and expect != derived`
abbrev pub differs : Value → Text → Bool
differs missing t = false
differs null t = false
differs v t = not (is_text v t)

-- The window and the digests.
unfoldable pub check_attestation :
    AclVerifier → ℤ → Value → ℤ → Attestation → Option ℤ → Option ℤ → Attesting
unfolding is_text
check_attestation v now expect skew b (some nbf) (some exp) =
    let derived = acl_sha v.digest b.pid b.token_sha (attested_acl b) in
    if ltb_ℤ now (nbf -ℤ skew)
    then not_yet_valid
    else if ltb_ℤ (exp +ℤ skew) now
    then expired
    else if not (is_text b.acl_sha derived)
    then acl_sha_mismatch
    else if differs expect derived
    then acl_join_mismatch
    else attested
check_attestation v now expect skew b _ _ = malformed_window

-- The claim, where it can be read.
unfoldable pub check_body : AclVerifier → ℤ → Value → ℤ → Option Attestation → Attesting
unfolding check_attestation
check_body v now expect skew none = malformed_body
check_body v now expect skew (some b) =
    check_attestation v now expect skew b (as_int b.nbf) (as_int b.exp)

-- `verify_acl_attestation`
unfoldable pub verify_acl_attestation : AclVerifier → Text → Envelope → ℤ → Value → ℤ → Attesting
unfolding verify check_body
verify_acl_attestation v key env now expect skew =
    if not (verify v.ed_verify env key)
    then bad_signature
    else if not (same_text env.payload_type acl_attestation_type)
    then wrong_type
    else check_body v now expect skew (v.attestation_of env.payload)

-- The claim of a token proof.
pub record Proof : Type 0 where
  pub run_id : Value
  pub plan_sha : Value
  pub step : Value
  pub token_sha : Value

pub record ProofVerifier : Type 0 where
  pub ed_verify : EdVerify
  pub is_key : Text → Bool
  pub proof_of : Text → Option Proof

-- What the caller expects of a proof.
pub record Step : Type 0 where
  pub run_id : Text
  pub plan_sha : Text
  pub step : Text
  pub token_sha : Text

pub data Proving : Type 0 where
  proven proof_degenerate_pubkey proof_bad_pubkey proof_bad_signature proof_wrong_type
        proof_malformed_body proof_token_mismatch proof_wrong_step proof_replay :
      Proving

abbrev pub token_proof_type : Text
token_proof_type = codes "application/vnd.cyberware.token-proof+json"

-- `f"{expect_run_id}:{expect_step}"`
abbrev pub step_nonce : Step → Text
step_nonce e = e.run_id ++ codes ":" ++ e.step

-- The checks of a claim, and the use of its step.
unfoldable pub check_proof : Step → Option NonceCache → Option Proof → Proving × Option NonceCache
unfolding is_text spend
check_proof e cache none = (proof_malformed_body, cache)
check_proof e cache (some b) =
    if not (is_text b.token_sha e.token_sha)
    then (proof_token_mismatch, cache)
    else if not (is_text b.run_id e.run_id)
        || (not (is_text b.plan_sha e.plan_sha) || not (is_text b.step e.step))
    then (proof_wrong_step, cache)
    else elim cache [
      | none ↦ (proven, none)
      | some seen ↦
          let (fresh, seen') = spend seen e.token_sha (step_nonce e) in
          (if fresh then proven else proof_replay, some seen')
    ]

-- `verify_token_proof`
unfoldable pub verify_token_proof :
    ProofVerifier
    → Text
    → Envelope
    → Step
    → List Text
    → Option NonceCache
    → Proving × Option NonceCache
unfolding verify check_proof
verify_token_proof v key env e banned cache =
    if among key banned
    then (proof_degenerate_pubkey, cache)
    else if not (v.is_key key)
    then (proof_bad_pubkey, cache)
    else if not (verify v.ed_verify env key)
    then (proof_bad_signature, cache)
    else if not (same_text env.payload_type token_proof_type)
    then (proof_wrong_type, cache)
    else check_proof e cache (v.proof_of env.payload)
