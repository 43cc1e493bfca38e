-- ===== src/Tests/Exec.antt =====
-- A concrete daemon with a grant, an attestation and a request, on which the tests of the execution of
-- steps are run. A signature is good where it is the key itself.
mod Grants
mod Daemon
mod Checks
use cyberware.Prelude.{
  Bool, true, false, Option, none, some, List, [], ◌∷◌, ◌++◌, ℤ, pos, Text, codes, same_text,
  if◌then◌else◌,
}
use cyberware.Cwp.Chain.{Value, missing, text, int}
use cyberware.Cwp.Envelope.{Envelope}
use cyberware.Cwp.Sign.{EdVerify}
use cyberware.Govern.Principals.{Perks, perks_of}
use cyberware.Exec.Grant.{Argv, Claim, Expected, Verifier, grant_type, pinned}
use cyberware.Exec.Acl.{Attestation, AclBody, AclVerifier, ProofVerifier, acl_attestation_type}
use cyberware.Exec.Sandbox.{SandboxProfile, core_profile}
use cyberware.Exec.Closure.{Snip}
use cyberware.Exec.Exod.{GrantBody, Request, Exod, Memory}

abbrev pub by_key : EdVerify
by_key key sig message = same_text key sig

abbrev pub the_claim : Claim
the_claim = record {
  nbf = int (pos 100);
  exp = int (pos 200);
  run_id = text (codes "r");
  plan_sha = text (codes "p");
  workspace = text (codes "/w");
  argv = pinned (codes "sh" ∷ []);
  nonce = text (codes "n");
}

abbrev pub the_grant : GrantBody
the_grant = record {
  claim = the_claim;
  capabilities = codes "run" ∷ [];
  credentials = [];
  snippet_shas = (codes "a.py", codes "d") ∷ [];
  tier = none;
  sandbox_tier = some (codes "community");
  acl_sha = text (codes "s");
  skill = codes "general:fs";
  perk = codes "read";
  destructive = false;
  cargo = none;
}

abbrev pub the_attestation : Attestation
the_attestation = record {
  nbf = int (pos 100);
  exp = int (pos 200);
  pid = codes "alice";
  token_sha = codes "t";
  acl_sha = text (codes "s");
  skills = some (codes "general:*" ∷ []);
  perks = perks_of ((codes "fs", codes "read" ∷ []) ∷ []);
  max_tier = some (codes "community");
  secrets = missing;
  params = missing;
  cargo = none;
  proof_pubkey = none;
}

abbrev pub envelope : Text → Text → Text → Envelope
envelope kind payload key = record {
  payload_type = kind;
  payload = payload;
  signatures = record { keyid = key; sig = key } ∷ [];
}

abbrev pub read_as : {A : Type 0} → Text → A → Text → Option A
read_as t a payload = if same_text payload t then some a else none

abbrev pub the_daemon : Exod
the_daemon = record {
  ed_verify = by_key;
  key_digest = λ k. k;
  grant_of = read_as (codes "g") the_grant;
  acl = record {
    ed_verify = by_key;
    attestation_of = read_as (codes "a") the_attestation;
    digest = λ b. codes "s";
  };
  proofs = record { ed_verify = by_key; is_key = λ k. true; proof_of = λ t. none };
  decode = λ t. some t;
  sha = λ t. t;
  refusal_sha = λ why. codes "no";
  public_key = codes "exod";
  issuer_pub = codes "govd";
  acl_issuer_pub = some (codes "operator");
  acl_strict = true;
  profile = λ w. core_profile w false;
  exists = λ p. same_text p (codes "/usr");
  join = λ a b. a ++ codes "/" ++ b;
  snip =
      λ dir. record { files = codes "a.py" ∷ []; digest_file = read_as (codes "a.py") (codes "d") };
  vault = none;
  backend_floor = codes "bwrap";
  runner = λ p argv backend. some (pos 0, codes "out");
}

abbrev pub the_request : Request
the_request = record {
  run_id = some (codes "r");
  plan_sha = some (codes "p");
  step = codes "1";
  grant = envelope grant_type (codes "g") (codes "govd");
  nonce = none;
  workspace = codes "/w";
  argv = codes "sh" ∷ [];
  env = [];
  attestation = some (envelope acl_attestation_type (codes "a") (codes "operator"));
  token_proof = none;
}

abbrev pub no_memory : Memory
no_memory = record { grant_nonces = []; proof_nonces = [] }
