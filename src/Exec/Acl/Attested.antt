-- ===== src/Exec/Acl/Attested.antt =====
-- infra/exec/aclverify.py: what an accepted attestation shows.
use cyberware.Prelude.{
  ◌≡◌, refl, Bool, true, false, not, Option, none, some, ℤ, ◌+ℤ◌, ◌-ℤ◌, ◌≤ℤ◌, Text, same_text,
  same_text_iff, arith, ltb_ℤ, passed_iff,
}
use cyberware.Cwp.Chain.{Value, text, is_text}
use cyberware.Cwp.Envelope.{Envelope}
use cyberware.Cwp.Sign.{verify}
use cyberware.Exec.Grant.{as_int}
use cyberware.Exec.Grant.Authorized.{text_of}
use cyberware.Exec.Acl.{
  Attestation, AclVerifier, attested, bad_signature, wrong_type, acl_attestation_type, attested_acl,
  acl_sha, differs, check_attestation, check_body, verify_acl_attestation, not_yet_valid, expired,
  acl_sha_mismatch, acl_join_mismatch,
}

-- An attestation is the issuer's, is in its window, and states a scope whose digest is the one it
-- names; where the caller expects a digest, it is that one.
pub record Attests (v : AclVerifier) (key : Text) (env : Envelope) (now skew : ℤ) (expect : Value)
    (b : Attestation) : Type 0 where
  pub signed : verify v.ed_verify env key ≡ true
  pub kind : env.payload_type ≡ acl_attestation_type
  pub read : v.attestation_of env.payload ≡ some b
  pub nbf : ℤ
  pub exp : ℤ
  pub nbf_read : as_int b.nbf ≡ some nbf
  pub exp_read : as_int b.exp ≡ some exp
  pub begun : (nbf -ℤ skew) ≤ℤ now
  pub running : now ≤ℤ (exp +ℤ skew)
  pub derived : b.acl_sha ≡ text (acl_sha v.digest b.pid b.token_sha (attested_acl b))
  pub joined : differs expect (acl_sha v.digest b.pid b.token_sha (attested_acl b)) ≡ false

not-true : (b : Bool) → (not b ≡ false) → (b ≡ true)
not-true b h = ground arith

not_before : (a b : ℤ) → ltb_ℤ a b ≡ false → b ≤ℤ a
not_before a b h = ground arith

window_read :
    (v : AclVerifier) (now : ℤ) (expect : Value) (skew : ℤ) (b : Attestation) (o o' : Option ℤ)
    → check_attestation v now expect skew b o o' ≡ attested
    → (nbf : ℤ) × (exp : ℤ) × (o ≡ some nbf)
      × (o' ≡ some exp)
      × ((nbf -ℤ skew) ≤ℤ now)
      × (now ≤ℤ (exp +ℤ skew))
      × (is_text b.acl_sha (acl_sha v.digest b.pid b.token_sha (attested_acl b)) ≡ true)
      × (differs expect (acl_sha v.digest b.pid b.token_sha (attested_acl b)) ≡ false)
unfolding check_attestation
window_read v now expect skew b (some nbf) (some exp) h =
    let derived = acl_sha v.digest b.pid b.token_sha (attested_acl b) in
    let (h1, r1) =
      (passed_iff (ltb_ℤ now (nbf -ℤ skew)) not_yet_valid attested (λ e. ground arith)).0 h in
    let (h2, r2) =
      (passed_iff (ltb_ℤ (exp +ℤ skew) now) expired attested (λ e. ground arith)).0 r1 in
    let (h3, r3) =
      (passed_iff (not (is_text b.acl_sha derived)) acl_sha_mismatch attested (λ e. ground arith)).0
        r2 in
    let (h4, _) =
      (passed_iff (differs expect derived) acl_join_mismatch attested (λ e. ground arith)).0 r3 in
    (
      nbf,
      exp,
      refl,
      refl,
      not_before now (nbf -ℤ skew) h1,
      not_before (exp +ℤ skew) now h2,
      not-true (is_text b.acl_sha derived) h3,
      h4,
    )
window_read v now expect skew b none o' h = absurd (ground arith)
window_read v now expect skew b (some nbf) none h = absurd (ground arith)

body_read :
    (v : AclVerifier) (now : ℤ) (expect : Value) (skew : ℤ) (o : Option Attestation)
    → check_body v now expect skew o ≡ attested
    → (b : Attestation) × (o ≡ some b)
      × (check_attestation v now expect skew b (as_int b.nbf) (as_int b.exp) ≡ attested)
unfolding check_body
body_read v now expect skew none h = absurd (ground arith)
body_read v now expect skew (some b) h = (b, refl, h)

-- An attestation that is accepted is signed by the operator's key over its type and payload, is in its
-- window, and states a scope whose digest is the one that it names and that the caller expects.
pub verify_acl_attestation-Attests :
    (v : AclVerifier) (key : Text) (env : Envelope) (now : ℤ) (expect : Value) (skew : ℤ)
    → verify_acl_attestation v key env now expect skew ≡ attested
    → (b : Attestation) × Attests v key env now skew expect b
unfolding verify_acl_attestation
verify_acl_attestation-Attests v key env now expect skew h =
    let (h1, r1) =
      (passed_iff (not (verify v.ed_verify env key)) bad_signature attested (λ e. ground arith)).0
        h in
    let (h2, r2) =
      (passed_iff (not (same_text env.payload_type acl_attestation_type)) wrong_type attested
          (λ e. ground arith)).0
        r1 in
    let (b, read, r3) = body_read v now expect skew (v.attestation_of env.payload) r2 in
    let (nbf, exp, nbf_read, exp_read, begun, running, derived, joined) =
      window_read v now expect skew b (as_int b.nbf) (as_int b.exp) r3 in
    (
      b,
      record {
        signed = not-true (verify v.ed_verify env key) h1;
        kind =
            (same_text_iff env.payload_type acl_attestation_type).0
              (not-true (same_text env.payload_type acl_attestation_type) h2);
        read = read;
        nbf = nbf;
        exp = exp;
        nbf_read = nbf_read;
        exp_read = exp_read;
        begun = begun;
        running = running;
        derived = text_of b.acl_sha (acl_sha v.digest b.pid b.token_sha (attested_acl b)) derived;
        joined = joined;
      },
    )
