-- ===== src/Tests/Exec/Grants.antt =====
-- Tests of grants and of the results that the daemon signs.
use cyberware.Prelude.{
  ◌≡◌, ◌≢◌, ◌⊎◌, refl, true, none, some, [], ◌∷◌, pos, ◌+ℤ◌, ◌-ℤ◌, codes, same_text,
}
use cyberware.Cwp.Chain.{text, is_text}
use cyberware.Cwp.Sign.{keyid, verify}
use cyberware.Exec.Grant.{
  Verifier, granted, replay, NonceCache, spend, verify_grant, verify_claim, check_claim,
  spend_nonce,
}
use cyberware.Exec.Grant.Authorized.{refused-unspent}
use cyberware.Exec.Grant.Once.{Presented, present_all, verify_grant-once}
use cyberware.Exec.Exod.{verifier_of, expected_of}
use cyberware.Exec.Result.{
  StepResult, ResultVerifier, RunLedger, step_result_type, spend_result, check_result,
  verify_step_result, seen_nonce, adopt, record_nonce, record_step_result,
}
use cyberware.Exec.Result.Recorded
use cyberware.Exec.Result.Recorded.{Authentic, record_step_result-Authentic}
use cyberware.Exec.Result.Once.{submit_all, record_step_result-once}
use cyberware.Tests.Exec.{by_key, envelope, read_as, the_claim, the_daemon, the_request}

abbrev verifier : Verifier
verifier = verifier_of the_daemon

abbrev presented : Presented
presented = record {
  key = codes "govd";
  envelope = the_request.grant;
  expected = expected_of the_request;
  now = pos 150;
  skew = pos 60;
}

abbrev used : NonceCache
used = (codes "ed25519:govd", codes "n") ∷ []

first_use :
    verify_grant verifier
      (codes "govd")
      the_request.grant
      (expected_of the_request)
      (pos 150)
      (pos 60)
      (some [])
    ≡ some (granted, some used)
unfolding verify_grant verify keyid verify_claim check_claim spend_nonce spend is_text same_text
    ◌+ℤ◌ ◌-ℤ◌
first_use = refl

verify_grant-once_example :
    verify_grant verifier
      (codes "govd")
      the_request.grant
      (expected_of the_request)
      (pos 150)
      (pos 60)
      (some (present_all verifier (presented ∷ []) used))
    ≢ some (granted, some used)
unfolding same_text
verify_grant-once_example =
    verify_grant-once verifier presented presented (presented ∷ []) [] used the_claim the_claim
      first_use refl refl refl refl (some used)

refused-unspent_example : (replay ≡ granted) ⊎ (some used ≡ some used)
unfolding verify_grant verify keyid verify_claim check_claim spend_nonce spend is_text same_text
    ◌+ℤ◌ ◌-ℤ◌
refused-unspent_example =
    refused-unspent verifier (codes "govd") the_request.grant (expected_of the_request) (pos 150)
      (pos 60) (some used) (some used) replay refl

abbrev the_result : StepResult
the_result = record {
  run_id = text (codes "r");
  plan_sha = text (codes "p");
  step = text (codes "1");
  exit = some (pos 0);
  status = text (codes "ok");
  output_sha = codes "out";
  nonce = text (codes "n");
}

abbrev results : ResultVerifier
results = record {
  ed_verify = by_key;
  result_of = read_as (codes "b") the_result;
  key_digest = λ k. k;
}

abbrev submitted : Recorded.Presented
submitted = record {
  key = codes "exod";
  envelope = envelope step_result_type (codes "b") (codes "exod");
  run_id = some (codes "r");
  plan_sha = none;
}

abbrev new_ledger : RunLedger
new_ledger = record { run_id = none; plan_sha = none; runs = [] }

abbrev one_run : RunLedger
one_run = adopt new_ledger the_result (codes "ed25519:exod")

first_record :
    record_step_result results new_ledger
      (codes "exod")
      submitted.envelope
      (some (codes "r"))
      none
      none
    ≡ some ((true, one_run), none)
unfolding record_step_result verify_step_result verify keyid check_result spend_result record_nonce
    seen_nonce is_text same_text
first_record = refl

record_step_result-once_example :
    record_step_result results
      (submit_all results ((submitted, none) ∷ []) one_run)
      (codes "exod")
      submitted.envelope
      (some (codes "r"))
      none
      none
    ≢ some ((true, one_run), none)
unfolding same_text
record_step_result-once_example =
    record_step_result-once results new_ledger one_run one_run submitted submitted
      ((submitted, none) ∷ []) none none none none the_result the_result first_record refl refl refl
