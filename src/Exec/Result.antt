-- ===== src/Exec/Result.antt =====
-- infra/exec/exodverify.py, and `record_step_result` of infra/exec/exod.py: the results that the daemon
-- signs, their check, and the ledger that records them. A ledger is taken as read from its file; run
-- ids and plan digests are texts or absent; timestamps are left out.
pub mod Recorded
pub mod Once
use cyberware.Prelude.{
  Bool, true, false, not, ◌&&◌, ◌||◌, Option, none, some, List, [], ◌∷◌, ◌++◌, map, ℤ, Text, codes,
  same_text, any, if◌then◌else◌,
}
use cyberware.Cwp.Chain.{Value, missing, text, is_text, truthy}
use cyberware.Cwp.Envelope.{Envelope}
use cyberware.Cwp.Sign.{EdVerify, keyid, verify}
use cyberware.Exec.Grant.{NonceCache, spend, unlike, nonce_text}

-- The body of a step-result.
pub record StepResult : Type 0 where
  pub run_id : Value
  pub plan_sha : Value
  pub step : Value
  pub exit : Option ℤ
  pub status : Value
  pub output_sha : Text
  pub nonce : Value

pub record ResultVerifier : Type 0 where
  pub ed_verify : EdVerify
  pub result_of : Text → Option StepResult
  pub key_digest : Text → Text

pub data ResultVerdict : Type 0 where
  accepted forged_status wrong_type wrong_run wrong_plan malformed_status malformed_nonce replay :
      ResultVerdict

abbrev pub step_result_type : Text
step_result_type = codes "application/vnd.cyberware.step-result+json"

-- `body.get("status") in _STATUSES`
abbrev pub known_status : Value → Bool
known_status v =
    is_text v (codes "ok") || (is_text v (codes "error") || is_text v (codes "refused"))

-- The use of the nonce; without a cache nothing is spent.
unfoldable pub spend_result :
    Text → Option NonceCache → Option Text → ResultVerdict × Option NonceCache
unfolding spend
spend_result principal cache none = (malformed_nonce, cache)
spend_result principal none (some nonce) = (accepted, none)
spend_result principal (some seen) (some nonce) =
    let (fresh, seen') = spend seen principal nonce in
    (if fresh then accepted else replay, some seen')

-- The checks of a body.
unfoldable pub check_result :
    Text
    → StepResult
    → Option Text
    → Option Text
    → Option NonceCache
    → ResultVerdict × Option NonceCache
unfolding spend_result is_text
check_result principal b run_id plan_sha cache =
    if unlike run_id b.run_id
    then (wrong_run, cache)
    else if unlike plan_sha b.plan_sha
    then (wrong_plan, cache)
    else if not (known_status b.status)
    then (malformed_status, cache)
    else spend_result principal cache (nonce_text b.nonce)

-- `verify_step_result`, with the body of an accepted result; `none` is the exception of a payload that
-- is no JSON.
unfoldable pub verify_step_result :
    ResultVerifier
    → Text
    → Envelope
    → Option Text
    → Option Text
    → Option NonceCache
    → Option (ResultVerdict × Option NonceCache)
unfolding verify keyid check_result
verify_step_result v key env run_id plan_sha cache =
    if not (verify v.ed_verify env key)
    then some (forged_status, cache)
    else if not (same_text env.payload_type step_result_type)
    then some (wrong_type, cache)
    else elim (v.result_of env.payload) [
      | none ↦ none
      | some b ↦ some (check_result (keyid (v.key_digest key)) b run_id plan_sha cache)
    ]

-- A record of a run: one that was refused, with its reason and key ids, one that was accepted, with
-- the key id of its authority, or one that something else wrote, with its `result_nonce`.
pub data RunRecord : Type 0 where
  status_refused : ResultVerdict → List Text → RunRecord
  status_recorded : StepResult → Text → RunRecord
  written : Value → RunRecord

pub record RunLedger : Type 0 where
  pub run_id : Option Text
  pub plan_sha : Option Text
  pub runs : List RunRecord

abbrev pub result_nonce : RunRecord → Value
result_nonce (status_refused v ids) = missing
result_nonce (status_recorded b authority) = b.nonce
result_nonce (written v) = v

-- `nonce in seen`, for a nonce that is a text.
unfoldable pub seen_nonce : Text → List RunRecord → Bool
unfolding is_text
seen_nonce nonce [] = false
seen_nonce nonce (r ∷ rs) = is_text (result_nonce r) nonce || seen_nonce nonce rs

-- `a if a is not None else b`
abbrev pub or_else : Option Text → Option Text → Option Text
or_else (some a) b = some a
or_else none b = b

abbrev pub as_text : Value → Option Text
as_text (text t) = some t
as_text _ = none

abbrev pub refuse : RunLedger → ResultVerdict → Envelope → RunLedger
refuse l w env = record {
  run_id = l.run_id;
  plan_sha = l.plan_sha;
  runs = l.runs ++ status_refused w (map (λ s. s.keyid) env.signatures) ∷ [];
}

abbrev pub adopt : RunLedger → StepResult → Text → RunLedger
adopt l b authority = record {
  run_id = or_else l.run_id (as_text b.run_id);
  plan_sha = or_else l.plan_sha (as_text b.plan_sha);
  runs = l.runs ++ status_recorded b authority ∷ [];
}

-- An accepted result, which the ledger refuses where it has the nonce.
unfoldable pub record_nonce :
    ResultVerifier → RunLedger → Text → Envelope → StepResult → Option Text → Bool × RunLedger
unfolding keyid seen_nonce
record_nonce v l key env b none = (true, adopt l b (keyid (v.key_digest key)))
record_nonce v l key env b (some nonce) =
    if seen_nonce nonce l.runs
    then (false, refuse l replay env)
    else (true, adopt l b (keyid (v.key_digest key)))

abbrev pub record_body :
    ResultVerifier → RunLedger → Text → Envelope → Option StepResult → Bool × RunLedger
record_body v l key env none = (false, refuse l replay env)
record_body v l key env (some b) = record_nonce v l key env b (nonce_text b.nonce)

abbrev pub record_verdict :
    ResultVerifier → RunLedger → Text → Envelope → ResultVerdict → Bool × RunLedger
record_verdict v l key env accepted = record_body v l key env (v.result_of env.payload)
record_verdict v l key env w = (false, refuse l w env)

abbrev pub record_outcome :
    ResultVerifier
    → RunLedger
    → Text
    → Envelope
    → Option (ResultVerdict × Option NonceCache)
    → Option ((Bool × RunLedger) × Option NonceCache)
record_outcome v l key env none = none
record_outcome v l key env (some (w, cache)) = some (record_verdict v l key env w, cache)

-- `record_step_result`
unfoldable pub record_step_result :
    ResultVerifier
    → RunLedger
    → Text
    → Envelope
    → Option Text
    → Option Text
    → Option NonceCache
    → Option ((Bool × RunLedger) × Option NonceCache)
unfolding verify_step_result record_nonce
record_step_result v l key env run_id plan_sha cache =
    record_outcome v l key env
      (verify_step_result v key env (or_else run_id l.run_id) (or_else plan_sha l.plan_sha) cache)
