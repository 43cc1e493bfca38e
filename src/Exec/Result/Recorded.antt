-- ===== src/Exec/Result/Recorded.antt =====
-- infra/exec/exod.py: what the ledger of a run holds after a result was presented.
use cyberware.Prelude.{
  ◌≡◌, ◌≢◌, refl, sym, ap, ◌∙◌, subst, Bool, true, false, not, Option, none, some, inl, inr, List,
  [], ◌∷◌, ◌++◌, Text, same_text, same_text_iff, if◌then◌else◌, Bool-cases, some_injective,
  passed_iff, arith,
}
use cyberware.Cwp.Chain.{is_text}
use cyberware.Cwp.Envelope.{Envelope}
use cyberware.Cwp.Sign.{keyid, verify}
use cyberware.Exec.Grant.{NonceCache, nonce_text, unlike}
use cyberware.Exec.Result.{
  StepResult, ResultVerifier, ResultVerdict, accepted, forged_status, wrong_type, wrong_run,
  wrong_plan, malformed_status, malformed_nonce, replay, step_result_type, known_status,
  spend_result, check_result, verify_step_result, RunRecord, RunLedger, result_nonce, seen_nonce,
  or_else, refuse, adopt, record_nonce, record_body, record_verdict, record_outcome,
  record_step_result,
}

-- A presented result, but for the ledger and the cache.
pub record Presented : Type 0 where
  pub key : Text
  pub envelope : Envelope
  pub run_id : Option Text
  pub plan_sha : Option Text

-- The result is the daemon's, of this run and plan where they are known, and has a known status.
pub record Authentic (v : ResultVerifier) (p : Presented) (l : RunLedger) (b : StepResult)
    : Type 0 where
  pub signed : verify v.ed_verify p.envelope p.key ≡ true
  pub kind : p.envelope.payload_type ≡ step_result_type
  pub read : v.result_of p.envelope.payload ≡ some b
  pub same_run : unlike (or_else p.run_id l.run_id) b.run_id ≡ false
  pub same_plan : unlike (or_else p.plan_sha l.plan_sha) b.plan_sha ≡ false
  pub status : known_status b.status ≡ true
  pub nonce : Text
  pub nonce_read : nonce_text b.nonce ≡ some nonce
  pub fresh : seen_nonce nonce l.runs ≡ false

verdict_gates :
    (signed typed : Bool) (o : Option StepResult)
    (f : StepResult → ResultVerdict × Option NonceCache) (cache cache' : Option NonceCache)
    → (if not signed
        then some (forged_status, cache)
        else if not typed
        then some (wrong_type, cache)
        else elim o [ none ↦ none | some b ↦ some (f b) ])
      ≡ some (accepted, cache')
    → (signed ≡ true)
      × (typed ≡ true)
      × (b : StepResult) × (o ≡ some b)
      × (f b ≡ (accepted, cache'))
verdict_gates true true (some b) f cache cache' h = (refl, refl, b, refl, some_injective h)
verdict_gates true true none f cache cache' h = absurd (ground arith)
verdict_gates true false o f cache cache' h = absurd (ground arith)
verdict_gates false typed o f cache cache' h = absurd (ground arith)

spent_nonce :
    (principal : Text) (cache cache' : Option NonceCache) (o : Option Text)
    → spend_result principal cache o ≡ (accepted, cache')
    → (nonce : Text) × (o ≡ some nonce)
unfolding spend_result
spent_nonce principal cache cache' none h = absurd (ground arith)
spent_nonce principal cache cache' (some nonce) h = (nonce, refl)

checked :
    (principal : Text) (b : StepResult) (run_id plan_sha : Option Text)
    (cache cache' : Option NonceCache)
    → check_result principal b run_id plan_sha cache ≡ (accepted, cache')
    → (unlike run_id b.run_id ≡ false)
      × (unlike plan_sha b.plan_sha ≡ false)
      × (known_status b.status ≡ true)
      × (nonce : Text) × (nonce_text b.nonce ≡ some nonce)
unfolding check_result
checked principal b run_id plan_sha cache cache' h =
    let (h1, r1) =
      (passed_iff (unlike run_id b.run_id) (wrong_run, cache) (accepted, cache')
          (other wrong_run (λ e. ground arith))).0
        h in
    let (h2, r2) =
      (passed_iff (unlike plan_sha b.plan_sha) (wrong_plan, cache) (accepted, cache')
          (other wrong_plan (λ e. ground arith))).0
        r1 in
    let (h3, r3) =
      (passed_iff (not (known_status b.status)) (malformed_status, cache) (accepted, cache')
          (other malformed_status (λ e. ground arith))).0
        r2 in
    let (nonce, read) = spent_nonce principal cache cache' (nonce_text b.nonce) r3 in
    (h1, h2, not-true (known_status b.status) h3, nonce, read)
  where
    other :
        (w : ResultVerdict)
        → w ≢ accepted
        → ◌≢◌ {A = ResultVerdict × Option NonceCache} (w, cache) (accepted, cache')
    other w apart e = apart (ap (λ q. q.0) e)

    not-true : (c : Bool) → not c ≡ false → c ≡ true
    not-true c e = ground arith

recorded_nonce :
    (v : ResultVerifier) (l l' : RunLedger) (key : Text) (env : Envelope) (b : StepResult)
    (nonce : Text) (o : Option Text)
    → o ≡ some nonce
    → record_nonce v l key env b o ≡ (true, l')
    → (seen_nonce nonce l.runs ≡ false) × (l' ≡ adopt l b (keyid (v.key_digest key)))
unfolding record_nonce
recorded_nonce v l l' key env b nonce none e h = absurd (ground arith)
recorded_nonce v l l' key env b nonce (some n) e h =
    let (fresh, same) =
      if_true (seen_nonce n l.runs) (refuse l replay env) (adopt l b (keyid (v.key_digest key))) l'
        h in
    (subst (λ t. seen_nonce t l.runs ≡ false) (some_injective e) fresh, same)
  where
    if_true :
        (c : Bool) (x y l' : RunLedger)
        → ◌≡◌ {A = Bool × RunLedger} (if c then (false, x) else (true, y)) (true, l')
        → (c ≡ false) × (l' ≡ y)
    if_true true x y k h' = absurd (ground arith)
    if_true false x y k h' = (refl, sym (ap (λ q. q.1) h'))

not_taken : {l l' : RunLedger} → ◌≡◌ {A = Bool × RunLedger} (false, l) (true, l') → ⊥
not_taken h = false_true (ap (λ q. q.0) h)
  where
    false_true : false ≡ true → ⊥
    false_true e = ground arith

verdict_accepted :
    (v : ResultVerifier) (l l' : RunLedger) (key : Text) (env : Envelope) (w : ResultVerdict)
    → record_verdict v l key env w ≡ (true, l')
    → (w ≡ accepted) × (record_body v l key env (v.result_of env.payload) ≡ (true, l'))
verdict_accepted v l l' key env accepted h = (refl, h)
verdict_accepted v l l' key env forged_status h = absurd (not_taken h)
verdict_accepted v l l' key env wrong_type h = absurd (not_taken h)
verdict_accepted v l l' key env wrong_run h = absurd (not_taken h)
verdict_accepted v l l' key env wrong_plan h = absurd (not_taken h)
verdict_accepted v l l' key env malformed_status h = absurd (not_taken h)
verdict_accepted v l l' key env malformed_nonce h = absurd (not_taken h)
verdict_accepted v l l' key env replay h = absurd (not_taken h)

body_recorded :
    (v : ResultVerifier) (l l' : RunLedger) (key : Text) (env : Envelope) (b : StepResult)
    (nonce : Text) (o : Option StepResult)
    → o ≡ some b
    → nonce_text b.nonce ≡ some nonce
    → record_body v l key env o ≡ (true, l')
    → (seen_nonce nonce l.runs ≡ false) × (l' ≡ adopt l b (keyid (v.key_digest key)))
body_recorded v l l' key env b nonce o e read h =
    recorded_nonce v l l' key env b nonce (nonce_text b.nonce) read
      (sym (ap (record_body v l key env) e) ∙ h)

outcome_recorded :
    (v : ResultVerifier) (l l' : RunLedger) (key : Text) (env : Envelope)
    (cache' : Option NonceCache) (o : Option (ResultVerdict × Option NonceCache))
    → record_outcome v l key env o ≡ some ((true, l'), cache')
    → (o ≡ some (accepted, cache'))
      × (record_body v l key env (v.result_of env.payload) ≡ (true, l'))
outcome_recorded v l l' key env cache' none h = absurd (nothing h)
  where
    nothing :
        ◌≡◌ {A = Option ((Bool × RunLedger) × Option NonceCache)} none (some ((true, l'), cache'))
        → ⊥
    nothing e = ground arith
outcome_recorded v l l' key env cache' (some (w, cache)) h =
    let e = some_injective h in
    let (same, rest) = verdict_accepted v l l' key env w (ap (λ q. q.0) e) in
    (paired same (ap (λ q. q.1) e), rest)
  where
    paired :
        w ≡ accepted
        → cache ≡ cache'
        → ◌≡◌ {A = Option (ResultVerdict × Option NonceCache)}
            (some (w, cache))
            (some (accepted, cache'))
    paired a b = cc

verified_body :
    (v : ResultVerifier) (p : Presented) (run_id plan_sha : Option Text)
    (cache cache' : Option NonceCache)
    → verify_step_result v p.key p.envelope run_id plan_sha cache ≡ some (accepted, cache')
    → (verify v.ed_verify p.envelope p.key ≡ true)
      × (same_text p.envelope.payload_type step_result_type ≡ true)
      × (b : StepResult) × (v.result_of p.envelope.payload ≡ some b)
      × (check_result (keyid (v.key_digest p.key)) b run_id plan_sha cache ≡ (accepted, cache'))
unfolding verify_step_result
verified_body v p run_id plan_sha cache cache' h =
    verdict_gates (verify v.ed_verify p.envelope p.key)
      (same_text p.envelope.payload_type step_result_type) (v.result_of p.envelope.payload)
      (λ b. check_result (keyid (v.key_digest p.key)) b run_id plan_sha cache) cache cache' h

-- A result enters the ledger of a run as the step's status only where it is signed by the daemon's key
-- over its type and payload, is of the run and plan that the caller or the ledger names, has a known
-- status, and has a nonce that no record of the ledger has; the ledger then holds it last.
pub record_step_result-Authentic :
    (v : ResultVerifier) (l l' : RunLedger) (p : Presented) (cache cache' : Option NonceCache)
    → record_step_result v l p.key p.envelope p.run_id p.plan_sha cache ≡ some ((true, l'), cache')
    → (b : StepResult) × Authentic v p l b × (l' ≡ adopt l b (keyid (v.key_digest p.key)))
unfolding record_step_result
record_step_result-Authentic v l l' p cache cache' h =
    let run_id = or_else p.run_id l.run_id in
    let plan_sha = or_else p.plan_sha l.plan_sha in
    let principal = keyid (v.key_digest p.key) in
    let (verified, recorded) =
      outcome_recorded v l l' p.key p.envelope cache'
        (verify_step_result v p.key p.envelope run_id plan_sha cache) h in
    let (signed, typed, b, read, passed) =
      verified_body v p run_id plan_sha cache cache' verified in
    let (run, plan, status, nonce, nonce_read) =
      checked principal b run_id plan_sha cache cache' passed in
    let (fresh, grown) =
      body_recorded v l l' p.key p.envelope b nonce (v.result_of p.envelope.payload) read nonce_read
        recorded in
    (
      b,
      record {
        signed = signed;
        kind = (same_text_iff p.envelope.payload_type step_result_type).0 typed;
        read = read;
        same_run = run;
        same_plan = plan;
        status = status;
        nonce = nonce;
        nonce_read = nonce_read;
        fresh = fresh;
      },
      grown,
    )

pub seen-append :
    (nonce : Text) (rs ss : List RunRecord)
    → seen_nonce nonce rs ≡ true
    → seen_nonce nonce (rs ++ ss) ≡ true
unfolding seen_nonce
seen-append nonce [] ss h = absurd (ground arith)
seen-append nonce (r ∷ rs) ss h = elim (Bool-cases (is_text (result_nonce r) nonce)) [
  | inl here ↦ ground arith
  | inr there ↦ let rest = seen-append nonce rs ss (ground arith) in ground arith
]

pub seen-last :
    (nonce : Text) (rs : List RunRecord) (r : RunRecord)
    → is_text (result_nonce r) nonce ≡ true
    → seen_nonce nonce (rs ++ r ∷ []) ≡ true
unfolding seen_nonce
seen-last nonce [] r h = ground arith
seen-last nonce (s ∷ rs) r h = let rest = seen-last nonce rs r h in ground arith
