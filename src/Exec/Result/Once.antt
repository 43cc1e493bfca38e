-- ===== src/Exec/Result/Once.antt =====
-- infra/exec/exod.py: a result is recorded once. The ledger is passed from one presented result to the
-- next, each with its own key, envelope, expectation and cache.
use cyberware.Prelude.{
  ◌≡◌, ◌≢◌, ap, ◌∙◌, subst, Bool, true, false, Option, none, some, List, [], ◌∷◌, Text, text_self,
  some_injective, if◌then◌else◌, arith,
}
use cyberware.Cwp.Chain.{Value, text, is_text}
use cyberware.Cwp.Envelope.{Envelope}
use cyberware.Cwp.Sign.{keyid}
use cyberware.Exec.Grant.{NonceCache, nonce_text}
use cyberware.Exec.Result.{
  StepResult, ResultVerifier, ResultVerdict, accepted, forged_status, wrong_type, wrong_run,
  wrong_plan, malformed_status, malformed_nonce, replay, status_recorded, RunLedger, seen_nonce,
  or_else, refuse, adopt, record_nonce, record_body, record_verdict, record_outcome,
  record_step_result, verify_step_result,
}
use cyberware.Exec.Result.Recorded.{Presented, record_step_result-Authentic, seen-append, seen-last}

abbrev pub ledger_after : RunLedger → Option ((Bool × RunLedger) × Option NonceCache) → RunLedger
ledger_after l none = l
ledger_after l (some ((ok, l'), cache)) = l'

unfoldable pub submit : ResultVerifier → RunLedger → Presented × Option NonceCache → RunLedger
submit v l (p, cache) =
    ledger_after l (record_step_result v l p.key p.envelope p.run_id p.plan_sha cache)

unfoldable pub submit_all :
    ResultVerifier → List (Presented × Option NonceCache) → RunLedger → RunLedger
unfolding submit
submit_all v [] l = l
submit_all v (p ∷ ps) l = submit_all v ps (submit v l p)

module _ (nonce : Text) where
  if_seen :
      (c : Bool) (x y : RunLedger)
      → seen_nonce nonce x.runs ≡ true
      → seen_nonce nonce y.runs ≡ true
      → seen_nonce nonce ((if◌then◌else◌ {A = Bool × RunLedger} c (false, x) (true, y)).1.runs)
        ≡ true
  if_seen true x y h k = h
  if_seen false x y h k = k

  body_seen :
      (v : ResultVerifier) (l : RunLedger) (key : Text) (env : Envelope) (o : Option StepResult)
      → seen_nonce nonce l.runs ≡ true
      → seen_nonce nonce ((record_body v l key env o).1.runs) ≡ true
  unfolding record_nonce
  body_seen v l key env none h = seen-append nonce l.runs (_) h
  body_seen v l key env (some b) h = of_nonce (nonce_text b.nonce)
    where
      of_nonce : (o : Option Text) → seen_nonce nonce ((record_nonce v l key env b o).1.runs) ≡ true
      of_nonce none = seen-append nonce l.runs (_) h
      of_nonce (some n) =
          if_seen (seen_nonce n l.runs) (refuse l replay env) (adopt l b (keyid (v.key_digest key)))
            (seen-append nonce l.runs (_) h) (seen-append nonce l.runs (_) h)

  verdict_seen :
      (v : ResultVerifier) (l : RunLedger) (key : Text) (env : Envelope) (w : ResultVerdict)
      → seen_nonce nonce l.runs ≡ true
      → seen_nonce nonce ((record_verdict v l key env w).1.runs) ≡ true
  verdict_seen v l key env accepted h = body_seen v l key env (v.result_of env.payload) h
  verdict_seen v l key env forged_status h = seen-append nonce l.runs (_) h
  verdict_seen v l key env wrong_type h = seen-append nonce l.runs (_) h
  verdict_seen v l key env wrong_run h = seen-append nonce l.runs (_) h
  verdict_seen v l key env wrong_plan h = seen-append nonce l.runs (_) h
  verdict_seen v l key env malformed_status h = seen-append nonce l.runs (_) h
  verdict_seen v l key env malformed_nonce h = seen-append nonce l.runs (_) h
  verdict_seen v l key env replay h = seen-append nonce l.runs (_) h

  outcome_seen :
      (v : ResultVerifier) (l : RunLedger) (key : Text) (env : Envelope)
      (o : Option (ResultVerdict × Option NonceCache))
      → seen_nonce nonce l.runs ≡ true
      → seen_nonce nonce ((ledger_after l (record_outcome v l key env o)).runs) ≡ true
  outcome_seen v l key env none h = h
  outcome_seen v l key env (some (w, cache)) h = verdict_seen v l key env w h

  submit_all_seen :
      (v : ResultVerifier) (ps : List (Presented × Option NonceCache)) (l : RunLedger)
      → seen_nonce nonce l.runs ≡ true
      → seen_nonce nonce ((submit_all v ps l).runs) ≡ true
  unfolding submit_all submit record_step_result
  submit_all_seen v [] l h = h
  submit_all_seen v ((p, cache) ∷ ps) l h = submit_all_seen v ps (submit v l (p, cache)) (
      outcome_seen v l p.key p.envelope
        (verify_step_result v p.key p.envelope (or_else p.run_id l.run_id)
          (or_else p.plan_sha l.plan_sha) cache)
        h)

text_nonce : (v : Value) (n : Text) → nonce_text v ≡ some n → is_text v n ≡ true
unfolding is_text
text_nonce (text (c ∷ cs)) n h =
    subst (λ t. is_text (text (c ∷ cs)) t ≡ true) (some_injective h) (text_self (c ∷ cs))
text_nonce (text []) n h = absurd (ground arith)
text_nonce (Value.missing) n h = absurd (ground arith)
text_nonce (Value.null) n h = absurd (ground arith)
text_nonce (Value.flag b) n h = absurd (ground arith)
text_nonce (Value.int i) n h = absurd (ground arith)
text_nonce (Value.other b) n h = absurd (ground arith)

-- A nonce is recorded once in the ledger of a run: after a result is recorded, and whatever is
-- presented next, no result with the same nonce is recorded again, with a fresh cache of the
-- daemon or with none.
pub record_step_result-once :
    (v : ResultVerifier) (l l' l'' : RunLedger) (p q : Presented)
    (ps : List (Presented × Option NonceCache)) (cache cache' other other' : Option NonceCache)
    (b c : StepResult)
    → record_step_result v l p.key p.envelope p.run_id p.plan_sha cache ≡ some ((true, l'), cache')
    → v.result_of p.envelope.payload ≡ some b
    → v.result_of q.envelope.payload ≡ some c
    → nonce_text b.nonce ≡ nonce_text c.nonce
    → record_step_result v (submit_all v ps l') q.key q.envelope q.run_id q.plan_sha other
      ≢ some ((true, l''), other')
record_step_result-once v l l' l'' p q ps cache cache' other other' b c h found found' same_nonce
      again =
    let (d, first, grown) = record_step_result-Authentic v l l' p cache cache' h in
    let (d', second, _) =
      record_step_result-Authentic v (submit_all v ps l') l'' q other other' again in
    let here : seen_nonce first.nonce l'.runs ≡ true =
      ap (λ k. seen_nonce first.nonce k.runs) grown
      ∙ seen-last first.nonce l.runs (status_recorded d (keyid (v.key_digest p.key)))
          (text_nonce d.nonce first.nonce first.nonce_read) in
    let kept = submit_all_seen first.nonce v ps l' here in
    let one =
      one_nonce (v.result_of p.envelope.payload) (v.result_of q.envelope.payload) b c d d'
        first.nonce second.nonce found found' first.read second.read same_nonce first.nonce_read
        second.nonce_read in
    true_false (subst (λ n. seen_nonce n (submit_all v ps l').runs ≡ true) one kept) second.fresh
  where
    true_false : {t : Bool} → t ≡ true → t ≡ false → ⊥
    true_false e f = ground arith

    one_nonce :
        (o o' : Option StepResult) (g g' e e' : StepResult) (n n' : Text)
        → o ≡ some g
        → o' ≡ some g'
        → o ≡ some e
        → o' ≡ some e'
        → nonce_text g.nonce ≡ nonce_text g'.nonce
        → nonce_text e.nonce ≡ some n
        → nonce_text e'.nonce ≡ some n'
        → n ≡ n'
    one_nonce o o' g g' e e' n n' e1 e2 e3 e4 e5 e6 e7 = cc
