-- ===== src/Cwp/Revocation/InFlight.antt =====
-- infra/cwp/revoke_inflight.py: where a run stops that is revoked while it runs.
use cyberware.Prelude.{
  ℕ, zero, suc, ◌+◌, ◌<◌, ◌≤◌, ◌≡◌, ap, ◌∙◌, subst, Bool, true, false, ◌==◌, ==_iff, Text, ℤ,
  Bool-cases, inl, inr, arith,
}
use cyberware.Cwp.Envelope.{Envelope}
use cyberware.Cwp.Revocation.{
  Publisher, allows, revocation_decision, Run, halted_revoked, killed_critical, inflight_from,
  run_inflight, default_max_age,
}

abbrev pub killed : ℕ → Run
killed i = record { status = killed_critical; steps = i }

abbrev pub halted : ℕ → Run
halted i = record { status = halted_revoked; steps = i }

-- Before the revocation a step is completed.
step_before :
    (left i eff : ℕ) (critical : Bool)
    → i < eff
    → inflight_from (suc left) i eff critical true false
      ≡ inflight_from left (suc i) eff critical true false
unfolding inflight_from
step_before left i eff critical h = ground arith

step_critical : (left i : ℕ) → inflight_from (suc left) i i true true false ≡ killed i
unfolding inflight_from
step_critical left i = ground arith

step_ordinary :
    (left i : ℕ)
    → inflight_from (suc left) i i false true false ≡ inflight_from left (suc i) i false true false
unfolding inflight_from
step_ordinary left i = ground arith

step_after :
    (left eff : ℕ) → inflight_from (suc left) (suc eff) eff false true false ≡ halted (suc eff)
unfolding inflight_from
step_after left eff = ground arith

kill_at :
    (left i eff : ℕ)
    → i ≤ eff
    → eff < i + left
    → inflight_from left i eff true true false ≡ killed eff
kill_at zero i eff h l = absurd (omega arith)
kill_at (suc left) i eff h l = elim (Bool-cases (i == eff)) [
  | inl here ↦
      subst (λ e. inflight_from (suc left) i e true true false ≡ killed e) ((==_iff i eff).0 here)
        (step_critical left i)
  | inr before ↦
      step_before left i eff true (earlier before)
      ∙ kill_at left (suc i) eff (earlier before) (omega arith)
]
  where
    earlier : (i == eff) ≡ false → i < eff
    earlier e = ground arith

halt_after :
    (left i eff : ℕ)
    → i ≤ eff
    → suc eff < i + left
    → inflight_from left i eff false true false ≡ halted (suc eff)
halt_after zero i eff h l = absurd (omega arith)
halt_after (suc zero) i eff h l = absurd (omega arith)
halt_after (suc (suc left)) i eff h l = elim (Bool-cases (i == eff)) [
  | inl here ↦
      subst (λ e. inflight_from (suc (suc left)) i e false true false ≡ halted (suc e))
        ((==_iff i eff).0 here) (step_ordinary (suc left) i ∙ step_after left i)
  | inr before ↦
      step_before (suc left) i eff false (earlier before)
      ∙ halt_after (suc left) (suc i) eff (earlier before) (omega arith)
]
  where
    earlier : (i == eff) ≡ false → i < eff
    earlier e = ground arith

-- Where the gate lets the artifact through on the first feed and not on the revoking one, and there are
-- steps behind the one that the revocation lands in: an ordinary revocation lets that step finish and
-- halts the run at the next, and a critical one kills the step itself, with one step less completed.
pub run_inflight-stops :
    (p : Publisher) (n : ℕ) (artifact : Text) (clean_feed revoke_feed : Envelope) (eff : ℕ)
    (now last_seq : ℤ)
    → allows (revocation_decision p clean_feed artifact now last_seq default_max_age) ≡ true
    → allows (revocation_decision p revoke_feed artifact now last_seq default_max_age) ≡ false
    → suc eff < n
    → (run_inflight p n artifact clean_feed revoke_feed eff now false last_seq ≡ halted (suc eff))
      × (run_inflight p n artifact clean_feed revoke_feed eff now true last_seq ≡ killed eff)
unfolding run_inflight
run_inflight-stops p n artifact clean_feed revoke_feed eff now last_seq clean revoked inside = (
  both_gates false ∙ halt_after n 0 eff (omega arith) (omega arith),
  both_gates true ∙ kill_at n 0 eff (omega arith) (omega arith),
)
  where
    both_gates :
        (critical : Bool)
        → run_inflight p n artifact clean_feed revoke_feed eff now critical last_seq
          ≡ inflight_from n 0 eff critical true false
    both_gates critical =
        ap
          (λ b.
            inflight_from n 0 eff critical b
              (allows (revocation_decision p revoke_feed artifact now last_seq default_max_age)))
          clean
        ∙ ap (inflight_from n 0 eff critical true) revoked
