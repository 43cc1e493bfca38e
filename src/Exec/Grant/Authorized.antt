-- ===== src/Exec/Grant/Authorized.antt =====
-- infra/exec/grantverify.py: what an accepted grant shows, and that a refused one spends nothing.
use cyberware.Prelude.{
  ◌≡◌, refl, ap, Bool, true, false, not, Option, none, some, ◌⊎◌, inl, inr, List, ◌∷◌, [], ℤ, ◌+ℤ◌,
  ◌-ℤ◌, ◌≤ℤ◌, Text, same_text, same_text_iff, some_injective, arith, any, if◌then◌else◌,
}
use cyberware.Cwp.Chain.{Value, missing, null, text, is_text}
use cyberware.Cwp.Envelope.{Envelope}
use cyberware.Cwp.Sign.{keyid, verify}
use cyberware.Exec.Grant.{
  Argv, unpinned, pinned, malformed, Claim, Expected, Verifier, GrantVerdict, granted,
  bad_signature, wrong_type, NonceCache, spend, is_pair, as_int, unlike, strays, same_texts,
  strays_argv, nonce_text, check_claim, check_window, spend_nonce, after_checks, verify_claim,
  verify_grant, grant_type,
}

-- A field that the caller pins holds the pinned text.
abbrev pub Pins : Option Text → Value → Type 0
Pins none v = Unit
Pins (some t) v = v ≡ text t

-- As `Pins`, where the grant has the field.
abbrev pub Allows : Option Text → Value → Type 0
Allows none v = Unit
Allows (some t) v = (v ≡ missing) ⊎ ((v ≡ null) ⊎ (v ≡ text t))

abbrev pub AllowsArgv : Option (List Text) → Argv → Type 0
AllowsArgv none a = Unit
AllowsArgv (some xs) a = (a ≡ unpinned) ⊎ (a ≡ pinned xs)

-- What an accepted claim shows: the window holds the present up to the skew, the run, the plan, the
-- workspace and the command are the caller's, and the nonce is a text.
pub record Authorizes (e : Expected) (now skew : ℤ) (c : Claim) (nonce : Text) : Type 0 where
  pub nbf : ℤ
  pub exp : ℤ
  pub nbf_read : as_int c.nbf ≡ some nbf
  pub exp_read : as_int c.exp ≡ some exp
  pub begun : (nbf -ℤ skew) ≤ℤ now
  pub running : now ≤ℤ (exp +ℤ skew)
  pub same_run : Pins e.run_id c.run_id
  pub same_plan : Pins e.plan_sha c.plan_sha
  pub same_workspace : Allows e.workspace c.workspace
  pub same_argv : AllowsArgv e.argv c.argv
  pub nonce_read : nonce_text c.nonce ≡ some nonce

-- The nonce was not in the cache before and is in it after.
abbrev pub Spent : Text → Text → Option NonceCache → Option NonceCache → Type 0
Spent issuer nonce none cache' = cache' ≡ none
Spent issuer nonce (some seen) cache' =
    (any (is_pair (issuer, nonce)) seen ≡ false) × (cache' ≡ some ((issuer, nonce) ∷ seen))

pub text_of : (v : Value) (t : Text) → is_text v t ≡ true → v ≡ text t
unfolding is_text
text_of (text a) t h = ap text ((same_text_iff a t).0 h)
text_of (Value.missing) t h = absurd (ground arith)
text_of (Value.null) t h = absurd (ground arith)
text_of (Value.flag b) t h = absurd (ground arith)
text_of (Value.int n) t h = absurd (ground arith)
text_of (Value.other b) t h = absurd (ground arith)

Pins-of : (o : Option Text) (v : Value) → unlike o v ≡ false → Pins o v
Pins-of none v h = tt
Pins-of (some t) v h = text_of v t (ground arith)

Allows-of : (o : Option Text) (v : Value) → strays o v ≡ false → Allows o v
unfolding is_text
Allows-of none v h = tt
Allows-of (some t) (Value.missing) h = inl refl
Allows-of (some t) (Value.null) h = inr (inl refl)
Allows-of (some t) (text a) h = inr (inr (text_of (text a) t (ground arith)))
Allows-of (some t) (Value.flag b) h = absurd (ground arith)
Allows-of (some t) (Value.int n) h = absurd (ground arith)
Allows-of (some t) (Value.other b) h = absurd (ground arith)

texts_eq : (xs ys : List Text) → same_texts xs ys ≡ true → xs ≡ ys
texts_eq [] [] h = refl
texts_eq [] (y ∷ ys) h = absurd (ground arith)
texts_eq (x ∷ xs) [] h = absurd (ground arith)
texts_eq (x ∷ xs) (y ∷ ys) h =
    rw ((same_text_iff x y).0 (ground arith), texts_eq xs ys (ground arith)) refl

argv_of : (o : Option (List Text)) (a : Argv) → strays_argv o a ≡ false → AllowsArgv o a
argv_of none a h = tt
argv_of (some xs) unpinned h = inl refl
argv_of (some xs) (pinned ys) h = inr (ap pinned (texts_eq ys xs (ground arith)))
argv_of (some xs) malformed h = absurd (ground arith)

window_of :
    (e : Expected) (now skew nbf exp : ℤ) (c : Claim)
    → check_claim e now skew nbf exp c ≡ granted
    → ((nbf -ℤ skew) ≤ℤ now)
      × (now ≤ℤ (exp +ℤ skew))
      × (unlike e.run_id c.run_id ≡ false)
      × (unlike e.plan_sha c.plan_sha ≡ false)
      × (strays e.workspace c.workspace ≡ false)
      × (strays_argv e.argv c.argv ≡ false)
unfolding check_claim
window_of e now skew nbf exp c h = ground arith

Spent-of :
    (issuer : Text) (cache cache' : Option NonceCache) (o : Option Text)
    → spend_nonce issuer cache o ≡ (granted, cache')
    → (nonce : Text) × (o ≡ some nonce) × Spent issuer nonce cache cache'
unfolding spend_nonce spend
Spent-of issuer cache cache' none h = absurd (ground arith)
Spent-of issuer none cache' (some nonce) h = (nonce, refl, ground arith)
Spent-of issuer (some seen) cache' (some nonce) h = (nonce, refl, (ground arith, ground arith))

after_granted :
    (v : GrantVerdict) (issuer : Text) (cache cache' : Option NonceCache) (o : Option Text)
    → after_checks v issuer cache o ≡ (granted, cache')
    → (v ≡ granted) × (spend_nonce issuer cache o ≡ (granted, cache'))
after_granted v issuer cache cache' o h = ground arith

window_read :
    (e : Expected) (now skew : ℤ) (a b : Option ℤ) (c : Claim)
    → check_window e now skew a b c ≡ granted
    → (nbf : ℤ) × (exp : ℤ) × (a ≡ some nbf)
      × (b ≡ some exp)
      × (check_claim e now skew nbf exp c ≡ granted)
window_read e now skew (some nbf) (some exp) c h = (nbf, exp, refl, refl, h)
window_read e now skew none b c h = absurd (ground arith)
window_read e now skew (some nbf) none c h = absurd (ground arith)

-- A claim that is accepted authorizes what the caller asks, and its nonce is spent by that.
pub verify_claim-Authorizes :
    (issuer : Text) (e : Expected) (now skew : ℤ) (cache cache' : Option NonceCache) (c : Claim)
    → verify_claim issuer e now skew cache c ≡ (granted, cache')
    → (nonce : Text) × Authorizes e now skew c nonce × Spent issuer nonce cache cache'
unfolding verify_claim
verify_claim-Authorizes issuer e now skew cache cache' c h =
    let (checked, used) =
      after_granted (check_window e now skew (as_int c.nbf) (as_int c.exp) c) issuer cache cache'
        (nonce_text c.nonce) h in
    let (nbf, exp, nbf_read, exp_read, passed) =
      window_read e now skew (as_int c.nbf) (as_int c.exp) c checked in
    let (begun, running, run, plan, ws, argv) = window_of e now skew nbf exp c passed in
    let (nonce, nonce_read, spent) = Spent-of issuer cache cache' (nonce_text c.nonce) used in
    (
      nonce,
      record {
        nbf = nbf;
        exp = exp;
        nbf_read = nbf_read;
        exp_read = exp_read;
        begun = begun;
        running = running;
        same_run = Pins-of e.run_id c.run_id run;
        same_plan = Pins-of e.plan_sha c.plan_sha plan;
        same_workspace = Allows-of e.workspace c.workspace ws;
        same_argv = argv_of e.argv c.argv argv;
        nonce_read = nonce_read;
      },
      spent,
    )

gates :
    (signed typed : Bool) (o : Option Claim) (f : Claim → GrantVerdict × Option NonceCache)
    (cache cache' : Option NonceCache)
    → (if not signed
        then some (bad_signature, cache)
        else if not typed
        then some (wrong_type, cache)
        else elim o [ none ↦ none | some c ↦ some (f c) ])
      ≡ some (granted, cache')
    → (signed ≡ true) × (typed ≡ true) × (c : Claim) × (o ≡ some c) × (f c ≡ (granted, cache'))
gates true true (some c) f cache cache' h = (refl, refl, c, refl, some_injective h)
gates true true none f cache cache' h = absurd (ground arith)
gates true false o f cache cache' h = absurd (ground arith)
gates false typed o f cache cache' h = absurd (ground arith)

-- A grant that `verify_grant` accepts is signed by the key over its type and payload, is of the
-- grants' type, carries a claim that authorizes what the caller asks at this time, and has a nonce
-- that was unspent for the key's issuer and is spent now.
pub verify_grant-Authorizes :
    (v : Verifier) (key : Text) (env : Envelope) (e : Expected) (now skew : ℤ)
    (cache cache' : Option NonceCache)
    → verify_grant v key env e now skew cache ≡ some (granted, cache')
    → (verify v.ed_verify env key ≡ true)
      × (env.payload_type ≡ grant_type)
      × (c : Claim) × (v.claim_of env.payload ≡ some c)
      × (nonce : Text) × Authorizes e now skew c nonce
      × Spent (keyid (v.key_digest key)) nonce cache cache'
unfolding verify_grant
verify_grant-Authorizes v key env e now skew cache cache' h =
    let issuer = keyid (v.key_digest key) in
    let (signed, typed, c, read, accepted) =
      gates (verify v.ed_verify env key) (same_text env.payload_type grant_type)
        (v.claim_of env.payload) (verify_claim issuer e now skew cache) cache cache' h in
    let (nonce, authorized, spent) =
      verify_claim-Authorizes issuer e now skew cache cache' c accepted in
    (signed, (same_text_iff env.payload_type grant_type).0 typed, c, read, nonce, authorized, spent)

after_refused :
    (v : GrantVerdict) (issuer : Text) (cache cache' : Option NonceCache) (o : Option Text)
    (w : GrantVerdict)
    → after_checks v issuer cache o ≡ (w, cache')
    → (w ≡ granted) ⊎ (cache' ≡ cache)
unfolding spend_nonce spend
after_refused v issuer none cache' o w h = ground arith
after_refused v issuer (some seen) cache' o w h = ground arith

refused_gates :
    (signed typed : Bool) (o : Option Claim) (f : Claim → GrantVerdict × Option NonceCache)
    (cache cache' : Option NonceCache) (w : GrantVerdict)
    → ((c : Claim) → f c ≡ (w, cache') → (w ≡ granted) ⊎ (cache' ≡ cache))
    → (if not signed
        then some (bad_signature, cache)
        else if not typed
        then some (wrong_type, cache)
        else elim o [ none ↦ none | some c ↦ some (f c) ])
      ≡ some (w, cache')
    → (w ≡ granted) ⊎ (cache' ≡ cache)
refused_gates true true (some c) f cache cache' w k h = k c (some_injective h)
refused_gates true true none f cache cache' w k h = absurd (ground arith)
refused_gates true false o f cache cache' w k h = inr (ground arith)
refused_gates false typed o f cache cache' w k h = inr (ground arith)

-- Whatever the reason of a refusal, a grant that is not accepted leaves the cache of nonces as it
-- was, so that its nonce can still be used.
pub refused-unspent :
    (v : Verifier) (key : Text) (env : Envelope) (e : Expected) (now skew : ℤ)
    (cache cache' : Option NonceCache) (w : GrantVerdict)
    → verify_grant v key env e now skew cache ≡ some (w, cache')
    → (w ≡ granted) ⊎ (cache' ≡ cache)
unfolding verify_grant verify_claim
refused-unspent v key env e now skew cache cache' w h =
    let issuer = keyid (v.key_digest key) in
    refused_gates (verify v.ed_verify env key) (same_text env.payload_type grant_type)
      (v.claim_of env.payload) (verify_claim issuer e now skew cache) cache cache' w
      (λ c.
        after_refused (check_window e now skew (as_int c.nbf) (as_int c.exp) c) issuer cache cache'
          (nonce_text c.nonce) w)
      h
