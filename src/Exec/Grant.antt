-- ===== src/Exec/Grant.antt =====
-- infra/exec/grantverify.py: the offline check of a grant, with its replay guard. The reading of a
-- payload as a claim (`json.loads`) and the digest of a raw key are parameters.
pub mod Authorized
pub mod Once
use cyberware.Prelude.{
  ℕ, Bool, true, false, not, ◌&&◌, ◌||◌, Option, none, some, List, [], ◌∷◌, ℤ, pos, ◌+ℤ◌, ◌-ℤ◌,
  ltb_ℤ, Text, codes, same_text, any, if◌then◌else◌,
}
use cyberware.Cwp.Chain.{Value, missing, null, flag, int, text, is_text}
use cyberware.Cwp.Envelope.{Envelope}
use cyberware.Cwp.Sign.{EdVerify, keyid, verify}

-- What `body.get("argv")` is: no value, a list of texts, or something else.
pub data Argv : Type 0 where
  unpinned : Argv
  pinned : List Text → Argv
  malformed : Argv

-- The claim of a grant, as far as it is read.
pub record Claim : Type 0 where
  pub nbf : Value
  pub exp : Value
  pub run_id : Value
  pub plan_sha : Value
  pub workspace : Value
  pub argv : Argv
  pub nonce : Value

-- What the caller expects, where it does.
pub record Expected : Type 0 where
  pub run_id : Option Text
  pub plan_sha : Option Text
  pub workspace : Option Text
  pub argv : Option (List Text)

pub record Verifier : Type 0 where
  pub ed_verify : EdVerify
  pub claim_of : Text → Option Claim
  pub key_digest : Text → Text

pub data GrantVerdict : Type 0 where
  granted bad_signature wrong_type malformed_window not_yet_valid expired wrong_run wrong_plan
        wrong_workspace wrong_argv malformed_nonce replay :
      GrantVerdict

abbrev pub grant_type : Text
grant_type = codes "application/vnd.cyberware.grant+json"

abbrev pub default_skew : ℤ
default_skew = pos 60

-- The issuer and nonce pairs that are spent.
abbrev pub NonceCache : Type 0
NonceCache = List (Text × Text)

abbrev pub is_pair : Text × Text → Text × Text → Bool
is_pair (a, b) (c, d) = same_text a c && same_text b d

-- `spend`
unfoldable pub spend : NonceCache → Text → Text → Bool × NonceCache
spend seen issuer nonce =
    if any (is_pair (issuer, nonce)) seen then (false, seen) else (true, (issuer, nonce) ∷ seen)

-- `isinstance(v, int)`, with the number: a bool is an int.
abbrev pub as_int : Value → Option ℤ
as_int (int n) = some n
as_int (flag true) = some (pos 1)
as_int (flag false) = some (pos 0)
as_int _ = none

-- `expect is not None and v != expect`
abbrev pub unlike : Option Text → Value → Bool
unlike none v = false
unlike (some t) v = not (is_text v t)

-- `v in (None, t)`
abbrev pub absent_or : Value → Text → Bool
absent_or missing t = true
absent_or null t = true
absent_or v t = is_text v t

abbrev pub strays : Option Text → Value → Bool
strays none v = false
strays (some t) v = not (absent_or v t)

abbrev pub same_texts : List Text → List Text → Bool
same_texts [] [] = true
same_texts [] (y ∷ ys) = false
same_texts (x ∷ xs) [] = false
same_texts (x ∷ xs) (y ∷ ys) = same_text x y && same_texts xs ys

abbrev pub strays_argv : Option (List Text) → Argv → Bool
strays_argv none a = false
strays_argv (some xs) unpinned = false
strays_argv (some xs) (pinned ys) = not (same_texts ys xs)
strays_argv (some xs) malformed = true

-- `isinstance(nonce, str) and nonce`
abbrev pub nonce_text : Value → Option Text
nonce_text (text (c ∷ cs)) = some (c ∷ cs)
nonce_text _ = none

-- The checks of the claim that come before the nonce, in their order.
unfoldable pub check_claim : Expected → ℤ → ℤ → ℤ → ℤ → Claim → GrantVerdict
unfolding is_text
check_claim e now skew nbf exp c =
    if ltb_ℤ now (nbf -ℤ skew)
    then not_yet_valid
    else if ltb_ℤ (exp +ℤ skew) now
    then expired
    else if unlike e.run_id c.run_id
    then wrong_run
    else if unlike e.plan_sha c.plan_sha
    then wrong_plan
    else if strays e.workspace c.workspace
    then wrong_workspace
    else if strays_argv e.argv c.argv
    then wrong_argv
    else granted

abbrev pub check_window : Expected → ℤ → ℤ → Option ℤ → Option ℤ → Claim → GrantVerdict
check_window e now skew (some nbf) (some exp) c = check_claim e now skew nbf exp c
check_window e now skew _ _ c = malformed_window

-- The use of the nonce; without a cache nothing is spent.
unfoldable pub spend_nonce :
    Text → Option NonceCache → Option Text → GrantVerdict × Option NonceCache
unfolding spend
spend_nonce issuer cache none = (malformed_nonce, cache)
spend_nonce issuer none (some nonce) = (granted, none)
spend_nonce issuer (some seen) (some nonce) =
    let (fresh, seen') = spend seen issuer nonce in (if fresh then granted else replay, some seen')

abbrev pub after_checks :
    GrantVerdict → Text → Option NonceCache → Option Text → GrantVerdict × Option NonceCache
after_checks granted issuer cache read = spend_nonce issuer cache read
after_checks v issuer cache read = (v, cache)

unfoldable pub verify_claim :
    Text → Expected → ℤ → ℤ → Option NonceCache → Claim → GrantVerdict × Option NonceCache
unfolding check_claim spend_nonce
verify_claim issuer e now skew cache c =
    after_checks (check_window e now skew (as_int c.nbf) (as_int c.exp) c) issuer cache
      (nonce_text c.nonce)

-- `verify_grant`; `none` is the exception of a payload that is no JSON.
unfoldable pub verify_grant :
    Verifier
    → Text
    → Envelope
    → Expected
    → ℤ
    → ℤ
    → Option NonceCache
    → Option (GrantVerdict × Option NonceCache)
unfolding verify_claim verify keyid
verify_grant v key env e now skew cache =
    if not (verify v.ed_verify env key)
    then some (bad_signature, cache)
    else if not (same_text env.payload_type grant_type)
    then some (wrong_type, cache)
    else elim (v.claim_of env.payload) [
      | none ↦ none
      | some c ↦ some (verify_claim (keyid (v.key_digest key)) e now skew cache c)
    ]
