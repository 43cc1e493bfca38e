-- ===== src/Cwp/Revocation.antt =====
-- infra/cwp/revocation.py, feed_tiers.py, revoke_inflight.py and keyrotation.py beside it: the signed
-- feed of what is revoked, and the gates that consult it. OpenSSL's check and the reading of a feed's
-- JSON are parameters; a feed that is read has its fields.
pub mod Trusted
pub mod InFlight
use cyberware.Prelude.{
  ℕ, zero, suc, ◌+◌, Bool, true, false, not, ◌&&◌, ◌||◌, Option, none, some, List, [], ◌∷◌, ℤ, pos,
  ◌+ℤ◌, ◌-ℤ◌, ltb_ℤ, leb_ℤ, ltb, ◌==◌, Text, codes, same_text, any, if◌then◌else◌,
}
use cyberware.Cwp.Envelope.{Envelope, PhVerify, verify_ph}

pub record FeedBody : Type 0 where
  pub seq : ℤ
  pub issued : ℤ
  pub expires : ℤ
  pub revoked : List Text

-- The parameters, and the pinned key of the publisher.
pub record Publisher : Type 0 where
  pub ph : PhVerify
  pub body_of : Text → Option FeedBody
  pub pinned : Text

-- What `verify_feed` comes to: a trusted body, or the reason of the refusal.
pub data Feed : Type 0 where
  trusted : FeedBody → Feed
  wrong_type bad_signature feed_stale rollback : Feed

pub data Gate : Type 0 where
  allow : Gate
  revoked : Gate
  untrusted : Feed → Gate

abbrev pub feed_type : Text
feed_type = codes "application/vnd.cyberware.revocation+json"

abbrev pub listed : Text → FeedBody → Bool
listed artifact b = any (same_text artifact) b.revoked

-- The freshness and the order of a body.
unfoldable pub check_body : ℤ → ℤ → ℤ → Option FeedBody → Feed
check_body now last_seq max_age none = bad_signature
check_body now last_seq max_age (some b) =
    if ltb_ℤ b.expires now || ltb_ℤ max_age (now -ℤ b.issued)
    then feed_stale
    else if leb_ℤ b.seq last_seq
    then rollback
    else trusted b

-- `verify_feed`
unfoldable pub verify_feed : Publisher → Envelope → ℤ → ℤ → ℤ → Feed
unfolding verify_ph check_body
verify_feed p feed now last_seq max_age =
    if not (same_text feed.payload_type feed_type)
    then wrong_type
    else if not (verify_ph p.ph feed p.pinned)
    then bad_signature
    else check_body now last_seq max_age (p.body_of feed.payload)

-- `revocation_decision`, on what `verify_feed` returned.
unfoldable pub gate : Text → Feed → Gate
gate artifact (trusted b) = if listed artifact b then revoked else allow
gate artifact f = untrusted f

unfoldable pub revocation_decision : Publisher → Envelope → Text → ℤ → ℤ → ℤ → Gate
unfolding verify_feed gate
revocation_decision p feed artifact now last_seq max_age =
    gate artifact (verify_feed p feed now last_seq max_age)

abbrev pub lists : Text → Feed → Bool
lists artifact (trusted b) = listed artifact b
lists artifact f = false

unfoldable pub is_revoked : Publisher → Envelope → Text → ℤ → ℤ → ℤ → Bool
unfolding verify_feed
is_revoked p feed artifact now last_seq max_age =
    lists artifact (verify_feed p feed now last_seq max_age)

abbrev pub allows : Gate → Bool
allows allow = true
allows g = false

pub data Status : Type 0 where
  completed halted_revoked killed_critical : Status

pub record Run : Type 0 where
  pub status : Status
  pub steps : ℕ

-- The loop of `run_inflight` from step `i`, which is also the number of completed steps; the two tests
-- are the gate's on the clean and on the revoking feed.
unfoldable pub inflight_from : ℕ → ℕ → ℕ → Bool → Bool → Bool → Run
inflight_from zero i effective_at critical clean_ok revoke_ok = record {
  status = completed;
  steps = i;
}
inflight_from (suc left) i effective_at critical clean_ok revoke_ok =
    let rest = inflight_from left (suc i) effective_at critical clean_ok revoke_ok in
    if not (if ltb effective_at i then revoke_ok else clean_ok)
    then record { status = halted_revoked; steps = i }
    else if (i == effective_at) && (critical && not revoke_ok)
    then record { status = killed_critical; steps = i }
    else rest

abbrev pub default_max_age : ℤ
default_max_age = pos 3600

-- `run_inflight`
unfoldable pub run_inflight : Publisher → ℕ → Text → Envelope → Envelope → ℕ → ℤ → Bool → ℤ → Run
unfolding revocation_decision inflight_from
run_inflight p n artifact clean_feed revoke_feed effective_at now critical last_seq =
    inflight_from n 0 effective_at critical
      (allows (revocation_decision p clean_feed artifact now last_seq default_max_age))
      (allows (revocation_decision p revoke_feed artifact now last_seq default_max_age))

pub data Tier : Type 0 where
  fresh grace1 grace2 expired : Tier

-- `tier_for`
unfoldable pub tier_for : ℤ → ℤ → ℤ → ℤ → Tier
tier_for age max_age g1 g2 =
    if leb_ℤ age max_age
    then fresh
    else if leb_ℤ age (max_age +ℤ g1)
    then grace1
    else if leb_ℤ age (max_age +ℤ g1 +ℤ g2)
    then grace2
    else expired

pub data Decision : Type 0 where
  proceed wrong_feed_type bad_feed_signature feed_expired artifact_revoked
        grace_destructive_refused :
      Decision

abbrev pub in_grace : Tier → Bool
in_grace grace1 = true
in_grace grace2 = true
in_grace t = false

abbrev pub is_expired : Tier → Bool
is_expired expired = true
is_expired t = false

abbrev pub names_artifact : Option Text → FeedBody → Bool
names_artifact none b = false
names_artifact (some artifact) b = listed artifact b

-- The tier's part of `decision`.
unfoldable pub decide_tier : Tier → Bool → Option Text → FeedBody → Decision
decide_tier t destructive artifact b =
    if is_expired t
    then feed_expired
    else if names_artifact artifact b
    then artifact_revoked
    else if in_grace t && destructive
    then grace_destructive_refused
    else proceed

abbrev pub decide_body : ℤ → ℤ → ℤ → ℤ → Bool → Option Text → Option FeedBody → Decision
decide_body now max_age g1 g2 destructive artifact none = bad_feed_signature
decide_body now max_age g1 g2 destructive artifact (some b) =
    decide_tier (tier_for (now -ℤ b.issued) max_age g1 g2) destructive artifact b

-- `decision`, without the tier that it reports.
unfoldable pub decision : Publisher → Envelope → Bool → ℤ → ℤ → ℤ → ℤ → Option Text → Decision
unfolding tier_for decide_tier verify_ph
decision p feed destructive now max_age g1 g2 artifact =
    if not (same_text feed.payload_type feed_type)
    then wrong_feed_type
    else if not (verify_ph p.ph feed p.pinned)
    then bad_feed_signature
    else decide_body now max_age g1 g2 destructive artifact (p.body_of feed.payload)

pub data KeyVerdict : Type 0 where
  honored unknown_key bad_grant_signature key_revoked : KeyVerdict

-- The key id of the first signature.
abbrev pub signer : Envelope → Option Text
signer e = elim e.signatures [ [] ↦ none | s ∷ rest ↦ some s.keyid ]

unfoldable pub key_for : Text → List (Text × Text) → Option Text
key_for kid [] = none
key_for kid ((k, path) ∷ rest) = if same_text k kid then some path else key_for kid rest

-- The feed's part of `verify_grant`, where there is a feed.
abbrev pub key_gate : Publisher → Option Envelope → Text → ℤ → Bool
key_gate p none kid now = true
key_gate p (some feed) kid now = allows (revocation_decision p feed kid now (pos 0) default_max_age)

abbrev pub verify_signer :
    Publisher → Envelope → List (Text × Text) → ℤ → Option Envelope → Option Text → KeyVerdict
verify_signer p grant keys now feed none = unknown_key
verify_signer p grant keys now feed (some kid) = elim (key_for kid keys) [
  | none ↦ unknown_key
  | some key ↦
      if not (verify_ph p.ph grant key)
      then bad_grant_signature
      else if not (key_gate p feed kid now)
      then key_revoked
      else honored
]

-- `verify_grant` of a key rotation.
unfoldable pub verify_rotated :
    Publisher → Envelope → List (Text × Text) → ℤ → Option Envelope → KeyVerdict
unfolding verify_ph key_for revocation_decision
verify_rotated p grant keys now feed = verify_signer p grant keys now feed (signer grant)
