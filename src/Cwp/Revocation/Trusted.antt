-- ===== src/Cwp/Revocation/Trusted.antt =====
-- infra/cwp/revocation.py and feed_tiers.py: when a feed is trusted, and what its gates let through.
use cyberware.Prelude.{
  ◌≡◌, ◌↔◌, refl, sym, ap, subst, Bool, true, false, not, ◌&&◌, ◌||◌, Option, none, some, ℤ, ◌+ℤ◌,
  ◌-ℤ◌, ◌≤ℤ◌, ltb_ℤ, leb_ℤ, Text, same_text, same_text_iff, if◌then◌else◌, some_injective,
  passed_iff, arith,
}
use cyberware.Cwp.Envelope.{Envelope, verify_ph}
use cyberware.Cwp.Revocation.{
  FeedBody, Publisher, Feed, trusted, wrong_type, bad_signature, feed_stale, rollback, allow,
  revoked, feed_type, listed, check_body, verify_feed, gate, revocation_decision, Tier, fresh,
  grace1, grace2, expired, tier_for, proceed, in_grace, is_expired, names_artifact, decide_tier,
  decide_body, decision, wrong_feed_type, bad_feed_signature, feed_expired, artifact_revoked,
  grace_destructive_refused,
}

-- The feed is the publisher's, by its signature and type, and holds this body.
pub record Signed (p : Publisher) (feed : Envelope) (b : FeedBody) : Type 0 where
  pub kind : feed.payload_type ≡ feed_type
  pub signed : verify_ph p.ph feed p.pinned ≡ true
  pub read : p.body_of feed.payload ≡ some b

not-false : (b : Bool) → (not b ≡ false) ↔ (b ≡ true)
not-false b = ground arith

stale_iff :
    (now max_age : ℤ) (b : FeedBody)
    → ((ltb_ℤ b.expires now || ltb_ℤ max_age (now -ℤ b.issued)) ≡ false)
      ↔ (now ≤ℤ b.expires) × ((now -ℤ b.issued) ≤ℤ max_age)
stale_iff now max_age b = ground arith

newer_iff : (a b : ℤ) → (leb_ℤ a b ≡ false) ↔ (ltb_ℤ b a ≡ true)
newer_iff a b = ground arith

trusted_body :
    (now last_seq max_age : ℤ) (o : Option FeedBody) (b : FeedBody)
    → (check_body now last_seq max_age o ≡ trusted b)
      ↔ (o ≡ some b)
        × (now ≤ℤ b.expires)
        × ((now -ℤ b.issued) ≤ℤ max_age)
        × (ltb_ℤ last_seq b.seq ≡ true)
unfolding check_body
trusted_body now last_seq max_age none b = (λ h. absurd (ground arith), λ h. absurd (ground arith))
trusted_body now last_seq max_age (some c) b =
    let g1 =
      passed_iff (ltb_ℤ c.expires now || ltb_ℤ max_age (now -ℤ c.issued)) feed_stale (trusted b)
        (λ e. ground arith) in
    let g2 = passed_iff (leb_ℤ c.seq last_seq) rollback (trusted b) (λ e. ground arith) in
    (
      λ h.
          let (h1, r1) = g1.0 h in
          let (h2, r2) = g2.0 r1 in
          let same = trusted_injective c b r2 in
          let (live, young) = (stale_iff now max_age c).0 h1 in
          (
            ap some same,
            subst (λ d. now ≤ℤ d.expires) same live,
            subst (λ d. (now -ℤ d.issued) ≤ℤ max_age) same young,
            subst (λ d. ltb_ℤ last_seq d.seq ≡ true) same ((newer_iff c.seq last_seq).0 h2),
          ),
      λ (read, live, young, newer).
          let same = sym (some_injective read) in
          g1.1 (
            (stale_iff now max_age c).1 (
              subst (λ d. now ≤ℤ d.expires) same live,
              subst (λ d. (now -ℤ d.issued) ≤ℤ max_age) same young,
            ),
            g2.1 (
              (newer_iff c.seq last_seq).1 (subst (λ d. ltb_ℤ last_seq d.seq ≡ true) same newer),
              ap trusted (sym same),
            ),
          ),
    )
  where
    trusted_injective : (c d : FeedBody) → trusted c ≡ trusted d → c ≡ d
    trusted_injective c d e = cc

-- A feed is trusted exactly where it is the publisher's, signed over its type and payload, has not
-- expired, is not older than the maximal age, and is newer than the feed that was accepted last.
pub verify_feed_iff :
    (p : Publisher) (feed : Envelope) (now last_seq max_age : ℤ) (b : FeedBody)
    → (verify_feed p feed now last_seq max_age ≡ trusted b)
      ↔ Signed p feed b
        × (now ≤ℤ b.expires)
        × ((now -ℤ b.issued) ≤ℤ max_age)
        × (ltb_ℤ last_seq b.seq ≡ true)
unfolding verify_feed
verify_feed_iff p feed now last_seq max_age b =
    let kind = same_text feed.payload_type feed_type in
    let signed = verify_ph p.ph feed p.pinned in
    let body = trusted_body now last_seq max_age (p.body_of feed.payload) b in
    let g1 = passed_iff (not kind) wrong_type (trusted b) (λ e. ground arith) in
    let g2 = passed_iff (not signed) bad_signature (trusted b) (λ e. ground arith) in
    (
      λ h.
          let (h1, r1) = g1.0 h in
          let (h2, r2) = g2.0 r1 in
          let (read, live, young, newer) = body.0 r2 in
          (
            record {
              kind = (same_text_iff feed.payload_type feed_type).0 ((not-false kind).0 h1);
              signed = (not-false signed).0 h2;
              read = read;
            },
            live,
            young,
            newer,
          ),
      λ (s, live, young, newer). g1.1 (
        (not-false kind).1 ((same_text_iff feed.payload_type feed_type).1 s.kind),
        g2.1 ((not-false signed).1 s.signed, body.1 (s.read, live, young, newer)),
      ),
    )

gate_iff :
    (artifact : Text) (f : Feed)
    → (gate artifact f ≡ allow) ↔ (b : FeedBody) × (f ≡ trusted b) × (listed artifact b ≡ false)
unfolding gate
gate_iff artifact (trusted c) =
    let g = passed_iff (listed artifact c) revoked allow (λ e. ground arith) in
    (
      λ h. (c, refl, (g.0 h).0),
      λ (b, same, out).
          g.1 (subst (λ d. listed artifact d ≡ false) (sym (inside c b same)) out, refl),
    )
  where
    inside : (c b : FeedBody) → trusted c ≡ trusted b → c ≡ b
    inside c b e = cc
gate_iff artifact wrong_type = (λ h. absurd (ground arith), λ (b, e, _). absurd (ground arith))
gate_iff artifact bad_signature = (λ h. absurd (ground arith), λ (b, e, _). absurd (ground arith))
gate_iff artifact feed_stale = (λ h. absurd (ground arith), λ (b, e, _). absurd (ground arith))
gate_iff artifact rollback = (λ h. absurd (ground arith), λ (b, e, _). absurd (ground arith))

-- The gate lets an artifact through exactly where the feed is trusted and does not list it: a feed that
-- is forged, stale or rolled back lets nothing through.
pub revocation_decision_iff :
    (p : Publisher) (feed : Envelope) (artifact : Text) (now last_seq max_age : ℤ)
    → (revocation_decision p feed artifact now last_seq max_age ≡ allow)
      ↔ (b : FeedBody) × (verify_feed p feed now last_seq max_age ≡ trusted b)
        × (listed artifact b ≡ false)
unfolding revocation_decision
revocation_decision_iff p feed artifact now last_seq max_age =
    gate_iff artifact (verify_feed p feed now last_seq max_age)

tier_fresh :
    (age max_age g1 g2 : ℤ)
    → is_expired (tier_for age max_age g1 g2) ≡ false
    → in_grace (tier_for age max_age g1 g2) ≡ false
    → leb_ℤ age max_age ≡ true
unfolding tier_for
tier_fresh age max_age g1 g2 h k =
    one_of (leb_ℤ age max_age) (leb_ℤ age (max_age +ℤ g1)) (leb_ℤ age (max_age +ℤ g1 +ℤ g2)) h k
  where
    one_of :
        (a b c : Bool)
        → is_expired (if a then fresh else if b then grace1 else if c then grace2 else expired)
          ≡ false
        → in_grace (if a then fresh else if b then grace1 else if c then grace2 else expired)
          ≡ false
        → a ≡ true
    one_of true b c e f = refl
    one_of false true c e f = absurd (ground arith)
    one_of false false true e f = absurd (ground arith)
    one_of false false false e f = absurd (ground arith)

tier_decision :
    (t : Tier) (artifact : Option Text) (b : FeedBody)
    → decide_tier t true artifact b ≡ proceed
    → (is_expired t ≡ false) × (in_grace t ≡ false) × (names_artifact artifact b ≡ false)
unfolding decide_tier
tier_decision t artifact b h =
    let (h1, r1) = (passed_iff (is_expired t) feed_expired proceed (λ e. ground arith)).0 h in
    let (h2, r2) =
      (passed_iff (names_artifact artifact b) artifact_revoked proceed (λ e. ground arith)).0 r1 in
    let (h3, _) =
      (passed_iff (in_grace t && true) grace_destructive_refused proceed (λ e. ground arith)).0
        r2 in
    (h1, ground arith, h2)

body_decision :
    (now max_age g1 g2 : ℤ) (artifact : Option Text) (o : Option FeedBody)
    → decide_body now max_age g1 g2 true artifact o ≡ proceed
    → (b : FeedBody) × (o ≡ some b)
      × ((now -ℤ b.issued) ≤ℤ max_age)
      × (names_artifact artifact b ≡ false)
body_decision now max_age g1 g2 artifact none h = absurd (ground arith)
body_decision now max_age g1 g2 artifact (some b) h =
    let age = now -ℤ b.issued in
    let (live, calm, out) = tier_decision (tier_for age max_age g1 g2) artifact b h in
    (b, refl, at_most age max_age (tier_fresh age max_age g1 g2 live calm), out)
  where
    at_most : (a c : ℤ) → leb_ℤ a c ≡ true → a ≤ℤ c
    at_most a c e = ground arith

-- A destructive operation goes ahead in an outage of the feed only on a feed of the publisher that is
-- not older than the maximal age, whatever the grace periods, and that does not list the artifact.
pub decision-Signed :
    (p : Publisher) (feed : Envelope) (now max_age g1 g2 : ℤ) (artifact : Option Text)
    → decision p feed true now max_age g1 g2 artifact ≡ proceed
    → (b : FeedBody) × Signed p feed b
      × ((now -ℤ b.issued) ≤ℤ max_age)
      × (names_artifact artifact b ≡ false)
unfolding decision
decision-Signed p feed now max_age g1 g2 artifact h =
    let kind = same_text feed.payload_type feed_type in
    let signed = verify_ph p.ph feed p.pinned in
    let (h1, r1) = (passed_iff (not kind) wrong_feed_type proceed (λ e. ground arith)).0 h in
    let (h2, r2) = (passed_iff (not signed) bad_feed_signature proceed (λ e. ground arith)).0 r1 in
    let (b, read, young, out) =
      body_decision now max_age g1 g2 artifact (p.body_of feed.payload) r2 in
    (
      b,
      record {
        kind = (same_text_iff feed.payload_type feed_type).0 ((not-false kind).0 h1);
        signed = (not-false signed).0 h2;
        read = read;
      },
      young,
      out,
    )
