-- ===== src/Tests/Feeds.antt =====
-- Tests of the revocation feed: a feed with the number 2, of the time 100, that lists one artifact.
use cyberware.Prelude.{
  ◌≡◌, ◌↔◌, refl, Bool, true, false, Option, none, some, [], ◌∷◌, pos, ◌+ℤ◌, ◌-ℤ◌, ◌≤ℤ◌, ltb_ℤ,
  Text, codes, same_text,
}
use cyberware.Cwp.Envelope.{Envelope, verify_ph}
use cyberware.Cwp.Revocation.{
  FeedBody, Publisher, trusted, feed_type, verify_feed, tier_for, decide_tier, decision,
  names_artifact,
}
use cyberware.Cwp.Revocation.Trusted.{Signed, verify_feed_iff, decision-Signed}

abbrev clean : FeedBody
clean = record { seq = pos 1; issued = pos 90; expires = pos 900; revoked = [] }

abbrev revoking : FeedBody
revoking = record { seq = pos 2; issued = pos 100; expires = pos 900; revoked = codes "x" ∷ [] }

abbrev body_of : Text → Option FeedBody
body_of [] = none
body_of (c ∷ cs) = pick (same_text (c ∷ cs) (codes "1"))
  where
    pick : Bool → Option FeedBody
    pick true = some clean
    pick false = some revoking

abbrev publisher : Publisher
publisher = record {
  ph = λ kind payload sig key. same_text sig key;
  body_of = body_of;
  pinned = codes "root";
}

abbrev feed : Text → Envelope
feed payload = record {
  payload_type = feed_type;
  payload = payload;
  signatures = record { keyid = codes "root"; sig = codes "root" } ∷ [];
}

verify_feed_iff_example :
    (verify_feed publisher (feed (codes "2")) (pos 150) (pos 1) (pos 600) ≡ trusted revoking)
    ↔ Signed publisher (feed (codes "2")) revoking
      × (pos 150 ≤ℤ pos 900)
      × ((pos 150 -ℤ pos 100) ≤ℤ pos 600)
      × (ltb_ℤ (pos 1) (pos 2) ≡ true)
verify_feed_iff_example =
    verify_feed_iff publisher (feed (codes "2")) (pos 150) (pos 1) (pos 600) revoking

decision-Signed_example :
    (b : FeedBody) × Signed publisher (feed (codes "2")) b
    × ((pos 150 -ℤ b.issued) ≤ℤ pos 600)
    × (names_artifact (some (codes "y")) b ≡ false)
unfolding decision tier_for decide_tier verify_ph same_text ◌+ℤ◌ ◌-ℤ◌
decision-Signed_example =
    decision-Signed publisher (feed (codes "2")) (pos 150) (pos 600) (pos 600) (pos 1800)
      (some (codes "y")) refl
