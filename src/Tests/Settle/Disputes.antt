-- ===== src/Tests/Settle/Disputes.antt =====
-- Tests of the disputes and of the approvals that resolve them.
use cyberware.Prelude.{
  ℕ, ◌≡◌, ◌≢◌, refl, Bool, true, false, Option, none, some, List, [], ◌∷◌, ◌++◌, ℤ, pos, Text,
  codes, length, same_text, Result, ok, err, Tally, arith,
}
use cyberware.Cwp.Webauthn.{
  Assertion, Crypto, accepted, Approves, verify_assertion, verify_assertion-Approves,
}
use cyberware.Settle.Money.Decimal.{has_digits, default_prec}
use cyberware.Settle.RewardLedger.{Ledger, Posting, posting, minus, balance_of}
use cyberware.Settle.RewardLedger.Reached.{Reached, fresh, posted}
use cyberware.Settle.Disputes
use cyberware.Settle.Disputes.{
  Roster, Resolution, DisputeError, Answer, State, unresolved, quorum_too_small, bond_account,
  open_dispute, count_approvals, resolve,
}
use cyberware.Settle.Disputes.Quorum.{Quorum, count_approvals-Quorum}
use cyberware.Settle.Disputes.Resolved.{Settles, resolve-Settles}
use cyberware.Tests.Settle.{digests, usd, start, or_empty}

abbrev party_hash : Text
party_hash = codes "01234567890123456789012345678901"

-- A signature is the key.
abbrev crypto : Crypto
crypto = record {
  challenge_for = λ doc. doc;
  sha256 = λ t. party_hash;
  verify = λ key sig message. same_text key sig;
}

abbrev document : Resolution
document = record {
  canonical = codes "doc";
  currency = some (codes "USD");
  outcome = some (codes "upheld");
}

abbrev approval : Text → Assertion
approval key = record {
  kind = some (codes "webauthn.get");
  challenge = some (codes "doc");
  origin = some (codes "https://arbitrate.cyberware");
  client_data = codes "client";
  auth_data = party_hash ++ 5 ∷ [];
  signature = key;
  key = key;
}

abbrev roster : Roster
roster = (codes "ann", codes "K1") ∷ (codes "alias", codes "K1") ∷ (codes "ben", codes "K2") ∷ []

-- The second approval is by the same key under another name.
abbrev approvals : List (Text × Option Assertion)
approvals =
    (codes "ann", some (approval (codes "K1")))
    ∷ (codes "alias", some (approval (codes "K1")))
    ∷ (codes "ben", some (approval (codes "K2")))
    ∷ []

abbrev disputed : Ledger
disputed = or_empty (open_dispute digests start (codes "dan") (codes "q1") (usd 5))

abbrev or_unresolved : Result DisputeError (Answer × State) → Answer × State
or_unresolved (ok r) = r
or_unresolved (err e) = (unresolved quorum_too_small none, ([], []))

abbrev resolution : Result DisputeError (Answer × State)
resolution =
    resolve digests crypto disputed document approvals 2 (codes "pat") (codes "dan") (codes "q1") []
      roster

two_votes : count_approvals crypto (codes "doc") approvals roster ≡ some 2
unfolding resolve same_text cyberware.Cwp.Webauthn.verify_assertion
    cyberware.Cwp.Webauthn.verify_decoded cyberware.Cwp.Webauthn.verify_flags cyberware.Prelude.add
    cyberware.Prelude.collect cyberware.Prelude.get cyberware.Prelude.negate
    cyberware.Settle.Money.Decimal.unary_minus cyberware.Prelude.◌+ℤ◌
    cyberware.Settle.RewardLedger.is_balanced cyberware.Settle.RewardLedger.post
    cyberware.Settle.RewardLedger.balances cyberware.Settle.RewardLedger.balances_from
    cyberware.Settle.RewardLedger.postings_of balance_of cyberware.Cwp.Chain.append
    cyberware.Cwp.Chain.is_text cyberware.Cwp.Chain.link_after cyberware.Cwp.Chain.link_digest
    open_dispute bond_account Disputes.held_account Disputes.move Disputes.resolve_counted
    count_approvals Disputes.count_loop Disputes.consider Disputes.with_key Disputes.key_of
two_votes = refl

approved :
    verify_assertion crypto
      (codes "doc")
      (some (approval (codes "K1")))
      (codes "https://arbitrate.cyberware")
      (codes "cyberware")
      (codes "K1")
      true
    ≡ some accepted
unfolding resolve same_text cyberware.Cwp.Webauthn.verify_assertion
    cyberware.Cwp.Webauthn.verify_decoded cyberware.Cwp.Webauthn.verify_flags cyberware.Prelude.add
    cyberware.Prelude.collect cyberware.Prelude.get cyberware.Prelude.negate
    cyberware.Settle.Money.Decimal.unary_minus cyberware.Prelude.◌+ℤ◌
    cyberware.Settle.RewardLedger.is_balanced cyberware.Settle.RewardLedger.post
    cyberware.Settle.RewardLedger.balances cyberware.Settle.RewardLedger.balances_from
    cyberware.Settle.RewardLedger.postings_of balance_of cyberware.Cwp.Chain.append
    cyberware.Cwp.Chain.is_text cyberware.Cwp.Chain.link_after cyberware.Cwp.Chain.link_digest
    open_dispute bond_account Disputes.held_account Disputes.move Disputes.resolve_counted
    count_approvals Disputes.count_loop Disputes.consider Disputes.with_key Disputes.key_of
approved = refl

disputed-Reached : Reached digests (codes "run") (codes "plan") disputed
unfolding resolve same_text cyberware.Cwp.Webauthn.verify_assertion
    cyberware.Cwp.Webauthn.verify_decoded cyberware.Cwp.Webauthn.verify_flags cyberware.Prelude.add
    cyberware.Prelude.collect cyberware.Prelude.get cyberware.Prelude.negate
    cyberware.Settle.Money.Decimal.unary_minus cyberware.Prelude.◌+ℤ◌
    cyberware.Settle.RewardLedger.is_balanced cyberware.Settle.RewardLedger.post
    cyberware.Settle.RewardLedger.balances cyberware.Settle.RewardLedger.balances_from
    cyberware.Settle.RewardLedger.postings_of balance_of cyberware.Cwp.Chain.append
    cyberware.Cwp.Chain.is_text cyberware.Cwp.Chain.link_after cyberware.Cwp.Chain.link_digest
    open_dispute bond_account Disputes.held_account Disputes.move Disputes.resolve_counted
    count_approvals Disputes.count_loop Disputes.consider Disputes.with_key Disputes.key_of
disputed-Reached =
    posted
      (posting (codes "dan") (minus (usd 5)) ∷ posting (bond_account (codes "q1")) (usd 5) ∷ [])
      (codes "dispute-open:q1") fresh refl

resolution_returns : resolution ≡ ok (or_unresolved resolution)
unfolding resolve same_text cyberware.Cwp.Webauthn.verify_assertion
    cyberware.Cwp.Webauthn.verify_decoded cyberware.Cwp.Webauthn.verify_flags cyberware.Prelude.add
    cyberware.Prelude.collect cyberware.Prelude.get cyberware.Prelude.negate
    cyberware.Settle.Money.Decimal.unary_minus cyberware.Prelude.◌+ℤ◌
    cyberware.Settle.RewardLedger.is_balanced cyberware.Settle.RewardLedger.post
    cyberware.Settle.RewardLedger.balances cyberware.Settle.RewardLedger.balances_from
    cyberware.Settle.RewardLedger.postings_of balance_of cyberware.Cwp.Chain.append
    cyberware.Cwp.Chain.is_text cyberware.Cwp.Chain.link_after cyberware.Cwp.Chain.link_digest
    open_dispute bond_account Disputes.held_account Disputes.move Disputes.resolve_counted
    count_approvals Disputes.count_loop Disputes.consider Disputes.with_key Disputes.key_of
resolution_returns = refl

-- It is upheld, and the disputer has the bond back.
resolution_pays :
    ((or_unresolved resolution).0.resolved ≡ true)
    × (balance_of (codes "dan") (codes "USD") (or_unresolved resolution).1.0 ≡ pos 0)
unfolding resolve same_text cyberware.Cwp.Webauthn.verify_assertion
    cyberware.Cwp.Webauthn.verify_decoded cyberware.Cwp.Webauthn.verify_flags cyberware.Prelude.add
    cyberware.Prelude.collect cyberware.Prelude.get cyberware.Prelude.negate
    cyberware.Settle.Money.Decimal.unary_minus cyberware.Prelude.◌+ℤ◌
    cyberware.Settle.RewardLedger.is_balanced cyberware.Settle.RewardLedger.post
    cyberware.Settle.RewardLedger.balances cyberware.Settle.RewardLedger.balances_from
    cyberware.Settle.RewardLedger.postings_of balance_of cyberware.Cwp.Chain.append
    cyberware.Cwp.Chain.is_text cyberware.Cwp.Chain.link_after cyberware.Cwp.Chain.link_digest
    open_dispute bond_account Disputes.held_account Disputes.move Disputes.resolve_counted
    count_approvals Disputes.count_loop Disputes.consider Disputes.with_key Disputes.key_of
resolution_pays = (refl, refl)

pat_apart : codes "pat" ≢ bond_account (codes "q1")
unfolding bond_account
pat_apart h = ground arith

dan_apart : codes "dan" ≢ bond_account (codes "q1")
unfolding bond_account
dan_apart h = ground arith

count_approvals-Quorum_example :
    (votes : List (Text × Text)) × (length votes ≡ 2)
    × Quorum crypto (codes "doc") approvals roster votes
count_approvals-Quorum_example =
    count_approvals-Quorum crypto (codes "doc") approvals roster 2 two_votes

bond_short :
    has_digits default_prec (balance_of (bond_account (codes "q1")) (codes "USD") disputed) ≡ true
unfolding has_digits balance_of cyberware.Prelude.get open_dispute
    cyberware.Settle.RewardLedger.post cyberware.Prelude.collect cyberware.Prelude.add same_text
    cyberware.Prelude.◌+ℤ◌ cyberware.Settle.Money.Decimal.unary_minus cyberware.Prelude.negate
bond_short = refl

resolve-Settles_example :
    Settles digests crypto
      (codes "run")
      (codes "plan")
      disputed-Reached
      document
      approvals
      2
      (codes "pat")
      (codes "dan")
      (codes "q1")
      []
      roster
      pat_apart
      dan_apart
      bond_short
      (or_unresolved resolution)
resolve-Settles_example =
    resolve-Settles digests crypto (codes "run") (codes "plan") disputed-Reached document approvals
      2 (codes "pat") (codes "dan") (codes "q1") [] roster pat_apart dan_apart bond_short
      (or_unresolved resolution) resolution_returns
