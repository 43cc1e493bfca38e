-- ===== src/Exec/Grant/Once.antt =====
-- infra/exec/grantverify.py: a grant is used once. A cache is passed from call to call, each with
-- its own key, grant, expectation and time.
use cyberware.Prelude.{
  ◌≡◌, ◌≢◌, refl, ap, subst, ◌∙◌, some_injective, Bool, true, false, Option, none, some, inl, inr,
  List, ◌∷◌, [], ℤ, Text, text_self, Option-cases, arith, any,
}
use cyberware.Cwp.Envelope.{Envelope}
use cyberware.Cwp.Sign.{keyid}
use cyberware.Exec.Grant.{
  Claim, Expected, Verifier, GrantVerdict, granted, NonceCache, is_pair, nonce_text, verify_grant,
}
use cyberware.Exec.Grant.Authorized.{Spent, verify_grant-Authorizes, refused-unspent}

-- A call of `verify_grant` but for the cache.
pub record Presented : Type 0 where
  pub key : Text
  pub envelope : Envelope
  pub expected : Expected
  pub now : ℤ
  pub skew : ℤ

abbrev pub cache_after : NonceCache → Option (GrantVerdict × Option NonceCache) → NonceCache
cache_after seen none = seen
cache_after seen (some (w, none)) = seen
cache_after seen (some (w, some seen')) = seen'

-- The cache after a call; a call that raises leaves it.
unfoldable pub present : Verifier → NonceCache → Presented → NonceCache
present v seen p =
    cache_after seen (verify_grant v p.key p.envelope p.expected p.now p.skew (some seen))

unfoldable pub present_all : Verifier → List Presented → NonceCache → NonceCache
unfolding present
present_all v [] seen = seen
present_all v (p ∷ ps) seen = present_all v ps (present v seen p)

abbrev pub knows : Text × Text → Option NonceCache → Bool
knows pair none = false
knows pair (some seen) = any (is_pair pair) seen

Spent-knows :
    (issuer nonce : Text) (pair : Text × Text) (seen : NonceCache) (cache' : Option NonceCache)
    → any (is_pair pair) seen ≡ true
    → Spent issuer nonce (some seen) cache'
    → knows pair cache' ≡ true
Spent-knows issuer nonce pair seen cache' h (fresh, grown) = rw grown (ground arith)

-- No call forgets a spent nonce.
present-knows :
    (v : Verifier) (p : Presented) (pair : Text × Text) (seen : NonceCache)
    → any (is_pair pair) seen ≡ true
    → any (is_pair pair) (present v seen p) ≡ true
unfolding present
present-knows v p pair seen h =
    elim (Option-cases (verify_grant v p.key p.envelope p.expected p.now p.skew (some seen))) [
      | inl raised ↦ rw raised h
      | inr ((w, none), done) ↦ rw done h
      | inr ((w, some seen'), done) ↦
          rw done
            (elim (refused-unspent v p.key p.envelope p.expected p.now p.skew (some seen)
              (some seen') w done) [
                | inl accepted ↦
                    let (_, _, c, _, nonce, _, spent) =
                      verify_grant-Authorizes v p.key p.envelope p.expected p.now p.skew (some seen)
                        (some seen') (done ∙ ap (λ u. some (u, some seen')) accepted) in
                    Spent-knows (keyid (v.key_digest p.key)) nonce pair seen (some seen') h spent
                | inr same_cache ↦ ap (knows pair) same_cache ∙ h
              ])
    ]

present_all-knows :
    (v : Verifier) (ps : List Presented) (pair : Text × Text) (seen : NonceCache)
    → any (is_pair pair) seen ≡ true
    → any (is_pair pair) (present_all v ps seen) ≡ true
unfolding present_all
present_all-knows v [] pair seen h = h
present_all-knows v (p ∷ ps) pair seen h =
    present_all-knows v ps pair (present v seen p) (present-knows v p pair seen h)

-- A grant's nonce is used once: after a grant is accepted with a cache, and after any further calls
-- with that cache, no grant whose verifying key has the same key id and whose claim has the same
-- nonce is accepted, the same grant included, whatever the caller expects and the time.
pub verify_grant-once :
    (v : Verifier) (p q : Presented) (ps : List Presented) (seen seen' : NonceCache) (c c' : Claim)
    → verify_grant v p.key p.envelope p.expected p.now p.skew (some seen)
      ≡ some (granted, some seen')
    → v.claim_of p.envelope.payload ≡ some c
    → v.claim_of q.envelope.payload ≡ some c'
    → nonce_text c.nonce ≡ nonce_text c'.nonce
    → keyid (v.key_digest p.key) ≡ keyid (v.key_digest q.key)
    → (cache : Option NonceCache)
    → verify_grant v q.key q.envelope q.expected q.now q.skew (some (present_all v ps seen'))
      ≢ some (granted, cache)
verify_grant-once v p q ps seen seen' c c' h read read' same_nonce same_issuer cache again =
    let (_, _, d, d_read, nonce, allows, spent) =
      verify_grant-Authorizes v p.key p.envelope p.expected p.now p.skew (some seen) (some seen')
        h in
    let (_, _, d', d'_read, nonce', allows', fresh) =
      verify_grant-Authorizes v q.key q.envelope q.expected q.now q.skew
        (some (present_all v ps seen')) cache again in
    let at_once =
      one_nonce v p q c c' d d' nonce nonce' read read' d_read d'_read same_nonce allows.nonce_read
        allows'.nonce_read in
    let known = head_known (keyid (v.key_digest p.key)) nonce seen seen' (spent.1) in
    let kept = present_all-knows v ps (keyid (v.key_digest p.key), nonce) seen' known in
    refused_known (keyid (v.key_digest q.key)) nonce' (present_all v ps seen') cache fresh (
      subst (λ i. any (is_pair (i, nonce')) (present_all v ps seen') ≡ true) same_issuer
        (subst (λ n. any (is_pair (keyid (v.key_digest p.key), n)) (present_all v ps seen') ≡ true)
          at_once kept))
  where
    one_nonce :
        (v : Verifier) (p q : Presented) (c c' d d' : Claim) (nonce nonce' : Text)
        → v.claim_of p.envelope.payload ≡ some c
        → v.claim_of q.envelope.payload ≡ some c'
        → v.claim_of p.envelope.payload ≡ some d
        → v.claim_of q.envelope.payload ≡ some d'
        → nonce_text c.nonce ≡ nonce_text c'.nonce
        → nonce_text d.nonce ≡ some nonce
        → nonce_text d'.nonce ≡ some nonce'
        → nonce ≡ nonce'
    one_nonce v p q c c' d d' nonce nonce' e1 e2 e3 e4 e5 e6 e7 = cc

    refused_known :
        (issuer nonce : Text) (seen : NonceCache) (cache : Option NonceCache)
        → Spent issuer nonce (some seen) cache
        → any (is_pair (issuer, nonce)) seen ≢ true
    refused_known issuer nonce seen cache (fresh, _) known = ground arith

    head_known :
        (issuer nonce : Text) (seen seen' : NonceCache)
        → some seen' ≡ some ((issuer, nonce) ∷ seen)
        → any (is_pair (issuer, nonce)) seen' ≡ true
    head_known issuer nonce seen seen' h =
        rw (some_injective h, text_self issuer, text_self nonce) refl
