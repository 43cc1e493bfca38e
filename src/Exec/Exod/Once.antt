-- ===== src/Exec/Exod/Once.antt =====
-- infra/exec/exod.py: a grant runs one step. The daemon's memory is passed from request to request.
use cyberware.Prelude.{
  ◌≡◌, ◌≢◌, refl, ap, ◌∙◌, subst, Bool, true, false, Option, none, some, List, [], ◌∷◌, ℤ, Text,
  text_self, any, arith,
}
use cyberware.Exec.Grant.{
  NonceCache, spend, is_pair, nonce_text, GrantVerdict, verify_grant, default_skew,
}
use cyberware.Exec.Sandbox.{SandboxProfile}
use cyberware.Exec.Exod.{
  GrantBody, Request, Exod, Memory, Outcome, refused, ran, Refusal, principal, acl_check,
  verifier_of, expected_of,
}
use cyberware.Exec.Exod.Steps.{
  spend_grant, confine, check_closure, check_request, check_actor, decide, stop_if, at, after_spend,
  read_grant, after_grant, with_proofs, lacks, closure_refusal, acl_refusal, grant_refusal,
}
use cyberware.Exec.Exod.Ran.{decide-Authorized}

abbrev pub memory_after : Memory → Option (Outcome × Memory) → Memory
memory_after m none = m
memory_after m (some (o, m')) = m'

-- A request, with its time and the capability that it exercises.
pub record Asked : Type 0 where
  pub request : Request
  pub now : ℤ
  pub required : Text

unfoldable pub serve : Exod → Memory → Asked → Memory
serve x m q = memory_after m (decide x q.request q.now q.required m)

unfoldable pub serve_all : Exod → List Asked → Memory → Memory
unfolding serve
serve_all x [] m = m
serve_all x (q ∷ qs) m = serve_all x qs (serve x m q)

abbrev pub knows : Text × Text → Memory → Bool
knows pair m = any (is_pair pair) m.grant_nonces

module _ (pair : Text × Text) where
  stop_knows :
      (o : Option Refusal) (m : Memory) (rest : Outcome × Memory)
      → knows pair m ≡ true
      → knows pair (rest.1) ≡ true
      → knows pair ((stop_if o (at m) rest).1) ≡ true
  stop_knows none m rest h k = k
  stop_knows (some why) m rest h k = h

  grown :
      (seen : NonceCache) (issuer nonce : Text)
      → any (is_pair pair) seen ≡ true
      → any (is_pair pair) (spend seen issuer nonce).1 ≡ true
  unfolding spend
  grown seen issuer nonce h = ground arith

  spend_knows :
      (x : Exod) (m : Memory) (o : Option Text)
      → knows pair m ≡ true
      → knows pair ((spend_grant x m o).1) ≡ true
  unfolding spend_grant
  spend_knows x m none h = h
  spend_knows x m (some nonce) h = grown m.grant_nonces (principal x x.issuer_pub) nonce h

  request_knows :
      (x : Exod) (r : Request) (g : GrantBody) (required : Text) (m : Memory)
      → knows pair m ≡ true
      → knows pair ((check_request x r g required m).1) ≡ true
  unfolding check_request
  request_knows x r g required m h =
      let tried = spend_grant x m (nonce_text g.claim.nonce) in
      let rest = after_spend x r g tried in
      let closed = closure_refusal (check_closure x r g required) in
      let used = spend_knows x m (nonce_text g.claim.nonce) h in
      stop_knows (lacks required g) m (stop_if closed (at m) rest) h (
        stop_knows closed m rest h
          (stop_knows (tried.0) (tried.1) (confine x r g, tried.1) used used))

  actor_knows :
      (x : Exod) (r : Request) (g : GrantBody) (now : ℤ) (required : Text) (m : Memory)
      → knows pair m ≡ true
      → knows pair ((check_actor x r g now required m).1) ≡ true
  unfolding check_actor
  actor_knows x r g now required m h =
      let tried = acl_check x r g now m.proof_nonces in
      let m' = with_proofs m (tried.1) in
      stop_knows (acl_refusal x.acl_strict (tried.0)) m' (check_request x r g required m') h
        (request_knows x r g required m' h)

  read_knows :
      (x : Exod) (r : Request) (now : ℤ) (required : Text) (m : Memory) (o : Option GrantBody)
      → knows pair m ≡ true
      → knows pair (memory_after m (read_grant x r now required m o)) ≡ true
  read_knows x r now required m none h = h
  read_knows x r now required m (some g) h = actor_knows x r g now required m h

  after_knows :
      (x : Exod) (r : Request) (now : ℤ) (required : Text) (m : Memory)
      (o : Option (GrantVerdict × Option NonceCache))
      → knows pair m ≡ true
      → knows pair (memory_after m (after_grant x r now required m o)) ≡ true
  after_knows x r now required m none h = h
  after_knows x r now required m (some (w, cache)) h =
      stopped (grant_refusal w) (read_grant x r now required m (x.grant_of r.grant.payload))
        (read_knows x r now required m (x.grant_of r.grant.payload) h)
    where
      stopped :
          (o : Option Refusal) (rest : Option (Outcome × Memory))
          → knows pair (memory_after m rest) ≡ true
          → knows pair (memory_after m (stop_if o (λ why. some (refused why, m)) rest)) ≡ true
      stopped none rest k = k
      stopped (some why) rest k = h

  serve-knows :
      (x : Exod) (q : Asked) (m : Memory) → knows pair m ≡ true → knows pair (serve x m q) ≡ true
  unfolding serve decide
  serve-knows x q m h =
      after_knows x q.request q.now q.required m
        (verify_grant (verifier_of x) x.issuer_pub q.request.grant (expected_of q.request) q.now
          default_skew none)
        h

  serve_all-knows :
      (x : Exod) (qs : List Asked) (m : Memory)
      → knows pair m ≡ true
      → knows pair (serve_all x qs m) ≡ true
  unfolding serve_all
  serve_all-knows x [] m h = h
  serve_all-knows x (q ∷ qs) m h = serve_all-knows x qs (serve x m q) (serve-knows x q m h)

-- A grant runs one step in the life of a daemon: once a request has run, no later request whose grant
-- has the same nonce runs, with the same grant or another, whatever was asked between them.
pub serve-once :
    (x : Exod) (r r' : Request) (now now' : ℤ) (required required' : Text) (qs : List Asked)
    (m m' m'' : Memory) (g g' : GrantBody) (p p' : SandboxProfile) (argv argv' : List Text)
    (backend backend' : Text) (code code' : ℤ) (out out' : Text)
    → decide x r now required m ≡ some (ran p argv backend code out, m')
    → x.grant_of r.grant.payload ≡ some g
    → x.grant_of r'.grant.payload ≡ some g'
    → nonce_text g.claim.nonce ≡ nonce_text g'.claim.nonce
    → decide x r' now' required' (serve_all x qs m') ≢ some (ran p' argv' backend' code' out', m'')
serve-once x r r' now now' required required' qs m m' m'' g g' p p' argv argv' backend backend' code
      code' out out' h found found' same_nonce again =
    let (d, d_found, first, _) =
      decide-Authorized x r now required m m' p argv backend code out h in
    let (d', d'_found, second, _) =
      decide-Authorized x r' now' required' (serve_all x qs m') m'' p' argv' backend' code' out'
        again in
    let known : knows (principal x x.issuer_pub, first.nonce) m' ≡ true =
      ap (any (is_pair (principal x x.issuer_pub, first.nonce))) first.spent
      ∙ head_pair (principal x x.issuer_pub) first.nonce m.grant_nonces in
    let kept = serve_all-knows (principal x x.issuer_pub, first.nonce) x qs m' known in
    let one =
      one_nonce (x.grant_of r.grant.payload) (x.grant_of r'.grant.payload) g g' d d' first.nonce
        second.nonce found found' d_found d'_found same_nonce first.authorizes.nonce_read
        second.authorizes.nonce_read in
    true_false
      (subst (λ n. knows (principal x x.issuer_pub, n) (serve_all x qs m') ≡ true) one kept)
      second.fresh
  where
    head_pair : (a b : Text) (seen : NonceCache) → any (is_pair (a, b)) ((a, b) ∷ seen) ≡ true
    head_pair a b seen = rw (text_self a, text_self b) refl

    true_false : {b : Bool} → b ≡ true → b ≡ false → ⊥
    true_false e f = ground arith

    one_nonce :
        (o o' : Option GrantBody) (g g' d d' : GrantBody) (n n' : Text)
        → o ≡ some g
        → o' ≡ some g'
        → o ≡ some d
        → o' ≡ some d'
        → nonce_text g.claim.nonce ≡ nonce_text g'.claim.nonce
        → nonce_text d.claim.nonce ≡ some n
        → nonce_text d'.claim.nonce ≡ some n'
        → n ≡ n'
    one_nonce o o' g g' d d' n n' e1 e2 e3 e4 e5 e6 e7 = cc
