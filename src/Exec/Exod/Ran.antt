-- ===== src/Exec/Exod/Ran.antt =====
-- infra/exec/exod.py: what a step that ran shows of the request, the grant and the daemon.
use cyberware.Prelude.{
  ◌≡◌, refl, sym, ap, ◌∙◌, subst, Bool, true, false, Option, none, some, ◌⊎◌, List, ◌∷◌, ℤ, Text,
  some_injective, arith, any, if◌then◌else◌,
}
use cyberware.Cwp.Chain.{Value}
use cyberware.Cwp.Sign.{verify}
use cyberware.Govern.Principals.{among}
use cyberware.Exec.Grant.{
  Claim, GrantVerdict, granted, NonceCache, spend, is_pair, nonce_text, verify_grant, default_skew,
}
use cyberware.Exec.Grant.Authorized.{Authorizes, verify_grant-Authorizes}
use cyberware.Exec.Sandbox.{SandboxProfile}
use cyberware.Exec.Exod.{
  GrantBody, Request, Exod, Memory, Outcome, refused, ran, Refusal, grant_replay, Deny, principal,
  verifier_of, expected_of, claim_in, acl_check,
}
use cyberware.Exec.Exod.Steps.{
  check_closure, confine, spend_grant, check_request, check_actor, decide, stop_if, acl_refusal,
  grant_refusal, closure_refusal, lacks, after_spend, read_grant, after_grant, at, with_proofs,
}
use cyberware.Exec.Exod.Confined.{
  Confined, stop_ran, not_refused, not_at, confine-Confined, none-some,
}

-- What a step that ran shows, beside the grant's own checks.
pub record Authorized (x : Exod) (r : Request) (now : ℤ) (required : Text) (m m' : Memory)
    (g : GrantBody) : Type 0 where
  pub nonce : Text
  pub signed : verify x.ed_verify r.grant x.issuer_pub ≡ true
  pub authorizes : Authorizes (expected_of r) now default_skew g.claim nonce
  pub capable : among required g.capabilities ≡ true
  pub intact : check_closure x r g required ≡ none
  pub in_scope : (x.acl_strict ≡ false) ⊎ ((acl_check x r g now m.proof_nonces).0 ≡ none)
  pub fresh : any (is_pair (principal x x.issuer_pub, nonce)) m.grant_nonces ≡ false
  pub spent : m'.grant_nonces ≡ (principal x x.issuer_pub, nonce) ∷ m.grant_nonces

acl_passed :
    (strict : Bool) (o : Option Deny) → acl_refusal strict o ≡ none → (strict ≡ false) ⊎ (o ≡ none)
acl_passed strict o h = ground arith

grant_passed : (w : GrantVerdict) → grant_refusal w ≡ none → w ≡ granted
grant_passed w h = ground arith

closure_passed : (o : Option Text) → closure_refusal o ≡ none → o ≡ none
closure_passed o h = ground arith

capable_of :
    (required : Text) (g : GrantBody)
    → lacks required g ≡ none
    → among required g.capabilities ≡ true
capable_of required g h = ground arith

fresh_spend :
    (seen : NonceCache) (issuer nonce : Text)
    → ◌≡◌ {A = Option Refusal}
        (if (spend seen issuer nonce).0 then none else some grant_replay)
        none
    → (any (is_pair (issuer, nonce)) seen ≡ false)
      × ((spend seen issuer nonce).1 ≡ (issuer, nonce) ∷ seen)
unfolding spend
fresh_spend seen issuer nonce h = (ground arith, ground arith)

spent_grant :
    (x : Exod) (m : Memory) (o : Option Text)
    → (spend_grant x m o).0 ≡ none
    → (nonce : Text) × (o ≡ some nonce)
      × (any (is_pair (principal x x.issuer_pub, nonce)) m.grant_nonces ≡ false)
      × ((spend_grant x m o).1.grant_nonces ≡ (principal x x.issuer_pub, nonce) ∷ m.grant_nonces)
unfolding spend_grant
spent_grant x m none h = absurd (ground arith)
spent_grant x m (some nonce) h =
    let (fresh, grown) = fresh_spend m.grant_nonces (principal x x.issuer_pub) nonce h in
    (nonce, refl, fresh, grown)

module _ (x : Exod) (r : Request) (now : ℤ) (required : Text) (m m' : Memory) (p : SandboxProfile)
    (argv : List Text) (backend : Text) (code : ℤ) (out : Text) where
  ran_request :
      (g : GrantBody)
      → check_request x r g required m ≡ (ran p argv backend code out, m')
      → (among required g.capabilities ≡ true)
        × (check_closure x r g required ≡ none)
        × ((nonce : Text) × (nonce_text g.claim.nonce ≡ some nonce)
            × (any (is_pair (principal x x.issuer_pub, nonce)) m.grant_nonces ≡ false)
            × (m'.grant_nonces ≡ (principal x x.issuer_pub, nonce) ∷ m.grant_nonces))
        × Confined x r g p argv backend code out
  unfolding check_request
  ran_request g h =
      let tried = spend_grant x m (nonce_text g.claim.nonce) in
      let rest = after_spend x r g tried in
      let closed = closure_refusal (check_closure x r g required) in
      let goal : Outcome × Memory = (ran p argv backend code out, m') in
      let (able, h1) =
        stop_ran (lacks required g) (at m) (stop_if closed (at m) rest) goal (not_at m) h in
      let (shut, h2) = stop_ran closed (at m) rest goal (not_at m) h1 in
      let (unspent, h3) =
        stop_ran (tried.0) (at (tried.1)) (confine x r g, tried.1) goal (not_at (tried.1)) h2 in
      let (nonce, read, fresh, grown) = spent_grant x m (nonce_text g.claim.nonce) unspent in
      (
        capable_of required g able,
        closure_passed (check_closure x r g required) shut,
        (nonce, read, fresh, sym (ap (λ q. q.1.grant_nonces) h3) ∙ grown),
        confine-Confined x r g p argv backend code out (ap (λ q. q.0) h3),
      )

  read_step :
      (o : Option GrantBody)
      → read_grant x r now required m o ≡ some (ran p argv backend code out, m')
      → (g : GrantBody) × (o ≡ some g)
        × (check_actor x r g now required m ≡ (ran p argv backend code out, m'))
  read_step none e = absurd (none-some e)
  read_step (some g) e = (g, refl, some_injective e)

  granted_step :
      (o : Option (GrantVerdict × Option NonceCache))
      → after_grant x r now required m o ≡ some (ran p argv backend code out, m')
      → (cache : Option NonceCache) × (o ≡ some (granted, cache))
        × (read_grant x r now required m (x.grant_of r.grant.payload)
            ≡ some (ran p argv backend code out, m'))
  granted_step none e = absurd (none-some e)
  granted_step (some (w, cache)) e =
      let (ok, rest) =
        stop_ran (grant_refusal w) (λ why. some (refused why, m))
          (read_grant x r now required m (x.grant_of r.grant.payload))
          (some (ran p argv backend code out, m'))
          (λ why k. not_refused why (ap (λ o. o.0) (some_injective k))) e in
      (cache, ap (λ u. some (u, cache)) (grant_passed w ok), rest)

  actor_step :
      (g : GrantBody)
      → check_actor x r g now required m ≡ (ran p argv backend code out, m')
      → ((x.acl_strict ≡ false) ⊎ ((acl_check x r g now m.proof_nonces).0 ≡ none))
        × (check_request x r g required (with_proofs m (acl_check x r g now m.proof_nonces).1)
            ≡ (ran p argv backend code out, m'))
  unfolding check_actor
  actor_step g h =
      let tried = acl_check x r g now m.proof_nonces in
      let (ok, rest) =
        stop_ran (acl_refusal x.acl_strict (tried.0)) (at (with_proofs m (tried.1)))
          (check_request x r g required (with_proofs m (tried.1))) (ran p argv backend code out, m')
          (not_at (with_proofs m (tried.1))) h in
      (acl_passed x.acl_strict (tried.0) ok, rest)

same_claim :
    (o : Option GrantBody) (g : GrantBody) (c : Claim)
    → o ≡ some g
    → claim_in o ≡ some c
    → c ≡ g.claim
same_claim o g c h k = some_injective (sym k ∙ ap claim_in h)

same_nonce : (v : Value) (a b : Text) → nonce_text v ≡ some a → nonce_text v ≡ some b → b ≡ a
same_nonce v a b h k = some_injective (sym k ∙ h)

pub decide-Authorized :
    (x : Exod) (r : Request) (now : ℤ) (required : Text) (m m' : Memory) (p : SandboxProfile)
    (argv : List Text) (backend : Text) (code : ℤ) (out : Text)
    → decide x r now required m ≡ some (ran p argv backend code out, m')
    → (g : GrantBody) × (x.grant_of r.grant.payload ≡ some g)
      × Authorized x r now required m m' g
      × Confined x r g p argv backend code out
unfolding decide
decide-Authorized x r now required m m' p argv backend code out h =
    let (cache, verified, h1) =
      granted_step x r now required m m' p argv backend code out
        (verify_grant (verifier_of x) x.issuer_pub r.grant (expected_of r) now default_skew none)
        h in
    let (signed, _, c, read, nonce, authorizes, _) =
      verify_grant-Authorizes (verifier_of x) x.issuer_pub r.grant (expected_of r) now default_skew
        none cache verified in
    let (g, found, h2) =
      read_step x r now required m m' p argv backend code out (x.grant_of r.grant.payload) h1 in
    let (scope, h3) = actor_step x r now required m m' p argv backend code out g h2 in
    let seen = (acl_check x r g now m.proof_nonces).1 in
    let (able, shut, (nonce', nonce_read, fresh, grown), confined) =
      ran_request x r now required (with_proofs m seen) m' p argv backend code out g h3 in
    let own = same_claim (x.grant_of r.grant.payload) g c found read in
    (
      g,
      found,
      record {
        nonce = nonce';
        signed = signed;
        authorizes =
            subst (λ n. Authorizes (expected_of r) now default_skew g.claim n)
              (same_nonce g.claim.nonce nonce' nonce nonce_read
                (subst (λ d. nonce_text d.nonce ≡ some nonce) own authorizes.nonce_read))
              (subst (λ d. Authorizes (expected_of r) now default_skew d nonce) own authorizes);
        capable = able;
        intact = shut;
        in_scope = scope;
        fresh = fresh;
        spent = grown;
      },
      confined,
    )
