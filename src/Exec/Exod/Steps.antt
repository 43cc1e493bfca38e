-- ===== src/Exec/Exod/Steps.antt =====
-- infra/exec/exod.py: `run_step`, from the check of the grant to the signed result. The memory is
-- passed along; what a request comes to is an `Outcome`, which `result_of` writes out as the body that
-- is signed.
use cyberware.Prelude.{
  ◌⊎◌, inl, inr, Bool, true, false, not, ◌||◌, Option, none, some, List, [], ◌∷◌, ℤ, is_zero, Text,
  codes, same_text, if◌then◌else◌,
}
use cyberware.Cwp.Chain.{Value, null, text, truthy}
use cyberware.Govern.Principals.{among, is_mode, not_empty}
use cyberware.Exec.Grant.{
  GrantVerdict, granted, NonceCache, spend, nonce_text, verify_grant, default_skew,
}
use cyberware.Exec.Sandbox.{SandboxProfile, backend_for_tier, strongest, core_ro}
use cyberware.Exec.Mounts.{CapabilityManifest, Materialized, matches, verify_materialized}
use cyberware.Exec.Closure.{closure_decision}
use cyberware.Exec.Vault.{Env, inject, assign, env_get, inject_step_env}
use cyberware.Exec.Result.{StepResult}
use cyberware.Exec.Exod.{
  GrantBody, Request, Exod, Memory, Outcome, refused, ran, Refusal, by_grant, by_acl, by_capability,
  by_closure, by_mount, grant_replay, community_no_secrets, vault_unavailable, vault_resolve_failed,
  sandbox_unavailable, Deny, principal, verifier_of, expected_of, is_nil, acl_check,
}

-- `{**base, **extra}`
unfoldable pub merged : Env → Env → Env
unfolding assign
merged base [] = base
merged base ((k, v) ∷ rest) = merged (assign k v base) rest

abbrev pub snip_dir : Exod → Request → Text
snip_dir x r = elim (not_empty (env_get (codes "SNIP") r.env)) [
  | some dir ↦ dir
  | none ↦ x.join r.workspace (codes "snip")
]

-- The closure check, for a run.
unfoldable pub check_closure : Exod → Request → GrantBody → Text → Option Text
unfolding closure_decision same_text env_get
check_closure x r g required =
    if same_text required (codes "run")
    then closure_decision g.snippet_shas (x.snip (snip_dir x r))
    else none

-- The manifest that the grant authorizes.
abbrev pub manifest_of : Request → GrantBody → CapabilityManifest
manifest_of r g = record {
  workspace = elim (nonce_text g.claim.workspace) [ some w ↦ w | none ↦ r.workspace ];
  ro_binds = core_ro;
  network = false;
  tier = codes "community";
  credentials = [];
}

-- `cargo if cargo in ("ro", "rw") else None`
unfoldable pub cargo_mode : Option Text → Option Text
unfolding same_text
cargo_mode o = if is_mode (codes "ro") o || is_mode (codes "rw") o then o else none

abbrev pub profile_with : SandboxProfile → Env → Option Text → SandboxProfile
profile_with p env cargo = record {
  workspace = p.workspace;
  ro_binds = p.ro_binds;
  network = p.network;
  proc = p.proc;
  dev = p.dev;
  tmpfs = p.tmpfs;
  clearenv = p.clearenv;
  env = env;
  hostname = p.hostname;
  uid = p.uid;
  gid = p.gid;
  mask_proc = p.mask_proc;
  cargo = cargo;
  cargo_path = p.cargo_path;
}

-- The environment with the secrets of the grant, or why there is none.
unfoldable pub with_secrets : Exod → GrantBody → Env → Refusal ⊎ Env
unfolding inject same_text
with_secrets x g env =
    if is_nil g.credentials
    then inr env
    else if not (is_mode (codes "trusted") g.tier)
    then inl community_no_secrets
    else elim x.vault [
      | none ↦ inl vault_unavailable
      | some vault ↦ elim (inject_step_env env vault g.credentials) [
        | none ↦ inl vault_resolve_failed
        | some env' ↦ inr env'
      ]
    ]

-- A refusal ends the request; else the rest decides.
abbrev pub stop_if : {A : Type 0} → Option Refusal → (Refusal → A) → A → A
stop_if none stop rest = rest
stop_if (some why) stop rest = stop why

abbrev pub at : Memory → Refusal → Outcome × Memory
at m why = (refused why, m)

abbrev pub outcome_of : SandboxProfile → List Text → Text → Option (ℤ × Text) → Outcome
outcome_of p argv backend none = refused sandbox_unavailable
outcome_of p argv backend (some (code, out)) = ran p argv backend code out

-- The run, in the profile, by the stronger of the two backends.
unfoldable pub run_profile : Exod → Request → GrantBody → SandboxProfile → Outcome
unfolding strongest backend_for_tier
run_profile x r g p =
    let backend = strongest x.backend_floor (backend_for_tier g.sandbox_tier) in
    outcome_of p r.argv backend (x.runner p r.argv backend)

abbrev pub in_env : Exod → Request → GrantBody → Refusal ⊎ Env → Outcome
in_env x r g (inl why) = refused why
in_env x r g (inr env) =
    run_profile x r g (profile_with (x.profile r.workspace) env (cargo_mode g.cargo))

abbrev pub mount_refusal : Materialized → Option Refusal
mount_refusal matches = none
mount_refusal w = some (by_mount w)

-- From the mounts on.
unfoldable pub confine : Exod → Request → GrantBody → Outcome
unfolding verify_materialized merged with_secrets
confine x r g =
    let p = x.profile r.workspace in
    stop_if (mount_refusal (verify_materialized x.exists p (manifest_of r g))) refused
      (in_env x r g (with_secrets x g (merged p.env r.env)))

-- The use of the grant's nonce.
unfoldable pub spend_grant : Exod → Memory → Option Text → Option Refusal × Memory
unfolding spend
spend_grant x m none = (some grant_replay, m)
spend_grant x m (some nonce) =
    let (fresh, seen) = spend m.grant_nonces (principal x x.issuer_pub) nonce in
    (
      if fresh then none else some grant_replay,
      record { grant_nonces = seen; proof_nonces = m.proof_nonces },
    )

abbrev pub after_spend : Exod → Request → GrantBody → Option Refusal × Memory → Outcome × Memory
after_spend x r g (why, m) = stop_if why (at m) (confine x r g, m)

abbrev pub lacks : Text → GrantBody → Option Refusal
lacks required g = if among required g.capabilities then none else some (by_capability required)

abbrev pub closure_refusal : Option Text → Option Refusal
closure_refusal none = none
closure_refusal (some why) = some (by_closure why)

-- The capability, the closure and the nonce, and what follows.
unfoldable pub check_request : Exod → Request → GrantBody → Text → Memory → Outcome × Memory
unfolding check_closure spend_grant
check_request x r g required m = stop_if (lacks required g) (at m) (
    stop_if (closure_refusal (check_closure x r g required)) (at m)
      (after_spend x r g (spend_grant x m (nonce_text g.claim.nonce))))

-- Only a strict daemon refuses for the scope.
abbrev pub acl_refusal : Bool → Option Deny → Option Refusal
acl_refusal strict none = none
acl_refusal false (some why) = none
acl_refusal true (some why) = some (by_acl why)

abbrev pub with_proofs : Memory → NonceCache → Memory
with_proofs m seen = record { grant_nonces = m.grant_nonces; proof_nonces = seen }

-- The attested scope, and what follows.
unfoldable pub check_actor : Exod → Request → GrantBody → ℤ → Text → Memory → Outcome × Memory
unfolding acl_check check_request
check_actor x r g now required m =
    let (deny, seen) = acl_check x r g now m.proof_nonces in
    stop_if (acl_refusal x.acl_strict deny) (at (with_proofs m seen))
      (check_request x r g required (with_proofs m seen))

abbrev pub grant_refusal : GrantVerdict → Option Refusal
grant_refusal granted = none
grant_refusal w = some (by_grant w)

abbrev pub read_grant :
    Exod → Request → ℤ → Text → Memory → Option GrantBody → Option (Outcome × Memory)
read_grant x r now required m none = none
read_grant x r now required m (some g) = some (check_actor x r g now required m)

abbrev pub after_grant :
    Exod
    → Request
    → ℤ
    → Text
    → Memory
    → Option (GrantVerdict × Option NonceCache)
    → Option (Outcome × Memory)
after_grant x r now required m none = none
after_grant x r now required m (some (w, cache)) =
    stop_if (grant_refusal w) (λ why. some (refused why, m))
      (read_grant x r now required m (x.grant_of r.grant.payload))

-- The outcome of a request, with the memory; `none` is the exception of a grant that is no JSON.
unfoldable pub decide : Exod → Request → ℤ → Text → Memory → Option (Outcome × Memory)
unfolding verify_grant
decide x r now required m =
    after_grant x r now required m
      (verify_grant (verifier_of x) x.issuer_pub r.grant (expected_of r) now default_skew none)

-- `gnonce or req.get("nonce") or "ungranted"`
abbrev pub request_nonce : Request → Value
request_nonce r = elim (not_empty r.nonce) [ some n ↦ text n | none ↦ text (codes "ungranted") ]

abbrev pub result_nonce : Exod → Request → Value
result_nonce x r = elim (x.grant_of r.grant.payload) [
  | none ↦ request_nonce r
  | some g ↦ if truthy g.claim.nonce then g.claim.nonce else request_nonce r
]

abbrev pub status_of : ℤ → Text
status_of code = if is_zero code then codes "ok" else codes "error"

abbrev pub text_or_null : Option Text → Value
text_or_null none = null
text_or_null (some t) = text t

-- The body of `_sign_result`.
unfoldable pub result_of : Exod → Request → Outcome → StepResult
unfolding truthy
result_of x r (refused why) = record {
  run_id = text_or_null r.run_id;
  plan_sha = text_or_null r.plan_sha;
  step = text r.step;
  exit = none;
  status = text (codes "refused");
  output_sha = x.refusal_sha why;
  nonce = result_nonce x r;
}
result_of x r (ran p argv backend code out) = record {
  run_id = text_or_null r.run_id;
  plan_sha = text_or_null r.plan_sha;
  step = text r.step;
  exit = some code;
  status = text (status_of code);
  output_sha = x.sha out;
  nonce = result_nonce x r;
}

abbrev pub signed : Exod → Request → Option (Outcome × Memory) → Option (StepResult × Memory)
signed x r none = none
signed x r (some (o, m)) = some (result_of x r o, m)

-- `run_step`
unfoldable pub run_step : Exod → Request → ℤ → Text → Memory → Option (StepResult × Memory)
unfolding decide result_of
run_step x r now required m = signed x r (decide x r now required m)
