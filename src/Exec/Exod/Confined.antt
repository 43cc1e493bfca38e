-- ===== src/Exec/Exod/Confined.antt =====
-- infra/exec/exod.py: the sandbox that a step ran in.
use cyberware.Prelude.{
  ◌≡◌, ◌≢◌, refl, sym, ap, subst, Option, none, some, ◌⊎◌, inl, inr, List, ℤ, Text, arith,
}
use cyberware.Exec.Sandbox.{SandboxProfile, backend_for_tier, strongest}
use cyberware.Exec.Mounts.{Materialized, matches, verify_materialized}
use cyberware.Exec.Vault.{Env}
use cyberware.Exec.Exod.{GrantBody, Request, Exod, Memory, refused, ran, Refusal}
use cyberware.Exec.Exod.Steps.{
  manifest_of, with_secrets, run_profile, confine, merged, cargo_mode, profile_with, outcome_of,
  stop_if, in_env, mount_refusal, at,
}

-- A step ran in a sandbox that fits the grant.
pub record Confined (x : Exod) (r : Request) (g : GrantBody) (p : SandboxProfile) (argv : List Text)
    (backend : Text) (code : ℤ) (out : Text) : Type 0 where
  pub own_argv : argv ≡ r.argv
  pub mounts : verify_materialized x.exists (x.profile r.workspace) (manifest_of r g) ≡ matches
  pub env : Env
  pub secrets : with_secrets x g (merged (x.profile r.workspace).env r.env) ≡ inr env
  pub profile : p ≡ profile_with (x.profile r.workspace) env (cargo_mode g.cargo)
  pub backend_of : backend ≡ strongest x.backend_floor (backend_for_tier g.sandbox_tier)
  pub outcome : x.runner p argv backend ≡ some (code, out)

outcome_ran :
    (p q : SandboxProfile) (argv argv' : List Text) (backend backend' : Text) (code : ℤ)
    (out : Text) (o : Option (ℤ × Text))
    → outcome_of p argv backend o ≡ ran q argv' backend' code out
    → (q ≡ p) × (argv' ≡ argv) × (backend' ≡ backend) × (o ≡ some (code, out))
outcome_ran p q argv argv' backend backend' code out none h = absurd (ground arith)
outcome_ran p q argv argv' backend backend' code out (some (c, o)) h = (cc, cc, cc, cc)

pub stop_ran :
    {A : Type 0} (o : Option Refusal) (stop : Refusal → A) (rest goal : A)
    → ((why : Refusal) → stop why ≢ goal)
    → stop_if o stop rest ≡ goal
    → (o ≡ none) × (rest ≡ goal)
stop_ran none stop rest goal apart h = (refl, h)
stop_ran (some why) stop rest goal apart h = absurd (apart why h)

run_profile-ran :
    (x : Exod) (r : Request) (g : GrantBody) (p q : SandboxProfile) (argv : List Text)
    (backend : Text) (code : ℤ) (out : Text)
    → run_profile x r g p ≡ ran q argv backend code out
    → (q ≡ p)
      × (argv ≡ r.argv)
      × (backend ≡ strongest x.backend_floor (backend_for_tier g.sandbox_tier))
      × (x.runner p argv backend ≡ some (code, out))
unfolding run_profile
run_profile-ran x r g p q argv backend code out h =
    let best = strongest x.backend_floor (backend_for_tier g.sandbox_tier) in
    let (same, own, by, done) =
      outcome_ran p q r.argv argv best backend code out (x.runner p r.argv best) h in
    (
      same,
      own,
      by,
      subst (λ b. x.runner p argv b ≡ some (code, out)) (sym by)
          (subst (λ a. x.runner p a best ≡ some (code, out)) (sym own) done),
    )

pub not_refused :
    {p : SandboxProfile} {argv : List Text} {backend : Text} {code : ℤ} {out : Text} (why : Refusal)
    → refused why ≢ ran p argv backend code out
not_refused why h = ground arith

pub none-some : {A : Type 0} {a : A} → none ≡ some a → ⊥
none-some h = ground arith

pub not_at :
    {p : SandboxProfile} {argv : List Text} {backend : Text} {code : ℤ} {out : Text} {m' : Memory}
    (m : Memory) (why : Refusal)
    → at m why ≢ (ran p argv backend code out, m')
not_at m why h = not_refused why (ap (λ o. o.0) h)

matched : (w : Materialized) → mount_refusal w ≡ none → w ≡ matches
matched w h = ground arith

pub confine-Confined :
    (x : Exod) (r : Request) (g : GrantBody) (p : SandboxProfile) (argv : List Text)
    (backend : Text) (code : ℤ) (out : Text)
    → confine x r g ≡ ran p argv backend code out
    → Confined x r g p argv backend code out
unfolding confine
confine-Confined x r g p argv backend code out h =
    let base = x.profile r.workspace in
    let made = verify_materialized x.exists base (manifest_of r g) in
    let (mounted, rest) =
      stop_ran (mount_refusal made) refused
        (in_env x r g (with_secrets x g (merged base.env r.env))) (ran p argv backend code out)
        not_refused h in
    let (env, found, ran_in) = env_of (with_secrets x g (merged base.env r.env)) rest in
    let (same_profile, own_argv, by, done) = run_in env ran_in in
    record {
      own_argv = own_argv;
      mounts = matched made mounted;
      env = env;
      secrets = found;
      profile = same_profile;
      backend_of = by;
      outcome = subst (λ q. x.runner q argv backend ≡ some (code, out)) (sym same_profile) done;
    }
  where
    env_of :
        (s : Refusal ⊎ Env)
        → in_env x r g s ≡ ran p argv backend code out
        → (env : Env) × (s ≡ inr env)
          × (run_profile x r g (profile_with (x.profile r.workspace) env (cargo_mode g.cargo))
              ≡ ran p argv backend code out)
    env_of (inl why) e = absurd (not_refused why e)
    env_of (inr env) e = (env, refl, e)

    run_in :
        (env : Env)
        → run_profile x r g (profile_with (x.profile r.workspace) env (cargo_mode g.cargo))
          ≡ ran p argv backend code out
        → (p ≡ profile_with (x.profile r.workspace) env (cargo_mode g.cargo))
          × (argv ≡ r.argv)
          × (backend ≡ strongest x.backend_floor (backend_for_tier g.sandbox_tier))
          × (x.runner (profile_with (x.profile r.workspace) env (cargo_mode g.cargo)) argv backend
              ≡ some (code, out))
    run_in env e =
        run_profile-ran x r g (profile_with (x.profile r.workspace) env (cargo_mode g.cargo)) p argv
          backend code out e
