-- ===== src/Tests/Exec/Daemon.antt =====
-- Tests of the execution daemon.
use cyberware.Prelude.{
  ◌≡◌, ◌≢◌, refl, false, none, some, [], ◌∷◌, pos, ◌+ℤ◌, ◌-ℤ◌, codes, same_text, starts_with,
  decimal,
}
use cyberware.Cwp.Chain.{is_text, truthy}
use cyberware.Cwp.Sign.{keyid, verify}
use cyberware.Govern.Principals.{
  acl_allows, check_block, skill_listed, pmap_entry, split_colon, lookup, check_cargo, over_ceiling,
  tier_rank,
}
use cyberware.Exec.Grant.{spend, verify_grant, verify_claim, check_claim, spend_nonce}
use cyberware.Exec.Acl.{verify_acl_attestation, check_body, check_attestation}
use cyberware.Exec.Sandbox.{
  SandboxProfile, core_profile, bwrap_argv, head_part, ro_part, tmpfs_part, cargo_part, proc_part,
  mask_part, tail_part, env_part, strongest, strength, backend_for_tier,
}
use cyberware.Exec.Mounts.{
  verify_materialized, declared_mounts, existing, materialized_mounts, mounts_in,
}
use cyberware.Exec.Closure.{closure_decision, check_pins, check_pin, stray}
use cyberware.Exec.Vault.{assign, env_get}
use cyberware.Exec.Exod.{
  Memory, Outcome, ran, parameterized, check_token, check_scope, check_attested, acl_check,
}
use cyberware.Exec.Exod.Steps.{
  decide, profile_with, check_closure, check_request, check_actor, spend_grant, confine,
  with_secrets, merged, run_profile, cargo_mode,
}
use cyberware.Exec.Exod.Confined.{Confined}
use cyberware.Exec.Exod.Once.{Asked, serve_all, serve-once}
use cyberware.Tests.Exec.{the_daemon, the_request, no_memory, the_grant}

abbrev in_box : SandboxProfile
in_box =
    profile_with (core_profile (codes "/w") false)
      ((codes "PATH", codes "/usr/local/bin:/usr/bin:/bin:/usr/sbin:/sbin") ∷ []) none

abbrev after : Memory
after = record { grant_nonces = (codes "ed25519:govd", codes "n") ∷ []; proof_nonces = [] }

abbrev outcome : Outcome
outcome = ran in_box (codes "sh" ∷ []) (codes "runsc") (pos 0) (codes "out")

the_step_ran :
    decide the_daemon the_request (pos 150) (codes "run") no_memory ≡ some (outcome, after)
unfolding decide verify_grant verify keyid verify_claim check_claim spend_nonce is_text same_text
    check_actor acl_check check_attested verify_acl_attestation check_body check_attestation
    check_scope acl_allows check_block truthy skill_listed pmap_entry split_colon lookup check_cargo
    over_ceiling tier_rank parameterized check_token check_request check_closure closure_decision
    check_pins check_pin stray env_get spend_grant spend confine verify_materialized declared_mounts
    existing materialized_mounts bwrap_argv head_part ro_part tmpfs_part cargo_part proc_part
    mask_part tail_part env_part mounts_in starts_with with_secrets merged assign run_profile
    strongest strength backend_for_tier cargo_mode ◌+ℤ◌ ◌-ℤ◌ decimal
the_step_ran = refl

abbrev asked : Asked
asked = record { request = the_request; now = pos 160; required = codes "run" }

serve-once_example :
    decide the_daemon the_request (pos 170) (codes "run") (serve_all the_daemon (asked ∷ []) after)
    ≢ some (outcome, after)
unfolding same_text
serve-once_example =
    serve-once the_daemon the_request the_request (pos 150) (pos 170) (codes "run") (codes "run")
      (asked ∷ []) no_memory after after the_grant the_grant in_box in_box (codes "sh" ∷ [])
      (codes "sh" ∷ []) (codes "runsc") (codes "runsc") (pos 0) (pos 0) (codes "out") (codes "out")
      the_step_ran refl refl refl
