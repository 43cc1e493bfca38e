-- ===== src/Tests/Exec/Checks.antt =====
-- Tests of an actor's scope, of the code and the mounts of a step, of its secrets, and of workflows.
use cyberware.Prelude.{
  ◌≡◌, ◌↔◌, refl, arith, Bool, true, false, Option, none, some, List, [], ◌∷◌, Text, codes,
  same_text, All,
}
use cyberware.Govern.Principals.Permits.{Permits}
use cyberware.Exec.Closure.{closure_decision}
use cyberware.Exec.Closure.Intact.{Intact, closure_decision_iff}
use cyberware.Exec.Vault.{Vault, env_get, step_env_var, inject, assign}
use cyberware.Exec.Vault.Injected.{inject_step_env_lem}
use cyberware.Cwp.Workflow.{Workflow, member, reachable_states, run_saga}
use cyberware.Cwp.Workflow.Reach.{Reach}
use cyberware.Cwp.Workflow.Terminates.{reachable_states-Reach}
use cyberware.Cwp.Workflow.Compensates.{failed_saga, run_saga-Compensates}
use cyberware.Tests.Exec.{the_grant, the_daemon}

closure_decision_iff_example :
    (closure_decision the_grant.snippet_shas (the_daemon.snip (codes "/w/snip")) ≡ none)
    ↔ Intact the_grant.snippet_shas (the_daemon.snip (codes "/w/snip"))
closure_decision_iff_example =
    closure_decision_iff the_grant.snippet_shas (the_daemon.snip (codes "/w/snip"))

abbrev secrets : Vault
secrets name = if_key (same_text name (codes "api-key"))
  where
    if_key : Bool → Option Text
    if_key true = some (codes "x")
    if_key false = none

inject_step_env_lem_example :
    All
      (λ c.
        env_get
          (step_env_var c)
          ((codes "PATH", codes "/bin") ∷ (codes "CWS_SECRET_API_KEY", codes "x") ∷ [])
        ≡ secrets c)
      (codes "api-key" ∷ [])
unfolding same_text inject step_env_var env_get assign
inject_step_env_lem_example =
    inject_step_env_lem ((codes "PATH", codes "/bin") ∷ [])
      ((codes "PATH", codes "/bin") ∷ (codes "CWS_SECRET_API_KEY", codes "x") ∷ []) secrets
      (codes "api-key" ∷ []) refl

abbrev loop : Workflow
loop = record {
  name = codes "Loop";
  states = codes "a" ∷ codes "b" ∷ [];
  entry = codes "a";
  flags = [];
  transitions =
      record { source = codes "a"; target = codes "b"; sets = [] }
      ∷ record { source = codes "b"; target = codes "a"; sets = [] }
      ∷ [];
}

reachable_states-Reach_example :
    (out : List Text) × (reachable_states loop ≡ some out)
    × ((t : Text) → (member t out ≡ true) ↔ Reach loop.transitions (codes "a") t)
reachable_states-Reach_example = reachable_states-Reach loop

run_saga-Compensates_example : run_saga 3 (some 2) ≡ failed_saga 2
run_saga-Compensates_example = run_saga-Compensates 3 2 (omega arith)
