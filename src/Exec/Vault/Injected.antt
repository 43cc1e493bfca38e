-- ===== src/Exec/Vault/Injected.antt =====
-- infra/exec/vault.py: the secrets that a step's environment holds.
use cyberware.Prelude.{
  ◌≡◌, sym, ap, subst, ◌∙◌, true, false, some, inl, inr, List, [], ◌∷◌, Text, same_text,
  same_text_iff, text_self, All, Bool-cases, Option-cases, some_injective, arith,
}
use cyberware.Exec.Vault.{
  Vault, Env, step_env_var, assign, env_get, collides, inject, inject_step_env,
}

env_get-assign : (k v : Text) (e : Env) → env_get k (assign k v e) ≡ some v
unfolding env_get assign
env_get-assign k v [] = ground (arith, text_self k)
env_get-assign k v ((j, u) ∷ rest) = elim (Bool-cases (same_text j k)) [
  | inl here ↦ ground arith
  | inr there ↦ ground (arith, env_get-assign k v rest)
]

env_get-assign_other :
    (k j v : Text) (e : Env) → same_text k j ≡ false → env_get j (assign k v e) ≡ env_get j e
unfolding env_get assign
env_get-assign_other k j v [] h = ground arith
env_get-assign_other k j v ((i, u) ∷ rest) h = elim (Bool-cases (same_text i k)) [
  | inl here ↦ let other = ap (λ t. same_text t j) ((same_text_iff i k).0 here) ∙ h in ground arith
  | inr there ↦ ground (arith, env_get-assign_other k j v rest h)
]

at_key : (k j v : Text) (e : Env) → same_text k j ≡ true → env_get j (assign k v e) ≡ some v
at_key k j v e h =
    subst (λ t. env_get t (assign k v e) ≡ some v) ((same_text_iff k j).0 h) (env_get-assign k v e)

-- What is claimed for a variable is the secret that the variable holds.
Held : Vault → Env → Env → Type 0
Held vault claimed env =
    (var credential : Text)
    → env_get var claimed ≡ some credential
    → env_get var env ≡ vault credential

assign-Held :
    (vault : Vault) (claimed env : Env) (var credential secret : Text)
    → vault credential ≡ some secret
    → Held vault claimed env
    → Held vault (assign var credential claimed) (assign var secret env)
unfolding Held
assign-Held vault claimed env var credential secret found held v c there =
    elim (Bool-cases (same_text var v)) [
      | inl here ↦
          at_key var v secret env here
          ∙ sym found
          ∙ ap vault (some_injective (sym (at_key var v credential claimed here) ∙ there))
      | inr other ↦
          env_get-assign_other var v secret env other
          ∙ held v c (sym (env_get-assign_other var v credential claimed other) ∙ there)
    ]

kept_claim :
    (claimed : Env) (var credential v c : Text)
    → collides (env_get var claimed) credential ≡ false
    → env_get v claimed ≡ some c
    → env_get v (assign var credential claimed) ≡ some c
kept_claim claimed var credential v c fits there = elim (Bool-cases (same_text var v)) [
  | inl here ↦
      at_key var v credential claimed here
      ∙ ap some (
          sym (
            agree
              (subst (λ t. env_get t claimed ≡ some c) (sym ((same_text_iff var v).0 here)) there)))
  | inr other ↦ env_get-assign_other var v credential claimed other ∙ there
]
  where
    fitting : collides (some c) credential ≡ false → same_text c credential ≡ true
    fitting h = ground arith

    agree : env_get var claimed ≡ some c → c ≡ credential
    agree e =
        (same_text_iff c credential).0 (fitting (ap (λ o. collides o credential) (sym e) ∙ fits))

inject-Held :
    (cs : List Text) (vault : Vault) (claimed env env' : Env)
    → inject cs vault claimed env ≡ some env'
    → Held vault claimed env
    → Held vault claimed env' × All (λ c. env_get (step_env_var c) env' ≡ vault c) cs
unfolding inject Held
inject-Held [] vault claimed env env' h held =
    (subst (Held vault claimed) (some_injective h) held, tt)
inject-Held (c ∷ cs) vault claimed env env' h held =
    elim (Bool-cases (collides (env_get (step_env_var c) claimed) c)) [
      | inl clash ↦ absurd (ground arith)
      | inr fits ↦ elim (Option-cases (vault c)) [
        | inl unknown ↦ absurd (ground arith)
        | inr (secret, found) ↦
            let var = step_env_var c in
            let rest : inject cs vault (assign var c claimed) (assign var secret env) ≡ some env' =
              ground arith in
            let (all_held, given) =
              inject-Held cs vault (assign var c claimed) (assign var secret env) env' rest
                (assign-Held vault claimed env var c secret found held) in
            (
              λ v d there. all_held v d (kept_claim claimed var c v d fits there),
              (all_held var c (env_get-assign var c claimed), given),
            )
      ]
    ]

inject_others :
    (cs : List Text) (vault : Vault) (claimed env env' : Env) (k : Text)
    → inject cs vault claimed env ≡ some env'
    → All (λ c. same_text (step_env_var c) k ≡ false) cs
    → env_get k env' ≡ env_get k env
unfolding inject
inject_others [] vault claimed env env' k h apart = ap (env_get k) (sym (some_injective h))
inject_others (c ∷ cs) vault claimed env env' k h (apart, others) =
    elim (Bool-cases (collides (env_get (step_env_var c) claimed) c)) [
      | inl clash ↦ absurd (ground arith)
      | inr fits ↦ elim (Option-cases (vault c)) [
        | inl unknown ↦ absurd (ground arith)
        | inr (secret, found) ↦
            let var = step_env_var c in
            let rest : inject cs vault (assign var c claimed) (assign var secret env) ≡ some env' =
              ground arith in
            inject_others cs vault (assign var c claimed) (assign var secret env) env' k rest others
            ∙ env_get-assign_other var k secret env apart
      ]
    ]

-- Where the secrets of a step are injected, the variable of every credential holds the secret that the
-- vault has under the credential's own name, though names may share a variable.
pub inject_step_env_lem :
    (base env : Env) (vault : Vault) (cs : List Text)
    → inject_step_env base vault cs ≡ some env
    → All (λ c. env_get (step_env_var c) env ≡ vault c) cs
unfolding Held env_get
inject_step_env_lem base env vault cs h =
    (inject-Held cs vault [] base env h (λ var c there. absurd (nothing var c there))).1
  where
    nothing : (var c : Text) → env_get var [] ≡ some c → ⊥
    nothing var c there = ground arith

-- Injecting secrets leaves every variable that is no credential's as it was.
pub inject_step_env_others :
    (base env : Env) (vault : Vault) (cs : List Text) (k : Text)
    → inject_step_env base vault cs ≡ some env
    → All (λ c. same_text (step_env_var c) k ≡ false) cs
    → env_get k env ≡ env_get k base
inject_step_env_others base env vault cs k h apart = inject_others cs vault [] base env k h apart
