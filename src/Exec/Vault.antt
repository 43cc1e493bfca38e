-- ===== src/Exec/Vault.antt =====
-- infra/exec/vault.py: the secrets of a step. A vault is a function, `none` where `get` raises.
pub mod Injected
use cyberware.Prelude.{
  ℕ, ◌-◌, Bool, true, false, ◌&&◌, Option, none, some, List, [], ◌∷◌, ◌++◌, map, Text, codes,
  same_text, leb, ◌==◌, if◌then◌else◌,
}

abbrev pub Vault : Type 0
Vault = Text → Option Text

abbrev pub Env : Type 0
Env = List (Text × Text)

-- `c.upper()` on ASCII, and the replacement of a dash.
abbrev pub env_char : ℕ → ℕ
env_char c = if leb 97 c && leb c 122 then c - 32 else if c == 45 then 95 else c

unfoldable pub step_env_var : Text → Text
step_env_var credential = codes "CWS_SECRET_" ++ map env_char credential

-- `d[k] = v`, in the place that the key has.
unfoldable pub assign : Text → Text → Env → Env
assign k v [] = (k, v) ∷ []
assign k v ((j, u) ∷ rest) =
    let rest' = assign k v rest in if same_text j k then (j, v) ∷ rest else (j, u) ∷ rest'

unfoldable pub env_get : Text → Env → Option Text
env_get k [] = none
env_get k ((j, v) ∷ rest) = if same_text j k then some v else env_get k rest

-- `claimed.get(var, cid) != cid`
abbrev pub collides : Option Text → Text → Bool
collides none credential = false
collides (some c) credential = if same_text c credential then false else true

-- The loop, over the variables claimed and the environment; `none` is an exception.
unfoldable pub inject : List Text → Vault → Env → Env → Option Env
unfolding step_env_var assign env_get
inject [] vault claimed env = some env
inject (credential ∷ rest) vault claimed env =
    let var = step_env_var credential in
    if collides (env_get var claimed) credential then none else elim (vault credential) [
      | none ↦ none
      | some secret ↦ inject rest vault (assign var credential claimed) (assign var secret env)
    ]

abbrev pub inject_step_env : Env → Vault → List Text → Option Env
inject_step_env base vault credentials = inject credentials vault [] base
