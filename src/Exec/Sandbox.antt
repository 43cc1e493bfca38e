-- ===== src/Exec/Sandbox.antt =====
-- infra/exec/sandbox.py: the confinement of a step as a value, its rendering as a `bwrap` command, and
-- the backend that a tier demands. `os.path.exists` is the parameter `exists`; processes are outside.
use cyberware.Prelude.{
  ℕ, Bool, true, not, ◌&&◌, ◌||◌, Option, none, some, List, [], ◌∷◌, ◌++◌, Text, codes, same_text,
  decimal, leb, if◌then◌else◌,
}

pub record SandboxProfile : Type 0 where
  pub workspace : Text
  pub ro_binds : List Text
  pub network : Bool
  pub proc : Bool
  pub dev : Bool
  pub tmpfs : List Text
  pub clearenv : Bool
  pub env : List (Text × Text)
  pub hostname : Text
  pub uid : ℕ
  pub gid : ℕ
  pub mask_proc : Bool
  pub cargo : Option Text
  pub cargo_path : Text

abbrev pub core_ro : List Text
core_ro =
    codes "/usr"
    ∷ codes "/bin"
    ∷ codes "/sbin"
    ∷ codes "/lib"
    ∷ codes "/lib32"
    ∷ codes "/lib64"
    ∷ codes "/libx32"
    ∷ codes "/etc"
    ∷ []

-- The defaults of `SandboxProfile`, for a workspace and a network flag.
abbrev pub core_profile : Text → Bool → SandboxProfile
core_profile workspace network = record {
  workspace = workspace;
  ro_binds = core_ro;
  network = network;
  proc = true;
  dev = true;
  tmpfs = codes "/tmp" ∷ [];
  clearenv = true;
  env = (codes "PATH", codes "/usr/local/bin:/usr/bin:/bin:/usr/sbin:/sbin") ∷ [];
  hostname = codes "sandbox";
  uid = 65534;
  gid = 65534;
  mask_proc = true;
  cargo = none;
  cargo_path = codes "/cyberware_cargo";
}

abbrev pub null_file : Text
null_file = codes "/dev/null"

-- The files that are shadowed.
abbrev pub masked_proc : List Text
masked_proc =
    codes "/proc/sysrq-trigger"
    ∷ codes "/proc/kcore"
    ∷ codes "/proc/kallsyms"
    ∷ codes "/proc/keys"
    ∷ codes "/proc/timer_list"
    ∷ codes "/proc/sched_debug"
    ∷ []

abbrev pub when : Bool → List Text → List Text
when b ts = if b then ts else []

-- `for p in ro_binds: if os.path.exists(p): …`
unfoldable pub ro_part : (Text → Bool) → List Text → List Text
ro_part exists [] = []
ro_part exists (p ∷ ps) = when (exists p) (codes "--ro-bind" ∷ p ∷ p ∷ []) ++ ro_part exists ps

unfoldable pub tmpfs_part : List Text → List Text
tmpfs_part [] = []
tmpfs_part (t ∷ ts) = codes "--tmpfs" ∷ t ∷ tmpfs_part ts

unfoldable pub mask_part : (Text → Bool) → List Text → List Text
mask_part exists [] = []
mask_part exists (f ∷ fs) =
    when (exists f) (codes "--ro-bind" ∷ null_file ∷ f ∷ []) ++ mask_part exists fs

unfoldable pub env_part : List (Text × Text) → List Text
env_part [] = []
env_part ((k, v) ∷ rest) = codes "--setenv" ∷ k ∷ v ∷ env_part rest

-- The bind of the shared directory, by its mode.
unfoldable pub cargo_part : (Text → Bool) → Option Text → Text → List Text
unfolding same_text
cargo_part exists none path = []
cargo_part exists (some mode) path =
    if same_text mode (codes "rw") && exists path
    then codes "--bind" ∷ path ∷ path ∷ []
    else when (same_text mode (codes "ro") && exists path) (codes "--ro-bind" ∷ path ∷ path ∷ [])

unfoldable pub proc_part : (Text → Bool) → SandboxProfile → List Text
unfolding mask_part
proc_part exists p = when p.proc (
    codes "--proc"
    ∷ codes "/proc"
    ∷ when p.mask_proc (
        codes "--ro-bind-try"
        ∷ codes "/proc/sys"
        ∷ codes "/proc/sys"
        ∷ mask_part exists masked_proc))

-- The flags before the mounts.
unfoldable pub head_part : SandboxProfile → List Text
unfolding decimal
head_part p =
    (codes "bwrap"
      ∷ codes "--die-with-parent"
      ∷ codes "--new-session"
      ∷ codes "--unshare-user"
      ∷ codes "--unshare-pid"
      ∷ codes "--unshare-ipc"
      ∷ codes "--unshare-uts"
      ∷ codes "--unshare-cgroup-try"
      ∷ codes "--uid"
      ∷ decimal p.uid
      ∷ codes "--gid"
      ∷ decimal p.gid
      ∷ codes "--hostname"
      ∷ p.hostname
      ∷ [])
    ++ when (not p.network) (codes "--unshare-net" ∷ [])

-- What follows the mounts.
unfoldable pub tail_part : SandboxProfile → List Text → List Text
unfolding env_part
tail_part p argv =
    when p.dev (codes "--dev" ∷ codes "/dev" ∷ [])
    ++ (when p.clearenv (codes "--clearenv" ∷ [])
        ++ (env_part p.env ++ (codes "--chdir" ∷ p.workspace ∷ codes "--" ∷ argv)))

-- `bwrap_argv`
unfoldable pub bwrap_argv : (Text → Bool) → SandboxProfile → List Text → List Text
unfolding head_part ro_part tmpfs_part cargo_part proc_part tail_part
bwrap_argv exists p argv =
    head_part p
    ++ (ro_part exists p.ro_binds
        ++ (tmpfs_part p.tmpfs
            ++ (codes "--bind"
                ∷ p.workspace
                ∷ p.workspace
                ∷ (cargo_part exists p.cargo p.cargo_path
                    ++ (proc_part exists p ++ tail_part p argv)))))

-- `_TIER_BACKEND.get(tier, "runsc")`, and `bwrap` for no tier.
unfoldable pub backend_for_tier : Option Text → Text
unfolding same_text
backend_for_tier none = codes "bwrap"
backend_for_tier (some t) =
    if same_text t (codes "core")
      || (same_text t (codes "verified") || same_text t (codes "trusted"))
    then codes "bwrap"
    else codes "runsc"

-- `_BACKEND_STRENGTH.get(b, 0)`
unfoldable pub strength : Text → ℕ
unfolding same_text
strength b = if same_text b (codes "bwrap") then 1 else if same_text b (codes "runsc") then 2 else 0

unfoldable pub strongest : Text → Text → Text
unfolding strength
strongest a b = if leb (strength b) (strength a) then a else b
