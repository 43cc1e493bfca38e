-- ===== src/Exec/Mounts.antt =====
-- infra/exec/capmanifest.py: the capabilities that a sandbox declares, and the comparison with the
-- mounts of the command that it renders to. Sets are lists, compared as sets.
pub mod Exact
use cyberware.Prelude.{
  Bool, true, false, not, ◌&&◌, ◌||◌, Option, none, some, List, [], ◌∷◌, ◌++◌, Text, codes,
  same_text, starts_with, any, all, if◌then◌else◌,
}
use cyberware.Exec.Sandbox.{SandboxProfile, bwrap_argv, core_profile, null_file}

pub record CapabilityManifest : Type 0 where
  pub workspace : Text
  pub ro_binds : List Text
  pub network : Bool
  pub tier : Text
  pub credentials : List Text

pub data Mode : Type 0 where
  ro rw : Mode

abbrev pub Mount : Type 0
Mount = Text × Mode

pub data Materialized : Type 0 where
  matches ungranted_bind dropped_bind network_mismatch : Materialized

abbrev pub same_mode : Mode → Mode → Bool
same_mode ro ro = true
same_mode rw rw = true
same_mode _ _ = false

abbrev pub same_mount : Mount → Mount → Bool
same_mount (p, m) (q, n) = same_text p q && same_mode m n

abbrev pub has_mount : Mount → List Mount → Bool
has_mount m ms = any (same_mount m) ms

abbrev pub within : List Mount → List Mount → Bool
within xs ys = all (λ m. has_mount m ys) xs

unfoldable pub existing : (Text → Bool) → List Text → List Mount
existing exists [] = []
existing exists (p ∷ ps) =
    let rest = existing exists ps in if exists p then (p, ro) ∷ rest else rest

unfoldable pub declared_mounts : (Text → Bool) → CapabilityManifest → List Mount
unfolding existing
declared_mounts exists m = (m.workspace, rw) ∷ existing exists m.ro_binds

abbrev pub is_bind : Text → Bool
is_bind f =
    same_text f (codes "--ro-bind")
    || (same_text f (codes "--ro-bind-try") || same_text f (codes "--bind"))

-- The mount of a flag and its two arguments, where it counts.
abbrev pub mount_of : Text → Text → Text → List Mount
mount_of flag src dst =
    if same_text src dst && (not (starts_with dst (codes "/proc")) && not (same_text src null_file))
    then (dst, if same_text flag (codes "--bind") then rw else ro) ∷ []
    else []

-- The loop of `materialized_mounts`: it reads while two words are left behind the flag.
unfoldable pub mounts_in : List Text → List Mount
unfolding same_text starts_with
mounts_in (flag ∷ src ∷ dst ∷ rest) =
    let after = mounts_in rest in
    let next = mounts_in (src ∷ dst ∷ rest) in
    if is_bind flag then mount_of flag src dst ++ after else next
mounts_in _ = []

unfoldable pub materialized_mounts : (Text → Bool) → SandboxProfile → List Mount
unfolding bwrap_argv mounts_in
materialized_mounts exists p = mounts_in (bwrap_argv exists p (codes "true" ∷ []))

abbrev pub same_flag : Bool → Bool → Bool
same_flag true b = b
same_flag false b = not b

-- `verify_materialized`
unfoldable pub verify_materialized :
    (Text → Bool) → SandboxProfile → CapabilityManifest → Materialized
unfolding declared_mounts materialized_mounts
verify_materialized exists p m =
    let declared = declared_mounts exists m in
    let actual = materialized_mounts exists p in
    if not (within actual declared)
    then ungranted_bind
    else if not (within declared actual)
    then dropped_bind
    else if not (same_flag p.network m.network)
    then network_mismatch
    else matches
