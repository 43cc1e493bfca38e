-- ===== src/Exec.antt =====
-- infra/exec: the grant of a capability, the operator's attestation of an actor's scope, and the
-- daemon that runs a granted step in a sandbox.
pub mod Grant
pub mod Acl
pub mod Sandbox
pub mod Mounts
pub mod Closure
pub mod Vault
pub mod Result
pub mod Exod
