-- ===== src/Cwp.antt =====
-- The provenance layer, infra/cwp/: the hash-linked ledger and the Merkle log.
pub mod Chain
pub mod Envelope
pub mod Sign
pub mod Workflow
pub mod Revocation
pub mod Merkle
pub mod Webauthn
pub mod Alchemy
