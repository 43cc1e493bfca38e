-- ===== src/Govern.antt =====
-- infra/govern: who may do what.
pub mod Principals
pub mod SkillAcl
pub mod Orgs
