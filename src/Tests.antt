-- ===== src/Tests.antt =====
-- Runs of the definitions on concrete inputs, and the theorems applied at such inputs.
mod Store
mod Exec
mod Feeds
mod Access
mod Cwp
mod Money
mod Settle
