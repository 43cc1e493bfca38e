-- ===== src/Settle.antt =====
-- The settlement layer, infra/settle/: money, the reward ledger and what is paid through it.
pub mod Money
pub mod RewardLedger
pub mod Quote
pub mod Engine
pub mod Disputes
pub mod Dust
pub mod Budget
pub mod Royalties
