-- ===== src/Store.antt =====
-- The shared store, infra/store/backend.py, and the lease of infra/govern/lease.py that stands on it.
pub mod Lease
pub mod BudgetTable
pub mod Reconcile
