-- ===== src/Reconcile.antt =====
-- Planning and execution of `nctl reconcile` (src/nctl_core/reconcile).
pub mod Fingerprint
pub mod Model
pub mod Registry
pub mod Classify
pub mod Reconcilers
pub mod ProfileChecks
pub mod DependencyCycles
pub mod Hosts
pub mod Executor
pub mod Ledger
pub mod Planner
