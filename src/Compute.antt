-- ===== src/Compute.antt =====
-- src/nctl_core/compute: the contract of compute intent.
pub mod Lifecycle
pub mod Text
pub mod Contract
pub mod MacAddress
pub mod Endpoints
pub mod Clean
mod Examples
