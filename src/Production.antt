-- ===== src/Production.antt =====
-- src/nctl_core/production: what the composition of the inventory derives from the desired snapshot.
pub mod Reaches
pub mod Active
pub mod ServiceDependencies
