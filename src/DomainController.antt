-- ===== src/DomainController.antt =====
-- internal/controller/domain/domain_controller.go: the reconciler of domains.
pub mod Run
pub mod Records
pub mod Export
pub mod Create
pub mod ExternalDns
pub mod Delete
pub mod Verify
pub mod Reconcile
pub mod Protocol
pub mod Settled
pub mod Deletion
pub mod Activation
pub mod Persistence
pub mod Convergence
pub mod FirstRun
pub mod Simulation
mod Tests
