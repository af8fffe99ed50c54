-- ===== src/RouteController.antt =====
-- internal/controller/domain/route_controller.go: the reconciler of routes.
pub mod Run
pub mod Delete
pub mod Sync
pub mod Reconcile
pub mod Protocol
pub mod Update
pub mod Adoption
pub mod Simulation
mod Tests
