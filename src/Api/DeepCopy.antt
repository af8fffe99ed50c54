-- ===== src/Api/DeepCopy.antt =====
-- api/domain/v1/zz_generated.deepcopy.go: the copies that the controller's cache and client make
-- of the custom resources. Pointers and slices are addresses in an explicit memory, so that what a
-- copy shares with its original can be said.
pub mod Memory
pub mod Runs
pub mod Copies
pub mod Structs
pub mod Storage
pub mod Views
pub mod Domain
pub mod Route
pub mod Object
pub mod Simulation
pub mod Tests
