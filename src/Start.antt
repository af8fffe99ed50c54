-- ===== src/Start.antt =====
-- cmd/main.go: the start of the operator, from its flags to the manager that runs.
pub mod Options
pub mod Run
pub mod Main
pub mod Order
pub mod Config
mod Tests
