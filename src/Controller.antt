-- ===== src/Controller.antt =====
-- internal/controller/controller.go: the parts of the controller that compute.
pub mod Compare
pub mod Report
pub mod Snapshot
pub mod Monitor
pub mod Start
pub mod Samples
pub mod Debug
pub mod Conservation
mod Tests
