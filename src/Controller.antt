-- ===== src/Controller.antt =====
-- internal/controller/sleepyservice_controller.go
pub mod Graph
pub mod Workloads
pub mod Scale
pub mod Readiness
pub mod Status
pub mod State
pub mod Ports
pub mod Backend
pub mod ProxyEnv
pub mod Resources
pub mod Reconcile
