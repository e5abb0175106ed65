-- ===== src/Examples.antt =====
-- Runs on concrete inputs: a shop of three components, each of which depends on the one before it.
pub mod World
mod Asleep
mod Config
mod Controller
mod Manager
pub mod Proxy
mod Liveness
mod Threads
mod Waiting
mod Workloads
