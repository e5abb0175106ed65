-- ===== src/Proxy.antt =====
-- cmd/proxy/main.go: the proxy that wakes a service on traffic.
pub mod Config
pub mod Defs
pub mod Wake
pub mod Requests
pub mod Routes
pub mod Events
pub mod Main
pub mod Threads
