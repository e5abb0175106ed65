-- ===== src/Controller/Graph/Acyclic.antt =====
-- `validateDependencies` decides whether the graph has a cycle. The proof follows `dfs`: what its
-- path is, how many calls may nest, what its variables satisfy, and its two loops.
mod Path
mod Measure
mod State
mod Scan
mod Search
mod Validate
pub use Validate.{validate_dependencies_lem, IsAcyclic-no-IsCycle, IsReported-IsAcyclic}
