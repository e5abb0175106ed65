-- ===== src/Controller/Graph.antt =====
-- The dependency graph of a SleepyService's components: `dependencyGraph`, `buildDependencyGraph`,
-- `validateDependencies` and `computeScalingLevels`. The theorems stand in the modules below.
pub mod Defs
pub mod Build
pub mod Spec
pub mod Acyclic
pub mod Levels
pub mod Builds
pub use Defs.{Graph}
unfoldable pub use Defs.{validate_dependencies, compute_scaling_levels}
unfoldable pub use Build.{build_dependency_graph}
