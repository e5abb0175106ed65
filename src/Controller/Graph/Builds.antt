-- ===== src/Controller/Graph/Builds.antt =====
-- What `buildDependencyGraph` builds, and what it rejects.
mod Edges
mod Connect
mod Register
mod Whole
pub use Connect.{IsDangling}
pub use Register.{IsDuplicate}
pub use Edges.{IsMissing}
pub use Whole.{Linked, Rejected, IsValid, build_dependency_graph_lem, build_dependency_graph-valid}
