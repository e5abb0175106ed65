-- ===== src/Controller/Graph/Levels.antt =====
-- `computeScalingLevels` is a topological sort in levels. The proof follows the loops from the inside.
mod Pending
mod Relax
mod Placing
mod Start
mod Rounds
pub use Rounds.{
  scaling_rounds-total, compute_scaling_levels-IsLayered, compute_scaling_levels-SameNames,
}
