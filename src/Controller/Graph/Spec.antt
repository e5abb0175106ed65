-- ===== src/Controller/Graph/Spec.antt =====
-- What a dependency graph promises: its shape, its cycles, and what it is to have none.
use sleepyservice.Prelude.{ℕ, ◌<◌, ◌≡◌, String, List, [], ◌∷◌, ◌++◌, In, IsDistinct, count}
use sleepyservice.Api.{Component}
use sleepyservice.Errors.{
  Error, api, wrapped, text, duplicate_component, missing_dependency, circular_dependency,
  circular_involving, out_of_fuel,
}
use sleepyservice.Controller.Graph.Defs.{Graph}

-- The names are distinct, each edge joins two components, and each edge stands in both maps, as
-- often in the one as in the other.
pub record IsWellFormed (g : Graph) : Type 0 where
  pub distinct : IsDistinct g.components
  pub source : (n d : String) → In d (g.dependencies n) → In n g.components
  pub target : (n d : String) → In d (g.dependencies n) → In d g.components
  pub mirrored : (n d : String) → count n (g.dependents d) ≡ count d (g.dependencies n)

-- Each name depends on the one that follows it.
abbrev pub IsChain : Graph → List String → Type 0
IsChain g [] = Unit
IsChain g (x ∷ []) = Unit
IsChain g (x ∷ y ∷ rest) = In y (g.dependencies x) × IsChain g (y ∷ rest)

-- A chain of at least one edge that ends where it begins.
abbrev pub IsCycle : Graph → List String → Type 0
IsCycle g c = (d : String) × (mid : List String) × (c ≡ d ∷ mid ++ d ∷ []) × IsChain g c

-- Each dependency has a smaller rank than what depends on it.
abbrev pub IsRanked : Graph → (String → ℕ) → Type 0
IsRanked g rank = (n d : String) → In d (g.dependencies n) → rank d < rank n

-- There is a rank, so there is no cycle (`IsAcyclic-no-IsCycle`).
abbrev pub IsAcyclic : Graph → Type 0
IsAcyclic g = (rank : String → ℕ) × IsRanked g rank

-- A report of a cycle is right if the names that it shows are a cycle of the graph.
abbrev pub IsReported : Graph → Error → Type 0
IsReported g (api not_found msg) = ⊥
IsReported g (wrapped msg e) = ⊥
IsReported g (text msg) = ⊥
IsReported g (duplicate_component name) = ⊥
IsReported g (missing_dependency name dep) = ⊥
IsReported g (circular_dependency c) = IsCycle g c
IsReported g (circular_involving dep) = ⊥
IsReported g out_of_fuel = ⊥

-- Each component of a level has all of its dependencies in `placed` or in an earlier level.
abbrev pub IsLayered : Graph → List String → List (List String) → Type 0
IsLayered g placed [] = Unit
IsLayered g placed (level ∷ levels) =
    ((c d : String) → In c level → In d (g.dependencies c) → In d placed)
    × IsLayered g (level ++ placed) levels

-- The names of the components, in the order of the specification.
abbrev pub names : List Component → List String
names [] = []
names (c ∷ cs) = c.name ∷ names cs
