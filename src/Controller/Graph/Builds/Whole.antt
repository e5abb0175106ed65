-- ===== src/Controller/Graph/Builds/Whole.antt =====
-- The two passes and the validation together.
use sleepyservice.Prelude.{
  ℕ, ◌≤◌, ◌<◌, ◌≡◌, refl, sym, ◌∙◌, ap, subst, String, List, [], ◌∷◌, ◌++◌, All, All-map, some, In,
  IsDistinct, SameNames, count, count-cons_ne, count-nil, arith, string_discrete,
}
use sleepyservice.Api.{Component}
use sleepyservice.Errors.{Error, Result, ok, err, ◌>>=◌, ◌>>◌, Ensures, Ensures-bind}
use sleepyservice.Controller.Graph.Defs.{Graph, validate_dependencies}
use sleepyservice.Controller.Graph.Build.{register, connect, empty_graph, build_dependency_graph}
use sleepyservice.Controller.Graph.Spec.{IsWellFormed, IsAcyclic, IsReported, names}
use sleepyservice.Controller.Graph.Acyclic.{validate_dependencies_lem, IsReported-IsAcyclic}
use sleepyservice.Controller.Graph.Builds.Edges.{missing}
use sleepyservice.Controller.Graph.Builds.Connect.{Connected, IsDangling, here, there, connect_lem}
use sleepyservice.Controller.Graph.Builds.Register.{
  Registered, IsDuplicate, duplicate, register_lem, IsBare-empty_graph, IsBare-IsWellFormed,
}

-- The graph is well formed and holds what the components declare.
pub record Linked (cs : List Component) (g : Graph) : Type 0 where
  pub well_formed : IsWellFormed g
  pub components : g.components ≡ names cs
  pub edges : All (λ c. g.dependencies c.name ≡ c.depends_on) cs
  pub by_name : All (λ c. g.components_by_name c.name ≡ some c) cs

-- Why components are rejected: a name stands twice, a dependency is no component, or the declared
-- dependencies have the cycle that the error shows.
pub data Rejected (cs : List Component) (e : Error) : Type 0 where
  twice : IsDuplicate (names cs) e → Rejected cs e
  dangling : IsDangling (names cs) cs e → Rejected cs e
  cyclic : (g : Graph) → Linked cs g → IsReported g e → Rejected cs e

module _ (range_order : List String → List String)
    (permutes : (l : List String) → SameNames (range_order l) l) (cs : List Component) where
  linked : (g g' : Graph) → Registered cs empty_graph g → Connected cs g g' → Linked cs g'
  unfolding empty_graph
  linked g g' r k = record {
    well_formed = k.well_formed;
    components = k.components ∙ r.components;
    edges =
        All-map (λ c. g'.dependencies c.name ≡ g.dependencies c.name ++ c.depends_on)
          (λ c. g'.dependencies c.name ≡ c.depends_on) cs
          (λ c e. e ∙ ap (λ l. l ++ c.depends_on) (r.bare.no_dependencies c.name)) k.edges;
    by_name = subst (λ m. All (λ c. m c.name ≡ some c) cs) (sym k.by_name) r.by_name;
  }

  validated :
      (g : Graph)
      → Linked cs g
      → Ensures
          (λ g'. Linked cs g' × IsAcyclic g')
          (Rejected cs)
          (validate_dependencies g (range_order g.components) >> ok g)
  validated g l =
      Ensures-bind (λ _. IsAcyclic g) (IsReported g) (λ g'. Linked cs g' × IsAcyclic g')
        (Rejected cs) (validate_dependencies g (range_order g.components)) (λ _. ok g)
        (λ _ a. (l, a)) (λ e r. cyclic g l r)
        (validate_dependencies_lem g l.well_formed (range_order g.components)
          (permutes g.components))

  -- If the runtime visits each key of a map once, `buildDependencyGraph` returns. On success the
  -- graph holds exactly the declared components and dependencies, is well formed and has no cycle;
  -- an error names a name that stands twice, a dependency that is no component, or a cycle of the
  -- declared dependencies.
  pub build_dependency_graph_lem :
      Ensures (λ g. Linked cs g × IsAcyclic g) (Rejected cs) (build_dependency_graph range_order cs)
  unfolding build_dependency_graph
  build_dependency_graph_lem =
      Ensures-bind (Registered cs empty_graph) (IsDuplicate (empty_graph.components ++ names cs))
        (λ g. Linked cs g × IsAcyclic g) (Rejected cs) (register cs empty_graph)
        (λ g. connect cs g >>= λ g'. validate_dependencies g' (range_order g'.components) >> ok g')
        (λ g r.
          Ensures-bind (Connected cs g) (IsDangling g.components cs)
            (λ g'. Linked cs g' × IsAcyclic g') (Rejected cs) (connect cs g)
            (λ g'. validate_dependencies g' (range_order g'.components) >> ok g')
            (λ g' k. validated g' (linked g g' r k))
            (λ e d. dangling (subst (λ l. IsDangling l cs e) (components_eq g r) d))
            (connect_lem cs g (λ n m. subst (In n) (sym (components_eq g r)) m)
              (λ n. subst (λ l. count n l ≤ 1) (components_eq g r) (r.bare.distinct n))
              (IsBare-IsWellFormed g r.bare)))
        (λ e d. twice (unfold empty_graph in d)) (register_lem cs empty_graph IsBare-empty_graph)
    where
      components_eq : (g : Graph) → Registered cs empty_graph g → g.components ≡ names cs
      components_eq g r = r.components ∙ (unfold empty_graph in refl)

-- A specification that can be ordered: the names are distinct, and each dependency is a component
-- of a smaller rank.
pub record IsValid (rank : String → ℕ) (cs : List Component) : Type 0 where
  pub distinct : IsDistinct (names cs)
  pub ordered :
      All (λ c. (d : String) → In d c.depends_on → In d (names cs) × (rank d < rank c.name)) cs

module _ (rank : String → ℕ) where
  abbrev Ordered : List String → Component → Type 0
  Ordered known c = (d : String) → In d c.depends_on → In d known × (rank d < rank c.name)

  Ordered-edges :
      (known : List String) (g : Graph) (cs : List Component)
      → All (λ c. g.dependencies c.name ≡ c.depends_on) cs
      → All (Ordered known) cs
      → (n d : String) → In n (names cs)
      → In d (g.dependencies n)
      → rank d < rank n
  Ordered-edges known g [] e o n d m edge = absurd (omega (arith, count-nil n))
  Ordered-edges known g (c ∷ cs) e o n d m edge = elim (string_discrete c.name n) [
    | yes same ↦
        subst (λ x. rank d < rank x) same
          (o.0 d (subst (In d) e.0 (subst (λ x. In d (g.dependencies x)) (sym same) edge))).1
    | no other ↦
        Ordered-edges known g cs e.1 o.1 n d
          (omega (arith, count-cons_ne n c.name (names cs) other)) edge
  ]

  not_dangling :
      (known : List String) (cs : List Component) {e : Error}
      → IsDangling known cs e
      → All (Ordered known) cs
      → ⊥
  not_dangling known [] h o = elim h [ ]
  not_dangling known (c ∷ cs) (here _ (missing d m absent)) o = omega (arith, (o.0 d m).0, absent)
  not_dangling known (c ∷ cs) (there _ h) o = not_dangling known cs h o.1

  not-Rejected : (cs : List Component) (e : Error) → IsValid rank cs → Rejected cs e → ⊥
  not-Rejected cs e v (twice (duplicate n m)) = omega (arith, v.distinct n)
  not-Rejected cs e v (dangling h) = not_dangling (names cs) cs h v.ordered
  not-Rejected cs e v (cyclic g l r) = IsReported-IsAcyclic g e r (
    rank,
    λ n d edge.
        Ordered-edges (names cs) g cs l.edges v.ordered n d
          (subst (In n) l.components (l.well_formed.source n d edge)) edge,
  )

-- A specification that can be ordered is accepted, in whatever order the runtime visits each key of
-- the map once.
pub build_dependency_graph-valid :
    (range_order : List String → List String)
    → ((l : List String) → SameNames (range_order l) l)
    → (rank : String → ℕ) (cs : List Component) → IsValid rank cs
    → (g : Graph) × (build_dependency_graph range_order cs ≡ ok g)
build_dependency_graph-valid range_order permutes rank cs v =
    accepted (build_dependency_graph range_order cs)
      (build_dependency_graph_lem range_order permutes cs)
  where
    accepted :
        (m : Result Graph)
        → Ensures (λ g. Linked cs g × IsAcyclic g) (Rejected cs) m
        → (g : Graph) × (m ≡ ok g)
    accepted (ok g) h = (g, refl)
    accepted (err e) h = absurd (not-Rejected rank cs e v h)
