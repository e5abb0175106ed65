-- ===== src/Controller/Graph/Build.antt =====
-- `buildDependencyGraph`.
use sleepyservice.Prelude.{
  String, none, some, List, [], ◌∷◌, ◌++◌, if◌then◌else◌, ltb, update, count,
}
use sleepyservice.Api.{Component}
use sleepyservice.Errors.{Result, ok, err, duplicate_component, missing_dependency, ◌>>=◌, ◌>>◌}
use sleepyservice.Controller.Graph.Defs.{Graph, validate_dependencies}

unfoldable pub empty_graph : Graph
empty_graph = record {
  dependencies = λ _. [];
  dependents = λ _. [];
  components = [];
  components_by_name = λ _. none;
}

-- First pass: register all component names.
unfoldable pub register : List Component → Graph → Result Graph
register [] g = ok g
register (comp ∷ components) g =
    let rest = register components (record {
      dependencies = update g.dependencies comp.name [];
      dependents = update g.dependents comp.name [];
      components = g.components ++ comp.name ∷ [];
      components_by_name = update g.components_by_name comp.name (some comp);
    }) in
    if ltb 0 (count comp.name g.components) then err (duplicate_component comp.name) else rest

-- The edges between a component and one of its dependencies, in both directions.
unfoldable pub add_edge : String → String → Graph → Graph
add_edge name dep g = record g {
  dependencies = update g.dependencies name (g.dependencies name ++ dep ∷ []);
  dependents = update g.dependents dep (g.dependents dep ++ name ∷ []);
}

unfoldable pub add_edges : String → List String → Graph → Result Graph
unfolding add_edge
add_edges name [] g = ok g
add_edges name (dep ∷ deps) g =
    let rest = add_edges name deps (add_edge name dep g) in
    if ltb 0 (count dep g.components) then rest else err (missing_dependency name dep)

-- Second pass: build dependency edges.
unfoldable pub connect : List Component → Graph → Result Graph
unfolding add_edges
connect [] g = ok g
connect (comp ∷ components) g = do g' ← add_edges comp.name comp.depends_on g; connect components g'

-- `range_order` is the order in which the runtime visits a map with the given keys.
unfoldable pub build_dependency_graph : (List String → List String) → List Component → Result Graph
unfolding register connect empty_graph
build_dependency_graph range_order components = do
  registered ← register components empty_graph
  graph ← connect components registered
  validate_dependencies graph (range_order graph.components)
  ok graph
