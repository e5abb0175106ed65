-- ===== src/Examples/Controller.antt =====
-- The controller on the shop.
use sleepyservice.Prelude.{
  ℕ, suc, ◌≡◌, subst, String, Bool, true, false, some, List, [], ◌∷◌, SameNames, IsDistinct, In,
  length, flatten, string_discrete,
}
use sleepyservice.Errors.{ok, Ensures}
use sleepyservice.Controller.Graph.{
  Graph, build_dependency_graph, compute_scaling_levels, validate_dependencies,
}
use sleepyservice.Controller.Graph.Defs.{scaling_rounds}
use sleepyservice.Controller.Graph.Spec.{IsAcyclic, IsLayered, IsReported}
use sleepyservice.Controller.Graph.Builds.{
  Linked, Rejected, build_dependency_graph_lem, build_dependency_graph-valid,
}
use sleepyservice.Controller.Graph.Acyclic.{validate_dependencies_lem}
use sleepyservice.Controller.Graph.Levels.{
  scaling_rounds-total, compute_scaling_levels-IsLayered, compute_scaling_levels-SameNames,
}
use sleepyservice.Controller.Scale.{current_level, scale_up_components}
use sleepyservice.Controller.Scale.Cut.{IsCut, current_level-IsCut}
use sleepyservice.Controller.Scale.Complete.{Completes, scale_up_components-Completes}
use sleepyservice.Controller.Scale.InOrder.{Scalings, scale_up_components-Scalings}
use sleepyservice.Controller.State.{or_sleeping, set_state, all_ready, reconcile_state}
use sleepyservice.Controller.State.Transitions.{Settled, next_state, reconcile_state-next_state}
use sleepyservice.Controller.Status.{update_component_statuses}
use sleepyservice.Controller.Status.Observed.{Observes, update_component_statuses-Observes}
use sleepyservice.Examples.World.{
  in_order, in_order-SameNames, orders, orders-IsPermuting, shop, service, rank, shop-IsValid,
  client, start,
}

build_dependency_graph_lem_example :
    Ensures
      (λ g. Linked shop g × IsAcyclic g)
      (Rejected shop)
      (build_dependency_graph in_order shop)
build_dependency_graph_lem_example = build_dependency_graph_lem in_order in_order-SameNames shop

build_dependency_graph-valid_example : (g : Graph) × (build_dependency_graph in_order shop ≡ ok g)
build_dependency_graph-valid_example =
    build_dependency_graph-valid in_order in_order-SameNames rank shop shop-IsValid

-- The graph of the shop.
record Built : Type 0 where
  graph : Graph
  linked : Linked shop graph
  acyclic : IsAcyclic graph

built : Built
built = record { graph = accepted.0; linked = holds.0; acyclic = holds.1 }
  where
    accepted : (g : Graph) × (build_dependency_graph in_order shop ≡ ok g)
    accepted = build_dependency_graph-valid in_order in_order-SameNames rank shop shop-IsValid

    holds : Linked shop accepted.0 × IsAcyclic accepted.0
    holds =
        subst (Ensures (λ g. Linked shop g × IsAcyclic g) (Rejected shop)) accepted.1
          (build_dependency_graph_lem in_order in_order-SameNames shop)

abbrev graph : Graph
graph = built.graph

validate_dependencies_lem_example :
    Ensures (λ _. IsAcyclic graph) (IsReported graph) (validate_dependencies graph graph.components)
validate_dependencies_lem_example =
    validate_dependencies_lem graph built.linked.well_formed graph.components
      (in_order-SameNames graph.components)

scaling_rounds-total_example :
    scaling_rounds (suc (length graph.components)) graph graph.components graph.components
    ≡ some (compute_scaling_levels graph graph.components graph.components)
scaling_rounds-total_example =
    scaling_rounds-total graph built.linked.well_formed graph.components graph.components
      (in_order-SameNames graph.components) (in_order-SameNames graph.components)

abbrev levels : List (List String)
levels = compute_scaling_levels graph graph.components graph.components

compute_scaling_levels-IsLayered_example :
    IsLayered graph [] levels
    × IsDistinct (flatten levels)
    × ((c : String) → In c (flatten levels) → In c graph.components)
compute_scaling_levels-IsLayered_example =
    compute_scaling_levels-IsLayered graph built.linked.well_formed graph.components
      graph.components (in_order-SameNames graph.components) (in_order-SameNames graph.components)

compute_scaling_levels-SameNames_example : SameNames (flatten levels) graph.components
compute_scaling_levels-SameNames_example =
    compute_scaling_levels-SameNames graph built.linked.well_formed graph.components
      graph.components (in_order-SameNames graph.components) (in_order-SameNames graph.components)
      built.acyclic

-- Only the level of the database is ready.
abbrev db_ready : List String → Bool
db_ready [] = true
db_ready (x ∷ level) = elim (string_discrete x "db") [ yes e ↦ true | no e ↦ false ]

abbrev shop_levels : List (List String)
shop_levels = ("db" ∷ []) ∷ ("api" ∷ []) ∷ ("web" ∷ []) ∷ []

current_level-IsCut_example :
    (i : ℕ) × (current_level db_ready shop_levels ≡ some i) × IsCut db_ready shop_levels i
current_level-IsCut_example =
    current_level-IsCut db_ready ("db" ∷ []) (("api" ∷ []) ∷ ("web" ∷ []) ∷ [])

scale_up_components-Scalings_example :
    Scalings client service start (scale_up_components client orders service start).1
scale_up_components-Scalings_example =
    scale_up_components-Scalings client orders orders-IsPermuting service start

reconcile_state-next_state_example :
    let hs = set_state (or_sleeping service.status.state) service in
    Settled hs
      (next_state service.status.desired_state service.status.state
        (all_ready service.status.components))
      (reconcile_state client orders start)
reconcile_state-next_state_example = reconcile_state-next_state client orders start

update_component_statuses-Observes_example :
    Observes service (update_component_statuses client orders start)
update_component_statuses-Observes_example = update_component_statuses-Observes client orders start

scale_up_components-Completes_example :
    Completes client orders service start (scale_up_components client orders service start)
scale_up_components-Completes_example =
    scale_up_components-Completes client orders orders-IsPermuting service start
