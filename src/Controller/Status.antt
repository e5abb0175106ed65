-- ===== src/Controller/Status.antt =====
-- `updateComponentStatuses`, and `updateBackendServiceStatus`.
pub mod Observed
use sleepyservice.Prelude.{
  ℕ, zero, suc, ◌+◌, ◌-◌, ◌≡◌, String, Bool, true, false, not, ◌&&◌, Option, none, some, List, [],
  ◌∷◌, ◌++◌, if◌then◌else◌, ite, string_discrete, ltb, length, count, ◌<>◌, decimal, show_ℤ,
  show_list, ℤ, pos, sub_ℕ,
}
use sleepyservice.Errors.{Result, ok, err, error_text}
use sleepyservice.Api.{
  SleepyService, Component, ComponentStatus, ServiceState, deployment, stateful_set, cnpg_cluster,
  awake, sleeping, is_awake, is_waking,
}
use sleepyservice.Exec.{Exec, pure, gets, modify, attempt, ◌>>=◌, ◌>>◌}
use sleepyservice.Cluster.{Client, Ctx, time_now}
use sleepyservice.Controller.Graph.{Graph, build_dependency_graph}
use sleepyservice.Controller.Readiness.{
  Report, check_deployment_ready, check_stateful_set_ready, check_cnpg_ready,
}
use sleepyservice.Controller.Scale.{RangeOrders, levels_of, namespace_of, status_map}

-- The fields `Ready` and `Message` of a status after the check of its component.
unfoldable pub outcome : Result Report → Report
outcome (ok report) = report
outcome (err e) = (false, error_text e)

-- A dependency that has a status in the map, and is not ready.
abbrev pub is_known_unready : Option ComponentStatus → Bool
is_known_unready none = false
is_known_unready (some s) = not s.ready

unfoldable pub not_ready_deps : (String → Option ComponentStatus) → List String → List String
not_ready_deps m [] = []
not_ready_deps m (dep ∷ deps) =
    let rest = not_ready_deps m deps in if is_known_unready (m dep) then dep ∷ rest else rest

abbrev waiting_text : List String → String → String
waiting_text [] message = message
waiting_text (dep ∷ deps) message =
    "Waiting for dependencies: " <> show_list (dep ∷ deps) <> ". Current: " <> message

-- The message of a component that is not ready, from the statuses that stand before it.
unfoldable pub dependency_text : List ComponentStatus → Component → String → String
unfolding not_ready_deps status_map
dependency_text statuses comp message =
    if ltb 0 (length comp.depends_on)
    then waiting_text (not_ready_deps (status_map statuses (λ _. none)) comp.depends_on) message
    else message

-- The loop over the levels: each level that holds the component adds its prefix.
unfoldable pub level_text : String → ℤ → ℕ → List (List String) → String → String
level_text name last i [] message = message
level_text name last i (level ∷ levels) message = level_text name last (suc i) levels (
    if ltb 0 (count name level)
    then "[Level " <> decimal i <> "/" <> show_ℤ last <> "] " <> message
    else message)

-- What the two steps after the check make of the message; `levels` is `none` if the graph was
-- rejected.
unfoldable pub decorate :
    SleepyService
    → Option (List (List String))
    → List ComponentStatus
    → Component
    → Report
    → ComponentStatus
unfolding dependency_text level_text
decorate hs none statuses comp (ready, message) = record {
  name = comp.name;
  ready = ready;
  message = message;
}
decorate hs (some levels) statuses comp (ready, message) =
    let message' = if ready then message else dependency_text statuses comp message in
    record {
      name = comp.name;
      ready = ready;
      message =
          if is_waking hs.status.state
          then level_text comp.name (sub_ℕ (length levels) 1) 0 levels message'
          else message';
    }

unfoldable pub graph_levels : RangeOrders → Result Graph → Option (List (List String))
graph_levels orders (ok g) = some (levels_of orders g)
graph_levels orders (err e) = none

-- The loop variable `allReady`, and the statuses so far.
pub record Statuses : Type 0 where
  pub list : List ComponentStatus
  pub all_ready : Bool

module _ {W : Type 0} (client : Client W) where
  unfoldable pub check_component : SleepyService → Component → Exec (Ctx W) Report
  check_component hs comp = elim comp.type [
    | deployment ↦ check_deployment_ready client (namespace_of hs comp) comp.ref.name
    | stateful_set ↦ check_stateful_set_ready client (namespace_of hs comp) comp.ref.name
    | cnpg_cluster ↦ check_cnpg_ready client (namespace_of hs comp) comp.ref.name
  ]

  unfoldable pub component_statuses :
      SleepyService
      → Option (List (List String))
      → List Component
      → Statuses
      → Exec (Ctx W) Statuses
  component_statuses hs levels [] acc = pure acc
  component_statuses hs levels (comp ∷ components) acc = do
    checked ← attempt (check_component hs comp)
    let status = decorate hs levels acc.list comp (outcome checked)
    component_statuses hs levels components (record {
      list = acc.list ++ status ∷ [];
      all_ready = if status.ready then acc.all_ready else false;
    })

  -- `hs.Status.State = state; now := metav1.Now(); hs.Status.LastTransition = &now`
  unfoldable pub transition : ServiceState → Exec (Ctx W) (Unit {0})
  transition state = do
    t ← time_now client
    modify (λ c. record c {
      hs = record c.hs { status = record c.hs.status { state = state; last_transition = some t } };
    })

  -- The overall state, from the components.
  unfoldable pub overall_state : Bool → ServiceState → Exec (Ctx W) (Unit {0})
  overall_state true state = if is_awake state then pure tt else transition awake
  overall_state false state = if is_awake state then transition sleeping else pure tt

  unfoldable pub set_components : List ComponentStatus → Exec (Ctx W) (Unit {0})
  set_components list =
      modify
        (λ c. record c { hs = record c.hs { status = record c.hs.status { components = list } } })

  unfoldable pub update_component_statuses : RangeOrders → Exec (Ctx W) (Unit {0})
  unfolding graph_levels
  update_component_statuses orders = do
    hs ← gets (λ c. c.hs)
    let built = build_dependency_graph orders.validation hs.spec.components
    acc ←
        component_statuses hs (graph_levels orders built) hs.spec.components
          (record { list = []; all_ready = true })
    set_components acc.list
    overall_state acc.all_ready hs.status.state

unfoldable pub update_backend_service_status : SleepyService → SleepyService
update_backend_service_status hs = elim hs.spec.backend_service [
  | none ↦ hs
  | some backend ↦ record hs {
    status = record hs.status { backend_service = hs.name <> "-actual" };
  }
]
