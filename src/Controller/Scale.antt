-- ===== src/Controller/Scale.antt =====
-- `areComponentsReady`, `scaleUpComponents` and `scaleDownComponents`.
pub mod Cut
pub mod Complete
pub mod Deps
pub mod Eventually
pub mod InOrder
pub mod Keeps
pub mod Store
pub mod Views
pub mod Listed
pub mod Running
pub mod Asleep
pub mod Hibernation
use sleepyservice.Prelude.{
  ℕ, zero, suc, ◌≡◌, String, Bool, true, false, Option, none, some, List, [], ◌∷◌, if◌then◌else◌,
  ite, string_discrete, update, get_elem?,
}
use mathlib.Core.Option
use sleepyservice.Api.{
  SleepyService, Component, ComponentStatus, deployment, stateful_set, cnpg_cluster,
}
use sleepyservice.Exec.{Exec, pure, lift, gets, wrap_error, ◌>>=◌, ◌>>◌}
use sleepyservice.Cluster.{Client, Ctx}
use sleepyservice.Controller.Graph.{Graph, build_dependency_graph, compute_scaling_levels}
use sleepyservice.Controller.Workloads.{
  scale_up_deployment, scale_up_stateful_set, scale_up_cnpg_cluster, scale_down_deployment,
  scale_down_stateful_set, scale_down_cnpg_cluster,
}

-- The orders in which the runtime visits a map with the given keys, for each of the three loops
-- over a dependency graph's components.
pub record RangeOrders : Type 0 where
  pub validation : List String → List String
  pub degrees : List String → List String
  pub queue : List String → List String

unfoldable pub levels_of : RangeOrders → Graph → List (List String)
levels_of orders g =
    compute_scaling_levels g (orders.degrees g.components) (orders.queue g.components)

-- The loop that builds a map of the statuses: a later one of the same name wins.
unfoldable pub status_map :
    List ComponentStatus → (String → Option ComponentStatus) → String → Option ComponentStatus
status_map [] m = m
status_map (s ∷ statuses) m = status_map statuses (update m s.name (some s))

abbrev pub is_ready : Option ComponentStatus → Bool
is_ready none = false
is_ready (some s) = s.ready

unfoldable pub all_ready_in : (String → Option ComponentStatus) → List String → Bool
all_ready_in m [] = true
all_ready_in m (name ∷ names) =
    let rest = all_ready_in m names in if is_ready (m name) then rest else false

unfoldable pub are_components_ready : List ComponentStatus → List String → Bool
unfolding status_map all_ready_in
are_components_ready statuses names = all_ready_in (status_map statuses (λ _. none)) names

-- The rest of the loop over the levels, behind the first: `prev` is the level before, `i` the index
-- of the next one and `current` the value of `currentLevel`.
unfoldable pub level_loop : (List String → Bool) → List String → ℕ → List (List String) → ℕ → ℕ
level_loop ready prev i [] current = current
level_loop ready prev i (level ∷ rest) current =
    let onwards = level_loop ready level (suc i) rest i in if ready prev then onwards else current

-- `currentLevel`; `none` is its -1.
unfoldable pub current_level : (List String → Bool) → List (List String) → Option ℕ
unfolding level_loop
current_level ready [] = none
current_level ready (level ∷ rest) = some (level_loop ready level 1 rest 0)

-- `comp.Ref.Namespace`, or the namespace of the service.
unfoldable pub namespace_of : SleepyService → Component → String
namespace_of hs comp = ite (string_discrete comp.ref.namespace "") hs.namespace comp.ref.namespace

module _ {W : Type 0} (client : Client W) where
  unfoldable pub scale_up_component : SleepyService → Component → Exec (Ctx W) (Unit {0})
  scale_up_component hs comp = elim comp.type [
    | deployment ↦ scale_up_deployment client (namespace_of hs comp) comp
    | stateful_set ↦ scale_up_stateful_set client (namespace_of hs comp) comp
    | cnpg_cluster ↦ scale_up_cnpg_cluster client (namespace_of hs comp) comp
  ]

  -- The zero component at a missing key has no type, so nothing is done for it.
  unfoldable pub scale_up_named : SleepyService → Option Component → Exec (Ctx W) (Unit {0})
  scale_up_named hs none = pure tt
  scale_up_named hs (some comp) = scale_up_component hs comp

  unfoldable pub scale_up_level : SleepyService → Graph → List String → Exec (Ctx W) (Unit {0})
  scale_up_level hs g [] = pure tt
  scale_up_level hs g (name ∷ names) =
      scale_up_named hs (g.components_by_name name) >> scale_up_level hs g names

  unfoldable pub scale_up_current :
      SleepyService → Graph → List (List String) → Option ℕ → Exec (Ctx W) (Unit {0})
  scale_up_current hs g levels none = pure tt
  scale_up_current hs g levels (some i) =
      scale_up_level hs g (Option.get_or (get_elem? levels i) [])

  unfoldable pub scale_up_graph : RangeOrders → SleepyService → Graph → Exec (Ctx W) (Unit {0})
  scale_up_graph orders hs g =
      let levels = levels_of orders g in
      scale_up_current hs g levels
        (current_level (are_components_ready hs.status.components) levels)

  unfoldable pub scale_up_components : RangeOrders → SleepyService → Exec (Ctx W) (Unit {0})
  scale_up_components orders hs = do
    g ←
        wrap_error "failed to build dependency graph: "
          (lift (build_dependency_graph orders.validation hs.spec.components))
    scale_up_graph orders hs g

  unfoldable pub scale_down_component : SleepyService → Component → Exec (Ctx W) (Unit {0})
  scale_down_component hs comp = elim comp.type [
    | deployment ↦ scale_down_deployment client (namespace_of hs comp) comp
    | stateful_set ↦ scale_down_stateful_set client (namespace_of hs comp) comp
    | cnpg_cluster ↦ scale_down_cnpg_cluster client (namespace_of hs comp) comp
  ]

  unfoldable pub scale_down_components : SleepyService → List Component → Exec (Ctx W) (Unit {0})
  scale_down_components hs [] = pure tt
  scale_down_components hs (comp ∷ components) =
      scale_down_component hs comp >> scale_down_components hs components
