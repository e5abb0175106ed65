-- ===== src/Controller/Scale/Keeps.antt =====
-- Scaling leaves the service object alone that the controller holds.
use sleepyservice.Prelude.{get_elem?, ℕ, ◌≡◌, refl, ◌∙◌, String, Option, none, some, List, [], ◌∷◌}
use mathlib.Core.Option
use sleepyservice.Errors.{Result}
use sleepyservice.Api.{
  SleepyService, Component, ComponentType, deployment, stateful_set, cnpg_cluster,
}
use sleepyservice.Exec.{
  Exec, Relates, IsHistory, Relates-pure, Relates-lift, Relates-wrap_error, Relates-if,
  Relates-bind,
}
use sleepyservice.Cluster.{CnpgCluster, Client, Ctx, call}
use sleepyservice.Controller.Graph.{Graph}
use sleepyservice.Controller.Workloads.{
  scale_up_deployment, scale_up_stateful_set, scale_up_cnpg_cluster, scale_down_deployment,
  scale_down_stateful_set, scale_down_cnpg_cluster, wake_if_hibernated, hibernate_unless_on,
}
use sleepyservice.Controller.Scale.{
  RangeOrders, scale_up_component, scale_up_named, scale_up_level, scale_up_current, scale_up_graph,
  scale_up_components, scale_down_component, scale_down_components, namespace_of, levels_of,
  current_level, are_components_ready,
}

module _ {W : Type 0} where
  abbrev pub SameService : Ctx W → Ctx W → Type 0
  SameService a b = b.hs ≡ a.hs

  pub same_service : IsHistory SameService
  same_service = record { idle = λ s. refl; chain = λ a b c p q. q ∙ p }

  abbrev pub Keeps : {A : Type 0} → Exec (Ctx W) A → Type 0
  Keeps m = Relates SameService m

  pub Keeps-call : {A : Type 0} (f : W → Result A × W) → Relates SameService (call f)
  Keeps-call f = record { at = λ c. unfold call in refl }

  ruleset keeps_rules = (
    same_service, Keeps-call, Relates-pure, Relates-lift, Relates-wrap_error, Relates-if,
    Relates-bind,
  )

  module _ (client : Client W) (namespace : String) (comp : Component) where
    up_deployment : Relates SameService (scale_up_deployment client namespace comp)
    unfolding scale_up_deployment
    up_deployment = search keeps_rules

    up_stateful_set : Relates SameService (scale_up_stateful_set client namespace comp)
    unfolding scale_up_stateful_set
    up_stateful_set = search keeps_rules

    wake :
        (cluster : CnpgCluster) (a : Option (List (String × String)))
        → Relates SameService (wake_if_hibernated client namespace comp cluster a)
    unfolding wake_if_hibernated
    wake cluster none = search keeps_rules
    wake cluster (some a) = search keeps_rules

    up_cluster : Relates SameService (scale_up_cnpg_cluster client namespace comp)
    unfolding scale_up_cnpg_cluster
    up_cluster = search (keeps_rules, wake)

    down_deployment : Relates SameService (scale_down_deployment client namespace comp)
    unfolding scale_down_deployment
    down_deployment = search keeps_rules

    down_stateful_set : Relates SameService (scale_down_stateful_set client namespace comp)
    unfolding scale_down_stateful_set
    down_stateful_set = search keeps_rules

    down_cluster : Relates SameService (scale_down_cnpg_cluster client namespace comp)
    unfolding scale_down_cnpg_cluster hibernate_unless_on
    down_cluster = search keeps_rules

  module _ (client : Client W) (hs : SleepyService) where
    up_component : (comp : Component) → Relates SameService (scale_up_component client hs comp)
    unfolding scale_up_component
    up_component comp = by_type comp.type
      where
        by_type :
            (t : ComponentType)
            → Relates SameService (elim t [
              | deployment ↦ scale_up_deployment client (namespace_of hs comp) comp
              | stateful_set ↦ scale_up_stateful_set client (namespace_of hs comp) comp
              | cnpg_cluster ↦ scale_up_cnpg_cluster client (namespace_of hs comp) comp
            ])
        by_type deployment = up_deployment client (namespace_of hs comp) comp
        by_type stateful_set = up_stateful_set client (namespace_of hs comp) comp
        by_type cnpg_cluster = up_cluster client (namespace_of hs comp) comp

    down_component : (comp : Component) → Relates SameService (scale_down_component client hs comp)
    unfolding scale_down_component
    down_component comp = by_type comp.type
      where
        by_type :
            (t : ComponentType)
            → Relates SameService (elim t [
              | deployment ↦ scale_down_deployment client (namespace_of hs comp) comp
              | stateful_set ↦ scale_down_stateful_set client (namespace_of hs comp) comp
              | cnpg_cluster ↦ scale_down_cnpg_cluster client (namespace_of hs comp) comp
            ])
        by_type deployment = down_deployment client (namespace_of hs comp) comp
        by_type stateful_set = down_stateful_set client (namespace_of hs comp) comp
        by_type cnpg_cluster = down_cluster client (namespace_of hs comp) comp

    up_named : (o : Option Component) → Relates SameService (scale_up_named client hs o)
    unfolding scale_up_named
    up_named none = search keeps_rules
    up_named (some comp) = up_component comp

    up_level :
        (g : Graph) (level : List String) → Relates SameService (scale_up_level client hs g level)
    unfolding scale_up_level
    up_level g [] = search keeps_rules
    up_level g (name ∷ names) =
        Relates-bind same_service (scale_up_named client hs (g.components_by_name name))
          (λ _. scale_up_level client hs g names) (up_named (g.components_by_name name))
          (λ _. up_level g names)

    up_current :
        (g : Graph) (levels : List (List String)) (o : Option ℕ)
        → Relates SameService (scale_up_current client hs g levels o)
    unfolding scale_up_current
    up_current g levels none = search keeps_rules
    up_current g levels (some i) = up_level g (Option.get_or (get_elem? levels i) [])

    up_graph :
        (orders : RangeOrders) (g : Graph) → Relates SameService (scale_up_graph client orders hs g)
    unfolding scale_up_graph
    up_graph orders g =
        up_current g (levels_of orders g)
          (current_level (are_components_ready hs.status.components) (levels_of orders g))

    pub scale_up_components-keeps :
        (orders : RangeOrders) → Relates SameService (scale_up_components client orders hs)
    unfolding scale_up_components
    scale_up_components-keeps orders = search (keeps_rules, up_graph)

    pub scale_down_components-keeps :
        (comps : List Component) → Relates SameService (scale_down_components client hs comps)
    unfolding scale_down_components
    scale_down_components-keeps [] = search keeps_rules
    scale_down_components-keeps (comp ∷ comps) =
        Relates-bind same_service (scale_down_component client hs comp)
          (λ _. scale_down_components client hs comps) (down_component comp)
          (λ _. scale_down_components-keeps comps)
