-- ===== src/Examples/Workloads.antt =====
-- The workloads of the shop, asleep and awake, and its ports.
use sleepyservice.Prelude.{◌≡◌, refl, String, false, Option, none, some, [], ◌∷◌, All, ◌<>◌, ℤ, pos}
use sleepyservice.Errors.{ok, err, text}
use sleepyservice.Api.{SleepyService, Component, ServicePort, deployment, stateful_set}
use sleepyservice.Cluster.{Ctx}
use sleepyservice.Controller.Workloads.{
  wanted_replicas, is_up, is_down, scale_up_deployment, scale_down_deployment,
  scale_up_stateful_set, scale_down_stateful_set,
}
use sleepyservice.Controller.Workloads.Replicas.{
  IsStored, Rescaled, scale_up_deployment-Rescaled, scale_down_deployment-Rescaled,
  scale_up_stateful_set-Rescaled, scale_down_stateful_set-Rescaled,
}
use sleepyservice.Controller.Ports.{
  from_int, given_ports, build_backend_service_ports, build_proxy_container_ports,
  build_proxy_service_ports,
}
use sleepyservice.Controller.Backend.{find_app_component}
use sleepyservice.Controller.Backend.Agreement.{
  port_numbers, container_numbers, texts, IsDirect, ports_agree, find_app_component-find_components,
}
use sleepyservice.Controller.ProxyEnv.{find_components, port_texts}
use sleepyservice.Controller.Reconcile.{advance}
use sleepyservice.Controller.Reconcile.Advance.{Advances, advance-Advances}
use sleepyservice.Examples.World.{component, service, client, store, start, orders}

abbrev api : Component
api = component "api" deployment []

abbrev db : Component
db = component "db" stateful_set []

deployment-IsStored : IsStored (store.get_deployment "default" "api") store.update_deployment
deployment-IsStored = record { read = λ w. refl; written = λ d n w found written. cc }

stateful_set-IsStored : IsStored (store.get_stateful_set "default" "db") store.update_stateful_set
stateful_set-IsStored = record { read = λ w. refl; written = λ d n w found written. cc }

abbrev asleep : Ctx (Option ℤ)
asleep = record { hs = service; world = some (pos 0) }

abbrev up : Ctx (Option ℤ)
up = record { hs = service; world = some (pos 2) }

scale_up_deployment-Rescaled_example :
    Rescaled
      (store.get_deployment "default" "api")
      store.update_deployment
      ("failed to get Deployment " <> "api" <> ": ")
      ("failed to scale up Deployment " <> "api" <> ": ")
      (λ r. is_down r ≡ false)
      (some (pos 0))
      (scale_up_deployment store "default" api asleep)
unfolding wanted_replicas
scale_up_deployment-Rescaled_example =
    scale_up_deployment-Rescaled store "default" api deployment-IsStored refl asleep

scale_down_deployment-Rescaled_example :
    Rescaled
      (store.get_deployment "default" "api")
      store.update_deployment
      ("failed to get Deployment " <> "api" <> ": ")
      ("failed to scale down Deployment " <> "api" <> ": ")
      (λ r. is_up r ≡ false)
      (some (pos 2))
      (scale_down_deployment store "default" api up)
scale_down_deployment-Rescaled_example =
    scale_down_deployment-Rescaled store "default" api deployment-IsStored up

scale_up_stateful_set-Rescaled_example :
    Rescaled
      (store.get_stateful_set "default" "db")
      store.update_stateful_set
      ("failed to get StatefulSet " <> "db" <> ": ")
      ("failed to scale up StatefulSet " <> "db" <> ": ")
      (λ r. is_down r ≡ false)
      (some (pos 0))
      (scale_up_stateful_set store "default" db asleep)
unfolding wanted_replicas
scale_up_stateful_set-Rescaled_example =
    scale_up_stateful_set-Rescaled store "default" db stateful_set-IsStored refl asleep

scale_down_stateful_set-Rescaled_example :
    Rescaled
      (store.get_stateful_set "default" "db")
      store.update_stateful_set
      ("failed to get StatefulSet " <> "db" <> ": ")
      ("failed to scale down StatefulSet " <> "db" <> ": ")
      (λ r. is_up r ≡ false)
      (some (pos 2))
      (scale_down_stateful_set store "default" db up)
scale_down_stateful_set-Rescaled_example =
    scale_down_stateful_set-Rescaled store "default" db stateful_set-IsStored up

-- The shop with two ports.
abbrev port : String → ℤ → ServicePort
port name n = record {
  name = name;
  protocol = "";
  port = n;
  target_port = from_int (pos 0);
  node_port = pos 0;
}

abbrev with_ports : SleepyService
with_ports = record service {
  spec = record service.spec {
    backend_service = some (record {
      enabled = none;
      type = "";
      ports = port "http" (pos 80) ∷ port "admin" (pos 8080) ∷ [];
      cluster_ip = "";
      external_ips = [];
      load_balancer_ip = "";
      session_affinity = "";
      annotations = [];
    });
  };
}

ports_agree_example :
    (port_numbers (build_proxy_service_ports with_ports)
      ≡ port_numbers (build_backend_service_ports with_ports))
    × (container_numbers (build_proxy_container_ports with_ports)
        ≡ port_numbers (build_backend_service_ports with_ports))
    × (port_texts (given_ports with_ports)
        ≡ texts (port_numbers (build_backend_service_ports with_ports)))
    × All IsDirect (build_proxy_service_ports with_ports)
ports_agree_example = ports_agree with_ports

find_app_component-find_components_example :
    find_app_component service
    ≡ elim (find_components service.spec.components (record { app = none; cnpg = none })).app [
      | none ↦ err (text "no Deployment or StatefulSet component found")
      | some comp ↦ ok comp
    ]
find_app_component-find_components_example = find_app_component-find_components service

advance-Advances_example : Advances service (advance client orders orders start)
advance-Advances_example = advance-Advances client orders orders start
