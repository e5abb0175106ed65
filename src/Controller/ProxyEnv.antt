-- ===== src/Controller/ProxyEnv.antt =====
-- `buildProxyEnv`: the environment of the proxy's container, which `loadConfig` of the proxy reads.
-- `show_duration` stands for `time.Duration.String`.
use sleepyservice.Prelude.{
  String, Bool, true, Option, none, some, List, [], ◌∷◌, ◌++◌, map, ◌<>◌, join, ℤ, show_ℤ,
}
use sleepyservice.Api.{
  SleepyService, ServicePort, Component, ComponentType, deployment, stateful_set, cnpg_cluster,
}
use sleepyservice.Controller.Ports.{given_ports}

-- The two variables that the loop over the components sets.
pub record Found : Type 0 where
  pub app : Option Component
  pub cnpg : Option Component

unfoldable pub note : Component → ComponentType → Found → Found
note c deployment f = record f { app = some c }
note c stateful_set f = record f { app = some c }
note c cnpg_cluster f = record f { cnpg = some c }

unfoldable pub find_components : List Component → Found → Found
unfolding note
find_components [] f = f
find_components (c ∷ components) f = find_components components (note c c.type f)

abbrev pub EnvVar : Type 0
EnvVar = String × String

abbrev pub debug_env : Option Bool → List EnvVar
debug_env (some true) = ("DEBUG_ENDPOINTS", "true") ∷ []
debug_env _ = []

unfoldable pub backend_name : SleepyService → Component → String
backend_name hs app = elim hs.spec.backend_service [
  | none ↦ app.ref.name
  | some backend ↦ hs.name <> "-actual"
]

-- Default to port 80.
abbrev pub port_texts : List ServicePort → List String
port_texts [] = "80" ∷ []
port_texts (p ∷ ports) = show_ℤ p.port ∷ map (λ q. show_ℤ q.port) ports

abbrev pub replicas_env : Option ℤ → List EnvVar
replicas_env none = []
replicas_env (some n) = ("DESIRED_REPLICAS", show_ℤ n) ∷ []

unfoldable pub app_env : SleepyService → Option Component → List EnvVar
unfolding backend_name given_ports
app_env hs none = []
app_env hs (some app) =
    ("DEPLOYMENT_NAME", app.ref.name)
    ∷ ("BACKEND_HOST", backend_name hs app <> "." <> hs.namespace)
    ∷ ("BACKEND_PORTS", join "," (port_texts (given_ports hs)))
    ∷ replicas_env app.replicas

abbrev pub cnpg_env : Option Component → List EnvVar
cnpg_env none = []
cnpg_env (some cnpg) = ("CNPG_CLUSTER_NAME", cnpg.ref.name) ∷ []

unfoldable pub build_proxy_env : (ℤ → String) → SleepyService → List EnvVar
unfolding find_components app_env
build_proxy_env show_duration hs =
    let found = find_components hs.spec.components (record { app = none; cnpg = none }) in
    (("NAMESPACE", hs.namespace)
      ∷ ("HIBERNATING_SERVICE_NAME", hs.name)
      ∷ ("WAKE_TIMEOUT", show_duration hs.spec.wake_timeout)
      ∷ ("IDLE_TIMEOUT", show_duration hs.spec.idle_timeout)
      ∷ debug_env hs.spec.debug)
    ++ app_env hs found.app
    ++ cnpg_env found.cnpg
