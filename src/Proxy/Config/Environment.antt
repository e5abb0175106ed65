-- ===== src/Proxy/Config/Environment.antt =====
-- What the variables of `buildProxyEnv` are in the proxy's process.
use mathlib.Core.Option
use sleepyservice.Prelude.{
  ◌≡◌, String, Bool, true, Option, none, some, List, ◌∷◌, ◌++◌, string_discrete, show_ℤ, ℤ, arith,
}
use sleepyservice.Api.{Component}
use sleepyservice.Controller.Workloads.{lookup}
use sleepyservice.Controller.ProxyEnv.{EnvVar, debug_env, replicas_env, cnpg_env}

-- The variables that `loadConfig` reads.
pub data IsVariable : String → Type 0 where
  namespace_variable : IsVariable "NAMESPACE"
  name_variable : IsVariable "HIBERNATING_SERVICE_NAME"
  wake_variable : IsVariable "WAKE_TIMEOUT"
  idle_variable : IsVariable "IDLE_TIMEOUT"
  debug_variable : IsVariable "DEBUG_ENDPOINTS"
  deployment_variable : IsVariable "DEPLOYMENT_NAME"
  host_variable : IsVariable "BACKEND_HOST"
  ports_variable : IsVariable "BACKEND_PORTS"
  replicas_variable : IsVariable "DESIRED_REPLICAS"
  cnpg_variable : IsVariable "CNPG_CLUSTER_NAME"

-- Of these a process sees what its container sets, and the empty text for one that it does not set.
-- Other variables, as those of Kubernetes itself, may have any value.
abbrev pub IsEnvironment : (String → String) → List EnvVar → Type 0
IsEnvironment getenv env =
    (key : String) → IsVariable key → getenv key ≡ Option.get_or (lookup key env) ""

abbrev pub show_replicas : Option ℤ → String
show_replicas none = ""
show_replicas (some n) = show_ℤ n

abbrev pub ref_name : Option Component → String
ref_name none = ""
ref_name (some c) = c.ref.name

abbrev pub show_debug : Option Bool → String
show_debug (some true) = "true"
show_debug _ = ""

-- The environment of a service with an application component, from its values.
abbrev pub variables :
    (namespace name wake idle : String)
    → Option Bool
    → (deployment host ports : String) → Option ℤ
    → Option Component
    → List EnvVar
variables namespace name wake idle debug deployment host ports replicas cnpg =
    (("NAMESPACE", namespace)
      ∷ ("HIBERNATING_SERVICE_NAME", name)
      ∷ ("WAKE_TIMEOUT", wake)
      ∷ ("IDLE_TIMEOUT", idle)
      ∷ debug_env debug)
    ++ (("DEPLOYMENT_NAME", deployment)
        ∷ ("BACKEND_HOST", host)
        ∷ ("BACKEND_PORTS", ports)
        ∷ replicas_env replicas)
    ++ cnpg_env cnpg

-- What a process sees of them.
pub record Sees (getenv : String → String) (namespace name wake idle : String) (debug : Option Bool)
    (deployment host ports : String) (replicas : Option ℤ) (cnpg : Option Component) : Type 0 where
  pub namespace_eq : getenv "NAMESPACE" ≡ namespace
  pub name_eq : getenv "HIBERNATING_SERVICE_NAME" ≡ name
  pub wake_eq : getenv "WAKE_TIMEOUT" ≡ wake
  pub idle_eq : getenv "IDLE_TIMEOUT" ≡ idle
  pub debug_eq : getenv "DEBUG_ENDPOINTS" ≡ show_debug debug
  pub deployment_eq : getenv "DEPLOYMENT_NAME" ≡ deployment
  pub host_eq : getenv "BACKEND_HOST" ≡ host
  pub ports_eq : getenv "BACKEND_PORTS" ≡ ports
  pub replicas_eq : getenv "DESIRED_REPLICAS" ≡ show_replicas replicas
  pub cnpg_eq : getenv "CNPG_CLUSTER_NAME" ≡ ref_name cnpg

pub variables-Sees :
    (getenv : String → String) (namespace name wake idle : String) (debug : Option Bool)
    (deployment host ports : String) (replicas : Option ℤ) (cnpg : Option Component)
    → IsEnvironment getenv
        (variables namespace name wake idle debug deployment host ports replicas cnpg)
    → Sees getenv namespace name wake idle debug deployment host ports replicas cnpg
unfolding lookup string_discrete
variables-Sees getenv namespace name wake idle debug deployment host ports replicas cnpg h =
    record {
      namespace_eq = h "NAMESPACE" namespace_variable;
      name_eq = h "HIBERNATING_SERVICE_NAME" name_variable;
      wake_eq = h "WAKE_TIMEOUT" wake_variable;
      idle_eq = h "IDLE_TIMEOUT" idle_variable;
      debug_eq = ground (arith, h "DEBUG_ENDPOINTS" debug_variable);
      deployment_eq = ground (arith, h "DEPLOYMENT_NAME" deployment_variable);
      host_eq = ground (arith, h "BACKEND_HOST" host_variable);
      ports_eq = ground (arith, h "BACKEND_PORTS" ports_variable);
      replicas_eq = ground (arith, h "DESIRED_REPLICAS" replicas_variable);
      cnpg_eq = ground (arith, h "CNPG_CLUSTER_NAME" cnpg_variable);
    }
