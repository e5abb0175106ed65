-- ===== src/Proxy/Config/RoundTrip.antt =====
-- The proxy reads from its environment what the controller wrote into it.
use mathlib.Core.Option
use sleepyservice.Prelude.{
  ◌≡◌, ◌≢◌, refl, sym, ◌∙◌, ap, subst, String, Option, none, some, List, join, codes, ℤ, pos, int32,
  ◌<>◌,
}
use sleepyservice.Errors.{ok}
use sleepyservice.Api.{SleepyService, Component}
use sleepyservice.Strconv.{split}
use sleepyservice.Controller.Ports.{given_ports, build_backend_service_ports}
use sleepyservice.Controller.Backend.Agreement.{port_numbers, texts, ports_agree}
use sleepyservice.Controller.ProxyEnv.{find_components, build_proxy_env, backend_name, port_texts}
use sleepyservice.Proxy.Config.{
  default_wake_timeout, parse_ports, get_env, get_env_int, config_with, check_names, load_config,
}
use sleepyservice.Proxy.Config.Environment.{IsEnvironment, Sees, variables-Sees, ref_name}
use sleepyservice.Proxy.Config.Values.{
  int32-fits, build_proxy_env-variables, get_env-set, get_env-plain, get_env_bool-debug,
  get_env_int-show, get_env_duration-show, host-ne, required_lem, parsed_texts, unset_ports,
  numbers_pos, IsDuration, configured, IsConfigurable,
}

module _ (getenv : String → String) (show : ℤ → String) (parse : String → Option ℤ) where
  load_config-ok :
      (ports : List ℤ)
      → get_env getenv "BACKEND_PORTS" "" ≢ ""
      → parse_ports (split b',' (codes (get_env getenv "BACKEND_PORTS" ""))) ≡ ok ports
      → get_env getenv "HIBERNATING_SERVICE_NAME" "" ≢ ""
      → get_env getenv "BACKEND_HOST" "" ≢ ""
      → load_config getenv parse ≡ ok (config_with getenv parse ports)
  unfolding load_config check_names config_with
  load_config-ok ports set parsed name host =
      rw (required_lem _ _ set, parsed, required_lem _ _ name, required_lem _ _ host) refl

  -- What a service whose application component is `app` makes of the proxy.
  module _ (durations : IsDuration show parse) (hs : SleepyService) (app : Component)
      (cnpg : Option Component) (configurable : IsConfigurable hs app) where
    abbrev numbers : List ℤ
    numbers = port_numbers (build_backend_service_ports hs)

    ports_text : join "," (port_texts (given_ports hs)) ≡ join "," (texts numbers)
    ports_text = ap (join ",") (ports_agree hs).2

    parsed_ports : parse_ports (split b',' (codes (join "," (texts numbers)))) ≡ ok numbers
    parsed_ports = parsed_texts numbers (numbers_pos hs) configurable.ports

    ports-ne : join "," (port_texts (given_ports hs)) ≢ ""
    ports-ne e = cc (
      unset_ports,
      parsed_ports,
      ap (λ t. parse_ports (split b',' (codes t))) (sym ports_text ∙ e),
    )

    loaded-configured :
        Sees getenv hs.namespace hs.name
          (show hs.spec.wake_timeout)
          (show hs.spec.idle_timeout)
          hs.spec.debug
          app.ref.name
          (backend_name hs app <> "." <> hs.namespace)
          (join "," (port_texts (given_ports hs)))
          app.replicas
          cnpg
        → load_config getenv parse ≡ ok (configured hs app cnpg)
    unfolding config_with
    loaded-configured sees =
        load_config-ok numbers (λ e. ports-ne (sym ports_eq ∙ e)) parsed
          (λ e. configurable.name (sym name_eq ∙ e))
          (λ e. host-ne (backend_name hs app) hs.namespace (sym host_eq ∙ e))
        ∙ λ i. ok (record {
          namespace =
              get_env-set getenv "NAMESPACE" "default" hs.namespace sees.namespace_eq
                configurable.namespace i;
          sleepy_service_name = name_eq i;
          deployment_name =
              get_env-plain getenv "DEPLOYMENT_NAME" app.ref.name sees.deployment_eq i;
          cnpg_cluster_name =
              get_env-plain getenv "CNPG_CLUSTER_NAME" (ref_name cnpg) sees.cnpg_eq i;
          backend_host = host_eq i;
          backend_ports = numbers;
          desired_replicas = replicas_eq i;
          wake_timeout =
              get_env_duration-show getenv show parse durations "WAKE_TIMEOUT" default_wake_timeout
                hs.spec.wake_timeout configurable.wake_timeout sees.wake_eq i;
          idle_timeout =
              get_env_duration-show getenv show parse durations "IDLE_TIMEOUT" (pos 0)
                hs.spec.idle_timeout configurable.idle_timeout sees.idle_eq i;
          debug_endpoints =
              get_env_bool-debug getenv "DEBUG_ENDPOINTS" hs.spec.debug sees.debug_eq i;
        })
      where
        ports_eq : get_env getenv "BACKEND_PORTS" "" ≡ join "," (port_texts (given_ports hs))
        ports_eq =
            get_env-plain getenv "BACKEND_PORTS" (join "," (port_texts (given_ports hs)))
              sees.ports_eq

        name_eq : get_env getenv "HIBERNATING_SERVICE_NAME" "" ≡ hs.name
        name_eq = get_env-plain getenv "HIBERNATING_SERVICE_NAME" hs.name sees.name_eq

        host_eq : get_env getenv "BACKEND_HOST" "" ≡ backend_name hs app <> "." <> hs.namespace
        host_eq =
            get_env-plain getenv "BACKEND_HOST" (backend_name hs app <> "." <> hs.namespace)
              sees.host_eq

        parsed : parse_ports (split b',' (codes (get_env getenv "BACKEND_PORTS" ""))) ≡ ok numbers
        parsed = ap (λ t. parse_ports (split b',' (codes t))) (ports_eq ∙ ports_text) ∙ parsed_ports

        replicas_eq :
            int32 (get_env_int getenv "DESIRED_REPLICAS" (pos 1))
            ≡ Option.get_or app.replicas (pos 1)
        replicas_eq =
            ap int32 (
              get_env_int-show getenv "DESIRED_REPLICAS" app.replicas sees.replicas_eq
                configurable.replicas)
            ∙ int32-fits (Option.get_or app.replicas (pos 1)) configurable.replicas

-- What the controller writes into the environment of the proxy, the proxy reads back: for a service
-- with an application component, with names that are not empty, numbers of 32 bits and timeouts of 64, `loadConfig`
-- succeeds in a process that has the variables of `buildProxyEnv` and no others of those it reads, and its configuration has
-- the names, the ports of the backend Service, the replicas, the timeouts and the debug flag of the
-- service. Printed durations of 64 bits are assumed to be read back.
pub load_config-build_proxy_env :
    (getenv : String → String) (show : ℤ → String) (parse : String → Option ℤ)
    → IsDuration show parse
    → (hs : SleepyService) (app : Component) (cnpg : Option Component) → IsConfigurable hs app
    → find_components hs.spec.components (record { app = none; cnpg = none })
      ≡ record { app = some app; cnpg = cnpg }
    → IsEnvironment getenv (build_proxy_env show hs)
    → load_config getenv parse ≡ ok (configured hs app cnpg)
load_config-build_proxy_env getenv show parse durations hs app cnpg configurable found env =
    loaded-configured getenv show parse durations hs app cnpg configurable (
      variables-Sees getenv hs.namespace hs.name (show hs.spec.wake_timeout)
        (show hs.spec.idle_timeout) hs.spec.debug app.ref.name
        (backend_name hs app <> "." <> hs.namespace) (join "," (port_texts (given_ports hs)))
        app.replicas cnpg
        (subst (IsEnvironment getenv) (build_proxy_env-variables show hs app cnpg found) env))
