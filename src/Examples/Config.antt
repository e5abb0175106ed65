-- ===== src/Examples/Config.antt =====
-- The environment of the shop, as the controller writes it and the proxy reads it.
use mathlib.Core.Option
use sleepyservice.Prelude.{
  ℕ, suc, true, pos, ◌+ℤ◌, ◌≡◌, refl, String, none, Option, [], ◌∷◌, show_ℤ, ℤ, codes,
}
use sleepyservice.Errors.{Result, ok, err, text, Ensures}
use sleepyservice.Controller.Workloads.{lookup}
use sleepyservice.Api.{SleepyService, stateful_set, cnpg_cluster}
use sleepyservice.Strconv.{parse_signed}
use sleepyservice.Controller.Ports.{backend_port, given_ports, build_backend_service_ports}
use sleepyservice.Strconv.Signed.{parse_signed-show_ℤ}
use sleepyservice.Controller.ProxyEnv.{build_proxy_env, find_components}
use sleepyservice.Proxy.Config.{Config, load_config}
use sleepyservice.Proxy.Main.{Libraries, boot}
use sleepyservice.Proxy.Main.Booted.{Runs, SetupFailed, boot-build_proxy_env}
use sleepyservice.Api
use sleepyservice.Proxy.Config.Values.{parse_signed-nil, IsDuration, IsConfigurable, configured}
use sleepyservice.Proxy.Config.Errors.{IsComplete, Incomplete, load_config_lem, load_config-no_app}
use sleepyservice.Proxy.Config.RoundTrip.{load_config-build_proxy_env}
use sleepyservice.Examples.World.{service, component}

-- A way to print and to read durations: nanoseconds in decimal.
abbrev parse : String → Option ℤ
parse s = parse_signed (codes s)

-- The process that has exactly the variables of the service.
abbrev process : SleepyService → String → String
process hs key = Option.get_or (lookup key (build_proxy_env show_ℤ hs)) ""

durations : IsDuration show_ℤ parse
durations = record { read_back = λ d h. parse_signed-show_ℤ d; not_empty = parse_signed-nil }

configurable : IsConfigurable service (component "db" stateful_set [])
unfolding build_backend_service_ports backend_port given_ports
configurable = record {
  namespace = λ e. cc;
  name = λ e. cc;
  ports = (refl, tt);
  replicas = refl;
  wake_timeout = refl;
  idle_timeout = refl;
}

load_config-build_proxy_env_example :
    load_config (process service) parse
    ≡ ok (configured service (component "db" stateful_set []) none)
unfolding find_components
load_config-build_proxy_env_example =
    load_config-build_proxy_env (process service) show_ℤ parse durations service
      (component "db" stateful_set []) none configurable refl (λ key v. refl)

load_config_lem_example :
    Ensures
      (IsComplete (process service))
      (Incomplete (process service))
      (load_config (process service) parse)
load_config_lem_example = load_config_lem (process service) parse

abbrev only_data : SleepyService
only_data = record service {
  spec = record service.spec { components = component "pg" cnpg_cluster [] ∷ [] };
}

load_config-no_app_example :
    load_config (process only_data) parse
    ≡ err (text "BACKEND_PORTS environment variable is required")
unfolding find_components
load_config-no_app_example =
    load_config-no_app (process only_data) show_ℤ parse only_data refl (λ key v. refl)

-- A cluster in which every step succeeds; a client is a number.
abbrev libraries : Libraries ℕ ℕ ℕ
libraries = record {
  templates = ok tt;
  in_cluster_config = ok 1;
  new_clientset = λ c. ok (suc c);
  new_dynamic_client = λ c. ok c;
  parse_url = λ u. ok tt;
  listen = λ s. ok tt;
}

abbrev first : ℕ × ℕ → Result Api.ServiceState
first k8s = ok Api.ServiceState.sleeping

boot-build_proxy_env_example :
    Ensures
      (Runs libraries service (component "db" stateful_set []) none (pos 5) first)
      (SetupFailed libraries service (component "db" stateful_set []))
      (boot libraries (process service) parse (pos 5) first)
unfolding find_components ◌+ℤ◌
boot-build_proxy_env_example =
    boot-build_proxy_env libraries (process service) show_ℤ parse durations service
      (component "db" stateful_set []) none configurable refl refl (λ key v. refl) (pos 5) first

abbrev with_debug : Config
with_debug = record (configured service (component "db" stateful_set []) none) {
  debug_endpoints = true;
}
