-- ===== src/Proxy/Config/Errors.antt =====
-- When `loadConfig` ends the process, and with which message.
use sleepyservice.Prelude.{
  ◌≡◌, ◌≢◌, refl, sym, ◌∙◌, subst, String, Option, none, some, List, [], ◌∷◌, ite, string_discrete,
  codes, arith, ℕ, ℤ, ◌⊎◌, inl, inr,
}
use sleepyservice.Errors.{Error, text, Result, ok, err, ◌>>=◌, ◌>>◌, Ensures, Ensures-bind}
use sleepyservice.Api.{SleepyService}
use sleepyservice.Strconv.{split, trim_space, parse_int}
use sleepyservice.Controller.Workloads.{lookup}
use sleepyservice.Controller.ProxyEnv.{find_components, build_proxy_env, app_env}
use sleepyservice.Proxy.Config.{
  Config, with_port, parse_ports, required, get_env, config_with, check_names, load_config,
}
use sleepyservice.Proxy.Config.Environment.{IsEnvironment, ports_variable}

abbrev pub port_of : List ℕ → Option ℤ
port_of part = parse_int 31 (trim_space part)

-- Some part is no integer of 32 bits.
abbrev pub HasBadPort : List (List ℕ) → Type 0
HasBadPort [] = ⊥
HasBadPort (part ∷ parts) = (port_of part ≡ none) ⊎ HasBadPort parts

-- Each part is the port at its place.
abbrev pub ArePorts : List (List ℕ) → List ℤ → Type 0
ArePorts [] [] = Unit
ArePorts [] (n ∷ ns) = ⊥
ArePorts (part ∷ parts) [] = ⊥
ArePorts (part ∷ parts) (n ∷ ns) = (port_of part ≡ some n) × ArePorts parts ns

with_port_lem :
    (part : List ℕ) (parts : List (List ℕ)) (port : Option ℤ) (rest : Result (List ℤ))
    → port_of part ≡ port
    → Ensures
        (ArePorts parts)
        (λ e. (e ≡ text "Invalid port in BACKEND_PORTS") × HasBadPort parts)
        rest
    → Ensures
        (ArePorts (part ∷ parts))
        (λ e. (e ≡ text "Invalid port in BACKEND_PORTS") × HasBadPort (part ∷ parts))
        (with_port port rest)
with_port_lem part parts none rest e h = (refl, inl e)
with_port_lem part parts (some n) (ok ns) e h = (e, h)
with_port_lem part parts (some n) (err x) e h = (h.0, inr h.1)

parse_ports_lem :
    (parts : List (List ℕ))
    → Ensures
        (ArePorts parts)
        (λ e. (e ≡ text "Invalid port in BACKEND_PORTS") × HasBadPort parts)
        (parse_ports parts)
unfolding parse_ports
parse_ports_lem [] = tt
parse_ports_lem (part ∷ parts) =
    with_port_lem part parts (port_of part) (parse_ports parts) refl (parse_ports_lem parts)

required-Ensures :
    (message value : String)
    → Ensures (λ _. value ≢ "") (λ e. (e ≡ text message) × (value ≡ "")) (required message value)
unfolding required
required-Ensures message value = by_dec (string_discrete value "")
  where
    by_dec :
        (d : Dec (value ≡ ""))
        → Ensures
            (λ _. value ≢ "")
            (λ e. (e ≡ text message) × (value ≡ ""))
            (ite d (err (text message)) (ok (tt {0})))
    by_dec (yes e) = (refl, e)
    by_dec (no h) = h

get_env-plain_eq : (getenv : String → String) (key : String) → get_env getenv key "" ≡ getenv key
unfolding get_env
get_env-plain_eq getenv key = ground arith

module _ (getenv : String → String) where
  -- A configuration that was accepted has the ports that BACKEND_PORTS lists, in their order, and a
  -- name and a host that are not empty.
  pub record IsComplete (config : Config) : Type 0 where
    pub ports_set : getenv "BACKEND_PORTS" ≢ ""
    pub ports : ArePorts (split b',' (codes (getenv "BACKEND_PORTS"))) config.backend_ports
    pub name : config.sleepy_service_name ≡ getenv "HIBERNATING_SERVICE_NAME"
    pub name_set : config.sleepy_service_name ≢ ""
    pub host : config.backend_host ≡ getenv "BACKEND_HOST"
    pub host_set : config.backend_host ≢ ""

  -- Why the process ends.
  pub data Incomplete : Error → Type 0 where
    no_ports :
        getenv "BACKEND_PORTS" ≡ ""
        → Incomplete (text "BACKEND_PORTS environment variable is required")
    bad_port :
        HasBadPort (split b',' (codes (getenv "BACKEND_PORTS")))
        → Incomplete (text "Invalid port in BACKEND_PORTS")
    no_name :
        getenv "HIBERNATING_SERVICE_NAME" ≡ ""
        → Incomplete (text "HIBERNATING_SERVICE_NAME environment variable is required")
    no_host :
        getenv "BACKEND_HOST" ≡ ""
        → Incomplete (text "BACKEND_HOST environment variable is required")

  module _ (parse : String → Option ℤ) (ports : List ℤ) (set : getenv "BACKEND_PORTS" ≢ "")
      (are : ArePorts (split b',' (codes (getenv "BACKEND_PORTS"))) ports) where
    check_names-Ensures :
        Ensures IsComplete Incomplete (check_names (config_with getenv parse ports))
    unfolding check_names config_with
    check_names-Ensures =
        Ensures-bind (λ _. config.sleepy_service_name ≢ "")
          (λ e.
            (e ≡ text "HIBERNATING_SERVICE_NAME environment variable is required")
            × (config.sleepy_service_name ≡ ""))
          IsComplete Incomplete
          (required "HIBERNATING_SERVICE_NAME environment variable is required"
            config.sleepy_service_name)
          (λ _.
            required "BACKEND_HOST environment variable is required" config.backend_host
            >> ok config)
          (λ _ name_set.
            Ensures-bind (λ _. config.backend_host ≢ "")
              (λ e.
                (e ≡ text "BACKEND_HOST environment variable is required")
                × (config.backend_host ≡ ""))
              IsComplete Incomplete
              (required "BACKEND_HOST environment variable is required" config.backend_host)
              (λ _. ok config)
              (λ _ host_set. record {
                ports_set = set;
                ports = are;
                name = name_eq;
                name_set = name_set;
                host = host_eq;
                host_set = host_set;
              })
              (λ e
                  (h : (e ≡ text "BACKEND_HOST environment variable is required")
                    × (config.backend_host ≡ "")).
                subst Incomplete (sym h.0) (no_host (sym host_eq ∙ h.1)))
              (required-Ensures "BACKEND_HOST environment variable is required"
                config.backend_host))
          (λ e
              (h : (e ≡ text "HIBERNATING_SERVICE_NAME environment variable is required")
                × (config.sleepy_service_name ≡ "")).
            subst Incomplete (sym h.0) (no_name (sym name_eq ∙ h.1)))
          (required-Ensures "HIBERNATING_SERVICE_NAME environment variable is required"
            config.sleepy_service_name)
      where
        config : Config
        config = config_with getenv parse ports

        name_eq : config.sleepy_service_name ≡ getenv "HIBERNATING_SERVICE_NAME"
        name_eq = get_env-plain_eq getenv "HIBERNATING_SERVICE_NAME"

        host_eq : config.backend_host ≡ getenv "BACKEND_HOST"
        host_eq = get_env-plain_eq getenv "BACKEND_HOST"

  -- `loadConfig` ends the process exactly if BACKEND_PORTS is empty or one of its parts is no integer
  -- of 32 bits, or the name of the service or the host is empty, with a message for one of these that
  -- holds; otherwise the configuration has the ports of the list, in their order, and the name and
  -- the host.
  pub load_config_lem :
      (parse : String → Option ℤ) → Ensures IsComplete Incomplete (load_config getenv parse)
  unfolding load_config
  load_config_lem parse =
      Ensures-bind (λ _. plain ≢ "")
        (λ e. (e ≡ text "BACKEND_PORTS environment variable is required") × (plain ≡ "")) IsComplete
        Incomplete (required "BACKEND_PORTS environment variable is required" plain)
        (λ _. parse_ports (split b',' (codes plain)) >>= λ ports.
          check_names (config_with getenv parse ports))
        (λ _ set.
          Ensures-bind (ArePorts (split b',' (codes plain)))
            (λ e.
              (e ≡ text "Invalid port in BACKEND_PORTS") × HasBadPort (split b',' (codes plain)))
            IsComplete Incomplete (parse_ports (split b',' (codes plain)))
            (λ ports. check_names (config_with getenv parse ports))
            (λ ports are.
              check_names-Ensures parse ports (λ e. set (plain_eq ∙ e))
                (subst (λ t. ArePorts (split b',' (codes t)) ports) plain_eq are))
            (λ e
                (h : (e ≡ text "Invalid port in BACKEND_PORTS")
                  × HasBadPort (split b',' (codes plain))).
              subst Incomplete (sym h.0)
                (bad_port (subst (λ t. HasBadPort (split b',' (codes t))) plain_eq h.1)))
            (parse_ports_lem (split b',' (codes plain))))
        (λ e (h : (e ≡ text "BACKEND_PORTS environment variable is required") × (plain ≡ "")).
          subst Incomplete (sym h.0) (no_ports (sym plain_eq ∙ h.1)))
        (required-Ensures "BACKEND_PORTS environment variable is required" plain)
    where
      plain : String
      plain = get_env getenv "BACKEND_PORTS" ""

      plain_eq : plain ≡ getenv "BACKEND_PORTS"
      plain_eq = get_env-plain_eq getenv "BACKEND_PORTS"

-- The environment that the controller makes for a service with no Deployment and no StatefulSet has
-- no BACKEND_PORTS: the proxy ends at once.
pub load_config-no_app :
    (getenv : String → String) (show : ℤ → String) (parse : String → Option ℤ) (hs : SleepyService)
    → (find_components hs.spec.components (record { app = none; cnpg = none })).app ≡ none
    → IsEnvironment getenv (build_proxy_env show hs)
    → load_config getenv parse ≡ err (text "BACKEND_PORTS environment variable is required")
unfolding load_config required build_proxy_env app_env lookup string_discrete
load_config-no_app getenv show parse hs e env =
    rw (get_env-plain_eq getenv "BACKEND_PORTS" ∙ unset) refl
  where
    unset : getenv "BACKEND_PORTS" ≡ ""
    unset = ground (arith, env "BACKEND_PORTS" ports_variable, e)
