-- ===== src/Proxy/Config.antt =====
-- `loadConfig` of cmd/proxy/main.go, and the functions that read the environment.
-- `getenv` stands for `os.Getenv`, which returns the empty text for a variable that is not set, and
-- `parse_duration` for `time.ParseDuration`, whose errors are `none`.
pub mod Errors
pub mod Environment
pub mod Values
pub mod RoundTrip
use sleepyservice.Prelude.{
  ℕ, zero, suc, ◌+◌, ◌-◌, ◌^◌, ◌%◌, ◌≡◌, String, Bool, true, false, Option, none, some, List, [],
  ◌∷◌, if◌then◌else◌, leb, ltb, ite, string_discrete, codes, ℤ, pos, negsuc, int32,
}
use mathlib.Core.Option
use sleepyservice.Errors.{Error, text, Result, ok, err, ◌>>=◌, ◌>>◌}
use sleepyservice.Strconv.{split, trim_space, parse_int, parse_bool}

pub record Config : Type 0 where
  pub namespace : String
  pub sleepy_service_name : String
  pub deployment_name : String
  pub cnpg_cluster_name : String
  pub backend_host : String
  pub backend_ports : List ℤ
  pub desired_replicas : ℤ
  pub wake_timeout : ℤ
  pub idle_timeout : ℤ
  pub debug_endpoints : Bool

-- Five minutes, in nanoseconds.
abbrev pub default_wake_timeout : ℤ
default_wake_timeout = pos 300_000_000_000

-- One round of the loop over the parts of BACKEND_PORTS: a part that is no `int32` is fatal. The
-- message, which also shows the part, is cut short here.
abbrev pub with_port : Option ℤ → Result (List ℤ) → Result (List ℤ)
with_port none rest = err (text "Invalid port in BACKEND_PORTS")
with_port (some port) rest = rest >>= λ ports. ok (port ∷ ports)

unfoldable pub parse_ports : List (List ℕ) → Result (List ℤ)
parse_ports [] = ok []
parse_ports (part ∷ parts) =
    let rest = parse_ports parts in with_port (parse_int 31 (trim_space part)) rest

-- A variable that must not be empty.
unfoldable pub required : String → String → Result (Unit {0})
required message value = ite (string_discrete value "") (err (text message)) (ok tt)

-- The last two tests, behind the loop over the ports.
unfoldable pub check_names : Config → Result Config
check_names config = do
  required "HIBERNATING_SERVICE_NAME environment variable is required" config.sleepy_service_name
  required "BACKEND_HOST environment variable is required" config.backend_host
  ok config

module _ (getenv : String → String) where
  unfoldable pub get_env : String → String → String
  get_env key default = ite (string_discrete (getenv key) "") default (getenv key)

  unfoldable pub get_env_bool : String → Bool → Bool
  get_env_bool key default =
      ite (string_discrete (getenv key) "") default
        (Option.get_or (parse_bool (getenv key)) default)

  -- `strconv.Atoi`, of 64 bits.
  unfoldable pub get_env_int : String → ℤ → ℤ
  get_env_int key default =
      ite (string_discrete (getenv key) "") default
        (Option.get_or (parse_int 63 (codes (getenv key))) default)

  unfoldable pub get_env_duration : (String → Option ℤ) → String → ℤ → ℤ
  get_env_duration parse_duration key default =
      ite (string_discrete (getenv key) "") default
        (Option.get_or (parse_duration (getenv key)) default)

  -- The configuration, with these ports.
  unfoldable pub config_with : (String → Option ℤ) → List ℤ → Config
  unfolding get_env get_env_bool get_env_int get_env_duration
  config_with parse_duration ports = record {
    namespace = get_env "NAMESPACE" "default";
    sleepy_service_name = get_env "HIBERNATING_SERVICE_NAME" "";
    deployment_name = get_env "DEPLOYMENT_NAME" "";
    cnpg_cluster_name = get_env "CNPG_CLUSTER_NAME" "";
    backend_host = get_env "BACKEND_HOST" "";
    backend_ports = ports;
    desired_replicas = int32 (get_env_int "DESIRED_REPLICAS" (pos 1));
    wake_timeout = get_env_duration parse_duration "WAKE_TIMEOUT" default_wake_timeout;
    idle_timeout = get_env_duration parse_duration "IDLE_TIMEOUT" (pos 0);
    debug_endpoints = get_env_bool "DEBUG_ENDPOINTS" false;
  }

  -- `log.Fatal` ends the process; its message is the error here.
  unfoldable pub load_config : (String → Option ℤ) → Result Config
  unfolding config_with check_names
  load_config parse_duration = do
    required "BACKEND_PORTS environment variable is required" (get_env "BACKEND_PORTS" "")
    ports ← parse_ports (split b',' (codes (get_env "BACKEND_PORTS" "")))
    check_names (config_with parse_duration ports)
