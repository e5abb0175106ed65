-- ===== src/Proxy/Main.antt =====
-- `main` of cmd/proxy/main.go: a server for each port, the idle monitor, and the first state of the
-- proxy; and `NewK8sClient` of internal/proxy/kubernetes.go. The shutdown on a signal is left out.
pub mod Room
pub mod Servers
pub mod Booted
use mathlib.Core.Option
use sleepyservice.Prelude.{
  ℕ, String, Bool, true, false, Option, none, some, List, [], ◌∷◌, ◌++◌, if◌then◌else◌, ◌<>◌, ℤ,
  pos, ◌+ℤ◌, ite, string_discrete, ltb_ℤ, int64, show_ℤ,
}
use sleepyservice.Errors.{Result, ok, err, wrap, ◌>>=◌}
use sleepyservice.Api.{ServiceState}
use sleepyservice.Controller.Workloads.{lookup}
use sleepyservice.Proxy.Defs.{State, sleeping, waking, awake, Proxy, WakeStatus}
use sleepyservice.Proxy.Requests.{Handled, port_handler, debug_triggers}
use sleepyservice.Proxy.Config.{Config, load_config}
use sleepyservice.Proxy.Threads.{System}
use sleepyservice.Proxy.Threads.Stuck.{start}

-- A server, its port, and the URL of the backend that its reverse proxy has.
pub record Server : Type 0 where
  pub port : ℤ
  pub addr : String
  pub backend_url : String
  pub read_timeout : ℤ
  pub write_timeout : ℤ

unfoldable pub server : Config → ℤ → Server
server config n = record {
  port = n;
  addr = ":" <> show_ℤ n;
  backend_url = "http://" <> config.backend_host <> ":" <> show_ℤ n;
  read_timeout = pos 30_000_000_000;
  write_timeout = int64 (config.wake_timeout +ℤ pos 30_000_000_000);
}

-- `config.IdleTimeout > 0`
unfoldable pub has_idle_monitor : Config → Bool
has_idle_monitor config = ltb_ℤ (pos 0) config.idle_timeout

-- What `main` and `NewK8sClient` call of the libraries. `listen` tells whether a server goes on to
-- listen until the process gets a signal, or fails.
pub record Libraries (RestConfig Clientset DynamicClient : Type 0) : Type 0 where
  pub templates : Result (Unit {0})
  pub in_cluster_config : Result RestConfig
  pub new_clientset : RestConfig → Result Clientset
  pub new_dynamic_client : RestConfig → Result DynamicClient
  pub parse_url : String → Result (Unit {0})
  pub listen : Server → Result (Unit {0})

module _ {RestConfig Clientset DynamicClient : Type 0}
    (libraries : Libraries RestConfig Clientset DynamicClient) where
  unfoldable pub new_k8s_client : Result (Clientset × DynamicClient)
  new_k8s_client = do
    config ← wrap "failed to get in-cluster config: " libraries.in_cluster_config
    clientset ← wrap "failed to create clientset: " (libraries.new_clientset config)
    dynamic_client ← wrap "failed to create dynamic client: " (libraries.new_dynamic_client config)
    ok (clientset, dynamic_client)

  -- The loop over the ports. An error here and below is a `log.Fatalf`, which ends the process.
  unfoldable pub make_servers : Config → List ℤ → Result (List Server)
  unfolding server
  make_servers config [] = ok []
  make_servers config (port ∷ ports) =
      let rest = make_servers config ports in
      let s = server config port in
      wrap ("Invalid backend URL for port " <> show_ℤ port <> ": ")
        (libraries.parse_url s.backend_url)
      >>= λ u. (rest >>= λ servers. ok (s ∷ servers))

  -- The goroutines that the loop starts, one for each server. They run beside the loop: where a URL
  -- is invalid, too, either error may be the one that ends the process.
  unfoldable pub listen_all : List Server → Result (Unit {0})
  listen_all [] = ok tt
  listen_all (s ∷ servers) =
      let rest = listen_all servers in
      wrap ("Server error on port " <> show_ℤ s.port <> ": ") (libraries.listen s) >>= λ u. rest

  -- What runs when `main` waits for a signal.
  pub record Main : Type 0 where
    pub config : Config
    pub k8s : Clientset × DynamicClient
    pub system : System
    pub idle_monitor : Bool
    pub servers : List Server

  unfoldable pub boot :
      (getenv : String → String)
      → (parse_duration : String → Option ℤ) → ℤ
      → (first : Clientset × DynamicClient → Result ServiceState) → Result Main
  unfolding load_config start has_idle_monitor make_servers listen_all new_k8s_client
  boot getenv parse_duration now first = do
    config ← load_config getenv parse_duration
    parsed ← wrap "Failed to parse templates: " libraries.templates
    k8s ← wrap "Failed to create Kubernetes client: " new_k8s_client
    servers ← make_servers config config.backend_ports
    listening ← listen_all servers
    ok (record {
      config = config;
      k8s = k8s;
      system = start now (first k8s);
      idle_monitor = has_idle_monitor config;
      servers = servers;
    })
