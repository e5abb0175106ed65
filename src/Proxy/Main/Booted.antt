-- ===== src/Proxy/Main/Booted.antt =====
-- The proxy of a service, started in the environment that the controller makes.
use sleepyservice.Prelude.{◌≡◌, refl, String, Option, none, some, List, ◌<>◌, ℤ, pos, ltb_ℤ}
use sleepyservice.Errors.{Error, wrapped, Result, ok, err, Ensures, Ensures-bind, ◌>>=◌}
use sleepyservice.Errors.{wrap}
use sleepyservice.Api.{SleepyService, Component, ServiceState}
use sleepyservice.Controller.Ports.{build_backend_service_ports}
use sleepyservice.Controller.Backend.Agreement.{port_numbers}
use sleepyservice.Controller.ProxyEnv.{find_components, build_proxy_env, backend_name}
use sleepyservice.Proxy.Config.Environment.{IsEnvironment}
use sleepyservice.Proxy.Config.Values.{IsDuration, IsConfigurable, configured}
use sleepyservice.Proxy.Config.RoundTrip.{load_config-build_proxy_env}
use sleepyservice.Proxy.Threads.Stuck.{start}
use sleepyservice.Proxy.Main.{
  Server, Libraries, new_k8s_client, make_servers, listen_all, Main, boot, has_idle_monitor,
}
use sleepyservice.Proxy.Main.Room.{HasRoom}
use sleepyservice.Proxy.Main.Servers.{
  Serves, UrlFailed, ListenFailed, Listens, make_servers_lem, listen_all_lem,
}

module _ {RestConfig Clientset DynamicClient : Type 0}
    (libraries : Libraries RestConfig Clientset DynamicClient) where
  -- What runs is the proxy of the service, on the cluster's API.
  pub record Runs (hs : SleepyService) (app : Component) (cnpg : Option Component) (now : ℤ)
      (first : Clientset × DynamicClient → Result ServiceState) (m : Main libraries) : Type 0 where
    pub rest_config : RestConfig
    pub in_cluster : libraries.in_cluster_config ≡ ok rest_config
    pub clientset : libraries.new_clientset rest_config ≡ ok m.k8s.0
    pub dynamic_client : libraries.new_dynamic_client rest_config ≡ ok m.k8s.1
    pub config : m.config ≡ configured hs app cnpg
    pub system : m.system ≡ start now (first m.k8s)
    pub idle_monitor : m.idle_monitor ≡ ltb_ℤ (pos 0) hs.spec.idle_timeout
    pub servers :
        Serves
          (backend_name hs app <> "." <> hs.namespace)
          hs.spec.wake_timeout
          (port_numbers (build_backend_service_ports hs))
          m.servers
    pub listens : Listens libraries m.servers

  -- The step of the set-up that failed, with the message that it ends the process with.
  pub data SetupFailed (hs : SleepyService) (app : Component) (e : Error) : Type 0 where
    templates :
        (cause : Error)
        → libraries.templates ≡ err cause
        → e ≡ wrapped "Failed to parse templates: " cause
        → SetupFailed hs app e
    k8s_client :
        (cause : Error)
        → new_k8s_client libraries ≡ err cause
        → e ≡ wrapped "Failed to create Kubernetes client: " cause
        → SetupFailed hs app e
    backend_url :
        UrlFailed libraries
          (backend_name hs app <> "." <> hs.namespace)
          (port_numbers (build_backend_service_ports hs))
          e
        → SetupFailed hs app e
    server_failed :
        (servers : List Server)
        → Serves
            (backend_name hs app <> "." <> hs.namespace)
            hs.spec.wake_timeout
            (port_numbers (build_backend_service_ports hs))
            servers
        → ListenFailed libraries servers e
        → SetupFailed hs app e

  -- How the client was made.
  abbrev Made : Clientset × DynamicClient → Type 0
  Made k8s =
      (rest_config : RestConfig) × (libraries.in_cluster_config ≡ ok rest_config)
      × (libraries.new_clientset rest_config ≡ ok k8s.0)
      × (libraries.new_dynamic_client rest_config ≡ ok k8s.1)

  new_k8s_client_lem : Ensures Made (λ e. Unit {0}) (new_k8s_client libraries)
  unfolding new_k8s_client
  new_k8s_client_lem = by_config libraries.in_cluster_config refl
    where
      by_dynamic :
          (rest_config : RestConfig) (clientset : Clientset)
          → libraries.in_cluster_config ≡ ok rest_config
          → libraries.new_clientset rest_config ≡ ok clientset
          → (d : Result DynamicClient) → libraries.new_dynamic_client rest_config ≡ d
          → Ensures Made
              (λ e. Unit {0})
              (wrap "failed to create dynamic client: " d >>= λ dynamic_client.
                ok (clientset, dynamic_client))
      by_dynamic rest_config clientset h k (ok d) e = (rest_config, h, k, e)
      by_dynamic rest_config clientset h k (err x) e = tt

      by_clientset :
          (rest_config : RestConfig)
          → libraries.in_cluster_config ≡ ok rest_config
          → (c : Result Clientset) → libraries.new_clientset rest_config ≡ c
          → Ensures Made
              (λ e. Unit {0})
              (wrap "failed to create clientset: " c >>= λ clientset.
                (wrap "failed to create dynamic client: " (libraries.new_dynamic_client rest_config)
                  >>= λ dynamic_client. ok (clientset, dynamic_client)))
      by_clientset rest_config h (ok c) e =
          by_dynamic rest_config c h e (libraries.new_dynamic_client rest_config) refl
      by_clientset rest_config h (err x) e = tt

      by_config :
          (r : Result RestConfig)
          → libraries.in_cluster_config ≡ r
          → Ensures Made
              (λ e. Unit {0})
              (wrap "failed to get in-cluster config: " r >>= λ rest_config.
                (wrap "failed to create clientset: " (libraries.new_clientset rest_config)
                  >>= λ clientset.
                      (wrap "failed to create dynamic client: "
                          (libraries.new_dynamic_client rest_config)
                        >>= λ dynamic_client. ok (clientset, dynamic_client))))
      by_config (ok c) e = by_clientset c e (libraries.new_clientset c) refl
      by_config (err x) e = tt

  module _ (hs : SleepyService) (app : Component) (cnpg : Option Component)
      (room : HasRoom hs.spec.wake_timeout) (now : ℤ)
      (first : Clientset × DynamicClient → Result ServiceState) where
    abbrev made_of : Clientset × DynamicClient → List Server → Main libraries
    made_of k8s servers = record {
      config = configured hs app cnpg;
      k8s = k8s;
      system = start now (first k8s);
      idle_monitor = ltb_ℤ (pos 0) hs.spec.idle_timeout;
      servers = servers;
    }

    -- Whether the set-up ends well, from some step on.
    abbrev Ends : Result (Main libraries) → Type 0
    Ends = Ensures (Runs hs app cnpg now first) (SetupFailed hs app)

    listen_all-Ends :
        (k8s : Clientset × DynamicClient)
        → Made k8s
        → (servers : List Server)
        → Serves
            (backend_name hs app <> "." <> hs.namespace)
            hs.spec.wake_timeout
            (port_numbers (build_backend_service_ports hs))
            servers
        → Ends (listen_all libraries servers >>= λ u. ok (made_of k8s servers))
    listen_all-Ends k8s made servers serves =
        Ensures-bind (λ u. Listens libraries servers) (ListenFailed libraries servers)
          (Runs hs app cnpg now first) (SetupFailed hs app) (listen_all libraries servers)
          (λ u. ok (made_of k8s servers))
          (λ u listens. record {
            rest_config = made.0;
            in_cluster = made.1;
            clientset = made.2;
            dynamic_client = made.3;
            config = refl;
            system = refl;
            idle_monitor = refl;
            servers = serves;
            listens = listens;
          })
          (λ e failed. server_failed servers serves failed) (listen_all_lem libraries servers)

    make_servers-Ends :
        (k8s : Clientset × DynamicClient)
        → Made k8s
        → Ends (
            make_servers libraries
              (configured hs app cnpg)
              (port_numbers (build_backend_service_ports hs))
            >>= λ servers. (listen_all libraries servers >>= λ u. ok (made_of k8s servers)))
    make_servers-Ends k8s made =
        Ensures-bind _ _ (Runs hs app cnpg now first) (SetupFailed hs app)
          (make_servers libraries (configured hs app cnpg)
            (port_numbers (build_backend_service_ports hs)))
          (λ servers. listen_all libraries servers >>= λ u. ok (made_of k8s servers))
          (listen_all-Ends k8s made) (λ e failed. backend_url failed)
          (make_servers_lem libraries (configured hs app cnpg)
            (port_numbers (build_backend_service_ports hs)) room)

    k8s_client-Ends :
        (r : Result (Clientset × DynamicClient))
        → new_k8s_client libraries ≡ r
        → Ensures Made (λ e. Unit {0}) r
        → Ends (
            wrap "Failed to create Kubernetes client: " r >>= λ k8s.
            (make_servers libraries
                (configured hs app cnpg)
                (port_numbers (build_backend_service_ports hs))
              >>= λ servers. (listen_all libraries servers >>= λ u. ok (made_of k8s servers))))
    k8s_client-Ends (ok k8s) e made = make_servers-Ends k8s made
    k8s_client-Ends (err x) e made = k8s_client x e refl

    templates-Ends :
        (r : Result (Unit {0}))
        → libraries.templates ≡ r
        → (rest : Result (Main libraries)) → Ends rest
        → Ends (wrap "Failed to parse templates: " r >>= λ u. rest)
    templates-Ends (ok u) e rest h = h
    templates-Ends (err x) e rest h = templates x e refl

  -- In an environment with the variables that the controller makes for a service with an application
  -- component, where its values are of their sizes, and the wake timeout leaves room for half a
  -- minute: the proxy fails to start only if the templates do not parse, the Kubernetes client cannot
  -- be made, the URL of the backend at one of its ports does not parse, or one of its servers fails
  -- to listen, and it ends with that step's message and cause. Otherwise it runs with the
  -- configuration of the service and the client of the cluster that it is in, in the state of its
  -- first check, with the idle monitor exactly if the idle timeout is positive, and with one server
  -- for each port of the backend Service, in their order, which listens on that port, forwards to it
  -- on the backend's host, and whose write timeout is longer than the wake timeout.
  pub boot-build_proxy_env :
      (getenv : String → String) (show : ℤ → String) (parse : String → Option ℤ)
      → IsDuration show parse
      → (hs : SleepyService) (app : Component) (cnpg : Option Component) → IsConfigurable hs app
      → HasRoom hs.spec.wake_timeout
      → find_components hs.spec.components (record { app = none; cnpg = none })
        ≡ record { app = some app; cnpg = cnpg }
      → IsEnvironment getenv (build_proxy_env show hs)
      → (now : ℤ) (first : Clientset × DynamicClient → Result ServiceState)
      → Ensures
          (Runs hs app cnpg now first)
          (SetupFailed hs app)
          (boot libraries getenv parse now first)
  unfolding boot has_idle_monitor
  boot-build_proxy_env getenv show parse durations hs app cnpg configurable room found env now
        first =
      rw
        (load_config-build_proxy_env getenv show parse durations hs app cnpg configurable found env)
        (templates-Ends hs app cnpg room now first libraries.templates refl _ (
          k8s_client-Ends hs app cnpg room now first (new_k8s_client libraries) refl
            new_k8s_client_lem))
