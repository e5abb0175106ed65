-- ===== src/Proxy/Main/Servers.antt =====
-- The servers of the proxy: what each is for, and how setting them up fails.
use sleepyservice.Prelude.{
  ◌≡◌, refl, sym, subst, String, true, List, [], ◌∷◌, All, ◌⊎◌, inl, inr, ◌<>◌, ℤ, pos, ◌+ℤ◌, ltb_ℤ,
  show_ℤ,
}
use sleepyservice.Errors.{Error, wrapped, Result, ok, err, Ensures, ◌>>=◌}
use sleepyservice.Errors.{wrap}
use sleepyservice.Proxy.Config.{Config}
use sleepyservice.Proxy.Main.{Server, server, Libraries, make_servers, listen_all}
use sleepyservice.Proxy.Main.Room.{HasRoom, int64-fits, ltb-half_minute}

-- Each server forwards to its port, and can hold a request for longer than a wake may take.
pub data Serves (host : String) (wake_timeout : ℤ) : List ℤ → List Server → Type 0 where
  no_ports : Serves host wake_timeout [] []
  port :
      (n : ℤ) (ports : List ℤ) (s : Server) (servers : List Server)
      → s.port ≡ n
      → s.addr ≡ ":" <> show_ℤ n
      → s.backend_url ≡ "http://" <> host <> ":" <> show_ℤ n
      → ltb_ℤ wake_timeout s.write_timeout ≡ true
      → Serves host wake_timeout ports servers
      → Serves host wake_timeout (n ∷ ports) (s ∷ servers)

module _ {RestConfig Clientset DynamicClient : Type 0}
    (libraries : Libraries RestConfig Clientset DynamicClient) where
  -- The URL of the backend at one of these ports does not parse.
  abbrev pub UrlFailed : String → List ℤ → Error → Type 0
  UrlFailed host [] e = ⊥
  UrlFailed host (n ∷ ports) e =
      ((cause : Error) × (libraries.parse_url ("http://" <> host <> ":" <> show_ℤ n) ≡ err cause)
        × (e ≡ wrapped ("Invalid backend URL for port " <> show_ℤ n <> ": ") cause))
      ⊎ UrlFailed host ports e

  -- One of these servers fails.
  abbrev pub ListenFailed : List Server → Error → Type 0
  ListenFailed [] e = ⊥
  ListenFailed (s ∷ servers) e =
      ((cause : Error) × (libraries.listen s ≡ err cause)
        × (e ≡ wrapped ("Server error on port " <> show_ℤ s.port <> ": ") cause))
      ⊎ ListenFailed servers e

  -- Every server goes on to listen.
  abbrev pub Listens : List Server → Type 0
  Listens servers = All (λ s. libraries.listen s ≡ ok tt) servers

  pub make_servers_lem :
      (config : Config) (ports : List ℤ)
      → HasRoom config.wake_timeout
      → Ensures
          (Serves config.backend_host config.wake_timeout ports)
          (UrlFailed config.backend_host ports)
          (make_servers libraries config ports)
  unfolding make_servers
  make_servers_lem config [] room = no_ports
  make_servers_lem config (n ∷ ports) room =
      by_url (libraries.parse_url (server config n).backend_url) refl
        (make_servers libraries config ports) (make_servers_lem config ports room)
    where
      added :
          (servers : List Server)
          → Serves config.backend_host config.wake_timeout ports servers
          → Serves config.backend_host config.wake_timeout (n ∷ ports) (server config n ∷ servers)
      added servers serves =
          port n ports (server config n) servers refl refl refl
            (subst (λ z. ltb_ℤ config.wake_timeout z ≡ true)
              (sym (int64-fits (config.wake_timeout +ℤ pos 30_000_000_000) room))
              (ltb-half_minute config.wake_timeout))
            serves

      by_url :
          (r : Result (Unit {0}))
          → libraries.parse_url (server config n).backend_url ≡ r
          → (rest : Result (List Server))
          → Ensures
              (Serves config.backend_host config.wake_timeout ports)
              (UrlFailed config.backend_host ports)
              rest
          → Ensures
              (Serves config.backend_host config.wake_timeout (n ∷ ports))
              (UrlFailed config.backend_host (n ∷ ports))
              (wrap ("Invalid backend URL for port " <> show_ℤ n <> ": ") r >>= λ u.
                (rest >>= λ servers. ok (server config n ∷ servers)))
      by_url (ok u) e (ok servers) h = added servers h
      by_url (ok u) e (err x) h = inr h
      by_url (err cause) e rest h = inl (cause, e, refl)

  pub listen_all_lem :
      (servers : List Server)
      → Ensures (λ u. Listens servers) (ListenFailed servers) (listen_all libraries servers)
  unfolding listen_all
  listen_all_lem [] = tt
  listen_all_lem (s ∷ servers) =
      by_server (libraries.listen s) refl (listen_all libraries servers) (listen_all_lem servers)
    where
      by_server :
          (r : Result (Unit {0}))
          → libraries.listen s ≡ r
          → (rest : Result (Unit {0})) → Ensures (λ u. Listens servers) (ListenFailed servers) rest
          → Ensures
              (λ u. Listens (s ∷ servers))
              (ListenFailed (s ∷ servers))
              (wrap ("Server error on port " <> show_ℤ s.port <> ": ") r >>= λ u. rest)
      by_server (ok u) e (ok v) h = (e, h)
      by_server (ok u) e (err x) h = inr h
      by_server (err cause) e rest h = inl (cause, e, refl)
