-- ===== src/Manager/Secured.antt =====
-- The lists of TLS options that the two servers of the manager are given.
use sleepyservice.Prelude.{
  ℕ, zero, suc, ◌≡◌, ◌≢◌, String, Bool, true, false, Option, none, some, List, [], ◌∷◌,
}
use sleepyservice.Errors.{Error, Result, ok, err}
use sleepyservice.Manager.Slices.{elements}
use sleepyservice.Manager.{
  ManagerConfig, TlsOption, disable_http2, certificate_of, watchers_of, Setup, setup_with,
}

-- The options that a server should have.
abbrev pub own_options : {W : Type 0} → Bool → Option W → List (TlsOption W)
own_options true none = []
own_options true (some w) = certificate_of w ∷ []
own_options false none = disable_http2 ∷ []
own_options false (some w) = disable_http2 ∷ certificate_of w ∷ []

-- The options that the webhook server is given, by the room behind the first option: with room, the
-- option for the metrics certificate is written over that for the webhook's.
abbrev pub webhook_options : {W : Type 0} → Bool → ℕ → Option W → Option W → List (TlsOption W)
webhook_options http2 room none metrics = own_options http2 none
webhook_options http2 room (some w) none = own_options http2 (some w)
webhook_options true room (some w) (some w') = own_options true (some w)
webhook_options false zero (some w) (some w') = own_options false (some w)
webhook_options false (suc room) (some w) (some w') = own_options false (some w')

module _ {Watcher : Type 0} (spare : ℕ → ℕ) (new_watcher : String → String → Result Watcher)
    (join_path : String → String → String) where
  abbrev made : ManagerConfig → Option Watcher → Option Watcher → Setup spare new_watcher join_path
  made cfg webhook metrics = setup_with spare new_watcher join_path cfg webhook metrics

  -- The watcher of the files in this directory, if one is given.
  abbrev pub IsWatcher : (path name key : String) → Option Watcher → Type 0
  IsWatcher path name key none = path ≡ ""
  IsWatcher path name key (some w) =
      (path ≢ "") × (new_watcher (join_path path name) (join_path path key) ≡ ok w)

  abbrev pub HasFailed : (path name key : String) → Error → Type 0
  HasFailed path name key e =
      (path ≢ "") × (new_watcher (join_path path name) (join_path path key) ≡ err e)

  -- The set-up that the two watchers make.
  pub record IsSecured (cfg : ManagerConfig) (s : Setup spare new_watcher join_path) : Type 0 where
    pub webhook : Option Watcher
    pub metrics : Option Watcher
    pub webhook_is :
        IsWatcher cfg.webhook_cert_path cfg.webhook_cert_name cfg.webhook_cert_key webhook
    pub metrics_is :
        IsWatcher cfg.metrics_cert_path cfg.metrics_cert_name cfg.metrics_cert_key metrics
    pub webhook_tls :
        elements s.webhook_opts s.memory
        ≡ webhook_options cfg.enable_http2 (spare 0) webhook metrics
    pub metrics_tls : elements s.metrics.tls_opts s.memory ≡ own_options cfg.enable_http2 metrics
    pub filtered : s.metrics.filtered ≡ s.metrics.secure_serving
    pub watchers : s.watchers ≡ watchers_of spare new_watcher join_path metrics webhook
