-- ===== src/Manager.antt =====
-- cmd/manager/main.go: the TLS options and certificates of the manager's two servers, the defaults of
-- its flags, and the image that the controller gives to proxies.
-- `Watcher`, `new_watcher` and `join_path` stand for `certwatcher` and `filepath.Join`, and `spare` for
-- the room that `append` leaves in a new array. The manager of controller-runtime, which gets what is
-- made here, is left out.
pub mod Slices
pub mod Secured
use mathlib.Core.Option
use sleepyservice.Prelude.{
  ℕ, String, Bool, true, false, Option, none, some, List, [], ◌∷◌, if◌then◌else◌, ite,
  string_discrete, ◌++◌,
}
use sleepyservice.Errors.{Error, Result, ok, err, ◌>>=◌}
use sleepyservice.Manager.Slices.{Slice, nil_slice, Memory, empty_memory, append, elements}

-- `config`, without the options of the logger.
pub record ManagerConfig : Type 0 where
  pub metrics_addr : String
  pub metrics_cert_path : String
  pub metrics_cert_name : String
  pub metrics_cert_key : String
  pub webhook_cert_path : String
  pub webhook_cert_name : String
  pub webhook_cert_key : String
  pub probe_addr : String
  pub enable_leader_election : Bool
  pub secure_metrics : Bool
  pub enable_http2 : Bool

-- What `parseFlags` returns when no flag is given.
abbrev pub default_flags : ManagerConfig
default_flags = record {
  metrics_addr = "0";
  metrics_cert_path = "";
  metrics_cert_name = "tls.crt";
  metrics_cert_key = "tls.key";
  webhook_cert_path = "";
  webhook_cert_name = "tls.crt";
  webhook_cert_key = "tls.key";
  probe_addr = ":8081";
  enable_leader_election = false;
  secure_metrics = true;
  enable_http2 = false;
}

-- `OPERATOR_IMAGE`, or a default.
unfoldable pub operator_image : (String → String) → String
operator_image getenv =
    ite (string_discrete (getenv "OPERATOR_IMAGE") "") "controller:latest" (getenv "OPERATOR_IMAGE")

-- The functions on a `tls.Config` that the code makes: `disableHTTP2`, and those that set
-- `GetCertificate` to that of a watcher.
pub data TlsOption (Watcher : Type 0) : Type 0 where
  disable_http2 : TlsOption Watcher
  certificate_of : Watcher → TlsOption Watcher

pub record MetricsOptions : Type 0 where
  pub bind_address : String
  pub secure_serving : Bool
  pub filtered : Bool
  pub tls_opts : Slice

module _ {Watcher : Type 0} (spare : ℕ → ℕ) (new_watcher : String → String → Result Watcher)
    (join_path : String → String → String) where
  unfoldable pub setup_tls_options :
      Bool → Memory (TlsOption Watcher) → Slice × Memory (TlsOption Watcher)
  unfolding append
  setup_tls_options true m = (nil_slice, m)
  setup_tls_options false m = append spare nil_slice disable_http2 m

  -- No watcher without a path; an error ends the process.
  unfoldable pub setup_cert_watcher : (path name key : String) → Result (Option Watcher)
  setup_cert_watcher path name key =
      ite (string_discrete path "") (ok none)
        (new_watcher (join_path path name) (join_path path key) >>= λ w. ok (some w))

  -- An option for the certificate of the watcher, if there is one.
  unfoldable pub with_certificate :
      Slice → Option Watcher → Memory (TlsOption Watcher) → Slice × Memory (TlsOption Watcher)
  unfolding append
  with_certificate opts none m = (opts, m)
  with_certificate opts (some w) m = append spare opts (certificate_of w) m

  unfoldable pub metrics_options : ManagerConfig → Slice → MetricsOptions
  metrics_options cfg opts = record {
    bind_address = cfg.metrics_addr;
    secure_serving = cfg.secure_metrics;
    filtered = cfg.secure_metrics;
    tls_opts = opts;
  }

  -- The watchers that the manager runs, that of the metrics first.
  abbrev pub watchers_of : Option Watcher → Option Watcher → List Watcher
  watchers_of none none = []
  watchers_of none (some w) = w ∷ []
  watchers_of (some w) none = w ∷ []
  watchers_of (some w) (some w') = w ∷ w' ∷ []

  pub record Setup : Type 0 where
    pub webhook_opts : Slice
    pub metrics : MetricsOptions
    pub watchers : List Watcher
    pub memory : Memory (TlsOption Watcher)

  -- The slices of `main`: both servers append to that of `setupTLSOptions`, the webhook's first.
  unfoldable pub setup_with : ManagerConfig → Option Watcher → Option Watcher → Setup
  unfolding setup_tls_options with_certificate metrics_options
  setup_with cfg webhook metrics =
      let (tls_opts, m) = setup_tls_options cfg.enable_http2 empty_memory in
      let (webhook_opts, m') = with_certificate tls_opts webhook m in
      let (metrics_opts, m'') = with_certificate tls_opts metrics m' in
      record {
        webhook_opts = webhook_opts;
        metrics = metrics_options cfg metrics_opts;
        watchers = watchers_of metrics webhook;
        memory = m'';
      }

  unfoldable pub setup : ManagerConfig → Result Setup
  unfolding setup_cert_watcher setup_with
  setup cfg = do
    webhook ← setup_cert_watcher cfg.webhook_cert_path cfg.webhook_cert_name cfg.webhook_cert_key
    metrics ← setup_cert_watcher cfg.metrics_cert_path cfg.metrics_cert_name cfg.metrics_cert_key
    ok (setup_with cfg webhook metrics)
