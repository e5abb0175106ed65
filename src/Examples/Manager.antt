-- ===== src/Examples/Manager.antt =====
-- The manager with a certificate for each of its servers.
use sleepyservice.Prelude.{String, ◌<>◌, ℕ}
use sleepyservice.Errors.{Result, ok}
use sleepyservice.Manager.{ManagerConfig, default_flags}

abbrev flags : ManagerConfig
flags = record default_flags { metrics_cert_path = "/metrics"; webhook_cert_path = "/webhook" }

-- A watcher is the path of its certificate.
abbrev new_watcher : String → String → Result String
new_watcher cert key = ok cert

abbrev join_path : String → String → String
join_path directory file = directory <> "/" <> file

abbrev no_room : ℕ → ℕ
no_room n = 0
