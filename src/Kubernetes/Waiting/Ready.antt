-- ===== src/Kubernetes/Waiting/Ready.antt =====
-- `WaitForDeploymentReady` and `WaitForCNPGReady` of internal/proxy/kubernetes.go.
-- A tick has the percentage of the time to wait that has passed, as the floating-point division of
-- the code gives it.
pub mod Ends
use sleepyservice.Prelude.{
  ℕ, zero, suc, ◌+◌, ◌*◌, ◌/◌, ◌≡◌, ◌≤◌, ◌<◌, refl, String, Bool, true, false, not, ◌&&◌, Option,
  none, some, List, ◌↔◌, if◌then◌else◌, ltb, ite, string_discrete, ◌<>◌, decimal, show_ℤ, ℤ, pos,
  negsuc, ltb_ℤ, int32, int64, wrap, arith,
}
use mathlib.Core.Option
use sleepyservice.Errors.{Result, ok}
use sleepyservice.Cluster.{Workload, ClusterStatus, CnpgCluster}
use sleepyservice.Strconv.{negated}
use sleepyservice.Kubernetes.Waiting.{Report, Event, Waited, wait}
use sleepyservice.Kubernetes.Waiting.Loop.{Sees, wait-ok, wait-All}

-- `timeProgress`, at most 95.
abbrev pub capped : ℕ → ℕ
capped time = if ltb 95 time then 95 else time

abbrev pub hundredfold : ℤ → ℤ
hundredfold (pos n) = pos (n * 100)
hundredfold (negsuc n) = negsuc (n * 100 + 99)

-- Division rounds towards zero.
abbrev pub divided : ℤ → ℕ → ℤ
divided (pos n) d = pos (n / d)
divided (negsuc n) d = negated (suc n / d)

-- `ready * 100 / desired` in integers that `convert` cuts to their size, and 0 if nothing is desired.
unfoldable pub percentage : (convert : ℤ → ℤ) → (ready desired : ℤ) → ℤ
percentage convert ready (pos zero) = pos 0
percentage convert ready (pos (suc d)) = divided (convert (hundredfold ready)) (suc d)
percentage convert ready (negsuc d) = pos 0

-- The larger one; the first is not negative.
abbrev pub higher : ℕ → ℤ → ℕ
higher time (pos n) = if ltb time n then n else time
higher time (negsuc n) = time

abbrev pub desired_replicas : Workload → ℤ
desired_replicas deploy = Option.get_or deploy.replicas (pos 1)

unfoldable pub deployment_report : ℕ → Workload → Report
unfolding percentage
deployment_report time deploy = record {
  message =
      "Pods: " <> show_ℤ deploy.ready_replicas <> "/" <> show_ℤ deploy.total_replicas <> " ready";
  progress =
      higher (capped time) (percentage int32 deploy.ready_replicas (desired_replicas deploy));
}

unfoldable pub deployment_look : ℕ → Workload → Option (Report × Bool)
unfolding deployment_report
deployment_look time deploy = some (
  deployment_report time deploy,
  not (ltb_ℤ deploy.ready_replicas (desired_replicas deploy))
      && ltb_ℤ (pos 0) deploy.ready_replicas,
)

unfoldable pub wait_for_deployment_ready : List (Event Workload) → Waited
unfolding deployment_look wait
wait_for_deployment_ready events = wait deployment_look events

unfoldable pub cluster_progress : ℕ → ClusterStatus → Report
unfolding percentage
cluster_progress time status = record {
  message =
      "Database: "
      <> status.phase
      <> " ("
      <> show_ℤ status.ready_instances
      <> "/"
      <> show_ℤ status.instances
      <> " instances)";
  progress = higher (capped time) (percentage int64 status.ready_instances status.instances);
}

-- A cluster with no status is looked at again without a report.
unfoldable pub status_look : ℕ → Option ClusterStatus → Option (Report × Bool)
unfolding cluster_progress
status_look time none = none
status_look time (some status) = some (
  cluster_progress time status,
  ite (string_discrete status.phase "Cluster in healthy state")
      (ltb_ℤ (pos 0) status.ready_instances) false,
)

unfoldable pub cluster_look : ℕ → CnpgCluster → Option (Report × Bool)
unfolding status_look
cluster_look time cluster = status_look time cluster.status

unfoldable pub wait_for_cnpg_ready : List (Event CnpgCluster) → Waited
unfolding cluster_look wait
wait_for_cnpg_ready events = wait cluster_look events
