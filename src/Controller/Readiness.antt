-- ===== src/Controller/Readiness.antt =====
-- `checkDeploymentReady`, `checkStatefulSetReady` and `checkCNPGReady`.
use sleepyservice.Prelude.{
  String, Bool, true, false, not, ◌&&◌, Option, none, some, if◌then◌else◌, ite, string_discrete,
  ◌<>◌, ℤ, pos, is_zero, ltb_ℤ, show_ℤ,
}
use mathlib.Core.Option
use sleepyservice.Exec.{Exec, pure, ◌>>=◌}
use sleepyservice.Cluster.{Workload, ClusterStatus, CnpgCluster, Client, Ctx, call}
use sleepyservice.Controller.Workloads.{is_on}

-- What a check reports: whether the workload is ready, and a message.
abbrev pub Report : Type 0
Report = Bool × String

abbrev ratio : ℤ → ℤ → String
ratio a b = show_ℤ a <> "/" <> show_ℤ b

-- What `checkDeploymentReady` and `checkStatefulSetReady` make of the object they got.
unfoldable pub workload_report : Workload → Report
workload_report w =
    let desired = Option.get_or w.replicas (pos 1) in
    let shown = ratio w.ready_replicas desired <> " ready" in
    if is_zero desired
    then (false, "Scaled to 0")
    else if not (ltb_ℤ w.ready_replicas desired)
    then (true, shown)
    else (false, shown)

abbrev pub healthy : String
healthy = "Cluster in healthy state"

unfoldable pub status_report : Option ClusterStatus → Report
status_report none = (false, "No status")
status_report (some s) =
    let shown = s.phase <> " (" <> ratio s.ready_instances s.instances <> ")" in
    (ite (string_discrete s.phase healthy) true false && ltb_ℤ (pos 0) s.ready_instances, shown)

-- `annotations != nil && annotations["cnpg.io/hibernation"] == "on"`
unfoldable pub is_hibernated : CnpgCluster → Bool
is_hibernated cluster = elim cluster.annotations [
  | none ↦ false
  | some annotations ↦ is_on annotations
]

unfoldable pub cluster_report : CnpgCluster → Report
unfolding status_report is_hibernated
cluster_report cluster =
    if is_hibernated cluster then (false, "Hibernated") else status_report cluster.status

module _ {W : Type 0} (client : Client W) (namespace name : String) where
  unfoldable pub check_deployment_ready : Exec (Ctx W) Report
  check_deployment_ready = do
    deploy ← call (client.get_deployment namespace name)
    pure (workload_report deploy)

  unfoldable pub check_stateful_set_ready : Exec (Ctx W) Report
  check_stateful_set_ready = do
    sts ← call (client.get_stateful_set namespace name)
    pure (workload_report sts)

  unfoldable pub check_cnpg_ready : Exec (Ctx W) Report
  check_cnpg_ready = do
    cluster ← call (client.get_cluster namespace name)
    pure (cluster_report cluster)
