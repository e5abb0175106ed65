-- ===== src/Examples/Waiting.antt =====
-- The waits for a Deployment and for a CNPG cluster on concrete answers.
use sleepyservice.Prelude.{◌≡◌, none, some, List, [], ◌∷◌, ◌↔◌, ℤ, pos}
use sleepyservice.Errors.{ok, err, text}
use sleepyservice.Cluster.{Workload, CnpgCluster}
use sleepyservice.Kubernetes.Waiting.{Event, done, tick}
use sleepyservice.Kubernetes.Waiting.Loop.{Sees}
use sleepyservice.Kubernetes.Waiting.Ready.{wait_for_deployment_ready, wait_for_cnpg_ready}
use sleepyservice.Kubernetes.Waiting.Ready.Ends.{
  IsReady, IsHealthyStatus, wait_for_deployment_ready-ok, wait_for_cnpg_ready-ok,
}

abbrev deploy : ℤ → Workload
deploy ready = record {
  namespace = "default";
  name = "api";
  replicas = some (pos 3);
  total_replicas = pos 3;
  ready_replicas = ready;
  match_labels = [];
}

-- One of three replicas is ready, then an error, then all three are.
abbrev deployments : List (Event Workload)
deployments =
    tick 1 (ok (deploy (pos 1)))
    ∷ tick 2 (err (text "timeout"))
    ∷ tick 3 (ok (deploy (pos 3)))
    ∷ done (text "canceled")
    ∷ []

wait_for_deployment_ready-ok_example :
    ((wait_for_deployment_ready deployments).result ≡ some (ok tt)) ↔ Sees IsReady deployments
wait_for_deployment_ready-ok_example = wait_for_deployment_ready-ok deployments

-- A cluster with no status, and then a healthy one.
abbrev clusters : List (Event CnpgCluster)
clusters =
    tick 1 (ok (record { namespace = "default"; name = "pg"; annotations = none; status = none }))
    ∷ tick 2 (
        ok (record {
          namespace = "default";
          name = "pg";
          annotations = none;
          status = some (record {
            phase = "Cluster in healthy state";
            ready_instances = pos 1;
            instances = pos 2;
          });
        }))
    ∷ []

wait_for_cnpg_ready-ok_example :
    ((wait_for_cnpg_ready clusters).result ≡ some (ok tt))
    ↔ Sees (λ cluster. IsHealthyStatus cluster.status) clusters
wait_for_cnpg_ready-ok_example = wait_for_cnpg_ready-ok clusters
