-- ===== src/Controller/Scale/Views.antt =====
-- An API that holds what was written, one store for each kind of object.
use sleepyservice.Prelude.{◌∙◌, String, Bool}
use sleepyservice.Errors.{Result}
use sleepyservice.Api.{ComponentType, deployment, stateful_set, cnpg_cluster}
use sleepyservice.Cluster.{Workload, CnpgCluster, Client}
use sleepyservice.Controller.Scale.Store.{IsMap, IsFrame, Rests, Wrote, Wrote-Rests, Wrote-frame}

-- What the API holds of each kind.
pub record Views (W : Type 0) : Type 0 where
  pub deployments : (namespace name : String) → W → Result Workload
  pub stateful_sets : (namespace name : String) → W → Result Workload
  pub clusters : (namespace name : String) → W → Result CnpgCluster

abbrev pub workload_space : Workload → String
workload_space d = d.namespace

abbrev pub workload_name : Workload → String
workload_name d = d.name

abbrev pub cluster_space : CnpgCluster → String
cluster_space d = d.namespace

abbrev pub cluster_name : CnpgCluster → String
cluster_name d = d.name

-- An API that holds what was written, each kind apart from the others.
pub record IsStore {W : Type 0} (client : Client W) (views : Views W) : Type 0 where
  pub deployments :
      IsMap client.get_deployment client.update_deployment views.deployments workload_space
        workload_name
  pub stateful_sets :
      IsMap client.get_stateful_set client.update_stateful_set views.stateful_sets workload_space
        workload_name
  pub clusters :
      IsMap client.get_cluster client.update_cluster views.clusters cluster_space cluster_name
  pub deployment_stateful_set : IsFrame client.update_deployment views.stateful_sets
  pub deployment_cluster : IsFrame client.update_deployment views.clusters
  pub stateful_set_deployment : IsFrame client.update_stateful_set views.deployments
  pub stateful_set_cluster : IsFrame client.update_stateful_set views.clusters
  pub cluster_deployment : IsFrame client.update_cluster views.deployments
  pub cluster_stateful_set : IsFrame client.update_cluster views.stateful_sets

-- A test finds the workloads that need a change, and another one the clusters.
module _ {W : Type 0} (client : Client W) (views : Views W) (store : IsStore client views)
    (needs : Workload → Bool) (needs_cluster : CnpgCluster → Bool) where
  -- The object of this type is there and needs no change.
  abbrev pub IsSettled : ComponentType → (namespace name : String) → W → Type 0
  IsSettled deployment = Rests views.deployments needs
  IsSettled stateful_set = Rests views.stateful_sets needs
  IsSettled cnpg_cluster = Rests views.clusters needs_cluster

  -- What needed no change still needs none.
  abbrev pub Kept : W → W → Type 0
  Kept w v = (t : ComponentType) (ns n : String) → IsSettled t ns n w → IsSettled t ns n v

  pub deployment-Kept : (w v : W) → Wrote client.update_deployment needs w v → Kept w v
  deployment-Kept w v k deployment ns n r =
      Wrote-Rests client.get_deployment client.update_deployment views.deployments workload_space
        workload_name store.deployments needs w v k ns n r
  deployment-Kept w v k stateful_set ns n (a, e, t) = (
    a,
    Wrote-frame client.get_deployment client.update_deployment needs views.stateful_sets
          store.deployment_stateful_set w v k ns n
        ∙ e,
    t,
  )
  deployment-Kept w v k cnpg_cluster ns n (a, e, t) = (
    a,
    Wrote-frame client.get_deployment client.update_deployment needs views.clusters
          store.deployment_cluster w v k ns n
        ∙ e,
    t,
  )

  pub stateful_set-Kept : (w v : W) → Wrote client.update_stateful_set needs w v → Kept w v
  stateful_set-Kept w v k stateful_set ns n r =
      Wrote-Rests client.get_stateful_set client.update_stateful_set views.stateful_sets
        workload_space workload_name store.stateful_sets needs w v k ns n r
  stateful_set-Kept w v k deployment ns n (a, e, t) = (
    a,
    Wrote-frame client.get_stateful_set client.update_stateful_set needs views.deployments
          store.stateful_set_deployment w v k ns n
        ∙ e,
    t,
  )
  stateful_set-Kept w v k cnpg_cluster ns n (a, e, t) = (
    a,
    Wrote-frame client.get_stateful_set client.update_stateful_set needs views.clusters
          store.stateful_set_cluster w v k ns n
        ∙ e,
    t,
  )

  pub cluster-Kept : (w v : W) → Wrote client.update_cluster needs_cluster w v → Kept w v
  cluster-Kept w v k cnpg_cluster ns n r =
      Wrote-Rests client.get_cluster client.update_cluster views.clusters cluster_space cluster_name
        store.clusters needs_cluster w v k ns n r
  cluster-Kept w v k deployment ns n (a, e, t) = (
    a,
    Wrote-frame client.get_cluster client.update_cluster needs_cluster views.deployments
          store.cluster_deployment w v k ns n
        ∙ e,
    t,
  )
  cluster-Kept w v k stateful_set ns n (a, e, t) = (
    a,
    Wrote-frame client.get_cluster client.update_cluster needs_cluster views.stateful_sets
          store.cluster_stateful_set w v k ns n
        ∙ e,
    t,
  )
