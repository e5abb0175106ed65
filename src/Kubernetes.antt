-- ===== src/Kubernetes.antt =====
-- internal/proxy/kubernetes.go: the calls of the API that the proxy makes.
-- `client-go` is a parameter. A ticker and a context are the sequence of events that the `select`
-- of a waiting loop takes.
pub mod Waiting
use sleepyservice.Prelude.{
  ℕ, ◌+◌, ◌*◌, ◌/◌, ◌≡◌, String, Bool, true, false, not, ◌&&◌, Option, none, some, List, [], ◌∷◌,
  if◌then◌else◌, ite, string_discrete, ltb, length, ◌<>◌, decimal, ℤ, pos, ltb_ℤ,
}
use mathlib.Core.Option
use sleepyservice.Errors.{Error, text, Result, ok, err}
use sleepyservice.Api.{
  SleepyService, ComponentStatus, ServiceState, unset, sleeping, waking, awake, hibernating, error,
  is_awake, is_unset,
}
use sleepyservice.Exec.{Exec, pure, raise, wrap_error, ◌>>=◌, ◌>>◌}
use sleepyservice.Cluster.{Workload, CnpgCluster}
use sleepyservice.Controller.Workloads.{lookup, delete, insert, is_on, hibernation}

-- The scale subresource of a Deployment.
pub record Scale : Type 0 where
  pub spec_replicas : ℤ

-- The API as the proxy meets it. The unstructured SleepyService is read as the typed one.
pub record Api (W : Type 0) : Type 0 where
  pub get_deployment : (namespace name : String) → Exec W Workload
  pub get_scale : (namespace name : String) → Exec W Scale
  pub update_scale : (namespace name : String) → Scale → Exec W (Unit {0})
  pub get_cluster : (namespace name : String) → Exec W CnpgCluster
  pub update_cluster : (namespace : String) → CnpgCluster → Exec W (Unit {0})
  pub get_sleepy_service : (namespace name : String) → Exec W SleepyService
  pub update_status : (namespace : String) → SleepyService → Exec W (Unit {0})
  -- `Format(time.RFC3339)` of a time, as the API server reads it back.
  pub rfc3339 : ℤ → ℤ

abbrev has_key : Option String → Bool
has_key none = false
has_key (some v) = true

module _ {W : Type 0} (api : Api W) (namespace name : String) where
  unfoldable pub is_deployment_ready : Exec W Bool
  is_deployment_ready = do
    deploy ← api.get_deployment namespace name
    pure (ltb_ℤ (pos 0) deploy.ready_replicas)

  unfoldable pub scale_deployment : ℤ → Exec W (Unit {0})
  scale_deployment replicas = do
    scale ← wrap_error "failed to get scale: " (api.get_scale namespace name)
    wrap_error "failed to update scale: "
        (api.update_scale namespace name (record scale { spec_replicas = replicas }))

  abbrev hibernated : Option (List (String × String)) → Bool
  hibernated none = false
  hibernated (some annotations) = is_on annotations

  unfoldable pub is_cnpg_hibernated : Exec W Bool
  is_cnpg_hibernated = do
    cluster ← api.get_cluster namespace name
    pure (hibernated cluster.annotations)

  -- The annotation is removed whatever its value is.
  unfoldable pub wake_annotated : CnpgCluster → Option (List (String × String)) → Exec W (Unit {0})
  wake_annotated cluster none = pure tt
  wake_annotated cluster (some annotations) =
      if has_key (lookup hibernation annotations)
      then wrap_error "failed to update cluster: " (
          api.update_cluster namespace
            (record cluster { annotations = some (delete hibernation annotations) }))
      else pure tt

  unfoldable pub wake_cnpg_cluster : Exec W (Unit {0})
  unfolding wake_annotated
  wake_cnpg_cluster = do
    cluster ← wrap_error "failed to get cluster: " (api.get_cluster namespace name)
    wake_annotated cluster cluster.annotations

  unfoldable pub hibernate_cnpg_cluster : Exec W (Unit {0})
  hibernate_cnpg_cluster = do
    cluster ← wrap_error "failed to get cluster: " (api.get_cluster namespace name)
    wrap_error "failed to update cluster: " (
        api.update_cluster namespace (record cluster {
          annotations = some (insert hibernation "on" (Option.get_or cluster.annotations []));
        }))

  abbrev activity_or : Option ℤ → Option ℤ → Option ℤ
  activity_or none old = old
  activity_or (some t) old = some (api.rfc3339 t)

  -- `status["desiredState"]` and, if one is given, `status["lastActivity"]`.
  unfoldable pub request_state : ServiceState → Option ℤ → SleepyService → SleepyService
  request_state desired activity hs = record hs {
    status = record hs.status {
      desired_state = desired;
      last_activity = activity_or activity hs.status.last_activity;
    };
  }

  unfoldable pub update_sleepy_service_status : ServiceState → Option ℤ → Exec W (Unit {0})
  unfolding request_state
  update_sleepy_service_status desired activity = do
    hs ← wrap_error "failed to get SleepyService: " (api.get_sleepy_service namespace name)
    wrap_error "failed to update status: "
        (api.update_status namespace (request_state desired activity hs))

  -- The key `state` is not found if it was never set.
  unfoldable pub get_sleepy_service_state : Exec W ServiceState
  get_sleepy_service_state = do
    hs ← wrap_error "failed to get SleepyService: " (api.get_sleepy_service namespace name)
    if is_unset hs.status.state
        then raise (text "state not found in status")
        else pure hs.status.state
