-- ===== src/Controller/Backend.antt =====
-- The managed backend Service: `ensureBackendService` and the functions that it calls.
pub mod Agreement
use sleepyservice.Prelude.{
  String, Bool, true, false, not, Option, none, some, List, [], ◌∷◌, if◌then◌else◌, ite,
  string_discrete, ◌<>◌,
}
use sleepyservice.Errors.{Error, text, Result, ok, err}
use sleepyservice.Errors
use sleepyservice.Api.{
  SleepyService, BackendServiceSpec, Component, ComponentType, deployment, stateful_set,
  cnpg_cluster,
}
use sleepyservice.Exec.{Exec, pure, raise, lift, wrap_error, ◌>>=◌}
use sleepyservice.Cluster.{Client, Ctx, call, Service}
use sleepyservice.Controller.Workloads.{insert}
use sleepyservice.Controller.Scale.{namespace_of}
use sleepyservice.Controller.Ports.{build_backend_service_ports}

abbrev is_false : Option Bool → Bool
is_false none = false
is_false (some b) = not b

unfoldable pub is_backend_service_disabled : SleepyService → Bool
is_backend_service_disabled hs = elim hs.spec.backend_service [
  | none ↦ false
  | some backend ↦ is_false backend.enabled
]

abbrev pub is_app : ComponentType → Bool
is_app deployment = true
is_app stateful_set = true
is_app cnpg_cluster = false

-- The loop of `findAppComponent`: the last match wins.
unfoldable pub last_app : List Component → Option Component → Option Component
last_app [] app = app
last_app (comp ∷ components) app = last_app components (if is_app comp.type then some comp else app)

unfoldable pub find_app_component : SleepyService → Result Component
unfolding last_app
find_app_component hs = elim (last_app hs.spec.components none) [
  | none ↦ err (text "no Deployment or StatefulSet component found")
  | some comp ↦ ok comp
]

-- `s` if it is not empty, else `t`.
abbrev pub or_else : String → String → String
or_else s t = ite (string_discrete s "") t s

unfoldable pub get_backend_service_type : SleepyService → String
get_backend_service_type hs = elim hs.spec.backend_service [
  | none ↦ "ClusterIP"
  | some backend ↦ or_else backend.type "ClusterIP"
]

abbrev list_or : List String → List String → List String
list_or [] old = old
list_or (x ∷ xs) old = x ∷ xs

unfoldable pub apply_optional_service_fields : Service → BackendServiceSpec → Service
apply_optional_service_fields svc backend = record svc {
  cluster_ip = or_else backend.cluster_ip svc.cluster_ip;
  external_ips = list_or backend.external_ips svc.external_ips;
  load_balancer_ip = or_else backend.load_balancer_ip svc.load_balancer_ip;
  session_affinity = or_else backend.session_affinity svc.session_affinity;
}

-- The loop over a map of annotations, its keys in the order that the list gives.
unfoldable pub overlay : List (String × String) → List (String × String) → List (String × String)
overlay [] m = m
overlay ((k, v) ∷ given) m = overlay given (insert k v m)

unfoldable pub configure_backend_service_annotations : Service → SleepyService → Service
unfolding overlay
configure_backend_service_annotations svc hs = elim hs.spec.backend_service [
  | none ↦ svc
  | some backend ↦ record svc {
    meta = record svc.meta { annotations = overlay backend.annotations svc.meta.annotations };
  }
]

unfoldable pub configure_backend_service_spec :
    Service → SleepyService → List (String × String) → Service
unfolding get_backend_service_type build_backend_service_ports apply_optional_service_fields
configure_backend_service_spec svc hs pod_selector =
    let svc' = record svc {
      selector = pod_selector;
      type = get_backend_service_type hs;
      ports = build_backend_service_ports hs;
    } in
    elim hs.spec.backend_service [
      | none ↦ svc'
      | some backend ↦ apply_optional_service_fields svc' backend
    ]

module _ {W : Type 0} (client : Client W) where
  unfoldable pub get_deployment_pod_selector :
      String → String → Exec (Ctx W) (List (String × String))
  get_deployment_pod_selector namespace name = do
    deploy ← wrap_error "failed to get Deployment: " (call (client.get_deployment namespace name))
    pure deploy.match_labels

  unfoldable pub get_stateful_set_pod_selector :
      String → String → Exec (Ctx W) (List (String × String))
  get_stateful_set_pod_selector namespace name = do
    sts ← wrap_error "failed to get StatefulSet: " (call (client.get_stateful_set namespace name))
    pure sts.match_labels

  abbrev is_deployment : ComponentType → Bool
  is_deployment deployment = true
  is_deployment _ = false

  unfoldable pub non_empty : List (String × String) → Exec (Ctx W) (List (String × String))
  non_empty [] = raise (text "no pod selector labels found on component")
  non_empty (l ∷ labels) = pure (l ∷ labels)

  unfoldable pub get_pod_selector :
      SleepyService → Component → Exec (Ctx W) (List (String × String))
  unfolding non_empty
  get_pod_selector hs comp = do
    labels ←
        (if is_deployment comp.type
          then get_deployment_pod_selector (namespace_of hs comp) comp.ref.name
          else get_stateful_set_pod_selector (namespace_of hs comp) comp.ref.name)
    non_empty labels

  -- The function that `CreateOrUpdate` applies to the object.
  unfoldable pub configure_backend_service :
      SleepyService → List (String × String) → Service → Result Service
  unfolding configure_backend_service_annotations configure_backend_service_spec
  configure_backend_service hs pod_selector svc =
      Errors.◌>>=◌ (client.set_controller_reference hs svc.meta) λ meta.
        let svc' = configure_backend_service_annotations (record svc { meta = meta }) hs in
        ok (configure_backend_service_spec svc' hs pod_selector)

  unfoldable pub create_backend_service : SleepyService → Exec (Ctx W) (Unit {0})
  unfolding get_pod_selector
  create_backend_service hs = do
    comp ← lift (find_app_component hs)
    pod_selector ← get_pod_selector hs comp
    wrap_error "failed to create/update backend Service: " (
        call (
          client.create_or_update_service hs.namespace (hs.name <> "-actual")
            (configure_backend_service hs pod_selector)))

  unfoldable pub ensure_backend_service : SleepyService → Exec (Ctx W) (Unit {0})
  ensure_backend_service hs =
      if is_backend_service_disabled hs then pure tt else create_backend_service hs
