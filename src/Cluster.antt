-- ===== src/Cluster.antt =====
-- The Kubernetes API as the controller meets it: `client.Client` of controller-runtime, which is no
-- part of the repository, is a parameter. The state `W` of everything outside the controller, the
-- clock included, goes into each call and comes out of it, changed in any way.
use sleepyservice.Prelude.{Bool, String, Option, List, ℤ}
use sleepyservice.Errors.{Result, ok}
use sleepyservice.Api.{SleepyService, ServicePort}

-- Of a Deployment or a StatefulSet, the fields that the code reads or writes.
pub record Workload : Type 0 where
  pub namespace : String
  pub name : String
  pub replicas : Option ℤ
  pub total_replicas : ℤ
  pub ready_replicas : ℤ
  pub match_labels : List (String × String)

-- The map `status` of a CNPG cluster, with the zero values at missing keys.
pub record ClusterStatus : Type 0 where
  pub phase : String
  pub ready_instances : ℤ
  pub instances : ℤ

-- Of an unstructured CNPG cluster: a map of annotations may be nil.
pub record CnpgCluster : Type 0 where
  pub namespace : String
  pub name : String
  pub annotations : Option (List (String × String))
  pub status : Option ClusterStatus

-- Of the metadata of an owned object, the fields that the code reads or writes, and the owners
-- that `controllerutil.SetControllerReference` writes.
pub record ObjectMeta : Type 0 where
  pub namespace : String
  pub name : String
  pub annotations : List (String × String)
  pub owners : List String

pub record ServiceAccount : Type 0 where
  pub meta : ObjectMeta

pub record PolicyRule : Type 0 where
  pub api_groups : List String
  pub resources : List String
  pub verbs : List String

pub record Role : Type 0 where
  pub meta : ObjectMeta
  pub rules : List PolicyRule

pub record RoleRef : Type 0 where
  pub api_group : String
  pub kind : String
  pub name : String

pub record Subject : Type 0 where
  pub kind : String
  pub name : String
  pub namespace : String

pub record RoleBinding : Type 0 where
  pub meta : ObjectMeta
  pub role_ref : RoleRef
  pub subjects : List Subject

-- `corev1.Service`, whose ports have the fields of the API's own `ServicePort`.
pub record Service : Type 0 where
  pub meta : ObjectMeta
  pub selector : List (String × String)
  pub type : String
  pub ports : List ServicePort
  pub cluster_ip : String
  pub external_ips : List String
  pub load_balancer_ip : String
  pub session_affinity : String

pub record ContainerPort : Type 0 where
  pub name : String
  pub container_port : ℤ

-- The Deployment of the proxy: the fields that the code fills in.
pub record ProxyDeployment : Type 0 where
  pub meta : ObjectMeta
  pub replicas : Option ℤ
  pub match_labels : List (String × String)
  pub template_labels : List (String × String)
  pub service_account_name : String
  pub container_name : String
  pub image : String
  pub image_pull_policy : String
  pub command : List String
  pub ports : List ContainerPort
  pub env : List (String × String)
  pub requests : List (String × String)
  pub limits : List (String × String)

-- `controllerutil.CreateOrUpdate`: the object of this namespace and name, or a new one, goes through
-- the function before it is written.
abbrev pub CreateOrUpdate : Type 0 → Type 0 → Type 0
CreateOrUpdate W A = (namespace name : String) → (A → Result A) → W → Result (Unit {0}) × W

-- The client, `time.Now`, and the functions of `controllerutil` that the code calls.
pub record Client (W : Type 0) : Type 0 where
  pub get_deployment : (namespace name : String) → W → Result Workload × W
  pub update_deployment : Workload → W → Result (Unit {0}) × W
  pub get_stateful_set : (namespace name : String) → W → Result Workload × W
  pub update_stateful_set : Workload → W → Result (Unit {0}) × W
  pub get_cluster : (namespace name : String) → W → Result CnpgCluster × W
  pub update_cluster : CnpgCluster → W → Result (Unit {0}) × W
  pub get_service : (namespace name : String) → W → Result SleepyService × W
  pub update_service : SleepyService → W → Result SleepyService × W
  pub update_status : SleepyService → W → Result SleepyService × W
  pub create_or_update_service_account : CreateOrUpdate W ServiceAccount
  pub create_or_update_role : CreateOrUpdate W Role
  pub create_or_update_role_binding : CreateOrUpdate W RoleBinding
  pub create_or_update_service : CreateOrUpdate W Service
  pub create_or_update_deployment : CreateOrUpdate W ProxyDeployment
  pub set_controller_reference : SleepyService → ObjectMeta → Result ObjectMeta
  pub now : W → ℤ × W
  pub contains_finalizer : (name : String) (finalizers : List String) → Bool
  pub add_finalizer : (name : String) (finalizers : List String) → List String
  pub remove_finalizer : (name : String) (finalizers : List String) → List String

-- What one method of the reconciler works on: the object that its caller holds, and the rest.
pub record Ctx (W : Type 0) : Type 0 where
  pub hs : SleepyService
  pub world : W

-- A call of the client.
unfoldable pub call : {W A : Type 0} → (W → Result A × W) → Ctx W → Result A × Ctx W
call f c = let (r, w) = f c.world in (r, record c { world = w })

-- `metav1.Now()`, which cannot fail.
unfoldable pub time_now : {W : Type 0} → Client W → Ctx W → Result ℤ × Ctx W
time_now client c = let (t, w) = client.now c.world in (ok t, record c { world = w })
