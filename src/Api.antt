-- ===== src/Api.antt =====
-- api/v1alpha1/sleepyservice_types.go: the SleepyService resource.
-- A pointer is an `Option`, an `int32`, an `int64` or a duration in nanoseconds is a `ℤ`, a
-- `metav1.Time` is its instant in nanoseconds. The empty string stands for itself.
use sleepyservice.Prelude.{String, Bool, true, false, Option, List, ℤ}

-- The values that the markers `validation:Enum` admit, and the empty string, `unset`.
pub data ServiceState : Type 0 where
  unset sleeping waking awake hibernating error : ServiceState

-- The values that the marker `validation:Enum` of `Component.Type` admits.
pub data ComponentType : Type 0 where
  deployment stateful_set cnpg_cluster : ComponentType

pub record ResourceRef : Type 0 where
  pub name : String
  pub namespace : String

pub record Component : Type 0 where
  pub name : String
  pub type : ComponentType
  pub ref : ResourceRef
  pub replicas : Option ℤ
  pub depends_on : List String

pub record ComponentStatus : Type 0 where
  pub name : String
  pub ready : Bool
  pub message : String

-- `intstr.IntOrString`: its two value fields, of which the other one has its zero value.
pub record IntOrString : Type 0 where
  pub int_val : ℤ
  pub str_val : String

pub record ServicePort : Type 0 where
  pub name : String
  pub protocol : String
  pub port : ℤ
  pub target_port : IntOrString
  pub node_port : ℤ

pub record BackendServiceSpec : Type 0 where
  pub enabled : Option Bool
  pub type : String
  pub ports : List ServicePort
  pub cluster_ip : String
  pub external_ips : List String
  pub load_balancer_ip : String
  pub session_affinity : String
  pub annotations : List (String × String)

pub record SleepyServiceSpec : Type 0 where
  pub debug : Option Bool
  pub backend_service : Option BackendServiceSpec
  pub wake_timeout : ℤ
  pub idle_timeout : ℤ
  pub components : List Component

pub record SleepyServiceStatus : Type 0 where
  pub desired_state : ServiceState
  pub state : ServiceState
  pub last_transition : Option ℤ
  pub last_activity : Option ℤ
  pub components : List ComponentStatus
  pub proxy_deployment : String
  pub backend_service : String

-- Of the object's metadata, the fields that the controller reads or writes.
pub record SleepyService : Type 0 where
  pub name : String
  pub namespace : String
  pub finalizers : List String
  pub deletion_timestamp : Option ℤ
  pub spec : SleepyServiceSpec
  pub status : SleepyServiceStatus

pub ServiceState-discrete : Discrete ServiceState
ServiceState-discrete = hlevel

abbrev pub is_awake : ServiceState → Bool
is_awake awake = true
is_awake _ = false

abbrev pub is_waking : ServiceState → Bool
is_waking waking = true
is_waking _ = false

abbrev pub is_sleeping : ServiceState → Bool
is_sleeping sleeping = true
is_sleeping _ = false

abbrev pub is_unset : ServiceState → Bool
is_unset unset = true
is_unset _ = false
