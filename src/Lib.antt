-- ===== src/Lib.antt =====
-- Sleepyservice: a Kubernetes controller that puts the workloads of a service to sleep and wakes
-- them, and a proxy that stands before the service, asks for the wake, and meanwhile holds or
-- answers the requests.
--
-- The controller (internal/controller/sleepyservice_controller.go) reads a SleepyService, keeps the
-- proxy's Deployment, ServiceAccount, Role, RoleBinding and Services, writes one status for each
-- component, and moves the service between its states, scaling its components up level by level of
-- their dependency graph, or all down. The proxy (cmd/proxy/main.go, internal/proxy/kubernetes.go)
-- writes the desired state of the SleepyService and waits until the controller has made it Awake.
--
-- Api models api/v1alpha1/sleepyservice_types.go. Errors and Exec model error values, and methods
-- that change what they work on and may fail: `Exec S A` is S → Result A × S.
-- Cluster has the objects of Kubernetes, with the fields that the code uses, and `Client`, the
-- parameter that stands for controller-runtime's client: a record of functions on any state `W`.
--
-- Of the controller:
--   Controller/Graph        dependencyGraph, buildDependencyGraph, validateDependencies, computeScalingLevels
--   Controller/Workloads    scaleUpDeployment, scaleDownDeployment and the like, one for each kind
--   Controller/Scale        areComponentsReady, scaleUpComponents, scaleDownComponents
--   Controller/Readiness    checkDeploymentReady, checkStatefulSetReady, checkCNPGReady
--   Controller/Status       updateComponentStatuses, updateBackendServiceStatus
--   Controller/State        reconcileState, checkIdleTimeout, reconcileHibernate
--   Controller/Ports        buildBackendServicePorts, buildProxyContainerPorts, buildProxyServicePorts
--   Controller/Backend      ensureBackendService, findAppComponent, getPodSelector and the like
--   Controller/ProxyEnv     buildProxyEnv
--   Controller/Resources    ensureProxyDeployment and the other functions of ensureProxyResources
--   Controller/Reconcile    Reconcile, ensureFinalizer, reconcileDelete
-- Of the proxy:
--   Kubernetes              the reads and writes of internal/proxy/kubernetes.go
--   Kubernetes/Waiting      WaitForSleepyServiceAwake; Ready has WaitForDeploymentReady, WaitForCNPGReady
--   Proxy/Defs              State, WakeStatus, Proxy, updateStatus, broadcastStatus, checkAndUpdateState
--   Proxy/Wake              triggerWake, onWakeProgress, hibernate, idleMonitor
--   Proxy/Requests          makePortHandler, isAPIRequest, waitAndProxyToPort, handleWake, handleSleep
--   Proxy/Events            the channels and the loop of handleSSE
--   Proxy/Config            loadConfig, getEnv, getEnvBool, getEnvInt, getEnvDuration
--   Proxy/Routes            the patterns that main registers; handleStatus, handleHealth, handleWake, handleSleep
--   Proxy/Threads           the goroutines of triggerWake and hibernate, move by move, in any order
--   Proxy/Main              main: its checks, servers and idle monitor; NewK8sClient
-- Of the manager (cmd/manager/main.go): Manager has the defaults of its flags, the TLS options and the
-- certificates, over Manager/Slices, in which slices share arrays.
-- Strconv has what the proxy uses of Go's strings and strconv, on code points.
-- Prelude has what the others share; Examples runs the code on a shop of three components.
--
-- Go does not fix the order in which a loop visits a map: the three loops over a graph's components
-- take it as an argument, `RangeOrders`, and the theorems ask of it only that it visits each key
-- once. A Go int32, int64 or duration is an unbounded integer here; where the code computes with one
-- so that it could leave its range, `int32` and `int64` cut the result to its size, and `since` stops at the ends of the range.
--
-- Bounds: `dfs` runs on fuel, which is the number of components, since the calls that nest are of
-- distinct components; the search never runs out. The loop of computeScalingLevels runs on one
-- round more than there are components, since each round but the last one places a component.
-- The waits of the proxy run on the list of the events that their `select` takes.
--
-- Controller/Scale/Store and Views say what it means that an API holds what was written, one store for
-- each kind of object; on such an API Asleep is about `scaleDownComponents`, Running about
-- `scaleUpComponents`, and Hibernation about `scaleDownCNPGCluster` and `scaleUpCNPGCluster`.
-- Proxy/Threads has the moves as functions and their orders as a step relation: between two locks,
-- calls of the API or waits a goroutine runs alone, and requests to any path, ticks of the idle
-- monitor, checks and clients may come in between.
--
-- Not modelled: the parsing of flags and the registration with controller-runtime (cmd/manager), the
-- registration of the API group, generated code, HTML and JSON output, logs, and the shutdown of the
-- proxy's servers. Parameters: the Kubernetes clients and their set-up, controllerutil, the environment of the process, the parsing of durations,
-- templates and URLs, the listening of servers, the watchers of certificates, and the room that
-- `append` leaves in a new array.
pub mod Prelude
pub mod Api
pub mod Errors
pub mod Examples
pub mod Exec
pub mod Strconv
pub mod Cluster
pub mod Controller
pub mod Kubernetes
pub mod Manager
pub mod Proxy
