-- ===== src/Examples/World.antt =====
-- The service, the graph and the client of the examples.
use sleepyservice.Prelude.{
  ℕ, suc, ◌<◌, refl, subst, String, true, none, some, List, [], ◌∷◌, SameNames, IsDistinct, In, ltb,
  ◌++◌, count, count-nil, eq_of_In_one, IsDistinct-cons, string_discrete, ite, arith, pos, ℤ,
  Option,
}
use sleepyservice.Errors.{ok, err, api}
use sleepyservice.Api.{
  SleepyService, Component, ComponentType, deployment, stateful_set, awake, unset,
}
use sleepyservice.Cluster.{Client, Ctx, Workload}
use sleepyservice.Controller.Graph.Spec.{names}
use sleepyservice.Controller.Graph.Builds.{IsValid}
use sleepyservice.Controller.Scale.{RangeOrders}
use sleepyservice.Controller.Scale.InOrder.{IsPermuting}

abbrev pub in_order : List String → List String
in_order l = l

pub in_order-SameNames : (l : List String) → SameNames (in_order l) l
in_order-SameNames l n = refl

abbrev pub orders : RangeOrders
orders = record { validation = in_order; degrees = in_order; queue = in_order }

pub orders-IsPermuting : IsPermuting orders
orders-IsPermuting = record {
  validation = in_order-SameNames;
  degrees = in_order-SameNames;
  queue = in_order-SameNames;
}

abbrev pub component : String → ComponentType → List String → Component
component name type deps = record {
  name = name;
  type = type;
  ref = record { name = name; namespace = "" };
  replicas = some (pos 2);
  depends_on = deps;
}

abbrev pub shop : List Component
shop =
    component "web" deployment ("api" ∷ [])
    ∷ component "api" deployment ("db" ∷ [])
    ∷ component "db" stateful_set []
    ∷ []

abbrev pub service : SleepyService
service = record {
  name = "shop";
  namespace = "default";
  finalizers = [];
  deletion_timestamp = none;
  spec = record {
    debug = none;
    backend_service = none;
    wake_timeout = pos 300;
    idle_timeout = pos 0;
    components = shop;
  };
  status = record {
    desired_state = awake;
    state = unset;
    last_transition = none;
    last_activity = none;
    components = [];
    proxy_deployment = "";
    backend_service = "";
  };
}

-- The ranks of the names: a name has a smaller one than what depends on it.
abbrev pub rank : String → ℕ
rank n = ite (string_discrete n "db") 0 (ite (string_discrete n "api") 1 2)

shop-IsDistinct : IsDistinct (names shop)
unfolding count string_discrete
shop-IsDistinct =
    IsDistinct-cons "web" ("api" ∷ "db" ∷ []) refl
      (IsDistinct-cons "api" ("db" ∷ []) refl (IsDistinct-cons "db" [] refl (λ n. omega arith)))

pub shop-IsValid : IsValid rank shop
unfolding count string_discrete
shop-IsValid = record {
  distinct = shop-IsDistinct;
  ordered = (
    λ d m.
        subst (λ x. In x (names shop) × (rank x < 2)) (eq_of_In_one d "api" m)
          (omega arith, omega arith),
    (
      λ d m.
          subst (λ x. In x (names shop) × (rank x < 1)) (eq_of_In_one d "db" m)
            (omega arith, omega arith),
      (λ d m. absurd (omega (arith, count-nil d)), tt),
    ),
  );
}

abbrev pub workload : Option ℤ → String → String → Workload
workload replicas namespace name = record {
  namespace = namespace;
  name = name;
  replicas = replicas;
  total_replicas = pos 2;
  ready_replicas = pos 1;
  match_labels = ("app", name) ∷ [];
}

-- An API whose objects are all there, each workload with the replicas that `get` reads and `set`
-- writes; the clusters are not there.
abbrev pub client_on : {W : Type 0} → (W → Option ℤ) → (Option ℤ → W → W) → Client W
client_on get set = record {
  get_deployment = λ namespace name w. (ok (workload (get w) namespace name), w);
  update_deployment = λ d w. (ok tt, set d.replicas w);
  get_stateful_set = λ namespace name w. (ok (workload (get w) namespace name), w);
  update_stateful_set = λ d w. (ok tt, set d.replicas w);
  get_cluster = λ namespace name w. (err (api true "not found"), w);
  update_cluster = λ c w. (ok tt, w);
  get_service = λ namespace name w. (ok service, w);
  update_service = λ hs w. (ok hs, w);
  update_status = λ hs w. (ok hs, w);
  create_or_update_service_account = λ namespace name f w. (ok tt, w);
  create_or_update_role = λ namespace name f w. (ok tt, w);
  create_or_update_role_binding = λ namespace name f w. (ok tt, w);
  create_or_update_service = λ namespace name f w. (ok tt, w);
  create_or_update_deployment = λ namespace name f w. (ok tt, w);
  set_controller_reference = λ hs meta. ok (record meta { owners = hs.name ∷ [] });
  now = λ w. (pos 0, w);
  contains_finalizer = λ name finalizers. ltb 0 (count name finalizers);
  add_finalizer = λ name finalizers. finalizers ++ name ∷ [];
  remove_finalizer = λ name finalizers. [];
}

-- Every workload is scaled to 0, and the writes are counted.
abbrev pub client : Client ℕ
client = client_on (λ w. some (pos 0)) (λ replicas w. suc w)

-- One workload, with the replicas that were last written.
abbrev pub store : Client (Option ℤ)
store = client_on (λ w. w) (λ replicas w. replicas)

abbrev pub start : Ctx ℕ
start = record { hs = service; world = 7 }
