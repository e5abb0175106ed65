-- ===== src/Examples/Asleep.antt =====
-- The shop put to sleep and woken on an API with three stores.
use sleepyservice.Prelude.{
  ◌≡◌, count, update, is_zero, false, refl, sym, ◌∙◌, ap, subst, String, none, some, List, [], ◌∷◌,
  All, ◌⊎◌, inl, inr, ite, string_discrete, pos, arith,
}
use sleepyservice.Errors.{Result, ok, err}
use sleepyservice.Api.{Component, cnpg_cluster}
use sleepyservice.Cluster.{Workload, CnpgCluster, Client, Ctx, call}
use sleepyservice.Exec.{lift, ◌>>=◌, wrap_error, pure}
use sleepyservice.Controller.Workloads.{
  scale_down_cnpg_cluster, scale_up_cnpg_cluster, scale_down_deployment, scale_down_stateful_set,
  is_on, insert, scale_up_stateful_set, scale_up_deployment, wanted_replicas,
}
use sleepyservice.Controller.Scale.{
  levels_of, scale_down_components, scale_down_component, scale_up_component, scale_up_components,
  scale_up_graph, scale_up_current, scale_up_level, scale_up_named, current_level,
  are_components_ready, namespace_of,
}
use sleepyservice.Controller.Scale.Views.{Views, IsStore}
use sleepyservice.Controller.Graph.{
  build_dependency_graph, validate_dependencies, compute_scaling_levels,
}
use sleepyservice.Controller.Graph.Defs.{
  dfs, scan, enter, leave, relax, relax_dependents, relax_level,
}
use sleepyservice.Controller.Scale.Running.{LevelRuns, scale_up_components-LevelRuns}
use sleepyservice.Controller.Scale.Asleep.{IsAsleep, scale_down_components-IsAsleep}
use sleepyservice.Controller.Scale.Hibernation.{
  Reports, scale_down_cnpg_cluster-Reports, scale_up_cnpg_cluster-Reports,
}
use sleepyservice.Controller.Readiness.{status_report}
use sleepyservice.Examples.World.{
  orders, orders-IsPermuting, component, service, shop, client_on, workload,
}

-- `m[space][name] = x`
abbrev put_at : {A : Type 0} → String → String → A → (String → String → A) → String → String → A
put_at space name x m ns n =
    ite (string_discrete space ns) (ite (string_discrete name n) x (m ns n)) (m ns n)

record Stores : Type 0 where
  deployments : String → String → Workload
  stateful_sets : String → String → Workload
  clusters : String → String → CnpgCluster

abbrev keyed_workload : (String → String → Workload) → String → String → Workload
keyed_workload m ns n = record (m ns n) { namespace = ns; name = n }

abbrev keyed_cluster : (String → String → CnpgCluster) → String → String → CnpgCluster
keyed_cluster m ns n = record (m ns n) { namespace = ns; name = n }

abbrev views : Views Stores
views = record {
  deployments = λ ns n w. ok (keyed_workload w.deployments ns n);
  stateful_sets = λ ns n w. ok (keyed_workload w.stateful_sets ns n);
  clusters = λ ns n w. ok (keyed_cluster w.clusters ns n);
}

abbrev api : Client Stores
api = record (client_on (λ w. none) (λ replicas w. w)) {
  get_deployment = λ ns n w. (views.deployments ns n w, w);
  update_deployment =
      λ d w. (ok tt, record w { deployments = put_at d.namespace d.name d w.deployments });
  get_stateful_set = λ ns n w. (views.stateful_sets ns n w, w);
  update_stateful_set =
      λ d w. (ok tt, record w { stateful_sets = put_at d.namespace d.name d w.stateful_sets });
  get_cluster = λ ns n w. (views.clusters ns n w, w);
  update_cluster = λ d w. (ok tt, record w { clusters = put_at d.namespace d.name d w.clusters });
}

put_at-hit :
    {A : Type 0} (space name : String) (x : A) (m : String → String → A)
    → put_at space name x m space name ≡ x
put_at-hit space name x m = ground arith

-- At another key nothing changes.
put_at-cases :
    {A : Type 0} (space name : String) (x : A) (m : String → String → A) (ns n : String)
    → ((space ≡ ns) × (name ≡ n) × (put_at space name x m ns n ≡ x))
      ⊎ (put_at space name x m ns n ≡ m ns n)
put_at-cases space name x m ns n = ground arith

workload_hit :
    (m : String → String → Workload) (a : Workload)
    → keyed_workload (put_at a.namespace a.name a m) a.namespace a.name ≡ a
workload_hit m a =
    ap (λ (d : Workload). record d { namespace = a.namespace; name = a.name })
      (put_at-hit a.namespace a.name a m)

workload_miss :
    (m : String → String → Workload) (a : Workload) (ns n : String)
    → (ok (keyed_workload (put_at a.namespace a.name a m) ns n) ≡ ok a)
      ⊎ (ok (keyed_workload (put_at a.namespace a.name a m) ns n) ≡ ok (keyed_workload m ns n))
workload_miss m a ns n = elim (put_at-cases a.namespace a.name a m ns n) [
  | inl same ↦ inl (
      ap ok (
        ap (λ (d : Workload). record d { namespace = ns; name = n }) same.2
        ∙ (λ i. record a { namespace = sym same.0 i; name = sym same.1 i })))
  | inr old ↦ inr (ap (λ (d : Workload). ok (record d { namespace = ns; name = n })) old)
]

cluster_hit :
    (m : String → String → CnpgCluster) (a : CnpgCluster)
    → keyed_cluster (put_at a.namespace a.name a m) a.namespace a.name ≡ a
cluster_hit m a =
    ap (λ (d : CnpgCluster). record d { namespace = a.namespace; name = a.name })
      (put_at-hit a.namespace a.name a m)

cluster_miss :
    (m : String → String → CnpgCluster) (a : CnpgCluster) (ns n : String)
    → (ok (keyed_cluster (put_at a.namespace a.name a m) ns n) ≡ ok a)
      ⊎ (ok (keyed_cluster (put_at a.namespace a.name a m) ns n) ≡ ok (keyed_cluster m ns n))
cluster_miss m a ns n = elim (put_at-cases a.namespace a.name a m ns n) [
  | inl same ↦ inl (
      ap ok (
        ap (λ (d : CnpgCluster). record d { namespace = ns; name = n }) same.2
        ∙ (λ i. record a { namespace = sym same.0 i; name = sym same.1 i })))
  | inr old ↦ inr (ap (λ (d : CnpgCluster). ok (record d { namespace = ns; name = n })) old)
]

abbrev space_of : {A : Type 0} → (A → String) → Result A → String
space_of f (ok a) = f a
space_of f (err e) = ""

api-IsStore : IsStore api views
api-IsStore = record {
  deployments = record {
    reads = λ ns n w. refl;
    keyed = λ ns n w a e. (
      sym (ap (space_of (λ (d : Workload). d.namespace)) e),
      sym (ap (space_of (λ (d : Workload). d.name)) e),
    );
    hit = λ a w v p.
        subst (λ u. views.deployments a.namespace a.name u ≡ ok a)
          (ap (λ (q : Result (Unit {0}) × Stores). q.1) p) (ap ok (workload_hit w.deployments a));
    miss = λ a w v p ns n.
        subst
          (λ u.
            (views.deployments ns n u ≡ ok a)
            ⊎ (views.deployments ns n u ≡ views.deployments ns n w))
          (ap (λ (q : Result (Unit {0}) × Stores). q.1) p) (workload_miss w.deployments a ns n);
  };
  stateful_sets = record {
    reads = λ ns n w. refl;
    keyed = λ ns n w a e. (
      sym (ap (space_of (λ (d : Workload). d.namespace)) e),
      sym (ap (space_of (λ (d : Workload). d.name)) e),
    );
    hit = λ a w v p.
        subst (λ u. views.stateful_sets a.namespace a.name u ≡ ok a)
          (ap (λ (q : Result (Unit {0}) × Stores). q.1) p) (ap ok (workload_hit w.stateful_sets a));
    miss = λ a w v p ns n.
        subst
          (λ u.
            (views.stateful_sets ns n u ≡ ok a)
            ⊎ (views.stateful_sets ns n u ≡ views.stateful_sets ns n w))
          (ap (λ (q : Result (Unit {0}) × Stores). q.1) p) (workload_miss w.stateful_sets a ns n);
  };
  clusters = record {
    reads = λ ns n w. refl;
    keyed = λ ns n w a e. (
      sym (ap (space_of (λ (d : CnpgCluster). d.namespace)) e),
      sym (ap (space_of (λ (d : CnpgCluster). d.name)) e),
    );
    hit = λ a w v p.
        subst (λ u. views.clusters a.namespace a.name u ≡ ok a)
          (ap (λ (q : Result (Unit {0}) × Stores). q.1) p) (ap ok (cluster_hit w.clusters a));
    miss = λ a w v p ns n.
        subst
          (λ u. (views.clusters ns n u ≡ ok a) ⊎ (views.clusters ns n u ≡ views.clusters ns n w))
          (ap (λ (q : Result (Unit {0}) × Stores). q.1) p) (cluster_miss w.clusters a ns n);
  };
  deployment_stateful_set =
      λ a w v p ns n. ap (λ (q : Result (Unit {0}) × Stores). views.stateful_sets ns n q.1) (sym p);
  deployment_cluster =
      λ a w v p ns n. ap (λ (q : Result (Unit {0}) × Stores). views.clusters ns n q.1) (sym p);
  stateful_set_deployment =
      λ a w v p ns n. ap (λ (q : Result (Unit {0}) × Stores). views.deployments ns n q.1) (sym p);
  stateful_set_cluster =
      λ a w v p ns n. ap (λ (q : Result (Unit {0}) × Stores). views.clusters ns n q.1) (sym p);
  cluster_deployment =
      λ a w v p ns n. ap (λ (q : Result (Unit {0}) × Stores). views.deployments ns n q.1) (sym p);
  cluster_stateful_set =
      λ a w v p ns n. ap (λ (q : Result (Unit {0}) × Stores). views.stateful_sets ns n q.1) (sym p);
}

abbrev mixed : List Component
mixed = component "pg" cnpg_cluster [] ∷ shop

-- All replicas are 2, and no cluster hibernates.
abbrev begin : Ctx Stores
begin = record {
  hs = service;
  world = record {
    deployments = workload (some (pos 2));
    stateful_sets = workload (some (pos 2));
    clusters = λ ns n. record { namespace = ns; name = n; annotations = none; status = none };
  };
}

scale_down_components-IsAsleep_example :
    All
      (λ comp.
        IsAsleep api views api-IsStore service comp
          (scale_down_components api service mixed begin).1.world)
      mixed
unfolding scale_down_components ◌>>=◌ scale_down_component scale_down_cnpg_cluster wrap_error call
    is_on string_discrete scale_down_deployment namespace_of scale_down_stateful_set pure
scale_down_components-IsAsleep_example =
    scale_down_components-IsAsleep api views api-IsStore service mixed begin
      (scale_down_components api service mixed begin).1 refl

abbrev pg : Component
pg = component "pg" cnpg_cluster []

scale_down_cnpg_cluster-Reports_example :
    Reports api views "default" "pg"
      (λ d. (false, "Hibernated"))
      begin
      (scale_down_cnpg_cluster api "default" pg begin).1
unfolding scale_down_cnpg_cluster ◌>>=◌ wrap_error call is_on string_discrete pure
scale_down_cnpg_cluster-Reports_example =
    scale_down_cnpg_cluster-Reports api views api-IsStore "default" pg begin
      (scale_down_cnpg_cluster api "default" pg begin).1 refl

-- The cluster after it was put to sleep.
abbrev hibernated : Ctx Stores
hibernated = (scale_down_cnpg_cluster api "default" pg begin).1

scale_up_cnpg_cluster-Reports_example :
    Reports api views "default" "pg"
      (λ d. status_report d.status)
      hibernated
      (scale_up_cnpg_cluster api "default" pg hibernated).1
unfolding scale_up_cnpg_cluster scale_down_cnpg_cluster ◌>>=◌ wrap_error call is_on string_discrete
    pure insert
scale_up_cnpg_cluster-Reports_example =
    scale_up_cnpg_cluster-Reports api views api-IsStore "default" pg hibernated
      (scale_up_cnpg_cluster api "default" pg hibernated).1 refl

-- The shop asleep.
abbrev dormant : Ctx Stores
dormant = record {
  hs = service;
  world = record {
    deployments = workload (some (pos 0));
    stateful_sets = workload (some (pos 0));
    clusters = λ ns n. record { namespace = ns; name = n; annotations = none; status = none };
  };
}

-- All components of the shop want two replicas.
scale_up_components-LevelRuns_example :
    LevelRuns api views api-IsStore service orders
      (scale_up_components api orders service dormant).1.world
unfolding scale_up_components scale_up_graph scale_up_current scale_up_level scale_up_named
    scale_up_component ◌>>=◌ scale_up_stateful_set scale_up_deployment wrap_error call lift
    string_discrete namespace_of wanted_replicas pure current_level are_components_ready
    build_dependency_graph count validate_dependencies dfs scan update enter leave levels_of
    compute_scaling_levels relax_level relax_dependents relax
scale_up_components-LevelRuns_example =
    scale_up_components-LevelRuns api views api-IsStore service orders orders-IsPermuting wanted
      dormant (scale_up_components api orders service dormant).1 refl
  where
    wanted : All (λ comp. is_zero (wanted_replicas comp) ≡ false) shop
    wanted = (refl, (refl, (refl, tt)))
