-- ===== src/Controller/Scale/Running.antt =====
-- What `scaleUpComponents` leaves if it succeeds: the components of the level it works on running.
use mathlib.Core.List.{Memᴰ}
use mathlib.Core.Option
use sleepyservice.Prelude.{
  In, ℕ, subst, ◌≡◌, refl, sym, ◌∙◌, String, Bool, false, Option, none, some, List, [], All, ℤ,
  ◌<>◌, string_discrete, is_zero,
}
use sleepyservice.Errors.{Ensures, Result, ok, err}
use sleepyservice.Api.{
  SleepyService, Component, ComponentType, deployment, stateful_set, cnpg_cluster,
}
use sleepyservice.Exec.{◌>>=◌, continue, wrap_error, rewrapped}
use sleepyservice.Cluster.{Workload, CnpgCluster, Client, Ctx, call}
use sleepyservice.Controller.Workloads.{
  is_down, is_on, delete, lookup, hibernation, wake_if_hibernated, scale_up_deployment,
  wanted_replicas, scale_up_stateful_set, scale_up_cnpg_cluster,
}
use sleepyservice.Controller.Workloads.Annotations.{lookup-delete}
use sleepyservice.Controller.Graph.{Graph, build_dependency_graph}
use sleepyservice.Controller.Graph.Spec.{IsAcyclic}
use sleepyservice.Controller.Graph.Builds.{Linked, Rejected, build_dependency_graph_lem}
use sleepyservice.Controller.Scale.{
  RangeOrders, levels_of, are_components_ready, namespace_of, scale_up_component,
  scale_up_components,
}
use sleepyservice.Controller.Scale.Listed.{
  All-listed, All-named, by_name-listed, All-by_name, listed-named,
}
use sleepyservice.Controller.Scale.Cut.{IsCut}
use sleepyservice.Controller.Scale.InOrder.{IsPermuting}
use sleepyservice.Controller.Scale.Complete.{
  AllScaled, finished, scaled, Completed, empty, level, Completes, scale_up_components-Completes,
}
use sleepyservice.Controller.Scale.Store.{change_if, change_step, change_step-Rests}
use sleepyservice.Controller.Scale.Views.{
  Views, IsStore, workload_space, workload_name, cluster_space, cluster_name, IsSettled, Kept,
  deployment-Kept, stateful_set-Kept, cluster-Kept,
}

abbrev is_stopped : Workload → Bool
is_stopped d = is_down d.replicas

abbrev pub is_hibernating : CnpgCluster → Bool
is_hibernating d = is_on (Option.get_or d.annotations [])

abbrev pub woken : CnpgCluster → CnpgCluster
woken d = record d { annotations = some (delete hibernation (Option.get_or d.annotations [])) }

abbrev started : ℤ → Workload → Workload
started n d = record d { replicas = some n }

woken-rests : (d : CnpgCluster) → is_hibernating (woken d) ≡ false
unfolding is_on string_discrete
woken-rests d = rw ((lookup-delete hibernation (Option.get_or d.annotations [])).0) refl

module _ {W : Type 0} (client : Client W) (views : Views W) (store : IsStore client views)
    (hs : SleepyService) where
  -- The object of the component is there: a Deployment or a StatefulSet whose replicas are set and not
  -- 0, or a CNPG cluster without the annotation for hibernation.
  abbrev pub IsRunning : Component → W → Type 0
  IsRunning comp w =
      IsSettled client views store is_stopped is_hibernating comp.type (namespace_of hs comp)
        comp.ref.name w

  abbrev Stays : W → W → Type 0
  Stays = Kept client views store is_stopped is_hibernating

  -- The two forms of the last step for a cluster.
  wake_if_hibernated-change :
      (ns : String) (comp : Component) (d : CnpgCluster) (o : Option (List (String × String)))
      → d.annotations ≡ o
      → (c : Ctx W)
      → wake_if_hibernated client ns comp d o c
        ≡ change_if client.get_cluster client.update_cluster
            ("failed to wake CNPG Cluster " <> comp.ref.name <> ": ")
            is_hibernating
            woken
            d
            c
  unfolding wake_if_hibernated change_if is_on lookup string_discrete
  wake_if_hibernated-change ns comp d none e c = rw e refl
  wake_if_hibernated-change ns comp d (some m) e c = rw e refl

  pub cluster_step :
      (ns : String) (comp : Component) (c : Ctx W)
      → scale_up_cnpg_cluster client ns comp c
        ≡ change_step client.get_cluster client.update_cluster
            ("failed to get CNPG Cluster " <> comp.ref.name <> ": ")
            ("failed to wake CNPG Cluster " <> comp.ref.name <> ": ")
            is_hibernating
            woken
            ns
            comp.ref.name
            c
  unfolding scale_up_cnpg_cluster change_step ◌>>=◌ wrap_error call
  cluster_step ns comp c = by_read (client.get_cluster ns comp.ref.name c.world)
    where
      by_read :
          (o : Result CnpgCluster × W)
          → continue
              (λ d. wake_if_hibernated client ns comp d d.annotations)
              (rewrapped
                ("failed to get CNPG Cluster " <> comp.ref.name <> ": ")
                (o.0, record c { world = o.1 }))
            ≡ continue
                (change_if client.get_cluster client.update_cluster
                  ("failed to wake CNPG Cluster " <> comp.ref.name <> ": ")
                  is_hibernating
                  woken)
                (rewrapped
                  ("failed to get CNPG Cluster " <> comp.ref.name <> ": ")
                  (o.0, record c { world = o.1 }))
      by_read (ok d, w) =
          wake_if_hibernated-change ns comp d d.annotations refl (record c { world = w })
      by_read (err e, w) = refl

  scale_up_component-IsRunning :
      (type : ComponentType) (comp : Component)
      → is_zero (wanted_replicas comp) ≡ false
      → (c b : Ctx W) → scale_up_component client hs (record comp { type = type }) c ≡ (ok tt, b)
      → IsSettled client views store is_stopped is_hibernating type
          (namespace_of hs comp)
          comp.ref.name
          b.world
        × Stays c.world b.world
  unfolding scale_up_component scale_up_deployment scale_up_stateful_set change_step change_if
      namespace_of wanted_replicas scale_up_cnpg_cluster
  scale_up_component-IsRunning deployment comp wanted c b h =
      let (r, k) =
        change_step-Rests client.get_deployment client.update_deployment views.deployments
          workload_space workload_name store.deployments is_stopped (started (wanted_replicas comp))
          (λ a. wanted) (λ a. refl) (λ a. refl)
          ("failed to get Deployment " <> comp.ref.name <> ": ")
          ("failed to scale up Deployment " <> comp.ref.name <> ": ") (namespace_of hs comp)
          comp.ref.name c b h in
      (r, deployment-Kept client views store is_stopped is_hibernating c.world b.world k)
  scale_up_component-IsRunning stateful_set comp wanted c b h =
      let (r, k) =
        change_step-Rests client.get_stateful_set client.update_stateful_set views.stateful_sets
          workload_space workload_name store.stateful_sets is_stopped
          (started (wanted_replicas comp)) (λ a. wanted) (λ a. refl) (λ a. refl)
          ("failed to get StatefulSet " <> comp.ref.name <> ": ")
          ("failed to scale up StatefulSet " <> comp.ref.name <> ": ") (namespace_of hs comp)
          comp.ref.name c b h in
      (r, stateful_set-Kept client views store is_stopped is_hibernating c.world b.world k)
  scale_up_component-IsRunning cnpg_cluster comp wanted c b h =
      let (r, k) =
        change_step-Rests client.get_cluster client.update_cluster views.clusters cluster_space
          cluster_name store.clusters is_hibernating woken woken-rests (λ a. refl) (λ a. refl)
          ("failed to get CNPG Cluster " <> comp.ref.name <> ": ")
          ("failed to wake CNPG Cluster " <> comp.ref.name <> ": ") (namespace_of hs comp)
          comp.ref.name c b (sym (cluster_step (namespace_of hs comp) comp c) ∙ h) in
      (r, cluster-Kept client views store is_stopped is_hibernating c.world b.world k)

  abbrev IsWanted : Component → Type 0
  IsWanted comp = is_zero (wanted_replicas comp) ≡ false

  AllScaled-Kept :
      (comps : List Component) (c b : Ctx W)
      → All IsWanted comps
      → AllScaled client hs comps c b
      → All (λ comp. IsRunning comp b.world) comps × Stays c.world b.world
  AllScaled-Kept _ _ _ wanted (finished c) = (tt, λ t ns n r. r)
  AllScaled-Kept _ _ _ wanted (scaled comp comps a b c e rest) =
      let (first, kept) = scale_up_component-IsRunning comp.type comp wanted.0 a b e in
      let (others, later) = AllScaled-Kept comps b c wanted.1 rest in
      (
        (later comp.type (namespace_of hs comp) comp.ref.name first, others),
        λ t ns n r. later t ns n (kept t ns n r),
      )

  -- On an API that holds what was written: components that `scaleUpComponents` scales up one after
  -- another, each of them with success and none with 0 as its replicas, are all running afterwards,
  -- the ones that were handled first included.
  AllScaled-IsRunning :
      (comps : List Component) (c b : Ctx W)
      → All (λ comp. is_zero (wanted_replicas comp) ≡ false) comps
      → AllScaled client hs comps c b
      → All (λ comp. IsRunning comp b.world) comps
  AllScaled-IsRunning comps c b wanted all = (AllScaled-Kept comps c b wanted all).0

  -- What a success leaves: there is no level, or the components that the service lists under the
  -- names of the level at the cut run, each of them.
  pub data LevelRuns (orders : RangeOrders) (w : W) : Type 0 where
    no_level :
        (g : Graph)
        → build_dependency_graph orders.validation hs.spec.components ≡ ok g
        → levels_of orders g ≡ []
        → LevelRuns orders w
    level_runs :
        (g : Graph)
        → build_dependency_graph orders.validation hs.spec.components ≡ ok g
        → (i : ℕ) (cut : IsCut (are_components_ready hs.status.components) (levels_of orders g) i)
        → ((name : String)
            → In name cut.level
            → (comp : Component) × Memᴰ comp hs.spec.components × (comp.name ≡ name))
        → ((comp : Component)
            → Memᴰ comp hs.spec.components
            → In comp.name cut.level
            → IsRunning comp w)
        → LevelRuns orders w

  -- On an API that holds what was written, for orders that visit each key once and components none of
  -- which has 0 as its replicas: if `scaleUpComponents` succeeds and there is a level at all, then all
  -- levels before some level are ready, that one is the last or is not ready, each of its names is
  -- that of a component of the service, and every component of the service whose name is in that
  -- level is running afterwards.
  pub scale_up_components-LevelRuns :
      (orders : RangeOrders)
      → IsPermuting orders
      → All (λ comp. is_zero (wanted_replicas comp) ≡ false) hs.spec.components
      → (c b : Ctx W) → scale_up_components client orders hs c ≡ (ok tt, b)
      → LevelRuns orders b.world
  scale_up_components-LevelRuns orders permuting wanted c b h = runs (
      subst (Completes client orders hs c) h
        (scale_up_components-Completes client orders permuting hs c))
    where
      by_name :
          (g : Graph)
          → build_dependency_graph orders.validation hs.spec.components ≡ ok g
          → All (λ c. g.components_by_name c.name ≡ some c) hs.spec.components
      by_name g built =
          (subst
            (Ensures (λ g. Linked hs.spec.components g × IsAcyclic g) (Rejected hs.spec.components))
            built
            (build_dependency_graph_lem orders.validation permuting.validation
              hs.spec.components)).0.by_name

      runs : Completed client orders hs c b → LevelRuns orders b.world
      runs (empty g built none_left same) = no_level g built none_left
      runs (level g built i cut comps same all ms) =
          level_runs g built i cut
            (λ name m. listed-named comps hs.spec.components ms name (subst (In name) (sym same) m))
            (λ comp listed m.
              All-named (λ comp. IsRunning comp b.world) comps
                (AllScaled-IsRunning comps c b
                  (All-listed IsWanted comps hs.spec.components ms wanted) all)
                g.components_by_name
                (All-by_name g.components_by_name hs.spec.components comps (by_name g built) ms)
                comp
                (by_name-listed g.components_by_name hs.spec.components comp (by_name g built)
                  listed)
                (subst (In comp.name) (sym same) m))
