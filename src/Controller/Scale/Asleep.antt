-- ===== src/Controller/Scale/Asleep.antt =====
-- What `scaleDownComponents` leaves if it succeeds: every component asleep.
use mathlib.Core.Option
use sleepyservice.Prelude.{
  ◌≡◌, refl, ap, subst, Bool, false, not, some, List, [], ◌∷◌, All, pos, ◌<>◌, string_discrete,
}
use sleepyservice.Errors.{Result, ok, err}
use sleepyservice.Api.{
  SleepyService, Component, ComponentType, deployment, stateful_set, cnpg_cluster,
}
use sleepyservice.Exec.{pure, ◌>>=◌, continue}
use sleepyservice.Cluster.{Workload, CnpgCluster, Client, Ctx}
use sleepyservice.Controller.Workloads.{
  is_up, is_on, insert, hibernation, hibernate_unless_on, scale_down_deployment,
  scale_down_stateful_set, scale_down_cnpg_cluster,
}
use sleepyservice.Controller.Workloads.Annotations.{lookup-insert}
use sleepyservice.Controller.Scale.{namespace_of, scale_down_component, scale_down_components}
use sleepyservice.Controller.Scale.Store.{change_if, change_step, change_step-Rests}
use sleepyservice.Controller.Scale.Views.{
  Views, IsStore, workload_space, workload_name, cluster_space, cluster_name, IsSettled, Kept,
  deployment-Kept, stateful_set-Kept, cluster-Kept,
}

abbrev is_running : Workload → Bool
is_running d = is_up d.replicas

abbrev pub is_active : CnpgCluster → Bool
is_active d = not (is_on (Option.get_or d.annotations []))

abbrev stopped : Workload → Workload
stopped d = record d { replicas = some (pos 0) }

abbrev pub hibernating : CnpgCluster → CnpgCluster
hibernating d = record d {
  annotations = some (insert hibernation "on" (Option.get_or d.annotations []));
}

hibernating-rests : (d : CnpgCluster) → is_active (hibernating d) ≡ false
unfolding is_on string_discrete
hibernating-rests d = rw ((lookup-insert hibernation "on" (Option.get_or d.annotations [])).0) refl

module _ {W : Type 0} (client : Client W) (views : Views W) (store : IsStore client views)
    (hs : SleepyService) where
  -- The object of the component is there: a Deployment or a StatefulSet whose replicas are not set or
  -- not above 0, or a CNPG cluster with the annotation for hibernation.
  abbrev pub IsAsleep : Component → W → Type 0
  IsAsleep comp w =
      IsSettled client views store is_running is_active comp.type (namespace_of hs comp)
        comp.ref.name w

  abbrev Stays : W → W → Type 0
  Stays = Kept client views store is_running is_active

  scale_down_component-IsAsleep :
      (type : ComponentType) (comp : Component) (c b : Ctx W)
      → scale_down_component client hs (record comp { type = type }) c ≡ (ok tt, b)
      → IsSettled client views store is_running is_active type
          (namespace_of hs comp)
          comp.ref.name
          b.world
        × Stays c.world b.world
  unfolding scale_down_component scale_down_deployment scale_down_stateful_set
      scale_down_cnpg_cluster hibernate_unless_on change_step change_if namespace_of
  scale_down_component-IsAsleep deployment comp c b h =
      let (r, k) =
        change_step-Rests client.get_deployment client.update_deployment views.deployments
          workload_space workload_name store.deployments is_running stopped (λ a. refl) (λ a. refl)
          (λ a. refl) ("failed to get Deployment " <> comp.ref.name <> ": ")
          ("failed to scale down Deployment " <> comp.ref.name <> ": ") (namespace_of hs comp)
          comp.ref.name c b h in
      (r, deployment-Kept client views store is_running is_active c.world b.world k)
  scale_down_component-IsAsleep stateful_set comp c b h =
      let (r, k) =
        change_step-Rests client.get_stateful_set client.update_stateful_set views.stateful_sets
          workload_space workload_name store.stateful_sets is_running stopped (λ a. refl)
          (λ a. refl) (λ a. refl) ("failed to get StatefulSet " <> comp.ref.name <> ": ")
          ("failed to scale down StatefulSet " <> comp.ref.name <> ": ") (namespace_of hs comp)
          comp.ref.name c b h in
      (r, stateful_set-Kept client views store is_running is_active c.world b.world k)
  scale_down_component-IsAsleep cnpg_cluster comp c b h =
      let (r, k) =
        change_step-Rests client.get_cluster client.update_cluster views.clusters cluster_space
          cluster_name store.clusters is_active hibernating hibernating-rests (λ a. refl)
          (λ a. refl) ("failed to get CNPG Cluster " <> comp.ref.name <> ": ")
          ("failed to hibernate CNPG Cluster " <> comp.ref.name <> ": ") (namespace_of hs comp)
          comp.ref.name c b h in
      (r, cluster-Kept client views store is_running is_active c.world b.world k)

  scale_down-Kept :
      (comps : List Component) (c b : Ctx W)
      → scale_down_components client hs comps c ≡ (ok tt, b)
      → All (λ comp. IsAsleep comp b.world) comps × Stays c.world b.world
  unfolding scale_down_components ◌>>=◌ pure
  scale_down-Kept [] c b h = (
    tt,
    λ t ns n.
        subst (IsSettled client views store is_running is_active t ns n)
          (ap (λ (q : Result (Unit {0}) × Ctx W). q.1.world) h),
  )
  scale_down-Kept (comp ∷ comps) c b h =
      by_first (scale_down_component client hs comp c) refl (scale_down-Kept comps) h
    where
      by_first :
          (o : Result (Unit {0}) × Ctx W)
          → scale_down_component client hs comp c ≡ o
          → ((d e : Ctx W)
              → scale_down_components client hs comps d ≡ (ok tt, e)
              → All (λ comp. IsAsleep comp e.world) comps × Stays d.world e.world)
          → continue (λ _. scale_down_components client hs comps) o ≡ (ok tt, b)
          → All (λ comp. IsAsleep comp b.world) (comp ∷ comps) × Stays c.world b.world
      by_first (err x, d) e rest h = absurd (cc)
      by_first (ok u, d) e rest h =
          let (first, kept) = scale_down_component-IsAsleep comp.type comp c d e in
          let (others, later) = rest d b h in
          (
            (later comp.type (namespace_of hs comp) comp.ref.name first, others),
            λ t ns n a. later t ns n (kept t ns n a),
          )

  -- On an API that holds what was written: if `scaleDownComponents` succeeds, every component of the
  -- service is asleep afterwards, the ones that were handled first included.
  pub scale_down_components-IsAsleep :
      (comps : List Component) (c b : Ctx W)
      → scale_down_components client hs comps c ≡ (ok tt, b)
      → All (λ comp. IsAsleep comp b.world) comps
  scale_down_components-IsAsleep comps c b h = (scale_down-Kept comps c b h).0
