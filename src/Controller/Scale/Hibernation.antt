-- ===== src/Controller/Scale/Hibernation.antt =====
-- What `scaleDownCNPGCluster` and `scaleUpCNPGCluster` leave, as `checkCNPGReady` reports it.
use mathlib.Core.Option
use sleepyservice.Prelude.{
  ◌≡◌, ◌≢◌, refl, sym, ◌∙◌, ap, String, Bool, true, false, not, Option, none, some, List, [],
  if◌then◌else◌, ◌<>◌, string_discrete,
}
use sleepyservice.Errors.{ok}
use sleepyservice.Api.{Component}
use sleepyservice.Exec.{◌>>=◌, pure}
use sleepyservice.Cluster.{call, CnpgCluster, Client, Ctx}
use sleepyservice.Controller.Workloads.{
  lookup, is_on, hibernation, scale_down_cnpg_cluster, scale_up_cnpg_cluster, hibernate_unless_on,
}
use sleepyservice.Controller.Workloads.Annotations.{lookup-insert, lookup-delete}
use sleepyservice.Controller.Readiness.{
  cluster_report, status_report, is_hibernated, check_cnpg_ready,
}
use sleepyservice.Controller.Scale.Store.{change_if, change_step, change_step-held}
use sleepyservice.Controller.Scale.Views.{Views, IsStore, cluster_space, cluster_name}
use sleepyservice.Controller.Scale.Asleep.{is_active, hibernating}
use sleepyservice.Controller.Scale.Running.{is_hibernating, woken, cluster_step}

-- An annotation of a cluster.
abbrev pub annotation : String → CnpgCluster → Option String
annotation key d = lookup key (Option.get_or d.annotations [])

-- The two differ in the annotation for hibernation at most.
pub record SameOthers (a d : CnpgCluster) : Type 0 where
  pub annotations : (key : String) → hibernation ≢ key → annotation key d ≡ annotation key a
  pub status : d.status ≡ a.status
  pub name : d.name ≡ a.name
  pub namespace : d.namespace ≡ a.namespace

same_others : (a : CnpgCluster) → SameOthers a a
same_others a = record { annotations = λ key h. refl; status = refl; name = refl; namespace = refl }

is_hibernated_eq : (d : CnpgCluster) → is_hibernated d ≡ is_on (Option.get_or d.annotations [])
unfolding is_hibernated is_on lookup string_discrete
is_hibernated_eq d = by_option d.annotations
  where
    by_option :
        (o : Option (List (String × String)))
        → elim o [ none ↦ false | some annotations ↦ is_on annotations ]
          ≡ is_on (Option.get_or o [])
    by_option none = refl
    by_option (some m) = refl

hibernated_lem :
    (a : CnpgCluster) (t : Bool)
    → is_active a ≡ t
    → let d = if t then hibernating a else a in
      (is_on (Option.get_or d.annotations []) ≡ true) × SameOthers a d
hibernated_lem a true e = (
  unfold is_on string_discrete in
      rw ((lookup-insert hibernation "on" (Option.get_or a.annotations [])).0) refl,
  record {
    annotations = (lookup-insert hibernation "on" (Option.get_or a.annotations [])).1;
    status = refl;
    name = refl;
    namespace = refl;
  },
)
hibernated_lem a false e = (not-false (is_on (Option.get_or a.annotations [])) e, same_others a)
  where
    not-false : (b : Bool) → not b ≡ false → b ≡ true
    not-false true e = refl
    not-false false e = cc

woken_lem :
    (a : CnpgCluster) (t : Bool)
    → is_hibernating a ≡ t
    → let d = if t then woken a else a in
      (is_on (Option.get_or d.annotations []) ≡ false) × SameOthers a d
woken_lem a true e = (
  unfold is_on string_discrete in
      rw ((lookup-delete hibernation (Option.get_or a.annotations [])).0) refl,
  record {
    annotations = (lookup-delete hibernation (Option.get_or a.annotations [])).1;
    status = refl;
    name = refl;
    namespace = refl;
  },
)
woken_lem a false e = (e, same_others a)

-- A call left the cluster under this key, changed in the annotation for hibernation at most, and the
-- readiness check, called next, reports this of it.
pub record Reports {W : Type 0} (client : Client W) (views : Views W) (ns n : String)
    (report : CnpgCluster → Bool × String) (c b : Ctx W) : Type 0 where
  pub before : CnpgCluster
  pub after : CnpgCluster
  pub was : views.clusters ns n c.world ≡ ok before
  pub is_now : views.clusters ns n b.world ≡ ok after
  pub others : SameOthers before after
  pub reported : (check_cnpg_ready client ns n b).0 ≡ ok (report after)

module _ {W : Type 0} (client : Client W) (views : Views W) (store : IsStore client views)
    (ns : String) (comp : Component) where
  check_reports :
      (d : CnpgCluster) (b : Ctx W)
      → views.clusters ns comp.ref.name b.world ≡ ok d
      → (check_cnpg_ready client ns comp.ref.name b).0 ≡ ok (cluster_report d)
  unfolding check_cnpg_ready ◌>>=◌ call pure
  check_reports d b e = rw (store.clusters.reads ns comp.ref.name b.world, e) refl

  -- On an API that holds what was written: after a `scaleDownCNPGCluster` that succeeds, the readiness
  -- check reports the cluster as hibernated, whether or not it hibernated before; its other
  -- annotations, its status and its key are as they were.
  pub scale_down_cnpg_cluster-Reports :
      (c b : Ctx W)
      → scale_down_cnpg_cluster client ns comp c ≡ (ok tt, b)
      → Reports client views ns comp.ref.name (λ d. (false, "Hibernated")) c b
  unfolding scale_down_cnpg_cluster hibernate_unless_on change_step change_if cluster_report
  scale_down_cnpg_cluster-Reports c b h =
      let (a, was, is_now) =
        change_step-held client.get_cluster client.update_cluster views.clusters cluster_space
          cluster_name store.clusters is_active hibernating (λ a. refl) (λ a. refl)
          ("failed to get CNPG Cluster " <> comp.ref.name <> ": ")
          ("failed to hibernate CNPG Cluster " <> comp.ref.name <> ": ") ns comp.ref.name c b h in
      let d = if is_active a then hibernating a else a in
      let (on, others) = hibernated_lem a (is_active a) refl in
      record {
        before = a;
        after = d;
        was = was;
        is_now = is_now;
        others = others;
        reported =
            check_reports d b is_now
            ∙ ap (λ t. ok (if t then (false, "Hibernated") else status_report d.status))
                (is_hibernated_eq d ∙ on);
      }

  -- On an API that holds what was written: after a `scaleUpCNPGCluster` that succeeds, the readiness
  -- check reports what the cluster's status says, whether or not the cluster hibernated before; its
  -- other annotations, its status and its key are as they were.
  pub scale_up_cnpg_cluster-Reports :
      (c b : Ctx W)
      → scale_up_cnpg_cluster client ns comp c ≡ (ok tt, b)
      → Reports client views ns comp.ref.name (λ d. status_report d.status) c b
  unfolding cluster_report
  scale_up_cnpg_cluster-Reports c b h =
      let (a, was, is_now) =
        change_step-held client.get_cluster client.update_cluster views.clusters cluster_space
          cluster_name store.clusters is_hibernating woken (λ a. refl) (λ a. refl)
          ("failed to get CNPG Cluster " <> comp.ref.name <> ": ")
          ("failed to wake CNPG Cluster " <> comp.ref.name <> ": ") ns comp.ref.name c b
          (sym (cluster_step client views store c.hs ns comp c) ∙ h) in
      let d = if is_hibernating a then woken a else a in
      let (off, others) = woken_lem a (is_hibernating a) refl in
      record {
        before = a;
        after = d;
        was = was;
        is_now = is_now;
        others = others;
        reported =
            check_reports d b is_now
            ∙ ap (λ t. ok (if t then (false, "Hibernated") else status_report d.status))
                (is_hibernated_eq d ∙ off);
      }
