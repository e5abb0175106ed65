-- ===== src/Controller/Workloads.antt =====
-- The writes to single workloads: `scaleUpDeployment` and its like, `scaleDownDeployment` and its
-- like. A StatefulSet has functions of its own in the source, with the same steps.
pub mod Replicas
pub mod Annotations
use sleepyservice.Prelude.{
  String, Bool, true, false, not, Option, none, some, List, [], ◌∷◌, if◌then◌else◌, ite,
  string_discrete, ◌<>◌, ℤ, pos, is_zero, ltb_ℤ,
}
use mathlib.Core.Option
use sleepyservice.Api.{Component}
use sleepyservice.Exec.{Exec, pure, wrap_error, ◌>>=◌}
use sleepyservice.Cluster.{CnpgCluster, Client, Ctx, call}

-- `m[key]` and `delete(m, key)` and `m[key] = value` on a map of texts.
unfoldable pub lookup : String → List (String × String) → Option String
lookup key [] = none
lookup key ((k, v) ∷ m) = let rest = lookup key m in ite (string_discrete k key) (some v) rest

unfoldable pub delete : String → List (String × String) → List (String × String)
delete key [] = []
delete key ((k, v) ∷ m) =
    let rest = delete key m in ite (string_discrete k key) rest ((k, v) ∷ rest)

unfoldable pub insert : String → String → List (String × String) → List (String × String)
unfolding delete
insert key value m = (key, value) ∷ delete key m

abbrev pub hibernation : String
hibernation = "cnpg.io/hibernation"

-- `annotations["cnpg.io/hibernation"] == "on"`
unfoldable pub is_on : List (String × String) → Bool
unfolding lookup
is_on m = ite (string_discrete (Option.get_or (lookup hibernation m) "") "on") true false

-- `deploy.Spec.Replicas == nil || *deploy.Spec.Replicas == 0`
abbrev pub is_down : Option ℤ → Bool
is_down none = true
is_down (some n) = is_zero n

-- `deploy.Spec.Replicas != nil && *deploy.Spec.Replicas > 0`
abbrev pub is_up : Option ℤ → Bool
is_up none = false
is_up (some n) = ltb_ℤ (pos 0) n

-- The replicas to scale to: 1 if the component has none.
unfoldable pub wanted_replicas : Component → ℤ
wanted_replicas comp = Option.get_or comp.replicas (pos 1)

module _ {W : Type 0} (client : Client W) (namespace : String) (comp : Component) where
  unfoldable pub scale_up_deployment : Exec (Ctx W) (Unit {0})
  scale_up_deployment = do
    deploy ←
        wrap_error ("failed to get Deployment " <> comp.ref.name <> ": ")
          (call (client.get_deployment namespace comp.ref.name))
    if is_down deploy.replicas
        then wrap_error ("failed to scale up Deployment " <> comp.ref.name <> ": ") (
            call
              (client.update_deployment (record deploy { replicas = some (wanted_replicas comp) })))
        else pure tt

  unfoldable pub scale_up_stateful_set : Exec (Ctx W) (Unit {0})
  scale_up_stateful_set = do
    sts ←
        wrap_error ("failed to get StatefulSet " <> comp.ref.name <> ": ")
          (call (client.get_stateful_set namespace comp.ref.name))
    if is_down sts.replicas
        then wrap_error ("failed to scale up StatefulSet " <> comp.ref.name <> ": ") (
            call
              (client.update_stateful_set (record sts { replicas = some (wanted_replicas comp) })))
        else pure tt

  -- Waking removes the annotation from a map that is there and holds "on".
  unfoldable pub wake_if_hibernated :
      CnpgCluster → Option (List (String × String)) → Exec (Ctx W) (Unit {0})
  wake_if_hibernated cluster none = pure tt
  wake_if_hibernated cluster (some annotations) =
      if is_on annotations
      then wrap_error ("failed to wake CNPG Cluster " <> comp.ref.name <> ": ") (
          call (
            client.update_cluster
              (record cluster { annotations = some (delete hibernation annotations) })))
      else pure tt

  unfoldable pub scale_up_cnpg_cluster : Exec (Ctx W) (Unit {0})
  unfolding wake_if_hibernated
  scale_up_cnpg_cluster = do
    cluster ←
        wrap_error ("failed to get CNPG Cluster " <> comp.ref.name <> ": ")
          (call (client.get_cluster namespace comp.ref.name))
    wake_if_hibernated cluster cluster.annotations

  unfoldable pub scale_down_deployment : Exec (Ctx W) (Unit {0})
  scale_down_deployment = do
    deploy ←
        wrap_error ("failed to get Deployment " <> comp.ref.name <> ": ")
          (call (client.get_deployment namespace comp.ref.name))
    if is_up deploy.replicas
        then wrap_error ("failed to scale down Deployment " <> comp.ref.name <> ": ")
            (call (client.update_deployment (record deploy { replicas = some (pos 0) })))
        else pure tt

  unfoldable pub scale_down_stateful_set : Exec (Ctx W) (Unit {0})
  scale_down_stateful_set = do
    sts ←
        wrap_error ("failed to get StatefulSet " <> comp.ref.name <> ": ")
          (call (client.get_stateful_set namespace comp.ref.name))
    if is_up sts.replicas
        then wrap_error ("failed to scale down StatefulSet " <> comp.ref.name <> ": ")
            (call (client.update_stateful_set (record sts { replicas = some (pos 0) })))
        else pure tt

  -- A nil map becomes an empty one; the annotation is set unless it is "on".
  unfoldable pub hibernate_unless_on :
      CnpgCluster → List (String × String) → Exec (Ctx W) (Unit {0})
  hibernate_unless_on cluster annotations =
      if not (is_on annotations)
      then wrap_error ("failed to hibernate CNPG Cluster " <> comp.ref.name <> ": ") (
          call (
            client.update_cluster
              (record cluster { annotations = some (insert hibernation "on" annotations) })))
      else pure tt

  unfoldable pub scale_down_cnpg_cluster : Exec (Ctx W) (Unit {0})
  unfolding hibernate_unless_on
  scale_down_cnpg_cluster = do
    cluster ←
        wrap_error ("failed to get CNPG Cluster " <> comp.ref.name <> ": ")
          (call (client.get_cluster namespace comp.ref.name))
    hibernate_unless_on cluster (Option.get_or cluster.annotations [])
