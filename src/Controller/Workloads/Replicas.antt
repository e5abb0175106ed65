-- ===== src/Controller/Workloads/Replicas.antt =====
-- What scaling a Deployment or a StatefulSet up or down leaves, on an API that reads what was
-- written.
use sleepyservice.Prelude.{
  ◌≡◌, refl, sym, ◌∙◌, ap, subst, String, Bool, false, Option, some, ◌⊎◌, inl, inr, Bool-cases,
  if◌then◌else◌, ◌<>◌, ℤ, pos, is_zero,
}
use sleepyservice.Errors.{Error, Result, ok, err, wrapped}
use sleepyservice.Api.{Component}
use sleepyservice.Exec.{Exec, pure, wrap_error, ◌>>=◌, continue, rewrapped}
use sleepyservice.Cluster.{Workload, Client, Ctx, call}
use sleepyservice.Controller.Workloads.{
  is_down, is_up, wanted_replicas, scale_up_deployment, scale_up_stateful_set,
  scale_down_deployment, scale_down_stateful_set,
}

abbrev pub with_replicas : Workload → ℤ → Workload
with_replicas d n = record d { replicas = some n }

-- Of one workload: a read changes nothing, and a write of other replicas is read back.
pub record IsStored {W : Type 0} (get : W → Result Workload × W)
    (put : Workload → W → Result (Unit {0}) × W) : Type 0 where
  pub read : (w : W) → (get w).1 ≡ w
  pub written :
      (d : Workload) (n : ℤ) (w : W)
      → (get w).0 ≡ ok d
      → (put (with_replicas d n) w).0 ≡ ok tt
      → (get (put (with_replicas d n) w).1).0 ≡ ok (with_replicas d n)

module _ {W : Type 0} (get : W → Result Workload × W)
    (put : Workload → W → Result (Unit {0}) × W) where
  -- A success leaves a workload whose replicas satisfy `P`; a failure is one of the read or of the
  -- write, and says which.
  abbrev pub Rescaled :
      String → String → (Option ℤ → Type 0) → W → Result (Unit {0}) × Ctx W → Type 0
  Rescaled no_get no_put P w (ok u, c) = (d : Workload) × ((get c.world).0 ≡ ok d) × P d.replicas
  Rescaled no_get no_put P w (err e, c) =
      ((x : Error) × ((get w).0 ≡ err x) × (e ≡ wrapped no_get x))
      ⊎ ((d : Workload) × (x : Error) × ((put d w).0 ≡ err x) × (e ≡ wrapped no_put x))

  module _ (stored : IsStored get put) (no_get no_put : String) (test : Option ℤ → Bool)
      (n : ℤ) where
    rescale_read : Workload → Exec (Ctx W) (Unit {0})
    rescale_read d =
        if test d.replicas then wrap_error no_put (call (put (with_replicas d n))) else pure tt

    -- The steps that the four functions have in common.
    rescale : Exec (Ctx W) (Unit {0})
    rescale = wrap_error no_get (call get) >>= rescale_read

    module _ (P : Option ℤ → Type 0) (new : P (some n))
        (old : (r : Option ℤ) → test r ≡ false → P r) where
      rescale_write :
          (d : Workload) (c : Ctx W) (o : Result (Unit {0}) × W)
          → put (with_replicas d n) c.world ≡ o
          → (get c.world).0 ≡ ok d
          → Rescaled no_get no_put P c.world (rewrapped no_put (o.0, record c { world = o.1 }))
      rescale_write d c (ok u, w) e found = (
        with_replicas d n,
        ap (λ (o : Result (Unit {0}) × W). (get o.1).0) (sym e)
            ∙ stored.written d n c.world found (ap (λ (o : Result (Unit {0}) × W). o.0) e),
        new,
      )
      rescale_write d c (err x, w) e found =
          inr (with_replicas d n, x, ap (λ (o : Result (Unit {0}) × W). o.0) e, refl)

      rescale_read_lem :
          (d : Workload) (c : Ctx W)
          → (get c.world).0 ≡ ok d
          → Rescaled no_get no_put P c.world (rescale_read d c)
      unfolding rescale_read wrap_error call pure
      rescale_read_lem d c found = elim (Bool-cases (test d.replicas)) [
        | inl now ↦ rw now (rescale_write d c (put (with_replicas d n) c.world) refl found)
        | inr never ↦ rw never (d, found, old d.replicas never)
      ]

      rescale_lem : (c : Ctx W) → Rescaled no_get no_put P c.world (rescale c)
      unfolding rescale ◌>>=◌ wrap_error call
      rescale_lem c = go (get c.world) refl
        where
          go :
              (o : Result Workload × W)
              → get c.world ≡ o
              → Rescaled no_get no_put P c.world
                  (continue rescale_read (rewrapped no_get (o.0, record c { world = o.1 })))
          go (ok d, w) e =
              subst (λ v. Rescaled no_get no_put P v (rescale_read d (record c { world = w }))) same
                (rescale_read_lem d (record c { world = w })
                  (ap (λ v. (get v).0) same ∙ ap (λ (o : Result Workload × W). o.0) e))
            where
              same : w ≡ c.world
              same = sym (ap (λ (o : Result Workload × W). o.1) e) ∙ stored.read c.world
          go (err x, w) e = inl (x, ap (λ (o : Result Workload × W). o.0) e, refl)

module _ {W : Type 0} (client : Client W) (namespace : String) (comp : Component) where
  -- On an API that reads what was written, `scaleUpDeployment` of a component whose replicas are not
  -- set to 0 fails only if the read or the write of the Deployment does, and says which; else the
  -- Deployment is then there with replicas that are set and not 0.
  pub scale_up_deployment-Rescaled :
      IsStored (client.get_deployment namespace comp.ref.name) client.update_deployment
      → is_zero (wanted_replicas comp) ≡ false
      → (c : Ctx W)
      → Rescaled
          (client.get_deployment namespace comp.ref.name)
          client.update_deployment
          ("failed to get Deployment " <> comp.ref.name <> ": ")
          ("failed to scale up Deployment " <> comp.ref.name <> ": ")
          (λ r. is_down r ≡ false)
          c.world
          (scale_up_deployment client namespace comp c)
  unfolding scale_up_deployment rescale rescale_read
  scale_up_deployment-Rescaled stored wanted c =
      rescale_lem (client.get_deployment namespace comp.ref.name) client.update_deployment stored
        ("failed to get Deployment " <> comp.ref.name <> ": ")
        ("failed to scale up Deployment " <> comp.ref.name <> ": ") is_down (wanted_replicas comp)
        (λ r. is_down r ≡ false) wanted (λ r h. h) c

  -- On an API that reads what was written, `scaleDownDeployment` fails only if the read or the write
  -- of the Deployment does, and says which; else the Deployment is then there with replicas
  -- that are not set or not above 0.
  pub scale_down_deployment-Rescaled :
      IsStored (client.get_deployment namespace comp.ref.name) client.update_deployment
      → (c : Ctx W)
      → Rescaled
          (client.get_deployment namespace comp.ref.name)
          client.update_deployment
          ("failed to get Deployment " <> comp.ref.name <> ": ")
          ("failed to scale down Deployment " <> comp.ref.name <> ": ")
          (λ r. is_up r ≡ false)
          c.world
          (scale_down_deployment client namespace comp c)
  unfolding scale_down_deployment rescale rescale_read
  scale_down_deployment-Rescaled stored c =
      rescale_lem (client.get_deployment namespace comp.ref.name) client.update_deployment stored
        ("failed to get Deployment " <> comp.ref.name <> ": ")
        ("failed to scale down Deployment " <> comp.ref.name <> ": ") is_up (pos 0)
        (λ r. is_up r ≡ false) refl (λ r h. h) c

  -- On an API that reads what was written, `scaleUpStatefulSet` of a component whose replicas are not
  -- set to 0 fails only if the read or the write of the StatefulSet does, and says which; else the
  -- StatefulSet is then there with replicas that are set and not 0.
  pub scale_up_stateful_set-Rescaled :
      IsStored (client.get_stateful_set namespace comp.ref.name) client.update_stateful_set
      → is_zero (wanted_replicas comp) ≡ false
      → (c : Ctx W)
      → Rescaled
          (client.get_stateful_set namespace comp.ref.name)
          client.update_stateful_set
          ("failed to get StatefulSet " <> comp.ref.name <> ": ")
          ("failed to scale up StatefulSet " <> comp.ref.name <> ": ")
          (λ r. is_down r ≡ false)
          c.world
          (scale_up_stateful_set client namespace comp c)
  unfolding scale_up_stateful_set rescale rescale_read
  scale_up_stateful_set-Rescaled stored wanted c =
      rescale_lem (client.get_stateful_set namespace comp.ref.name) client.update_stateful_set
        stored ("failed to get StatefulSet " <> comp.ref.name <> ": ")
        ("failed to scale up StatefulSet " <> comp.ref.name <> ": ") is_down (wanted_replicas comp)
        (λ r. is_down r ≡ false) wanted (λ r h. h) c

  -- On an API that reads what was written, `scaleDownStatefulSet` fails only if the read or the write
  -- of the StatefulSet does, and says which; else the StatefulSet is then there with replicas
  -- that are not set or not above 0.
  pub scale_down_stateful_set-Rescaled :
      IsStored (client.get_stateful_set namespace comp.ref.name) client.update_stateful_set
      → (c : Ctx W)
      → Rescaled
          (client.get_stateful_set namespace comp.ref.name)
          client.update_stateful_set
          ("failed to get StatefulSet " <> comp.ref.name <> ": ")
          ("failed to scale down StatefulSet " <> comp.ref.name <> ": ")
          (λ r. is_up r ≡ false)
          c.world
          (scale_down_stateful_set client namespace comp c)
  unfolding scale_down_stateful_set rescale rescale_read
  scale_down_stateful_set-Rescaled stored c =
      rescale_lem (client.get_stateful_set namespace comp.ref.name) client.update_stateful_set
        stored ("failed to get StatefulSet " <> comp.ref.name <> ": ")
        ("failed to scale down StatefulSet " <> comp.ref.name <> ": ") is_up (pos 0)
        (λ r. is_up r ≡ false) refl (λ r h. h) c
