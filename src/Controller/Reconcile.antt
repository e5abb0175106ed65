-- ===== src/Controller/Reconcile.antt =====
-- `Reconcile`, `ensureFinalizer` and `reconcileDelete`.
pub mod Advance
use sleepyservice.Prelude.{
  String, Bool, true, false, Option, none, some, List, [], ◌∷◌, ◌++◌, if◌then◌else◌, ite,
  string_discrete, ltb, count, ℤ, pos,
}
use sleepyservice.Errors.{Error, api, wrapped, Result, ok, err}
use sleepyservice.Api.{SleepyService, is_waking}
use sleepyservice.Exec.{Exec, pure, gets, modify, ◌>>=◌, ◌>>◌}
use sleepyservice.Cluster.{Client, Ctx}
use sleepyservice.Controller.Scale.{RangeOrders}
use sleepyservice.Controller.Status.{update_component_statuses, update_backend_service_status}
use sleepyservice.Controller.State.{Requeue, no_requeue, reconcile_state, check_idle_timeout}
use sleepyservice.Controller.Resources.{Settings, ensure_proxy_resources}

abbrev pub finalizer_name : String
finalizer_name = "sleepy.atha.gr/finalizer"

abbrev is_zero_time : Option ℤ → Bool
is_zero_time none = true
is_zero_time (some t) = false

-- `errors.IsNotFound`, which looks through wrapped errors.
unfoldable pub is_not_found : Error → Bool
is_not_found (api not_found msg) = not_found
is_not_found (wrapped msg e) = is_not_found e
is_not_found _ = false

-- 500 ms, in nanoseconds.
abbrev pub waking_requeue : Requeue
waking_requeue = record { requeue_after = pos 500_000_000 }

module _ {W : Type 0} (client : Client W) where
  abbrev written : Ctx W → Result SleepyService × W → Result (Unit {0}) × Ctx W
  written c (ok hs, w) = (ok tt, record { hs = hs; world = w })
  written c (err e, w) = (err e, record c { world = w })

  -- A call that writes the object and reads back what the server made of it.
  unfoldable pub write_back :
      (SleepyService → W → Result SleepyService × W) → Exec (Ctx W) (Unit {0})
  write_back write c = written c (write c.hs c.world)

  unfoldable pub ensure_finalizer : Exec (Ctx W) (Unit {0})
  unfolding write_back
  ensure_finalizer = do
    hs ← gets (λ c. c.hs)
    if client.contains_finalizer finalizer_name hs.finalizers then pure tt else (do
      modify (λ c. record c {
        hs = record c.hs { finalizers = client.add_finalizer finalizer_name c.hs.finalizers };
      })
      write_back client.update_service)

  unfoldable pub reconcile_delete : Exec (Ctx W) Requeue
  unfolding write_back
  reconcile_delete = do
    modify (λ c. record c {
      hs = record c.hs { finalizers = client.remove_finalizer finalizer_name c.hs.finalizers };
    })
    write_back client.update_service
    pure no_requeue

  -- The end of `Reconcile`, behind the update of the status.
  unfoldable pub requeue : SleepyService → Exec (Ctx W) Requeue
  requeue hs = if is_waking hs.status.state then pure waking_requeue else (do
    result ← check_idle_timeout client hs
    pure (if result.1 then result.0 else no_requeue))

  -- The three steps between the resources and the update of the status.
  unfoldable pub advance : (orders orders' : RangeOrders) → Exec (Ctx W) (Unit {0})
  advance orders orders' = do
    update_component_statuses client orders
    modify (λ c. record c { hs = update_backend_service_status c.hs })
    reconcile_state client orders'

  module _ (settings : Settings) (orders orders' : RangeOrders) where
    unfoldable pub reconcile_live : Exec (Ctx W) Requeue
    unfolding write_back ensure_finalizer requeue advance
    reconcile_live = do
      ensure_finalizer
      hs ← gets (λ c. c.hs)
      ensure_proxy_resources client settings hs
      advance orders orders'
      write_back client.update_status
      hs' ← gets (λ c. c.hs)
      requeue hs'

    -- What follows the first read: a service that is not there is no error.
    unfoldable pub reconcile_read : Result SleepyService → W → Result Requeue × W
    reconcile_read (ok hs) w =
        let c : Ctx W = record { hs = hs; world = w } in
        let (r, c') =
          (if is_zero_time hs.deletion_timestamp then reconcile_live else reconcile_delete) c in
        (r, c'.world)
    reconcile_read (err e) w = (if is_not_found e then ok no_requeue else err e, w)

    unfoldable pub reconcile : (namespace name : String) → W → Result Requeue × W
    unfolding reconcile_read
    reconcile namespace name w =
        let (r, w') = client.get_service namespace name w in reconcile_read r w'
