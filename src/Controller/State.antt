-- ===== src/Controller/State.antt =====
-- `reconcileState`, `checkIdleTimeout`, and the order of the steps of `Reconcile`.
pub mod Transitions
use sleepyservice.Prelude.{
  ◌≡◌, String, Bool, true, false, not, ◌&&◌, ◌||◌, Option, none, some, List, [], ◌∷◌, if◌then◌else◌,
  ℤ, pos, negsuc, ◌-ℤ◌, ltb_ℤ, int64,
}
use sleepyservice.Api.{
  SleepyService, ComponentStatus, ServiceState, unset, sleeping, waking, awake, hibernating, error,
  is_awake, is_waking, is_sleeping, is_unset,
}
use sleepyservice.Exec.{Exec, pure, gets, modify, ◌>>=◌, ◌>>◌}
use sleepyservice.Cluster.{Client, Ctx, time_now}
use sleepyservice.Controller.Scale.{RangeOrders, scale_up_components, scale_down_components}
use sleepyservice.Controller.Status.{transition}

-- The loop over `hs.Status.Components` that looks for one which is not ready.
unfoldable pub all_ready : List ComponentStatus → Bool
all_ready [] = true
all_ready (comp ∷ components) =
    let rest = all_ready components in if comp.ready then rest else false

-- Which case of the switch is taken.
pub data Action : Type 0 where
  start_waking continue_waking hibernate nothing : Action

unfoldable pub action_of : ServiceState → ServiceState → Action
action_of desired current =
    if is_awake desired && not (is_awake current) && not (is_waking current)
    then start_waking
    else if is_waking current
    then continue_waking
    else if is_sleeping desired && is_awake current
    then hibernate
    else nothing

-- No state set: default to Sleeping.
abbrev pub or_sleeping : ServiceState → ServiceState
or_sleeping unset = sleeping
or_sleeping state = state

unfoldable pub set_state : ServiceState → SleepyService → SleepyService
set_state state hs = record hs { status = record hs.status { state = state } }

module _ {W : Type 0} (client : Client W) (orders : RangeOrders) where
  unfoldable pub act : SleepyService → Action → Exec (Ctx W) (Unit {0})
  act hs start_waking = do scale_up_components client orders hs; transition client waking
  act hs continue_waking = do
    scale_up_components client orders hs
    if all_ready hs.status.components then transition client awake else pure tt
  act hs hibernate = do
    scale_down_components client hs hs.spec.components
    transition client sleeping
  act hs nothing = pure tt

  unfoldable pub reconcile_state : Exec (Ctx W) (Unit {0})
  unfolding act action_of set_state
  reconcile_state = do
    modify (λ c. record c { hs = set_state (or_sleeping c.hs.status.state) c.hs })
    hs ← gets (λ c. c.hs)
    act hs (action_of (or_sleeping hs.status.desired_state) hs.status.state)

-- `ctrl.Result`: when to come back, in nanoseconds.
pub record Requeue : Type 0 where
  pub requeue_after : ℤ

abbrev pub no_requeue : Requeue
no_requeue = record { requeue_after = pos 0 }

-- `checkIdleTimeout` behind its guards, for a service that has been idle for so long.
-- `reconcileHibernate` returns the empty result.
unfoldable pub idle_result : (timeout idle : ℤ) → Requeue × Bool
idle_result timeout idle =
    if ltb_ℤ timeout idle
    then (no_requeue, true)
    else (record { requeue_after = int64 (timeout -ℤ idle) }, true)

-- `time.Since`, which stops at the ends of the range of a duration.
unfoldable pub since : (now last : ℤ) → ℤ
since now last =
    if ltb_ℤ (now -ℤ last) (negsuc 9_223_372_036_854_775_807)
    then negsuc 9_223_372_036_854_775_807
    else if ltb_ℤ (pos 9_223_372_036_854_775_807) (now -ℤ last)
    then pos 9_223_372_036_854_775_807
    else now -ℤ last

module _ {W : Type 0} (client : Client W) where
  unfoldable pub check_last_activity : SleepyService → Option ℤ → Exec (Ctx W) (Requeue × Bool)
  check_last_activity hs none = pure (no_requeue, false)
  check_last_activity hs (some last) = do
    t ← time_now client
    pure (idle_result hs.spec.idle_timeout (since t last))

  unfoldable pub check_idle_timeout : SleepyService → Exec (Ctx W) (Requeue × Bool)
  unfolding check_last_activity idle_result since
  check_idle_timeout hs =
      if not (ltb_ℤ (pos 0) hs.spec.idle_timeout) || not (is_awake hs.status.state)
      then pure (no_requeue, false)
      else check_last_activity hs hs.status.last_activity
