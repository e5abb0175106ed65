-- ===== src/Controller/State/Transitions.antt =====
-- What `reconcileState` makes of the state of a service.
use sleepyservice.Prelude.{
  ◌≡◌, refl, sym, subst, ◌∙◌, ap, Bool, true, false, Option, some, inl, inr, arith, if◌then◌else◌,
  Bool-cases, ℤ,
}
use sleepyservice.Errors.{Result, ok, err}
use sleepyservice.Api.{
  SleepyService, ServiceState, unset, sleeping, waking, awake, hibernating, error,
}
use sleepyservice.Exec.{Exec, pure, gets, modify, ◌>>=◌, ◌>>◌, continue, Relates}
use sleepyservice.Cluster.{Client, Ctx, time_now}
use sleepyservice.Controller.Scale.{RangeOrders, scale_up_components, scale_down_components}
use sleepyservice.Controller.Scale.Keeps.{
  SameService, scale_up_components-keeps, scale_down_components-keeps,
}
use sleepyservice.Controller.Status.{transition}
use sleepyservice.Controller.State.{
  all_ready, Action, start_waking, continue_waking, hibernate, nothing, action_of, or_sleeping,
  set_state, act, reconcile_state,
}

-- The state machine of the service: the state after a pass that succeeds, from the desired state,
-- the state before, and whether all components are ready.
unfoldable pub next_state : (desired current : ServiceState) → Bool → ServiceState
next_state desired waking true = awake
next_state desired waking false = waking
next_state awake awake ready = awake
next_state sleeping awake ready = sleeping
next_state unset awake ready = sleeping
next_state waking awake ready = awake
next_state hibernating awake ready = awake
next_state error awake ready = awake
next_state awake unset ready = waking
next_state awake sleeping ready = waking
next_state awake hibernating ready = waking
next_state awake error ready = waking
next_state desired unset ready = sleeping
next_state desired sleeping ready = sleeping
next_state desired hibernating ready = hibernating
next_state desired error ready = error

-- What an action that succeeds makes of the state.
abbrev after_action : Action → Bool → ServiceState → ServiceState
after_action start_waking ready current = waking
after_action continue_waking ready current = if ready then awake else current
after_action hibernate ready current = sleeping
after_action nothing ready current = current

next_state-action :
    (desired current : ServiceState) (ready : Bool)
    → after_action
        (action_of (or_sleeping desired) (or_sleeping current))
        ready
        (or_sleeping current)
      ≡ next_state desired current ready
unfolding next_state action_of
next_state-action desired current ready = ground arith

abbrev pub with_state : ServiceState → Option ℤ → SleepyService → SleepyService
with_state state t hs = record hs {
  status = record hs.status { state = state; last_transition = t };
}

module _ {W : Type 0} (hs : SleepyService) (state : ServiceState) where
  -- After a success the service has this state and is otherwise as it was, but for the time of the
  -- last transition; after an error it is as it was.
  abbrev pub Settled : Result (Unit {0}) × Ctx W → Type 0
  Settled (ok u, c) = c.hs ≡ with_state state c.hs.status.last_transition hs
  Settled (err e, c) = c.hs ≡ hs

  Settled-then :
      (m k : Exec (Ctx W) (Unit {0}))
      → Relates SameService m
      → ((c : Ctx W) → c.hs ≡ hs → Settled (k c))
      → (c : Ctx W) → c.hs ≡ hs
      → Settled ((m >> k) c)
  unfolding ◌>>=◌
  Settled-then m k keeps settle c e = go (m c) (keeps.at c)
    where
      go : (o : Result (Unit {0}) × Ctx W) → o.1.hs ≡ c.hs → Settled (continue (λ _. k) o)
      go (ok u, c') same = settle c' (same ∙ e)
      go (err x, c') same = same ∙ e

  transition-Settled :
      (client : Client W) (c : Ctx W) → c.hs ≡ hs → Settled (transition client state c)
  unfolding transition ◌>>=◌ modify time_now
  transition-Settled client c e = ap (λ h. with_state state (some (client.now c.world).0) h) e

  nothing-Settled : (c : Ctx W) → hs.status.state ≡ state → c.hs ≡ hs → Settled (pure tt c)
  unfolding pure
  nothing-Settled c same e =
      e
      ∙ ap (λ s. with_state s hs.status.last_transition hs) same
      ∙ ap (λ (h : SleepyService). with_state state h.status.last_transition hs) (sym e)

module _ {W : Type 0} (client : Client W) (orders : RangeOrders) (hs : SleepyService) where
  act-Settled :
      (a : Action) (c : Ctx W)
      → c.hs ≡ hs
      → Settled hs
          (after_action a (all_ready hs.status.components) hs.status.state)
          (act client orders hs a c)
  unfolding act
  act-Settled start_waking c e =
      Settled-then hs waking (scale_up_components client orders hs) (transition client waking)
        (scale_up_components-keeps client hs orders) (transition-Settled hs waking client) c e
  act-Settled continue_waking c e = elim (Bool-cases (all_ready hs.status.components)) [
    | inl ready ↦ rw ready (
        Settled-then hs awake (scale_up_components client orders hs) (transition client awake)
          (scale_up_components-keeps client hs orders) (transition-Settled hs awake client) c e)
    | inr waits ↦ rw waits (
        Settled-then hs hs.status.state (scale_up_components client orders hs) (pure tt)
          (scale_up_components-keeps client hs orders)
          (λ c' e'. nothing-Settled hs hs.status.state c' refl e') c e)
  ]
  act-Settled hibernate c e =
      Settled-then hs sleeping (scale_down_components client hs hs.spec.components)
        (transition client sleeping) (scale_down_components-keeps client hs hs.spec.components)
        (transition-Settled hs sleeping client) c e
  act-Settled nothing c e = nothing-Settled hs hs.status.state c refl e

-- Every pass of `reconcileState`: on success the new state is `next_state` of the desired state,
-- the old one and the readiness of all components; on an error the state is the old one, or
-- Sleeping if it was not set. Of the object nothing else changes but the time of the transition.
pub reconcile_state-next_state :
    {W : Type 0} (client : Client W) (orders : RangeOrders) (c : Ctx W)
    → let hs = set_state (or_sleeping c.hs.status.state) c.hs in
      Settled hs
        (next_state c.hs.status.desired_state c.hs.status.state (all_ready c.hs.status.components))
        (reconcile_state client orders c)
unfolding reconcile_state set_state ◌>>=◌ modify gets
reconcile_state-next_state client orders c =
    let hs = set_state (or_sleeping c.hs.status.state) c.hs in
    let c' = record c { hs = hs } in
    subst
      (λ s.
        Settled hs s (
          act client orders hs (action_of (or_sleeping hs.status.desired_state) hs.status.state)
            c'))
      (next_state-action c.hs.status.desired_state c.hs.status.state
        (all_ready c.hs.status.components))
      (act-Settled client orders hs
        (action_of (or_sleeping hs.status.desired_state) hs.status.state) c' refl)
