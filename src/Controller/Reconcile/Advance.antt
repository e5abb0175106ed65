-- ===== src/Controller/Reconcile/Advance.antt =====
-- One pass of `Reconcile` over the status: what the controller makes of the state of a service.
use sleepyservice.Prelude.{
  ◌≡◌, refl, sym, ◌∙◌, ap, Bool, Option, none, some, List, arith, if◌then◌else◌, ◌<>◌,
}
use sleepyservice.Errors.{Result, ok, err}
use sleepyservice.Api.{
  SleepyService, BackendServiceSpec, ServiceState, ComponentStatus, unset, sleeping, waking, awake,
  hibernating, error,
}
use sleepyservice.Exec.{Exec, modify, ◌>>=◌, ◌>>◌, continue}
use sleepyservice.Cluster.{Client, Ctx}
use sleepyservice.Controller.Graph.Spec.{names}
use sleepyservice.Controller.Scale.{RangeOrders}
use sleepyservice.Controller.Status.{update_component_statuses, update_backend_service_status}
use sleepyservice.Controller.Status.Observed.{
  Observation, Observes, observed_state, status_names, update_component_statuses-Observes,
}
use sleepyservice.Controller.State.{all_ready, or_sleeping, set_state, reconcile_state}
use sleepyservice.Controller.State.Transitions.{next_state, Settled, reconcile_state-next_state}
use sleepyservice.Controller.Reconcile.{advance}

-- Where a service falls asleep: what is awake sleeps, a wake that has begun goes on.
asleep : ServiceState → ServiceState
asleep waking = waking
asleep hibernating = hibernating
asleep error = error
asleep unset = sleeping
asleep sleeping = sleeping
asleep awake = sleeping

-- The state after a pass, from the desired state, the state before and whether all components are
-- ready. Towards Awake a service is Awake if they are, and else Waking, wherever it comes from.
-- Towards Sleeping it is Sleeping if they are. The other desired states ask for nothing.
pub target : (desired before : ServiceState) → Bool → ServiceState
target awake before ready = if ready then awake else waking
target sleeping before ready = if ready then sleeping else asleep before
target unset before ready = if ready then sleeping else asleep before
target waking before ready = if ready then awake else asleep before
target hibernating before ready = if ready then awake else asleep before
target error before ready = if ready then awake else asleep before

target-next_state :
    (desired before : ServiceState) (ready : Bool)
    → next_state desired (observed_state ready before) ready ≡ target desired before ready
unfolding next_state target asleep
target-next_state desired before ready = ground arith

-- The statuses are new, one for each component, and the state follows from them.
pub record Advanced (before after : SleepyService) : Type 0 where
  pub one_each : status_names after.status.components ≡ names before.spec.components
  pub same_spec : after.spec ≡ before.spec
  pub state :
      after.status.state
      ≡ target before.status.desired_state before.status.state (all_ready after.status.components)

abbrev pub Advances : {W : Type 0} → SleepyService → Result (Unit {0}) × Ctx W → Type 0
Advances before (ok u, c) = Advanced before c.hs
Advances before (err e, c) = Unit

-- What the name of the backend Service leaves as it was.
record Kept (hs q : SleepyService) : Type 0 where
  components : q.status.components ≡ hs.status.components
  desired : q.status.desired_state ≡ hs.status.desired_state
  state : q.status.state ≡ hs.status.state
  spec : q.spec ≡ hs.spec

update_backend_service_status-Kept :
    (hs : SleepyService) → Kept hs (update_backend_service_status hs)
unfolding update_backend_service_status
update_backend_service_status-Kept hs = by_backend hs.spec.backend_service
  where
    by_backend :
        (b : Option BackendServiceSpec)
        → Kept hs (elim b [
          | none ↦ hs
          | some backend ↦ record hs {
            status = record hs.status { backend_service = hs.name <> "-actual" };
          }
        ])
    by_backend none = record { components = refl; desired = refl; state = refl; spec = refl }
    by_backend (some backend) = record {
      components = refl;
      desired = refl;
      state = refl;
      spec = refl;
    }

state_eq :
    (before hs q : SleepyService) (comps : List ComponentStatus) (new : ServiceState)
    → Observation before hs
    → Kept hs q
    → comps ≡ q.status.components
    → new ≡ next_state q.status.desired_state q.status.state (all_ready q.status.components)
    → new ≡ target before.status.desired_state before.status.state (all_ready comps)
state_eq before hs q comps new seen kept same e =
    e
    ∙ (λ i. next_state (desired i) (state i) (all_ready (kept.components i)))
    ∙ target-next_state before.status.desired_state before.status.state
        (all_ready hs.status.components)
    ∙ ap (λ l. target before.status.desired_state before.status.state (all_ready l))
        (sym kept.components ∙ sym same)
  where
    desired : q.status.desired_state ≡ before.status.desired_state
    desired = kept.desired ∙ seen.same_desired

    state : q.status.state ≡ observed_state (all_ready hs.status.components) before.status.state
    state = kept.state ∙ seen.state

settled :
    {W : Type 0} (before hs q : SleepyService) (o : Result (Unit {0}) × Ctx W)
    (state : ServiceState)
    → Observation before hs
    → Kept hs q
    → Settled
        (set_state state q)
        (next_state q.status.desired_state q.status.state (all_ready q.status.components))
        o
    → Advances before o
unfolding set_state
settled before hs q (err e, c) state seen kept h = tt
settled before hs q (ok u, c) state seen kept h = record {
  one_each = ap status_names (comps ∙ kept.components) ∙ seen.one_each;
  same_spec = ap (λ (x : SleepyService). x.spec) h ∙ kept.spec ∙ seen.same_spec;
  state =
      state_eq before hs q c.hs.status.components c.hs.status.state seen kept comps
        (ap (λ (x : SleepyService). x.status.state) h);
}
  where
    comps : c.hs.status.components ≡ q.status.components
    comps = ap (λ (x : SleepyService). x.status.components) h

-- One pass of `Reconcile` over the status, whatever the API answers: if it succeeds, there is one
-- status for each component, in their order, the specification is as it was, and the new state is
-- the `target` of the desired state, the state before the pass, and the new statuses' readiness.
pub advance-Advances :
    {W : Type 0} (client : Client W) (orders orders' : RangeOrders) (c : Ctx W)
    → Advances c.hs (advance client orders orders' c)
unfolding advance ◌>>=◌ modify
advance-Advances {W} client orders orders' c =
    go (update_component_statuses client orders c)
      (update_component_statuses-Observes client orders c)
  where
    rest : Exec (Ctx W) (Unit {0})
    rest =
        modify (λ c. record c { hs = update_backend_service_status c.hs })
        >> reconcile_state client orders'

    go : (o : Result (Unit {0}) × Ctx W) → Observes c.hs o → Advances c.hs (continue (λ _. rest) o)
    go (err e, c') h = tt
    go (ok u, c') h =
        let q = update_backend_service_status c'.hs in
        settled c.hs c'.hs q (reconcile_state client orders' (record c' { hs = q }))
          (or_sleeping q.status.state) h (update_backend_service_status-Kept c'.hs)
          (reconcile_state-next_state client orders' (record c' { hs = q }))
