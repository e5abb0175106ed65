-- ===== src/Controller/Status/Observed.antt =====
-- What `updateComponentStatuses` writes.
use sleepyservice.Prelude.{
  ◌≡◌, refl, sym, ◌∙◌, ap, String, Bool, true, false, Option, none, some, List, [], ◌∷◌, ◌++◌,
  append_assoc, append-nil, arith, if◌then◌else◌, Bool-cases, inl, inr,
}
use sleepyservice.Errors.{Result, ok, err}
use sleepyservice.Api.{
  SleepyService, Component, ComponentType, ComponentStatus, ServiceState, sleeping, awake, is_awake,
  deployment, stateful_set, cnpg_cluster,
}
use sleepyservice.Exec.{
  Exec, pure, gets, modify, attempt, ◌>>=◌, ◌>>◌, continue, Relates, Relates-bind, Relates-pure,
}
use sleepyservice.Cluster.{Client, Ctx, time_now}
use sleepyservice.Controller.Graph.{build_dependency_graph}
use sleepyservice.Controller.Graph.Spec.{names}
use sleepyservice.Controller.Readiness.{
  Report, check_deployment_ready, check_stateful_set_ready, check_cnpg_ready,
}
use sleepyservice.Controller.Scale.{RangeOrders, namespace_of}
use sleepyservice.Controller.Scale.Keeps.{SameService, same_service, Keeps-call}
use sleepyservice.Controller.Status.{
  outcome, decorate, graph_levels, Statuses, check_component, component_statuses, transition,
  overall_state, set_components, update_component_statuses,
}
use sleepyservice.Controller.State.{all_ready}

abbrev pub status_names : List ComponentStatus → List String
status_names [] = []
status_names (s ∷ l) = s.name ∷ status_names l

-- The state that the components show: Awake if all are ready, else no longer Awake.
abbrev pub observed_state : Bool → ServiceState → ServiceState
observed_state true state = awake
observed_state false state = if is_awake state then sleeping else state

status_names-append :
    (l k : List ComponentStatus) → status_names (l ++ k) ≡ status_names l ++ status_names k
status_names-append [] k = refl
status_names-append (s ∷ l) k = ap (λ t. s.name ∷ t) (status_names-append l k)

all_ready-append_one :
    (l : List ComponentStatus) (s : ComponentStatus)
    → all_ready (l ++ s ∷ []) ≡ (if s.ready then all_ready l else false)
unfolding all_ready
all_ready-append_one [] s = refl
all_ready-append_one (x ∷ l) s = ground (arith, all_ready-append_one l s)

decorate-name :
    (hs : SleepyService) (levels : Option (List (List String))) (l : List ComponentStatus)
    (comp : Component) (r : Report)
    → (decorate hs levels l comp r).name ≡ comp.name
unfolding decorate
decorate-name hs none l comp (ready, message) = refl
decorate-name hs (some levels) l comp (ready, message) = refl

module _ {W : Type 0} (client : Client W) (hs : SleepyService) where
  check_component-keeps : (comp : Component) → Relates SameService (check_component client hs comp)
  unfolding check_component check_deployment_ready check_stateful_set_ready check_cnpg_ready
  check_component-keeps comp = by_type comp.type
    where
      by_type :
          (t : ComponentType)
          → Relates SameService (elim t [
            | deployment ↦ check_deployment_ready client (namespace_of hs comp) comp.ref.name
            | stateful_set ↦ check_stateful_set_ready client (namespace_of hs comp) comp.ref.name
            | cnpg_cluster ↦ check_cnpg_ready client (namespace_of hs comp) comp.ref.name
          ])
      by_type deployment = search (same_service, Keeps-call, Relates-pure, Relates-bind)
      by_type stateful_set = search (same_service, Keeps-call, Relates-pure, Relates-bind)
      by_type cnpg_cluster = search (same_service, Keeps-call, Relates-pure, Relates-bind)

  module _ (levels : Option (List (List String))) where
    -- The loop never fails; it adds one status for each component, in their order.
    abbrev Collected : List Component → Statuses → SleepyService → Result Statuses × Ctx W → Type 0
    Collected comps acc held (ok acc', c) =
        (c.hs ≡ held)
        × (status_names acc'.list ≡ status_names acc.list ++ names comps)
        × (acc'.all_ready ≡ all_ready acc'.list)
    Collected comps acc held (err e, c) = ⊥

    abbrev grown : Statuses → ComponentStatus → Statuses
    grown acc status = record {
      list = acc.list ++ status ∷ [];
      all_ready = if status.ready then acc.all_ready else false;
    }

    Collected-cons :
        (comp : Component) (comps : List Component) (acc : Statuses) (r : Report)
        {held held' : SleepyService} (o : Result Statuses × Ctx W)
        → held' ≡ held
        → Collected comps (grown acc (decorate hs levels acc.list comp r)) held' o
        → Collected (comp ∷ comps) acc held o
    Collected-cons comp comps acc r (ok acc', c) same (h, n, a) = (
      h ∙ same,
      n
          ∙ ap (λ l. l ++ names comps)
              (status_names-append acc.list (decorate hs levels acc.list comp r ∷ [])
                ∙ ap (λ x. status_names acc.list ++ x ∷ [])
                    (decorate-name hs levels acc.list comp r))
          ∙ append_assoc (status_names acc.list) (comp.name ∷ []) (names comps),
      a,
    )
    Collected-cons comp comps acc r (err e, c) same h = h

    component_statuses-Collected :
        (comps : List Component) (acc : Statuses) (c : Ctx W)
        → acc.all_ready ≡ all_ready acc.list
        → Collected comps acc c.hs (component_statuses client hs levels comps acc c)
    unfolding component_statuses ◌>>=◌ attempt pure
    component_statuses-Collected [] acc c e = (refl, sym (append-nil (status_names acc.list)), e)
    component_statuses-Collected (comp ∷ comps) acc c e =
        let (r, c') = check_component client hs comp c in
        let status = decorate hs levels acc.list comp (outcome r) in
        Collected-cons comp comps acc (outcome r)
          (component_statuses client hs levels comps (grown acc status) c')
          ((check_component-keeps comp).at c)
          (component_statuses-Collected comps (grown acc status) c'
            (rw (all_ready-append_one acc.list status, e)))

-- The status after `updateComponentStatuses`, beside the one before.
pub record Observation (before after : SleepyService) : Type 0 where
  pub same_spec : after.spec ≡ before.spec
  pub same_desired : after.status.desired_state ≡ before.status.desired_state
  pub one_each : status_names after.status.components ≡ names before.spec.components
  pub state :
      after.status.state ≡ observed_state (all_ready after.status.components) before.status.state

-- A call that succeeds and leaves such a status.
abbrev pub Observes : {W : Type 0} → SleepyService → Result (Unit {0}) × Ctx W → Type 0
Observes before (ok u, c) = Observation before c.hs
Observes before (err e, c) = ⊥

module _ {W : Type 0} (client : Client W) (before : SleepyService) (list : List ComponentStatus)
    (b : Bool) (n : status_names list ≡ names before.spec.components) (e : b ≡ all_ready list)
    (c : Ctx W)
    (h : c.hs ≡ record before { status = record before.status { components = list } }) where
  seen :
      (comps : List ComponentStatus)
      → comps ≡ list
      → observed_state b before.status.state ≡ observed_state (all_ready comps) before.status.state
  seen comps k = ap (λ (x : Bool). observed_state x before.status.state) (e ∙ ap all_ready (sym k))

  abbrev comps_eq : c.hs.status.components ≡ list
  comps_eq = ap (λ (x : SleepyService). x.status.components) h

  kept-Observes :
      before.status.state ≡ observed_state b before.status.state → Observes before (pure tt c)
  unfolding pure
  kept-Observes same = record {
    same_spec = ap (λ (x : SleepyService). x.spec) h;
    same_desired = ap (λ (x : SleepyService). x.status.desired_state) h;
    one_each = ap status_names comps_eq ∙ n;
    state =
        ap (λ (x : SleepyService). x.status.state) h ∙ same ∙ seen c.hs.status.components comps_eq;
  }

  moved-Observes :
      (state : ServiceState)
      → state ≡ observed_state b before.status.state
      → Observes before (transition client state c)
  unfolding transition time_now modify ◌>>=◌
  moved-Observes state same = record {
    same_spec = ap (λ (x : SleepyService). x.spec) h;
    same_desired = ap (λ (x : SleepyService). x.status.desired_state) h;
    one_each = ap status_names comps_eq ∙ n;
    state = same ∙ seen c.hs.status.components comps_eq;
  }

overall-Observes :
    {W : Type 0} (client : Client W) (before : SleepyService) (list : List ComponentStatus)
    (b : Bool)
    → status_names list ≡ names before.spec.components
    → b ≡ all_ready list
    → (c : Ctx W) → c.hs ≡ record before { status = record before.status { components = list } }
    → Observes before (overall_state client b before.status.state c)
unfolding overall_state
overall-Observes client before list true n e c h =
    elim (Bool-cases (is_awake before.status.state)) [
      | inl up ↦ rw up (kept-Observes client before list true n e c h (ground arith))
      | inr down ↦ rw down (moved-Observes client before list true n e c h awake refl)
    ]
overall-Observes client before list false n e c h =
    elim (Bool-cases (is_awake before.status.state)) [
      | inl up ↦ rw up (moved-Observes client before list false n e c h sleeping (rw up))
      | inr down ↦ rw down (kept-Observes client before list false n e c h (rw down))
    ]

-- `updateComponentStatuses` never fails, whatever the API answers: it writes one status for each
-- component, in the order of the specification, and sets the state to Awake if all of these are
-- ready, and from Awake to Sleeping if not; the specification and the desired state stay.
pub update_component_statuses-Observes :
    {W : Type 0} (client : Client W) (orders : RangeOrders) (c : Ctx W)
    → Observes c.hs (update_component_statuses client orders c)
unfolding update_component_statuses ◌>>=◌ gets set_components modify
update_component_statuses-Observes {W} client orders c =
    go (component_statuses client c.hs levels c.hs.spec.components start c) (
      component_statuses-Collected client c.hs levels c.hs.spec.components start c
        (unfold all_ready in refl))
  where
    levels : Option (List (List String))
    levels = graph_levels orders (build_dependency_graph orders.validation c.hs.spec.components)

    start : Statuses
    start = record { list = []; all_ready = true }

    finish : Statuses → Exec (Ctx W) (Unit {0})
    finish acc =
        set_components client acc.list >> overall_state client acc.all_ready c.hs.status.state

    go :
        (o : Result Statuses × Ctx W)
        → Collected client c.hs levels c.hs.spec.components start c.hs o
        → Observes c.hs (continue finish o)
    go (ok acc, c') (same, n, a) =
        overall-Observes client c.hs acc.list acc.all_ready n a
          (record c' {
            hs = record c'.hs { status = record c'.hs.status { components = acc.list } };
          })
          (ap
            (λ (x : SleepyService). record x { status = record x.status { components = acc.list } })
            same)
    go (err e, c') h = h
