-- ===== src/Proxy/Wake/Outcome.antt =====
-- How a wake and a hibernation end, and what all operations of the proxy keep.
use sleepyservice.Prelude.{
  ℕ, suc, ◌≡◌, refl, true, false, Option, none, some, List, [], ◌∷◌, arith, Bool-cases, inl, inr,
  ◌⊎◌, ℤ, String,
}
use sleepyservice.Errors.{Result, ok, err}
use sleepyservice.Api.{ServiceState}
use sleepyservice.Kubernetes.Waiting.{Report, Waited}
use sleepyservice.Proxy.Defs.{
  State, sleeping, waking, awake, Proxy, update_status, check_and_update_state, is_sleeping,
}
use sleepyservice.Proxy.Requests.{port_handler}
use sleepyservice.Proxy.Wake.{
  claim, on_wake_progress, on_reports, request_failed, after_wait, after_request, trigger_wake,
  hibernate, idle_tick,
}

-- The status that clients are shown is that of the proxy's state.
abbrev pub IsConsistent : Proxy → Type 0
IsConsistent p = p.wake_status.state ≡ p.state

update_status-IsConsistent :
    (now : ℤ) (s : State) (m : String) (n : ℕ) (p : Proxy)
    → IsConsistent (update_status now s m n p)
unfolding update_status
update_status-IsConsistent now sleeping m n p = refl
update_status-IsConsistent now waking m n p = refl
update_status-IsConsistent now awake m n p = refl

state-update_status :
    (now : ℤ) (s : State) (m : String) (n : ℕ) (p : Proxy) → (update_status now s m n p).state ≡ s
unfolding update_status
state-update_status now s m n p = refl

progress-update_status :
    (now : ℤ) (s : State) (m : String) (n : ℕ) (p : Proxy)
    → (update_status now s m n p).wake_status.progress ≡ n
unfolding update_status
progress-update_status now sleeping m n p = refl
progress-update_status now waking m n p = refl
progress-update_status now awake m n p = refl

activity-update_status :
    (now : ℤ) (s : State) (m : String) (n : ℕ) (p : Proxy)
    → (update_status now s m n p).last_activity ≡ p.last_activity
unfolding update_status
activity-update_status now s m n p = refl

on_reports-waking :
    (now : ℤ) (l : List Report) (p : Proxy) → p.state ≡ waking → (on_reports now l p).state ≡ waking
unfolding on_reports
on_reports-waking now [] p h = h
on_reports-waking now (r ∷ l) p h =
    on_reports-waking now l (on_wake_progress now r p)
      (unfold on_wake_progress in state-update_status _ _ _ _ _)

-- The state and the progress in which `triggerWake` ends, from what the cluster answered.
pub wake_result : Result (Unit {0}) → Option (Result (Unit {0})) → State
wake_result (err e) waited = sleeping
wake_result (ok u) none = waking
wake_result (ok u) (some (err e)) = sleeping
wake_result (ok u) (some (ok v)) = awake

after_request-state :
    (now : ℤ) (requested : Result (Unit {0})) (waited : Waited) (p : Proxy)
    → (after_request now requested waited p).state ≡ wake_result requested waited.result
unfolding after_request wake_result
after_request-state now (err e) waited p = unfold request_failed in state-update_status _ _ _ _ _
after_request-state now (ok u) waited p = go waited.result
  where
    q : Proxy
    q =
        on_reports now waited.reports
          (update_status now waking "Wake-up requested, waiting for controller..." 10 p)

    go : (r : Option (Result (Unit {0}))) → (after_wait now r q).state ≡ wake_result (ok u) r
    go none = on_reports-waking now waited.reports _ (state-update_status _ _ _ _ _)
    go (some (err e)) = state-update_status _ _ _ _ _
    go (some (ok v)) = state-update_status _ _ _ _ _

claim-busy : (p : Proxy) → is_sleeping p.state ≡ false → claim p ≡ none
unfolding claim
claim-busy p h = ground arith

claim-idle :
    (p : Proxy)
    → p.state ≡ sleeping
    → claim p ≡ some (record p { state = waking; wake_cancel = true })
unfolding claim
claim-idle p h = ground arith

State-cases : (s : State) → (s ≡ sleeping) ⊎ (is_sleeping s ≡ false)
State-cases sleeping = inl refl
State-cases waking = inr refl
State-cases awake = inr refl

-- `triggerWake` changes nothing if the proxy is waking or awake. Else it ends awake exactly if the
-- request and the wait succeed, sleeping if one of them fails, and is waking while it waits.
pub trigger_wake-state :
    (now : ℤ) (requested : Result (Unit {0})) (waited : Waited) (p : Proxy)
    → ((p.state ≡ sleeping)
        × ((trigger_wake now requested waited p).state ≡ wake_result requested waited.result))
      ⊎ ((is_sleeping p.state ≡ false) × (trigger_wake now requested waited p ≡ p))
unfolding trigger_wake
trigger_wake-state now requested waited p = elim (State-cases p.state) [
  | inl idle ↦
      inl (idle, rw (claim-idle p idle, trigger_wake) (after_request-state now requested waited _))
  | inr busy ↦ inr (busy, rw (claim-busy p busy, trigger_wake))
]

-- `hibernate` always ends asleep, also when the request to the cluster fails; from another state it
-- shows progress 0, and it cancels the wake whose cancel function is stored.
pub hibernate-state :
    (now : ℤ) (requested : Result (Unit {0})) (p : Proxy)
    → ((hibernate now requested p).state ≡ sleeping)
      × (is_sleeping p.state ≡ false
          → ((hibernate now requested p).wake_status.progress ≡ 0)
            × (p.wake_cancel ≡ true → (hibernate now requested p).cancelled ≡ suc p.cancelled))
unfolding hibernate update_status
hibernate-state now requested p = ground arith

on_reports-IsConsistent :
    (now : ℤ) (l : List Report) (p : Proxy) → IsConsistent p → IsConsistent (on_reports now l p)
unfolding on_reports
on_reports-IsConsistent now [] p h = h
on_reports-IsConsistent now (r ∷ l) p h =
    on_reports-IsConsistent now l (on_wake_progress now r p)
      (unfold on_wake_progress in update_status-IsConsistent now waking r.message _ p)

after_request-IsConsistent :
    (now : ℤ) (requested : Result (Unit {0})) (waited : Waited) (p : Proxy)
    → IsConsistent (after_request now requested waited p)
unfolding after_request
after_request-IsConsistent now (err e) waited p =
    unfold request_failed in update_status-IsConsistent now sleeping _ 0 p
after_request-IsConsistent now (ok u) waited p = go waited.result
  where
    q : Proxy
    q =
        on_reports now waited.reports
          (update_status now waking "Wake-up requested, waiting for controller..." 10 p)

    go : (r : Option (Result (Unit {0}))) → IsConsistent (after_wait now r q)
    go none =
        on_reports-IsConsistent now waited.reports _ (
          update_status-IsConsistent now waking "Wake-up requested, waiting for controller..." 10 p)
    go (some (err e)) = update_status-IsConsistent now sleeping _ 0 q
    go (some (ok v)) = update_status-IsConsistent now awake _ 100 _

trigger_wake-IsConsistent :
    (now : ℤ) (requested : Result (Unit {0})) (waited : Waited) (p : Proxy)
    → IsConsistent p
    → IsConsistent (trigger_wake now requested waited p)
unfolding trigger_wake
trigger_wake-IsConsistent now requested waited p h = elim (State-cases p.state) [
  | inl idle ↦
      rw (claim-idle p idle, trigger_wake) (after_request-IsConsistent now requested waited _)
  | inr busy ↦ rw (claim-busy p busy, trigger_wake) h
]

hibernate-IsConsistent :
    (now : ℤ) (requested : Result (Unit {0})) (p : Proxy)
    → IsConsistent p
    → IsConsistent (hibernate now requested p)
unfolding hibernate
hibernate-IsConsistent now requested p h = elim (Bool-cases (is_sleeping p.state)) [
  | inl asleep ↦ rw (asleep, hibernate) h
  | inr up ↦
      rw (up, hibernate) (update_status-IsConsistent now sleeping "Service is hibernated" 0 _)
]

pub check-IsConsistent :
    (r : Result ServiceState) (p : Proxy)
    → IsConsistent p
    → IsConsistent (check_and_update_state r p)
unfolding check_and_update_state
check-IsConsistent r p h = ground arith

pub handler-IsConsistent :
    (now : ℤ) (path accept : String) (p : Proxy)
    → IsConsistent p
    → IsConsistent (port_handler now path accept p).proxy
unfolding port_handler
handler-IsConsistent now path accept p h = ground arith

idle_tick-IsConsistent :
    (timeout now : ℤ) (requested : Result (Unit {0})) (p : Proxy)
    → IsConsistent p
    → IsConsistent (idle_tick timeout now requested p)
unfolding idle_tick
idle_tick-IsConsistent timeout now requested p h =
    ground (arith, hibernate-IsConsistent now requested p h)

-- What the proxy does between its goroutines, each run to its end.
pub data Operation : Type 0 where
  wake : ℤ → Result (Unit {0}) → Waited → Operation
  sleep : ℤ → Result (Unit {0}) → Operation
  check : Result ServiceState → Operation
  request : ℤ → String → String → Operation
  idle : ℤ → ℤ → Result (Unit {0}) → Operation

pub apply : Operation → Proxy → Proxy
apply (wake now requested waited) p = trigger_wake now requested waited p
apply (sleep now requested) p = hibernate now requested p
apply (check r) p = check_and_update_state r p
apply (request now path accept) p = (port_handler now path accept p).proxy
apply (idle timeout now requested) p = idle_tick timeout now requested p

pub apply_all : List Operation → Proxy → Proxy
apply_all [] p = p
apply_all (o ∷ operations) p = apply_all operations (apply o p)

apply-IsConsistent : (o : Operation) (p : Proxy) → IsConsistent p → IsConsistent (apply o p)
unfolding apply
apply-IsConsistent (wake now requested waited) p h =
    trigger_wake-IsConsistent now requested waited p h
apply-IsConsistent (sleep now requested) p h = hibernate-IsConsistent now requested p h
apply-IsConsistent (check r) p h = check-IsConsistent r p h
apply-IsConsistent (request now path accept) p h = handler-IsConsistent now path accept p h
apply-IsConsistent (idle timeout now requested) p h =
    idle_tick-IsConsistent timeout now requested p h

-- If the status that clients are shown is that of the proxy's state, it still is after any sequence
-- of wakes, hibernations, checks, requests and idle ticks, each run without interruption.
pub apply_all-IsConsistent :
    (operations : List Operation) (p : Proxy)
    → IsConsistent p
    → IsConsistent (apply_all operations p)
unfolding apply_all
apply_all-IsConsistent [] p h = h
apply_all-IsConsistent (o ∷ operations) p h =
    apply_all-IsConsistent operations (apply o p) (apply-IsConsistent o p h)
