-- ===== src/Examples/Proxy.antt =====
-- The proxy on concrete answers of the cluster.
use sleepyservice.Prelude.{
  ◌≡◌, ◌≤◌, ◌+◌, refl, true, false, none, some, List, [], ◌∷◌, All, ◌↔◌, ◌⊎◌, pos,
}
use sleepyservice.Errors.{ok, err, text}
use sleepyservice.Api
use sleepyservice.Api.{SleepyService}
use sleepyservice.Kubernetes.Waiting.{Event, tick, wait_for_awake}
use sleepyservice.Kubernetes.Waiting.Loop.{Sees}
use sleepyservice.Proxy.Defs.{sleeping, awake, Proxy, Subscriber, WakeStatus, is_sleeping}
use sleepyservice.Proxy.Events.Stream.{Traffic, sent, turn, IsSublist, received, stream-in_order}
use sleepyservice.Proxy.Wake.{trigger_wake, hibernate}
use sleepyservice.Proxy.Wake.Progress.{IsShown, wait_for_awake-IsShown, wait_for_awake-ok}
use sleepyservice.Proxy.Wake.Outcome.{
  IsConsistent, wake_result, trigger_wake-state, hibernate-state, Operation, wake, sleep, check,
  request, apply_all, apply_all-IsConsistent,
}
use sleepyservice.Examples.World.{service}

abbrev asleep : WakeStatus
asleep = record {
  state = sleeping;
  message = "Service is hibernated";
  progress = 0;
  started_at = none;
}

-- A proxy with one client that waits for events.
abbrev pub proxy : Proxy
proxy = record {
  state = sleeping;
  wake_status = asleep;
  last_activity = pos 0;
  wake_cancel = false;
  cancelled = 0;
  subscribers = record { id = 1; pending = asleep ∷ [] } ∷ [];
}

abbrev up : SleepyService
up = record service { status = record service.status { state = Api.ServiceState.awake } }

-- The API fails once, then shows a service that is not awake, and then one that is.
abbrev events : List (Event SleepyService)
events = tick 2 (err (text "timeout")) ∷ tick 4 (ok service) ∷ tick 6 (ok up) ∷ []

wait_for_awake-IsShown_example : All IsShown (wait_for_awake events).reports
wait_for_awake-IsShown_example = wait_for_awake-IsShown events

wait_for_awake-ok_example :
    ((wait_for_awake events).result ≡ some (ok tt))
    ↔ Sees (λ hs. Api.is_awake hs.status.state ≡ true) events
wait_for_awake-ok_example = wait_for_awake-ok events

trigger_wake-state_example :
    ((sleeping ≡ sleeping)
      × ((trigger_wake (pos 5) (ok tt) (wait_for_awake events) proxy).state
          ≡ wake_result (ok tt) (wait_for_awake events).result))
    ⊎ ((is_sleeping sleeping ≡ false)
        × (trigger_wake (pos 5) (ok tt) (wait_for_awake events) proxy ≡ proxy))
trigger_wake-state_example = trigger_wake-state (pos 5) (ok tt) (wait_for_awake events) proxy

abbrev awake_proxy : Proxy
awake_proxy = record proxy { state = awake; wake_cancel = true }

hibernate-state_example :
    ((hibernate (pos 9) (err (text "conflict")) awake_proxy).state ≡ sleeping)
    × (is_sleeping awake ≡ false
        → ((hibernate (pos 9) (err (text "conflict")) awake_proxy).wake_status.progress ≡ 0)
          × (true ≡ true → (hibernate (pos 9) (err (text "conflict")) awake_proxy).cancelled ≡ 1))
hibernate-state_example = hibernate-state (pos 9) (err (text "conflict")) awake_proxy

abbrev operations : List Operation
operations =
    check (ok Api.ServiceState.sleeping)
    ∷ request (pos 3) "/" "text/html"
    ∷ wake (pos 5) (ok tt) (wait_for_awake events)
    ∷ sleep (pos 9) (ok tt)
    ∷ []

apply_all-IsConsistent_example : IsConsistent (apply_all operations proxy)
apply_all-IsConsistent_example = apply_all-IsConsistent operations proxy refl

abbrev awake_status : WakeStatus
awake_status = record { state = awake; message = "ready"; progress = 100; started_at = none }

-- The client of the proxy reads once between two broadcasts.
abbrev traffic : List Traffic
traffic = sent asleep ∷ turn ∷ sent awake_status ∷ []

abbrev client : Subscriber
client = record { id = 1; pending = asleep ∷ [] }

stream-in_order_example :
    IsSublist (received traffic client) (asleep ∷ asleep ∷ awake_status ∷ [])
    × (1 + 2 ≤ 10 → received traffic client ≡ asleep ∷ asleep ∷ awake_status ∷ [])
stream-in_order_example = stream-in_order traffic client
