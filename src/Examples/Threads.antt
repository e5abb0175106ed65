-- ===== src/Examples/Threads.antt =====
-- The goroutines of the proxy on a concrete schedule.
use sleepyservice.Prelude.{◌≡◌, refl, true, false, none, List, [], ◌∷◌, All, pos, ℕ, ℤ, String}
use sleepyservice.Errors.{ok, err, text}
use sleepyservice.Api
use sleepyservice.Api.{ServiceState}
use sleepyservice.Proxy.Defs.{sleeping, waking, awake}
use sleepyservice.Proxy.Wake.{claim}
use sleepyservice.Proxy.Wake.Outcome.{IsConsistent}
use sleepyservice.Proxy.Config.{Config}
use sleepyservice.Proxy.Routes.{serve}
use sleepyservice.Proxy.Threads.{
  move, finished, wake_start, Answer, Shared, System, returned, Event, request, idle, joined, Reach,
  here,
}
use sleepyservice.Proxy.Threads.Quiet.{is_finished, Reach-IsConsistent}
use sleepyservice.Proxy.Threads.Race.{
  run_schedule, run_schedule-Reach, with_wake, Stands, ready, told, put_to_sleep, went_on,
  hibernate-wake_goes_on,
}
use sleepyservice.Proxy.Threads.Stuck.{start, happen_all, reaches_backend, start-waking}
use sleepyservice.Examples.Proxy.{proxy}

abbrev shared : Shared
shared = record { proxy = proxy; asked = none }

-- A proxy with the debug endpoints.
abbrev config : Config
config = record {
  namespace = "default";
  sleepy_service_name = "shop";
  deployment_name = "api";
  cnpg_cluster_name = "";
  backend_host = "shop-actual.default";
  backend_ports = pos 8080 ∷ [];
  desired_replicas = pos 1;
  wake_timeout = pos 300_000_000_000;
  idle_timeout = pos 0;
  debug_endpoints = true;
}

abbrev clock : ℕ → ℤ
clock n = pos n

hibernate-wake_goes_on_example :
    Stands (ready ∷ []) waking waking Api.ServiceState.awake (told clock proxy)
    × Stands
        (finished ∷ ready ∷ [])
        sleeping
        sleeping
        Api.ServiceState.sleeping
        (put_to_sleep config clock "" proxy)
    × Stands
        (finished ∷ finished ∷ [])
        awake
        awake
        Api.ServiceState.sleeping
        (went_on config clock "" proxy)
    × Reach config (with_wake proxy) (went_on config clock "" proxy)
hibernate-wake_goes_on_example = hibernate-wake_goes_on config clock "" proxy refl

abbrev one : System
one = record { shared = shared; threads = wake_start ∷ [] }

-- The wake fails at its request: four moves.
abbrev failing : Answer
failing = record { now = pos 1; requested = err (text "timeout"); progress = returned (ok tt) }

abbrev moves_of_one : List (ℕ × Answer)
moves_of_one =
    (0, failing) ∷ (0, failing) ∷ (0, failing) ∷ (0, failing) ∷ (0, failing) ∷ (0, failing) ∷ []

Reach-IsConsistent_example : IsConsistent (run_schedule moves_of_one one).shared.proxy
unfolding run_schedule move claim
Reach-IsConsistent_example =
    Reach-IsConsistent config one (run_schedule moves_of_one one) refl
      (run_schedule-Reach config moves_of_one one one here) all_finished
  where
    all_finished : All (λ t. is_finished t ≡ true) (run_schedule moves_of_one one).threads
    all_finished = (refl, tt)

abbrev traffic : List Event
traffic =
    joined 1
    ∷ request (pos 5) "GET" "/" "text/html"
    ∷ request (pos 6) "POST" "/_wake/debug/sleep" ""
    ∷ idle (pos 3) (pos 9)
    ∷ []

abbrev plain : Config
plain = record config { debug_endpoints = false }

start-waking_example :
    let s = happen_all plain traffic (start (pos 0) (ok Api.ServiceState.waking)) in
    (s.shared.proxy.state ≡ waking)
    × (s.threads ≡ [])
    × ((later : ℤ) (method path accept : String)
        → reaches_backend (serve plain later method path accept s.shared.proxy) ≡ false)
start-waking_example = start-waking plain refl (pos 0) traffic (refl, (refl, (refl, (refl, tt))))
