-- ===== src/Proxy/Threads/Race.antt =====
-- Schedules of the goroutines' moves, and one in which a hibernation runs inside of a wake.
use sleepyservice.Prelude.{
  ℕ, zero, suc, ◌≡◌, refl, sym, ap, subst, none, some, List, [], ◌∷◌, ◌++◌, ℤ, String, true,
  string_discrete,
}
use sleepyservice.Errors.{ok}
use sleepyservice.Api
use sleepyservice.Api.{ServiceState}
use sleepyservice.Proxy.Defs.{State, sleeping, waking, awake, Proxy, new_status, broadcast_status}
use sleepyservice.Proxy.Config.{Config}
use sleepyservice.Proxy.Requests.{debug_triggers}
use sleepyservice.Proxy.Routes.{
  hibernate_triggered, serve, serve_route, dispatch, routes, debug_routes,
}
use sleepyservice.Proxy.Wake.{claim, mark_awake, cancel_wake}
use sleepyservice.Proxy.Threads.{
  Thread, finished, wake_start, wake_mark, sleep_start, update, spawn, served, happen, request,
  happens, returned, Answer, Shared, System, move, after_claim, after_wake_request, after_progress,
  after_sleep_request, write_status, moves, Reach, here, next,
}

-- The goroutine of this index moves, if there is one.
unfoldable pub move_at : ℕ → Answer → List Thread → Shared → List Thread × Shared
move_at i a [] s = ([], s)
move_at zero a (t ∷ ts) s = let (t', s') = move a t s in (t' ∷ ts, s')
move_at (suc i) a (t ∷ ts) s = let (ts', s') = move_at i a ts s in (t ∷ ts', s')

abbrev with_pair : List Thread × Shared → System
with_pair (ts, s) = record { shared = s; threads = ts }

unfoldable pub run_schedule : List (ℕ × Answer) → System → System
unfolding move_at
run_schedule [] s = s
run_schedule ((i, a) ∷ schedule) s =
    let (ts, sh) = move_at i a s.threads s.shared in
    run_schedule schedule (record { shared = sh; threads = ts })

-- The index names no goroutine, or names this one.
data Picked (a : Answer) (ts : List Thread) (s : Shared) (r : List Thread × Shared) : Type 0 where
  nobody : r ≡ (ts, s) → Picked a ts s r
  somebody :
      (before : List Thread) (t : Thread) (after : List Thread)
      → ts ≡ before ++ t ∷ after
      → r ≡ (before ++ (move a t s).0 ∷ after, (move a t s).1)
      → Picked a ts s r

Picked-cons :
    (a : Answer) (x : Thread) (ts : List Thread) (s : Shared) (r : List Thread × Shared)
    → Picked a ts s r
    → Picked a (x ∷ ts) s (x ∷ r.0, r.1)
Picked-cons a x ts s r (nobody e) = nobody (ap (λ (q : List Thread × Shared). (x ∷ q.0, q.1)) e)
Picked-cons a x ts s r (somebody before t after e e') =
    somebody (x ∷ before) t after (ap (λ l. x ∷ l) e)
      (ap (λ (q : List Thread × Shared). (x ∷ q.0, q.1)) e')

move_at-Picked :
    (i : ℕ) (a : Answer) (ts : List Thread) (s : Shared) → Picked a ts s (move_at i a ts s)
unfolding move_at
move_at-Picked i a [] s = nobody refl
move_at-Picked zero a (t ∷ ts) s = somebody [] t ts refl refl
move_at-Picked (suc i) a (t ∷ ts) s =
    Picked-cons a t ts s (move_at i a ts s) (move_at-Picked i a ts s)

Reach_at :
    (config : Config) (s u : System) (a : Answer) (r : List Thread × Shared)
    → Reach config s u
    → Picked a u.threads u.shared r
    → Reach config s (record { shared = r.1; threads = r.0 })
Reach_at config s u a r reach (nobody e) =
    subst (λ (q : List Thread × Shared). Reach config s (record { shared = q.1; threads = q.0 }))
      (sym e) reach
Reach_at config s u a r reach (somebody before t after e e') = next reach (
    moves before t after a e
      (ap (λ (q : List Thread × Shared). record { shared = q.1; threads = q.0 }) e'))

-- What a schedule leads to can be reached.
pub run_schedule-Reach :
    (config : Config) (schedule : List (ℕ × Answer)) (s u : System)
    → Reach config s u
    → Reach config s (run_schedule schedule u)
unfolding run_schedule
run_schedule-Reach config [] s u r = r
run_schedule-Reach config ((i, a) ∷ schedule) s u r =
    let q = move_at i a u.threads u.shared in
    run_schedule-Reach config schedule s (record { shared = q.1; threads = q.0 })
      (Reach_at config s u a q r (move_at-Picked i a u.threads u.shared))

-- The answers of an API that does what it is asked.
abbrev fine : ℤ → Answer
fine now = record { now = now; requested = ok tt; progress = returned (ok tt) }

-- The goroutine of this index makes so many moves in a row, at the times from this index on.
abbrev turns : (clock : ℕ → ℤ) (who from count : ℕ) → List (ℕ × Answer)
turns clock who from zero = []
turns clock who from (suc count) = (who, fine (clock from)) ∷ turns clock who (suc from) count

-- A sleeping proxy, and a `triggerWake` that starts.
abbrev pub with_wake : Proxy → System
with_wake p = record {
  shared = record { proxy = record p { state = sleeping }; asked = none };
  threads = wake_start ∷ [];
}

-- The wake has been told that the service is awake.
abbrev pub told : (ℕ → ℤ) → Proxy → System
told clock p = run_schedule (turns clock 0 0 7) (with_wake p)

-- Then a client calls the debug path for the hibernation.
abbrev pub called : Config → (ℕ → ℤ) → String → Proxy → System
called config clock accept p =
    happen config (request (clock 7) "POST" "/_wake/debug/sleep" accept) (told clock p)

-- The hibernation, now the first goroutine, runs as a whole.
abbrev pub put_to_sleep : Config → (ℕ → ℤ) → String → Proxy → System
put_to_sleep config clock accept p = run_schedule (turns clock 0 8 7) (called config clock accept p)

-- The wake goes on.
abbrev pub went_on : Config → (ℕ → ℤ) → String → Proxy → System
went_on config clock accept p =
    run_schedule (turns clock 1 15 5) (put_to_sleep config clock accept p)

-- Where the goroutines, the state and the shown state are, and what the API was last asked for.
pub record Stands (threads : List Thread) (state shown : State) (asked : ServiceState) (s : System)
    : Type 0 where
  pub threads_are : s.threads ≡ threads
  pub state_is : s.shared.proxy.state ≡ state
  pub shown_is : s.shared.proxy.wake_status.state ≡ shown
  pub asked_is : s.shared.asked ≡ some asked

-- Where the wake waits in the meantime.
abbrev pub ready : Thread
ready = update waking "Service is ready!" 95 wake_mark

serve-debug_sleep :
    (config : Config) (now : ℤ) (accept : String) (p : Proxy)
    → config.debug_endpoints ≡ true
    → serve config now "POST" "/_wake/debug/sleep" accept p ≡ hibernate_triggered true
unfolding serve dispatch routes debug_routes serve_route debug_triggers string_discrete
serve-debug_sleep config now accept p on = rw on refl

called_lem :
    (config : Config) (clock : ℕ → ℤ) (accept : String) (p : Proxy)
    → config.debug_endpoints ≡ true
    → called config clock accept p ≡ spawn sleep_start (told clock p)
unfolding happen served
called_lem config clock accept p on =
    rw (serve-debug_sleep config (clock 7) accept (told clock p).shared.proxy on) refl

told-Stands :
    (clock : ℕ → ℤ) (p : Proxy)
    → Stands (ready ∷ []) waking waking Api.ServiceState.awake (told clock p)
unfolding run_schedule move claim after_claim new_status write_status broadcast_status
    after_wake_request after_progress
told-Stands clock p = record {
  threads_are = refl;
  state_is = refl;
  shown_is = refl;
  asked_is = refl;
}

put_to_sleep-Stands :
    (config : Config) (clock : ℕ → ℤ) (accept : String) (p : Proxy)
    → config.debug_endpoints ≡ true
    → Stands
        (finished ∷ ready ∷ [])
        sleeping
        sleeping
        Api.ServiceState.sleeping
        (put_to_sleep config clock accept p)
unfolding run_schedule move claim after_claim new_status write_status broadcast_status cancel_wake
    after_wake_request after_progress after_sleep_request spawn
put_to_sleep-Stands config clock accept p on =
    subst
      (λ s.
        Stands (finished ∷ ready ∷ []) sleeping sleeping Api.ServiceState.sleeping
          (run_schedule (turns clock 0 8 7) s))
      (sym (called_lem config clock accept p on))
      (record { threads_are = refl; state_is = refl; shown_is = refl; asked_is = refl })

went_on-Stands :
    (config : Config) (clock : ℕ → ℤ) (accept : String) (p : Proxy)
    → config.debug_endpoints ≡ true
    → Stands
        (finished ∷ finished ∷ [])
        awake
        awake
        Api.ServiceState.sleeping
        (went_on config clock accept p)
unfolding run_schedule move claim after_claim new_status write_status broadcast_status cancel_wake
    after_wake_request after_progress after_sleep_request mark_awake spawn
went_on-Stands config clock accept p on =
    subst
      (λ s.
        Stands (finished ∷ finished ∷ []) awake awake Api.ServiceState.sleeping
          (run_schedule (turns clock 1 15 5) (run_schedule (turns clock 0 8 7) s)))
      (sym (called_lem config clock accept p on))
      (record { threads_are = refl; state_is = refl; shown_is = refl; asked_is = refl })

went_on-Reach :
    (config : Config) (clock : ℕ → ℤ) (accept : String) (p : Proxy)
    → Reach config (with_wake p) (went_on config clock accept p)
went_on-Reach config clock accept p =
    run_schedule-Reach config (turns clock 1 15 5) (with_wake p) _ (
      run_schedule-Reach config (turns clock 0 8 7) (with_wake p) _ (
        next (run_schedule-Reach config (turns clock 0 0 7) (with_wake p) (with_wake p) here)
          (happens (request (clock 7) "POST" "/_wake/debug/sleep" accept) refl)))

-- With the debug endpoints on, a hibernation that runs inside of a wake does not stop it, at any times
-- of the moves, while every request to the API and every wait succeeds. A wake of a sleeping proxy
-- goes on until it has been told that the service is awake; then a POST to the debug path starts the
-- hibernation, which runs to its end and leaves the proxy sleeping and the API asked for Sleeping;
-- then the wake goes on from where it stood. In the end both have finished, the proxy is awake and
-- shows it, and the API was last asked for Sleeping. The moves are steps of the system.
pub hibernate-wake_goes_on :
    (config : Config) (clock : ℕ → ℤ) (accept : String) (p : Proxy)
    → config.debug_endpoints ≡ true
    → Stands (ready ∷ []) waking waking Api.ServiceState.awake (told clock p)
      × Stands
          (finished ∷ ready ∷ [])
          sleeping
          sleeping
          Api.ServiceState.sleeping
          (put_to_sleep config clock accept p)
      × Stands
          (finished ∷ finished ∷ [])
          awake
          awake
          Api.ServiceState.sleeping
          (went_on config clock accept p)
      × Reach config (with_wake p) (went_on config clock accept p)
hibernate-wake_goes_on config clock accept p on = (
  told-Stands clock p,
  put_to_sleep-Stands config clock accept p on,
  went_on-Stands config clock accept p on,
  went_on-Reach config clock accept p,
)
