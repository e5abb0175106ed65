-- ===== src/Proxy/Threads.antt =====
-- The goroutines of the proxy, interleaved: one move runs one of them up to its next lock, its next
-- call of the API, or its next wait. `updateStatus` is two moves, since it broadcasts the status
-- after it has released the lock.
pub mod Settles
pub mod Quiet
pub mod Stuck
pub mod Race
use sleepyservice.Prelude.{
  ℕ, ◌≡◌, String, Bool, true, false, Option, none, some, List, [], ◌∷◌, ◌++◌, if◌then◌else◌, ◌<>◌,
  ◌&&◌, ℤ, ◌-ℤ◌, ltb_ℤ,
}
use sleepyservice.Errors.{Error, error_text, Result, ok, err}
use sleepyservice.Api
use sleepyservice.Api.{ServiceState}
use sleepyservice.Kubernetes.Waiting.{Report}
use sleepyservice.Proxy.Defs.{
  State, sleeping, waking, awake, WakeStatus, Proxy, is_sleeping, is_awake, new_status,
  broadcast_status, check_and_update_state,
}
use sleepyservice.Proxy.Events.{subscribe, unsubscribe}
use sleepyservice.Proxy.Wake.{claim, mapped_progress, mark_awake, cancel_wake}
use sleepyservice.Proxy.Config.{Config}
use sleepyservice.Proxy.Requests.{Handled}
use sleepyservice.Proxy.Routes.{
  Served, by_port, status_shown, stream_opened, healthy, wake_triggered, hibernate_triggered, serve,
}

-- Where a goroutine of `triggerWake` or `hibernate` stands. `update` is at the start of a call of
-- `updateStatus`, and `send` before its broadcast; both name where the goroutine goes on.
pub data Thread : Type 0 where
  finished wake_start wake_request wake_wait wake_mark sleep_start sleep_request sleep_settle :
      Thread
  update : State → String → ℕ → Thread → Thread
  send : WakeStatus → Thread → Thread

-- What `WaitForSleepyServiceAwake` does next: it calls `onProgress`, or it returns.
pub data Progress : Type 0 where
  report : Report → Progress
  returned : Result (Unit {0}) → Progress

-- What a move gets from outside, of which it uses what it asks for.
pub record Answer : Type 0 where
  pub now : ℤ
  pub requested : Result (Unit {0})
  pub progress : Progress

-- What the goroutines share: the proxy, and the state that the API was last asked for.
pub record Shared : Type 0 where
  pub proxy : Proxy
  pub asked : Option ServiceState

unfoldable pub write_status : WakeStatus → Proxy → Proxy
write_status status p = record p { state = status.state; wake_status = status }

unfoldable pub after_claim : Shared → Option Proxy → Thread × Shared
after_claim s none = (finished, s)
after_claim s (some p) =
    (update waking "Starting wake-up sequence..." 5 wake_request, record s { proxy = p })

unfoldable pub after_wake_request : Shared → Result (Unit {0}) → Thread × Shared
after_wake_request s (err e) =
    (update sleeping ("Failed to request wake-up: " <> error_text e) 0 finished, s)
after_wake_request s (ok u) = (
  update waking "Wake-up requested, waiting for controller..." 10 wake_wait,
  record s { asked = some Api.ServiceState.awake },
)

unfoldable pub after_progress : Progress → Thread
unfolding mapped_progress
after_progress (report r) = update waking r.message (mapped_progress r.progress) wake_wait
after_progress (returned (ok u)) = update waking "Service is ready!" 95 wake_mark
after_progress (returned (err e)) = update sleeping ("Wake-up timeout: " <> error_text e) 0 finished

unfoldable pub after_sleep_request : Shared → Result (Unit {0}) → Thread × Shared
after_sleep_request s (ok u) = (sleep_settle, record s { asked = some Api.ServiceState.sleeping })
after_sleep_request s (err e) = (sleep_settle, s)

unfoldable pub move : Answer → Thread → Shared → Thread × Shared
unfolding write_status after_claim after_wake_request after_progress after_sleep_request
move a finished s = (finished, s)
move a wake_start s = after_claim s (claim s.proxy)
move a wake_request s = after_wake_request s a.requested
move a wake_wait s = (after_progress a.progress, s)
move a wake_mark s =
    (update awake "Service is ready!" 100 finished, record s { proxy = mark_awake a.now s.proxy })
move a sleep_start s = if is_sleeping s.proxy.state then (finished, s) else (
  update sleeping "Hibernating service..." 50 sleep_request,
  record s { proxy = cancel_wake s.proxy },
)
move a sleep_request s = after_sleep_request s a.requested
move a sleep_settle s = (
  update sleeping "Service is hibernated" 0 finished,
  record s { proxy = record s.proxy { state = sleeping } },
)
move a (update state message progress onwards) s =
    let status = new_status a.now state message progress in
    (send status onwards, record s { proxy = write_status status s.proxy })
move a (send status onwards) s = (onwards, record s { proxy = broadcast_status status s.proxy })

pub record System : Type 0 where
  pub shared : Shared
  pub threads : List Thread

-- What happens besides the goroutines' moves. A tick of `idleMonitor` that finds the proxy idle
-- starts a goroutine here, where the code waits for it: there are more runs here than in the code.
-- A request goes to the handler of its path. `joined` registers the channel of a stream that was
-- opened, `left` takes it out again, and `resumed` is the last step of a request that was held until
-- the proxy was awake.
pub data Event : Type 0 where
  request : ℤ → (method path accept : String) → Event
  idle : (timeout now : ℤ) → Event
  resumed : ℤ → Event
  joined : ℕ → Event
  left : ℕ → Event
  checked : Result ServiceState → Event

unfoldable pub with_proxy : System → Proxy → System
with_proxy s p = record s { shared = record s.shared { proxy = p } }

unfoldable pub spawn : Thread → System → System
spawn t s = record s { threads = t ∷ s.threads }

unfoldable pub handled : Handled → System → System
unfolding with_proxy spawn
handled h s =
    if h.triggers_wake then spawn wake_start (with_proxy s h.proxy) else with_proxy s h.proxy

-- The debug handlers start a goroutine; the reports change nothing.
unfoldable pub served : Served → System → System
unfolding spawn handled
served (by_port h) s = handled h s
served (status_shown status) s = s
served stream_opened s = s
served (healthy state) s = s
served (wake_triggered allowed) s = if allowed then spawn wake_start s else s
served (hibernate_triggered allowed) s = if allowed then spawn sleep_start s else s

unfoldable pub happen : Config → Event → System → System
unfolding with_proxy spawn served
happen config (request now method path accept) s =
    served (serve config now method path accept s.shared.proxy) s
happen config (idle timeout now) s =
    if is_awake s.shared.proxy.state && ltb_ℤ timeout (now -ℤ s.shared.proxy.last_activity)
    then spawn sleep_start s
    else s
happen config (resumed now) s = with_proxy s (record s.shared.proxy { last_activity = now })
happen config (joined id) s = with_proxy s (subscribe id s.shared.proxy)
happen config (left id) s = with_proxy s (unsubscribe id s.shared.proxy)
happen config (checked r) s = with_proxy s (check_and_update_state r s.shared.proxy)

-- One goroutine moves, or something else happens.
pub data Step (config : Config) (s : System) (u : System) : Type 0 where
  moves :
      (before : List Thread) (t : Thread) (after : List Thread) (a : Answer)
      → s.threads ≡ before ++ t ∷ after
      → u ≡ record {
        shared = (move a t s.shared).1;
        threads = before ++ (move a t s.shared).0 ∷ after;
      }
      → Step config s u
  happens : (e : Event) → u ≡ happen config e s → Step config s u

pub data Reach (config : Config) (s : System) : System → Type 0 where
  here : Reach config s s
  next : {t u : System} → Reach config s t → Step config t u → Reach config s u
