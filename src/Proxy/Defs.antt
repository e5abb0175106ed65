-- ===== src/Proxy/Defs.antt =====
-- The state of the proxy, and the writes to it that one hold of its lock makes.
-- A goroutine's code between two locks is one function here; the theorems put them into orders.
use sleepyservice.Prelude.{
  ℕ, String, Bool, true, false, Option, none, some, List, [], ◌∷◌, ◌++◌, map, if◌then◌else◌, ltb,
  length, ℤ,
}
use sleepyservice.Errors.{Result, ok, err}
use sleepyservice.Api
use sleepyservice.Api.{ServiceState}

pub data State : Type 0 where
  sleeping waking awake : State

-- `started_at` is `none` for the zero time. The code never sets `EstimatedReady`.
pub record WakeStatus : Type 0 where
  pub state : State
  pub message : String
  pub progress : ℕ
  pub started_at : Option ℤ

-- The channel of one subscriber, with the statuses that wait in it, oldest first.
pub record Subscriber : Type 0 where
  pub id : ℕ
  pub pending : List WakeStatus

-- `wake_cancel` tells whether a cancel function is stored, and `cancelled` how often it was called.
pub record Proxy : Type 0 where
  pub state : State
  pub wake_status : WakeStatus
  pub last_activity : ℤ
  pub wake_cancel : Bool
  pub cancelled : ℕ
  pub subscribers : List Subscriber

abbrev pub is_sleeping : State → Bool
is_sleeping sleeping = true
is_sleeping _ = false

abbrev pub is_waking : State → Bool
is_waking waking = true
is_waking _ = false

abbrev pub is_awake : State → Bool
is_awake awake = true
is_awake _ = false

-- The capacity of a subscriber's channel.
abbrev pub capacity : ℕ
capacity = 10

-- `select { case ch <- status: default: }`
unfoldable pub offer : WakeStatus → Subscriber → Subscriber
offer status s =
    if ltb (length s.pending) capacity then record s { pending = s.pending ++ status ∷ [] } else s

unfoldable pub broadcast_status : WakeStatus → Proxy → Proxy
unfolding offer
broadcast_status status p = record p { subscribers = map (offer status) p.subscribers }

-- The value that `updateStatus` builds at the time `now`. The new status has a zero `StartedAt`,
-- so the test on it passes whenever the state is waking.
unfoldable pub new_status : ℤ → State → String → ℕ → WakeStatus
new_status now state message progress =
    let fresh : WakeStatus = record {
      state = state;
      message = message;
      progress = progress;
      started_at = none;
    } in
    if is_waking state then record fresh { started_at = some now } else fresh

unfoldable pub update_status : ℤ → State → String → ℕ → Proxy → Proxy
unfolding new_status broadcast_status
update_status now state message progress p =
    let status = new_status now state message progress in
    broadcast_status status (record p { state = state; wake_status = status })

abbrev status_of : State → String → ℕ → WakeStatus
status_of state message progress = record {
  state = state;
  message = message;
  progress = progress;
  started_at = none;
}

-- The switch of `checkAndUpdateState`, on the state of the SleepyService.
unfoldable pub observe_state : ServiceState → Proxy → Proxy
observe_state Api.ServiceState.awake p = record p {
  state = awake;
  wake_status = status_of awake "Service is running" 100;
}
observe_state Api.ServiceState.waking p =
    if is_waking p.state
    then p
    else record p { state = waking; wake_status = status_of waking "Service is waking up" 50 }
observe_state Api.ServiceState.sleeping p =
    if is_waking p.state
    then p
    else record p { state = sleeping; wake_status = status_of sleeping "Service is hibernated" 0 }
observe_state Api.ServiceState.hibernating p =
    if is_waking p.state
    then p
    else record p { state = sleeping; wake_status = status_of sleeping "Service is hibernated" 0 }
observe_state Api.ServiceState.error p = p
observe_state Api.ServiceState.unset p = p

-- `checkAndUpdateState`, on the answer of `GetSleepyServiceState`.
unfoldable pub check_and_update_state : Result ServiceState → Proxy → Proxy
unfolding observe_state
check_and_update_state (ok state) p = observe_state state p
check_and_update_state (err e) p = p
