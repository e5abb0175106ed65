-- ===== src/Proxy/Wake.antt =====
-- `triggerWake`, `onWakeProgress`, `hibernate` and `idleMonitor`.
pub mod Progress
pub mod Outcome
pub mod Race
use sleepyservice.Prelude.{
  ℕ, zero, suc, ◌+◌, ◌*◌, ◌/◌, ◌≡◌, String, Bool, true, false, not, ◌&&◌, ◌||◌, Option, none, some,
  List, [], ◌∷◌, if◌then◌else◌, ◌<>◌, ℤ, ◌-ℤ◌, ltb_ℤ,
}
use sleepyservice.Errors.{Error, error_text, Result, ok, err}
use sleepyservice.Kubernetes.Waiting.{Report, Waited}
use sleepyservice.Proxy.Defs.{
  State, sleeping, waking, awake, Proxy, is_sleeping, is_waking, is_awake, update_status,
}

-- The first lock of `triggerWake`: nothing to do, or the wake is claimed.
unfoldable pub claim : Proxy → Option Proxy
claim p =
    if is_waking p.state || is_awake p.state
    then none
    else some (record p { state = waking; wake_cancel = true })

-- The progress of the wake, 0 to 100, mapped to 10 to 95.
unfoldable pub mapped_progress : ℕ → ℕ
mapped_progress progress = 10 + progress * 85 / 100

unfoldable pub on_wake_progress : ℤ → Report → Proxy → Proxy
unfolding mapped_progress
on_wake_progress now r p = update_status now waking r.message (mapped_progress r.progress) p

unfoldable pub on_reports : ℤ → List Report → Proxy → Proxy
unfolding on_wake_progress
on_reports now [] p = p
on_reports now (r ∷ reports) p = on_reports now reports (on_wake_progress now r p)

-- The error path of the request.
unfoldable pub request_failed : ℤ → Error → Proxy → Proxy
request_failed now e p =
    update_status now sleeping ("Failed to request wake-up: " <> error_text e) 0 p

unfoldable pub wait_failed : ℤ → Error → Proxy → Proxy
wait_failed now e p = update_status now sleeping ("Wake-up timeout: " <> error_text e) 0 p

-- The end of `triggerWake`, in its three steps.
unfoldable pub announce_ready : ℤ → Proxy → Proxy
announce_ready now p = update_status now waking "Service is ready!" 95 p

unfoldable pub mark_awake : ℤ → Proxy → Proxy
mark_awake now p = record p { state = awake; last_activity = now }

unfoldable pub announce_awake : ℤ → Proxy → Proxy
announce_awake now p = update_status now awake "Service is ready!" 100 p

unfoldable pub finish_wake : ℤ → Proxy → Proxy
unfolding announce_ready mark_awake announce_awake
finish_wake now p = announce_awake now (mark_awake now (announce_ready now p))

-- What happens when the wait has returned; it may also go on for ever.
unfoldable pub after_wait : ℤ → Option (Result (Unit {0})) → Proxy → Proxy
unfolding finish_wake wait_failed
after_wait now none p = p
after_wait now (some (ok u)) p = finish_wake now p
after_wait now (some (err e)) p = wait_failed now e p

-- `triggerWake` with nothing in between: the answer to the request, and what the wait did.
unfoldable pub after_request : ℤ → Result (Unit {0}) → Waited → Proxy → Proxy
unfolding request_failed on_reports after_wait
after_request now (err e) waited p = request_failed now e p
after_request now (ok u) waited p = after_wait now waited.result (
    on_reports now waited.reports
      (update_status now waking "Wake-up requested, waiting for controller..." 10 p))

unfoldable pub trigger_wake : ℤ → Result (Unit {0}) → Waited → Proxy → Proxy
unfolding after_request
trigger_wake now requested waited p = elim (claim p) [
  | none ↦ p
  | some claimed ↦
      after_request now requested waited
        (update_status now waking "Starting wake-up sequence..." 5 claimed)
]

-- `hibernate`: the first lock cancels a wake; an error of the request is only logged.
unfoldable pub cancel_wake : Proxy → Proxy
cancel_wake p = if p.wake_cancel then record p { cancelled = suc p.cancelled } else p

unfoldable pub finish_hibernate : ℤ → Proxy → Proxy
finish_hibernate now p =
    update_status now sleeping "Service is hibernated" 0 (record p { state = sleeping })

unfoldable pub hibernate : ℤ → Result (Unit {0}) → Proxy → Proxy
unfolding cancel_wake finish_hibernate
hibernate now requested p =
    if is_sleeping p.state
    then p
    else finish_hibernate now
        (update_status now sleeping "Hibernating service..." 50 (cancel_wake p))

-- One tick of `idleMonitor`.
unfoldable pub idle_tick : (timeout now : ℤ) → Result (Unit {0}) → Proxy → Proxy
unfolding hibernate
idle_tick timeout now requested p =
    if is_awake p.state && ltb_ℤ timeout (now -ℤ p.last_activity)
    then hibernate now requested p
    else p
