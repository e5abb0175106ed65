-- ===== src/Proxy/Wake/Progress.antt =====
-- The progress of a wake, from the components' readiness to what the subscribers see.
use sleepyservice.Prelude.{
  ◌↔◌, ℕ, ◌*◌, ◌/◌, ◌≤◌, ◌<◌, ◌≡◌, true, false, some, List, [], ◌∷◌, All, length, arith,
}
use sleepyservice.Errors.{ok}
use sleepyservice.Api.{SleepyService, ComponentStatus, ServiceState, is_awake}
use sleepyservice.Kubernetes.Waiting.{
  ready_count, awake_progress, awake_report, awake_look, Report, Event, wait_for_awake,
}
use sleepyservice.Kubernetes.Waiting.Loop.{Sees, wait-ok, wait-All}
use sleepyservice.Proxy.Wake.{mapped_progress}

ready_count-le : (l : List ComponentStatus) → ready_count l ≤ length l
unfolding ready_count
ready_count-le [] = omega arith
ready_count-le (c ∷ l) = ground (arith, ready_count-le l)

percent_le : (r n : ℕ) → r ≤ n → 0 < n → r * 100 / n ≤ 100
percent_le r n h p = grind arith

-- A tick reports at most 100 percent, and at most 95 as long as the service is not Awake.
awake_progress_bounds :
    (state : ServiceState) (l : List ComponentStatus)
    → (awake_progress state l ≤ 100) × (is_awake state ≡ false → awake_progress state l ≤ 95)
unfolding awake_progress
awake_progress_bounds state l =
    ground (arith, ready_count-le l, percent_le (ready_count l) (length l))

-- Progress up to 100 is mapped into the range from 10 to 95.
mapped_progress_bounds : (n : ℕ) → n ≤ 100 → (10 ≤ mapped_progress n) × (mapped_progress n ≤ 95)
unfolding mapped_progress
mapped_progress_bounds n h = omega arith

-- A progress that the proxy shows in the range from 10 to 95.
abbrev pub IsShown : Report → Type 0
IsShown r = (10 ≤ mapped_progress r.progress) × (mapped_progress r.progress ≤ 95)

awake_report-IsShown : (elapsed : ℕ) (hs : SleepyService) → IsShown (awake_report elapsed hs)
unfolding awake_report
awake_report-IsShown elapsed hs =
    mapped_progress_bounds (awake_progress hs.status.state hs.status.components)
      (awake_progress_bounds hs.status.state hs.status.components).0

-- Whatever the ticks of the wait see, each progress that the proxy shows for them lies between
-- 10 and 95.
pub wait_for_awake-IsShown :
    (events : List (Event SleepyService)) → All IsShown (wait_for_awake events).reports
unfolding wait_for_awake awake_look
wait_for_awake-IsShown events = wait-All awake_look IsShown awake_report-IsShown events

-- The wait succeeds exactly if a tick before the end of the context finds the service Awake.
pub wait_for_awake-ok :
    (events : List (Event SleepyService))
    → ((wait_for_awake events).result ≡ some (ok tt))
      ↔ Sees (λ hs. is_awake hs.status.state ≡ true) events
unfolding wait_for_awake awake_look
wait_for_awake-ok events =
    wait-ok awake_look (λ hs. is_awake hs.status.state ≡ true) (λ n hs. (λ e. e, λ e. e)) events
