-- ===== src/Kubernetes/Waiting.antt =====
-- The loop of the waits of internal/proxy/kubernetes.go, and `WaitForSleepyServiceAwake`.
pub mod Loop
pub mod Ready
use sleepyservice.Prelude.{
  ℕ, suc, Bool, true, false, ◌*◌, ◌/◌, String, not, ◌&&◌, Option, none, some, List, [], ◌∷◌,
  if◌then◌else◌, ltb, length, ◌<>◌, decimal,
}
use sleepyservice.Errors.{Error, Result, ok, err}
use sleepyservice.Api.{SleepyService, ComponentStatus, ServiceState, is_awake}

unfoldable pub ready_count : List ComponentStatus → ℕ
ready_count [] = 0
ready_count (c ∷ components) =
    let rest = ready_count components in if c.ready then suc rest else rest

-- The progress that one tick of `WaitForSleepyServiceAwake` reports, capped at 95 until Awake.
unfoldable pub awake_progress : ServiceState → List ComponentStatus → ℕ
unfolding ready_count
awake_progress state components =
    let total = length components in
    let progress = if ltb 0 total then ready_count components * 100 / total else 0 in
    if ltb 95 progress && not (is_awake state) then 95 else progress

-- What a call of `onProgress` is given.
pub record Report : Type 0 where
  pub message : String
  pub progress : ℕ

unfoldable pub awake_report : ℕ → SleepyService → Report
unfolding awake_progress
awake_report elapsed hs = record {
  message =
      "Waking service ("
      <> decimal (ready_count hs.status.components)
      <> "/"
      <> decimal (length hs.status.components)
      <> " components ready, "
      <> decimal elapsed
      <> "s elapsed)";
  progress = awake_progress hs.status.state hs.status.components;
}

-- What the `select` of a wait takes: the end of the context, or a tick with what the loop works out
-- from the clock and the answer of the API.
pub data Event (A : Type 0) : Type 0 where
  done : Error → Event A
  tick : ℕ → Result A → Event A

-- The reports made and, if it has returned, the result of the loop.
pub record Waited : Type 0 where
  pub reports : List Report
  pub result : Option (Result (Unit {0}))

-- What a look at an answer leads to: nothing, or a report and whether the wait is over.
abbrev pub after_look : Option (Report × Bool) → Waited → Waited
after_look none onwards = onwards
after_look (some (r, true)) onwards = record { reports = r ∷ []; result = some (ok tt) }
after_look (some (r, false)) onwards = record onwards { reports = r ∷ onwards.reports }

-- The loop that the waits have in common.
unfoldable pub wait : {A : Type 0} → (ℕ → A → Option (Report × Bool)) → List (Event A) → Waited
wait look [] = record { reports = []; result = none }
wait look (done e ∷ events) = record { reports = []; result = some (err e) }
wait look (tick n (err e) ∷ events) = wait look events
wait look (tick n (ok a) ∷ events) = let onwards = wait look events in after_look (look n a) onwards

-- A tick of `WaitForSleepyServiceAwake` has the whole seconds elapsed.
unfoldable pub awake_look : ℕ → SleepyService → Option (Report × Bool)
unfolding awake_report
awake_look elapsed hs = some (awake_report elapsed hs, is_awake hs.status.state)

unfoldable pub wait_for_awake : List (Event SleepyService) → Waited
unfolding awake_look wait
wait_for_awake events = wait awake_look events
