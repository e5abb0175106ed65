-- ===== src/Kubernetes/Waiting/Ready/Ends.antt =====
-- When the waits for a Deployment and for a CNPG cluster succeed, and the range of what they report.
use sleepyservice.Prelude.{
  ℕ, zero, suc, ◌*◌, ◌/◌, ◌≡◌, ◌≤◌, ◌<◌, refl, sym, ◌∙◌, true, false, Option, none, some, List, ◌↔◌,
  if_pos, if_neg, string_discrete, ℤ, pos, negsuc, ltb_ℤ, int32, wrap, arith,
}
use sleepyservice.Errors.{ok}
use sleepyservice.Cluster.{Workload, ClusterStatus, CnpgCluster}
use sleepyservice.Kubernetes.Waiting.{Event}
use sleepyservice.Kubernetes.Waiting.Loop.{Sees, is_over, wait-ok}
use sleepyservice.Kubernetes.Waiting.Ready.{
  capped, percentage, higher, desired_replicas, deployment_report, deployment_look,
  wait_for_deployment_ready, status_look, cluster_look, wait_for_cnpg_ready,
}

-- At least one replica is ready, and as many as are desired.
abbrev pub IsReady : Workload → Type 0
IsReady deploy =
    (ltb_ℤ deploy.ready_replicas (desired_replicas deploy) ≡ false)
    × (ltb_ℤ (pos 0) deploy.ready_replicas ≡ true)

-- The wait for a Deployment succeeds exactly if a tick before the end of the context finds it with at
-- least one ready replica and as many as are desired, one where the Deployment does not say.
pub wait_for_deployment_ready-ok :
    (events : List (Event Workload))
    → ((wait_for_deployment_ready events).result ≡ some (ok tt)) ↔ Sees IsReady events
unfolding wait_for_deployment_ready deployment_look
wait_for_deployment_ready-ok events =
    wait-ok deployment_look IsReady
      (λ n deploy. (λ e. ground (arith, e), λ h. ground (arith, h.0, h.1))) events

abbrev pub IsHealthyStatus : Option ClusterStatus → Type 0
IsHealthyStatus none = ⊥
IsHealthyStatus (some status) =
    (status.phase ≡ "Cluster in healthy state") × (ltb_ℤ (pos 0) status.ready_instances ≡ true)

status_look-over :
    (n : ℕ) (o : Option ClusterStatus) → (is_over (status_look n o) ≡ true) ↔ IsHealthyStatus o
unfolding status_look
status_look-over n none = (λ e. cc, λ h. absurd h)
status_look-over n (some status) = (
  λ e. elim (string_discrete status.phase "Cluster in healthy state") [
    | yes p ↦ (p, sym (if_pos (string_discrete _ _) p _ _) ∙ e)
    | no q ↦
        absurd (cc (if_neg (string_discrete _ _) q (ltb_ℤ (pos 0) status.ready_instances) false, e))
  ],
  λ h. if_pos (string_discrete _ _) h.0 _ _ ∙ h.1,
)

-- The wait for a CNPG cluster succeeds exactly if a tick before the end of the context finds it with
-- a status whose phase is that of a healthy cluster and that has a ready instance.
pub wait_for_cnpg_ready-ok :
    (events : List (Event CnpgCluster))
    → ((wait_for_cnpg_ready events).result ≡ some (ok tt))
      ↔ Sees (λ cluster. IsHealthyStatus cluster.status) events
unfolding wait_for_cnpg_ready cluster_look
wait_for_cnpg_ready-ok events =
    wait-ok cluster_look (λ cluster. IsHealthyStatus cluster.status)
      (λ n cluster. status_look-over n cluster.status) events

percent_le : (r d : ℕ) → r ≤ d → 0 < d → r * 100 / d ≤ 100
percent_le r d h p = grind arith

percentage_le :
    (r d : ℕ)
    → r ≤ d
    → r < 21_474_837
    → (n : ℕ) → percentage int32 (pos r) (pos d) ≡ pos n
    → n ≤ 100
unfolding percentage wrap
percentage_le r zero h k n e = ground (arith, e)
percentage_le r (suc d) h k n e = ground (arith, e, percent_le r (suc d) h)

higher_le :
    (t : ℕ) (z : ℤ)
    → t ≤ 100
    → ((n : ℕ) → z ≡ pos n → n ≤ 100)
    → (t ≤ higher t z) × (higher t z ≤ 100)
higher_le t (pos n) h k = ground (arith, k n refl)
higher_le t (negsuc n) h k = (omega arith, h)

-- Where no more replicas are ready than desired, and fewer than the 21474837 whose hundredfold leaves
-- an `int32`, a tick reports at most 100 percent, and at least the time that has passed, up to 95.
deployment_report_bounds :
    (time : ℕ) (deploy : Workload) (r d : ℕ)
    → deploy.ready_replicas ≡ pos r
    → desired_replicas deploy ≡ pos d
    → r ≤ d
    → r < 21_474_837
    → (capped time ≤ (deployment_report time deploy).progress)
      × ((deployment_report time deploy).progress ≤ 100)
unfolding deployment_report
deployment_report_bounds time deploy r d ready desired h k =
    rw (ready, desired)
      (higher_le (capped time) (percentage int32 (pos r) (pos d)) (ground arith)
        (percentage_le r d h k))
