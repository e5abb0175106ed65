-- ===== src/Proxy/Threads/Settles.antt =====
-- Between the moves of a goroutine of `triggerWake` or `hibernate`, the status that clients are shown
-- differs from the proxy's state only where some goroutine is about to write both.
use sleepyservice.Prelude.{
  ◌≡◌, refl, Bool, true, false, Option, none, some, List, [], ◌∷◌, ◌++◌, ◌⊎◌, inl, inr, arith, ℕ,
  String, ℤ,
}
use sleepyservice.Errors.{Result, ok, err}
use sleepyservice.Proxy.Defs.{State, Proxy, new_status, broadcast_status}
use sleepyservice.Proxy.Wake.{claim, cancel_wake}
use sleepyservice.Proxy.Wake.Outcome.{IsConsistent}
use sleepyservice.Proxy.Threads.{
  Thread, finished, wake_start, wake_request, wake_wait, wake_mark, sleep_start, sleep_request,
  sleep_settle, update, send, Progress, report, returned, Answer, Shared, System, move, after_claim,
  after_wake_request, after_progress, after_sleep_request, write_status,
}

abbrev pub is_update : Thread → Bool
is_update (update s m n onwards) = true
is_update _ = false

-- Some goroutine is about to write the status.
abbrev pub HasUpdate : List Thread → Type 0
HasUpdate [] = ⊥
HasUpdate (t ∷ ts) = (is_update t ≡ true) ⊎ HasUpdate ts

-- The status is that of the state, unless a goroutine is about to write both.
abbrev pub Settles : System → Type 0
Settles s = IsConsistent s.shared.proxy ⊎ HasUpdate s.threads

new_status-state : (now : ℤ) (s : State) (m : String) (n : ℕ) → (new_status now s m n).state ≡ s
unfolding new_status
new_status-state now s m n = ground arith

-- Where the state and the status differ after a move, the goroutine will write both next.
move-Settles :
    (a : Answer) (t : Thread) (s : Shared)
    → IsConsistent s.proxy ⊎ (is_update t ≡ true)
    → IsConsistent (move a t s).1.proxy ⊎ (is_update (move a t s).0 ≡ true)
unfolding move
move-Settles a finished s h = h
move-Settles a wake_start s h = by_claim (claim s.proxy) h
  where
    by_claim :
        (o : Option Proxy)
        → IsConsistent s.proxy ⊎ (is_update wake_start ≡ true)
        → IsConsistent (after_claim s o).1.proxy ⊎ (is_update (after_claim s o).0 ≡ true)
    by_claim none (inl h) = unfold after_claim in inl h
    by_claim none (inr h) = absurd (cc)
    by_claim (some p) h = unfold after_claim in inr refl
move-Settles a wake_request s h = by_answer a.requested
  where
    by_answer :
        (r : Result (Unit {0}))
        → IsConsistent (after_wake_request s r).1.proxy
          ⊎ (is_update (after_wake_request s r).0 ≡ true)
    by_answer (ok u) = unfold after_wake_request in inr refl
    by_answer (err e) = unfold after_wake_request in inr refl
move-Settles a wake_wait s h = ground (arith, update_next a.progress)
  where
    update_next : (p : Progress) → is_update (after_progress p) ≡ true
    update_next (report r) = unfold after_progress in refl
    update_next (returned (ok u)) = unfold after_progress in refl
    update_next (returned (err e)) = unfold after_progress in refl
move-Settles a wake_mark s h = inr refl
move-Settles a sleep_start s h = unfold cancel_wake in ground arith
move-Settles a sleep_request s h = by_answer a.requested h
  where
    by_answer :
        (r : Result (Unit {0}))
        → IsConsistent s.proxy ⊎ (is_update sleep_request ≡ true)
        → IsConsistent (after_sleep_request s r).1.proxy
          ⊎ (is_update (after_sleep_request s r).0 ≡ true)
    by_answer (ok u) (inl h) = unfold after_sleep_request in inl h
    by_answer (err e) (inl h) = unfold after_sleep_request in inl h
    by_answer (ok u) (inr h) = absurd (cc)
    by_answer (err e) (inr h) = absurd (cc)
move-Settles a sleep_settle s h = inr refl
move-Settles a (update state message progress onwards) s h = unfold write_status in inl refl
move-Settles a (send status onwards) s (inl h) = unfold broadcast_status in inl h
move-Settles a (send status onwards) s (inr h) = absurd (cc)

HasUpdate-split :
    (before : List Thread) (t : Thread) (after : List Thread)
    → HasUpdate (before ++ t ∷ after)
    → (is_update t ≡ true) ⊎ ((t' : Thread) → HasUpdate (before ++ t' ∷ after))
HasUpdate-split [] t after (inl h) = inl h
HasUpdate-split [] t after (inr h) = inr (λ t'. inr h)
HasUpdate-split (x ∷ before) t after (inl h) = inr (λ t'. inl h)
HasUpdate-split (x ∷ before) t after (inr h) = elim (HasUpdate-split before t after h) [
  | inl now ↦ inl now
  | inr rest ↦ inr (λ t'. inr (rest t'))
]

HasUpdate-here :
    (before : List Thread) (t : Thread) (after : List Thread)
    → is_update t ≡ true
    → HasUpdate (before ++ t ∷ after)
HasUpdate-here [] t after h = inl h
HasUpdate-here (x ∷ before) t after h = inr (HasUpdate-here before t after h)

pub moves-Settles :
    (s : System) (before : List Thread) (t : Thread) (after : List Thread) (a : Answer)
    → Settles (record s { threads = before ++ t ∷ after })
    → Settles (record {
      shared = (move a t s.shared).1;
      threads = before ++ (move a t s.shared).0 ∷ after;
    })
moves-Settles s before t after a (inl h) = elim (move-Settles a t s.shared (inl h)) [
  | inl k ↦ inl k
  | inr k ↦ inr (HasUpdate-here before (move a t s.shared).0 after k)
]
moves-Settles s before t after a (inr h) = elim (HasUpdate-split before t after h) [
  | inl now ↦ elim (move-Settles a t s.shared (inr now)) [
    | inl k ↦ inl k
    | inr k ↦ inr (HasUpdate-here before (move a t s.shared).0 after k)
  ]
  | inr rest ↦ inr (rest (move a t s.shared).0)
]
