-- ===== src/Proxy/Threads/Quiet.antt =====
-- Whatever the order of the moves: once every goroutine has finished, the status that clients are
-- shown is that of the proxy's state.
use sleepyservice.Prelude.{
  ◌≡◌, sym, subst, Bool, true, false, List, [], ◌∷◌, All, ◌⊎◌, inl, inr, String, ℤ, Bool-cases,
  ◌&&◌, ◌-ℤ◌, ltb_ℤ,
}
use sleepyservice.Proxy.Defs.{State, sleeping, waking, awake, Proxy, is_awake}
use sleepyservice.Proxy.Events.{subscribe, unsubscribe}
use sleepyservice.Proxy.Wake.Outcome.{IsConsistent, check-IsConsistent}
use sleepyservice.Proxy.Config.{Config}
use sleepyservice.Proxy.Requests.{Handled}
use sleepyservice.Proxy.Routes.{
  Served, by_port, status_shown, stream_opened, healthy, wake_triggered, hibernate_triggered, serve,
}
use sleepyservice.Proxy.Routes.Access.{
  ForState, Answers, reserved, application, IsAllowed, serve-IsAllowed,
}
use sleepyservice.Proxy.Threads.{
  Thread, finished, wake_start, wake_request, wake_wait, wake_mark, sleep_start, sleep_request,
  sleep_settle, update, send, System, with_proxy, spawn, handled, served, Event, request, idle,
  resumed, joined, left, checked, happen, Step, moves, happens, Reach, here, next,
}
use sleepyservice.Proxy.Threads.Settles.{is_update, HasUpdate, Settles, moves-Settles}

handled-Settles :
    (r : Handled) (s : System)
    → Settles s
    → (IsConsistent s.shared.proxy → IsConsistent r.proxy)
    → Settles (handled r s)
unfolding handled with_proxy spawn
handled-Settles r s h k = elim (Bool-cases r.triggers_wake) [
  | inl wakes ↦ rw wakes (widen h)
  | inr waits ↦ rw waits (keep h)
]
  where
    keep : Settles s → Settles (record s { shared = record s.shared { proxy = r.proxy } })
    keep (inl c) = inl (k c)
    keep (inr u) = inr u

    widen :
        Settles s
        → Settles (record {
          shared = record s.shared { proxy = r.proxy };
          threads = wake_start ∷ s.threads;
        })
    widen (inl c) = inl (k c)
    widen (inr u) = inr (inr u)

ForState-IsConsistent :
    (now : ℤ) (state : State) (p : Proxy) (h : Handled)
    → ForState now state p h
    → IsConsistent p
    → IsConsistent h.proxy
ForState-IsConsistent now sleeping p h k c = subst IsConsistent (sym k.2) c
ForState-IsConsistent now waking p h k c = subst IsConsistent (sym k.2) c
ForState-IsConsistent now awake p h k c = subst IsConsistent (sym k.2) c

Answers-IsConsistent :
    (now : ℤ) (path : String) (p : Proxy) (h : Handled)
    → Answers now path p h
    → IsConsistent p
    → IsConsistent h.proxy
Answers-IsConsistent now path p h (reserved rest e reply quiet same) c =
    subst IsConsistent (sym same) c
Answers-IsConsistent now path p h (application differs k) c =
    ForState-IsConsistent now p.state p h k c

spawn-Settles : (t : Thread) (s : System) → Settles s → Settles (spawn t s)
unfolding spawn
spawn-Settles t s (inl c) = inl c
spawn-Settles t s (inr u) = inr (inr u)

served-Settles :
    (config : Config) (now : ℤ) (method path accept : String) (s : System)
    → Settles s
    → Settles (served (serve config now method path accept s.shared.proxy) s)
unfolding served
served-Settles config now method path accept s h =
    by_served (serve config now method path accept s.shared.proxy)
      (serve-IsAllowed config now method path accept s.shared.proxy)
  where
    by_served :
        (v : Served) → IsAllowed config now method path s.shared.proxy v → Settles (served v s)
    by_served (by_port r) k =
        handled-Settles r s h (Answers-IsConsistent now path s.shared.proxy r k)
    by_served (status_shown status) k = h
    by_served stream_opened k = h
    by_served (healthy state) k = h
    by_served (wake_triggered true) k = spawn-Settles wake_start s h
    by_served (wake_triggered false) k = h
    by_served (hibernate_triggered true) k = spawn-Settles sleep_start s h
    by_served (hibernate_triggered false) k = h

happen-Settles :
    (config : Config) (e : Event) (s : System) → Settles s → Settles (happen config e s)
unfolding happen with_proxy
happen-Settles config (request now method path accept) s h =
    served-Settles config now method path accept s h
happen-Settles config (idle timeout now) s h =
    elim (Bool-cases
      (is_awake s.shared.proxy.state && ltb_ℤ timeout (now -ℤ s.shared.proxy.last_activity))) [
        | inl late ↦ rw late (spawn-Settles sleep_start s h)
        | inr early ↦ rw early h
      ]
happen-Settles config (resumed now) s h = h
happen-Settles config (joined id) s h = unfold subscribe in h
happen-Settles config (left id) s h = unfold unsubscribe in h
happen-Settles config (checked r) s (inl c) = inl (check-IsConsistent r s.shared.proxy c)
happen-Settles config (checked r) s (inr u) = inr u

Step-Settles : (config : Config) (s u : System) → Step config s u → Settles s → Settles u
Step-Settles config s u (moves before t after a e e') h = subst Settles (sym e') (
    moves-Settles s before t after a (subst (λ ts. IsConsistent s.shared.proxy ⊎ HasUpdate ts) e h))
Step-Settles config s u (happens e e') h = subst Settles (sym e') (happen-Settles config e s h)

Reach-Settles : (config : Config) {s u : System} → Reach config s u → Settles s → Settles u
Reach-Settles config here h = h
Reach-Settles config (next {t} {u} r st) h = Step-Settles config t u st (Reach-Settles config r h)

abbrev pub is_finished : Thread → Bool
is_finished finished = true
is_finished _ = false

finished-HasUpdate : (ts : List Thread) → All (λ t. is_finished t ≡ true) ts → HasUpdate ts → ⊥
finished-HasUpdate [] h u = u
finished-HasUpdate (t ∷ ts) h (inl u) = not_both t h.0 u
  where
    not_both : (t : Thread) → is_finished t ≡ true → is_update t ≡ true → ⊥
    not_both finished h u = cc
    not_both (update s m n onwards) h u = cc
    not_both (send status onwards) h u = cc
    not_both wake_start h u = cc
    not_both wake_request h u = cc
    not_both wake_wait h u = cc
    not_both wake_mark h u = cc
    not_both sleep_start h u = cc
    not_both sleep_request h u = cc
    not_both sleep_settle h u = cc
finished-HasUpdate (t ∷ ts) h (inr u) = finished-HasUpdate ts h.1 u

-- With any configuration, in any order of the goroutines' moves, of requests to any path, checks and
-- idle ticks, and whatever the API answers: if the shown status was that of the proxy's state at the start, it is
-- again whenever every goroutine of a wake or a hibernation has finished.
pub Reach-IsConsistent :
    (config : Config) (s u : System)
    → IsConsistent s.shared.proxy
    → Reach config s u
    → All (λ t. is_finished t ≡ true) u.threads
    → IsConsistent u.shared.proxy
Reach-IsConsistent config s u c r quiet = settled (Reach-Settles config r (inl c))
  where
    settled : Settles u → IsConsistent u.shared.proxy
    settled (inl k) = k
    settled (inr k) = absurd (finished-HasUpdate u.threads quiet k)
