-- ===== src/Proxy/Threads/Stuck.antt =====
-- `main` of cmd/proxy: the first state of the proxy, and what follows if the service is waking then.
use sleepyservice.Prelude.{
  ◌≡◌, refl, Bool, true, false, none, List, [], ◌∷◌, All, arith, ℤ, String, ◌⊎◌, inl, inr,
}
use sleepyservice.Errors.{Result, ok}
use sleepyservice.Api
use sleepyservice.Api.{ServiceState}
use sleepyservice.Proxy.Defs.{
  State, sleeping, waking, awake, Proxy, check_and_update_state, observe_state,
}
use sleepyservice.Proxy.Events.{subscribe, unsubscribe}
use sleepyservice.Proxy.Config.{Config}
use sleepyservice.Proxy.Requests.{Reply, proxied, held, waiting_page, no_answer, Handled}
use sleepyservice.Proxy.Routes.{
  Served, by_port, status_shown, stream_opened, healthy, wake_triggered, hibernate_triggered, serve,
}
use sleepyservice.Proxy.Routes.Access.{
  ForState, Answers, reserved, application, IsAllowed, serve-IsAllowed,
}
use sleepyservice.Proxy.Threads.{
  System, with_proxy, spawn, handled, served, Event, request, idle, resumed, joined, left, checked,
  happen,
}

-- The proxy that `main` makes, before the first check. Its status has Go's zero values.
unfoldable pub new_proxy : ℤ → Proxy
new_proxy now = record {
  state = sleeping;
  wake_status = record { state = sleeping; message = ""; progress = 0; started_at = none };
  last_activity = now;
  wake_cancel = false;
  cancelled = 0;
  subscribers = [];
}

-- The check is made before anything is served.
unfoldable pub start : ℤ → Result ServiceState → System
unfolding new_proxy
start now first = record {
  shared = record { proxy = check_and_update_state first (new_proxy now); asked = none };
  threads = [];
}

unfoldable pub happen_all : Config → List Event → System → System
happen_all config [] s = s
happen_all config (e ∷ events) s = happen_all config events (happen config e s)

-- What clients and the clock do: all but a check, and the end of the wait of a held request. After the
-- start the code makes a check only where a request that was handed to the backend fails, and a held
-- request goes on only when the proxy is awake.
abbrev pub is_traffic : Event → Bool
is_traffic (request now method path accept) = true
is_traffic (idle timeout now) = true
is_traffic (joined id) = true
is_traffic (left id) = true
is_traffic _ = false

abbrev pub is_proxied : Reply → Bool
is_proxied proxied = true
is_proxied _ = false

-- The request was handed to the backend at once.
abbrev pub reaches_backend : Served → Bool
reaches_backend (by_port h) = is_proxied h.reply
reaches_backend _ = false

-- The proxy is waking, and nobody waits for the service.
abbrev pub Waits : System → Type 0
Waits s = (s.shared.proxy.state ≡ waking) × (s.threads ≡ [])

unproxied : (r : Reply) → (r ≡ held) ⊎ (r ≡ waiting_page) → is_proxied r ≡ false
unproxied held h = refl
unproxied waiting_page h = refl
unproxied no_answer h = refl
unproxied proxied (inl e) = absurd (cc)
unproxied proxied (inr e) = absurd (cc)

ForState-waking :
    (now : ℤ) (s : State) (p : Proxy) (h : Handled)
    → s ≡ waking
    → ForState now s p h
    → (h.proxy ≡ p) × (h.triggers_wake ≡ false) × (is_proxied h.reply ≡ false)
ForState-waking now waking p h e k = (k.2, k.0, unproxied h.reply k.1)
ForState-waking now sleeping p h e k = absurd (cc)
ForState-waking now awake p h e k = absurd (cc)

Answers-waking :
    (now : ℤ) (path : String) (p : Proxy) (h : Handled)
    → p.state ≡ waking
    → Answers now path p h
    → (h.proxy ≡ p) × (h.triggers_wake ≡ false) × (is_proxied h.reply ≡ false)
Answers-waking now path p h e (reserved rest e' reply quiet same) = (same, quiet, rw reply refl)
Answers-waking now path p h e (application differs k) = ForState-waking now p.state p h e k

-- Without the debug endpoints, a request to a waking proxy changes nothing and is not handed on.
served-Waits :
    (config : Config) (now : ℤ) (method path : String) (s : System) (v : Served)
    → config.debug_endpoints ≡ false
    → IsAllowed config now method path s.shared.proxy v
    → Waits s
    → Waits (served v s) × (reaches_backend v ≡ false)
unfolding served handled with_proxy spawn
served-Waits config now method path s (by_port h) off k w =
    let (same, quiet, reply) = Answers-waking now path s.shared.proxy h w.0 k in
    (rw (quiet, same) w, reply)
served-Waits config now method path s (status_shown status) off k w = (w, refl)
served-Waits config now method path s stream_opened off k w = (w, refl)
served-Waits config now method path s (healthy text) off k w = (w, refl)
served-Waits config now method path s (wake_triggered allowed) off k w =
    let on = k.0 in absurd (cc (on, off))
served-Waits config now method path s (hibernate_triggered allowed) off k w =
    let on = k.0 in absurd (cc (on, off))

happen-Waits :
    (config : Config) (e : Event) (s : System)
    → config.debug_endpoints ≡ false
    → is_traffic e ≡ true
    → Waits s
    → Waits (happen config e s)
unfolding happen with_proxy
happen-Waits config (request now method path accept) s off t h =
    (served-Waits config now method path s (serve config now method path accept s.shared.proxy) off
      (serve-IsAllowed config now method path accept s.shared.proxy) h).0
happen-Waits config (idle timeout now) s off t h = ground arith
happen-Waits config (resumed now) s off t h = absurd (cc)
happen-Waits config (joined id) s off t h = unfold subscribe in h
happen-Waits config (left id) s off t h = unfold unsubscribe in h
happen-Waits config (checked r) s off t h = absurd (cc)

happen_all-Waits :
    (config : Config) (events : List Event) (s : System)
    → config.debug_endpoints ≡ false
    → All (λ e. is_traffic e ≡ true) events
    → Waits s
    → Waits (happen_all config events s)
unfolding happen_all
happen_all-Waits config [] s off t h = h
happen_all-Waits config (e ∷ events) s off t h =
    happen_all-Waits config events (happen config e s) off t.1 (happen-Waits config e s off t.0 h)

-- If the proxy starts while the service is Waking and the debug endpoints are off, no requests of any
-- method to any path, idle ticks, and streams that come and go get it out of waking, as long as no
-- other check is made than the one at its start: it never starts to wait for the service, and a
-- request that comes next is not handed to the backend, also after the service has become Awake.
pub start-waking :
    (config : Config)
    → config.debug_endpoints ≡ false
    → (now : ℤ) (events : List Event) → All (λ e. is_traffic e ≡ true) events
    → let s = happen_all config events (start now (ok Api.ServiceState.waking)) in
      (s.shared.proxy.state ≡ waking)
      × (s.threads ≡ [])
      × ((later : ℤ) (method path accept : String)
          → reaches_backend (serve config later method path accept s.shared.proxy) ≡ false)
start-waking config off now events traffic =
    let s = happen_all config events (start now (ok Api.ServiceState.waking)) in
    let w =
      happen_all-Waits config events (start now (ok Api.ServiceState.waking)) off traffic started in
    (
      w.0,
      w.1,
      λ later method path accept.
          (served-Waits config later method path s
            (serve config later method path accept s.shared.proxy) off
            (serve-IsAllowed config later method path accept s.shared.proxy) w).1,
    )
  where
    started : Waits (start now (ok Api.ServiceState.waking))
    started = unfold start new_proxy check_and_update_state observe_state in (refl, refl)
