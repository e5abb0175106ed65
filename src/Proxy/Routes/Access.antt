-- ===== src/Proxy/Routes/Access.antt =====
-- Which requests reach the backend, and which start a wake or a hibernation.
use sleepyservice.Prelude.{
  ◌≡◌, ◌≢◌, refl, sym, subst, String, Bool, true, false, List, [], ◌∷◌, inl, inr, if_pos, if_neg,
  string_discrete, ℤ, arith, Bool-cases, if◌then◌else◌, ◌⊎◌, ◌↔◌, ◌<>◌,
}
use text.Mathlib.TextBridge.{IsPrefix}
use text.Mathlib.TextEquality.{starts_with_iff}
use sleepyservice.Proxy.Defs.{State, sleeping, waking, awake, Proxy}
use sleepyservice.Proxy.Config.{Config}
use sleepyservice.Proxy.Requests.{
  proxied, held, waiting_page, no_answer, port_handler, serve_state, is_wake_path, is_api_request,
  debug_triggers, Handled,
}
use sleepyservice.Proxy.Routes.{
  Route, port_route, status_route, events_route, health_route, wake_route, sleep_route,
  debug_routes, routes, dispatch, Served, by_port, status_shown, stream_opened, healthy,
  wake_triggered, hibernate_triggered, serve_route, serve, state_text,
}

-- What the handler of a port does with a path of the application, by the state of the proxy.
abbrev pub ForState : ℤ → State → Proxy → Handled → Type 0
ForState now sleeping p h =
    (h.triggers_wake ≡ true) × ((h.reply ≡ held) ⊎ (h.reply ≡ waiting_page)) × (h.proxy ≡ p)
ForState now waking p h =
    (h.triggers_wake ≡ false) × ((h.reply ≡ held) ⊎ (h.reply ≡ waiting_page)) × (h.proxy ≡ p)
ForState now awake p h =
    (h.triggers_wake ≡ false) × (h.reply ≡ proxied) × (h.proxy ≡ record p { last_activity = now })

-- What the handler of a port does.
pub data Answers (now : ℤ) (path : String) (p : Proxy) (h : Handled) : Type 0 where
  reserved :
      (rest : String)
      → path ≡ "/_wake" <> rest
      → h.reply ≡ no_answer
      → h.triggers_wake ≡ false
      → h.proxy ≡ p
      → Answers now path p h
  application :
      ((rest : String) → path ≢ "/_wake" <> rest) → ForState now p.state p h → Answers now path p h

-- What a request does, by the configuration, its method and its path.
abbrev pub IsAllowed : Config → ℤ → (method path : String) → Proxy → Served → Type 0
IsAllowed config now method path p (by_port h) = Answers now path p h
IsAllowed config now method path p (status_shown status) =
    (path ≡ "/_wake/status") × (status ≡ p.wake_status)
IsAllowed config now method path p stream_opened = path ≡ "/_wake/events"
IsAllowed config now method path p (healthy text) =
    (path ≡ "/_wake/health") × (text ≡ state_text p.state)
IsAllowed config now method path p (wake_triggered b) =
    (config.debug_endpoints ≡ true)
    × (path ≡ "/_wake/debug/wake")
    × ((b ≡ true) ↔ (method ≡ "POST"))
IsAllowed config now method path p (hibernate_triggered b) =
    (config.debug_endpoints ≡ true)
    × (path ≡ "/_wake/debug/sleep")
    × ((b ≡ true) ↔ (method ≡ "POST"))

-- Why the mux picks a route.
data Picked (config : Config) (path : String) : Route → Type 0 where
  other : Picked config path port_route
  status : path ≡ "/_wake/status" → Picked config path status_route
  events : path ≡ "/_wake/events" → Picked config path events_route
  health : path ≡ "/_wake/health" → Picked config path health_route
  wake : config.debug_endpoints ≡ true → path ≡ "/_wake/debug/wake" → Picked config path wake_route
  sleep :
      config.debug_endpoints ≡ true → path ≡ "/_wake/debug/sleep" → Picked config path sleep_route

dispatch-cons :
    (P : Route → Type 0) (path pattern : String) (route : Route) (mux : List (String × Route))
    → (path ≡ pattern → P route)
    → P (dispatch path mux)
    → P (dispatch path ((pattern, route) ∷ mux))
unfolding dispatch
dispatch-cons P path pattern route mux here later = elim (string_discrete path pattern) [
  | yes same ↦
      subst P (sym (if_pos (string_discrete path pattern) same route (dispatch path mux)))
        (here same)
  | no differs ↦
      subst P (sym (if_neg (string_discrete path pattern) differs route (dispatch path mux))) later
]

debug_routes-Picked :
    (config : Config) (path : String) (b : Bool)
    → config.debug_endpoints ≡ b
    → Picked config path (dispatch path (debug_routes b))
unfolding debug_routes
debug_routes-Picked config path false e = unfold dispatch in other
debug_routes-Picked config path true e =
    dispatch-cons (Picked config path) path "/_wake/debug/wake" wake_route _ (wake e) (
      dispatch-cons (Picked config path) path "/_wake/debug/sleep" sleep_route [] (sleep e)
        (unfold dispatch in other))

routes-Picked :
    (config : Config) (path : String) → Picked config path (dispatch path (routes config))
unfolding routes
routes-Picked config path =
    dispatch-cons (Picked config path) path "/" port_route _ (λ e. other)
      (dispatch-cons (Picked config path) path "/_wake/status" status_route _ status (
        dispatch-cons (Picked config path) path "/_wake/events" events_route _ events (
          dispatch-cons (Picked config path) path "/_wake/health" health_route _ health
            (debug_routes-Picked config path config.debug_endpoints refl))))

is_wake_path-prefix : (path : String) → is_wake_path path ≡ true → IsPrefix "/_wake" path
unfolding is_wake_path
is_wake_path-prefix path e = (starts_with_iff path "/_wake").0 e

prefix-is_wake_path : (path : String) → IsPrefix "/_wake" path → is_wake_path path ≡ true
unfolding is_wake_path
prefix-is_wake_path path e = (starts_with_iff path "/_wake").1 e

either : (b : Bool) → let r = if b then held else waiting_page in (r ≡ held) ⊎ (r ≡ waiting_page)
either true = inl refl
either false = inr refl

serve_state-ForState :
    (now : ℤ) (accept : String) (p : Proxy) (s : State)
    → ForState now s p (serve_state now accept p s)
unfolding serve_state
serve_state-ForState now accept p sleeping = (refl, either (is_api_request accept), refl)
serve_state-ForState now accept p waking = (refl, either (is_api_request accept), refl)
serve_state-ForState now accept p awake = (refl, refl, refl)

port_handler-Answers :
    (now : ℤ) (path accept : String) (p : Proxy)
    → Answers now path p (port_handler now path accept p)
unfolding port_handler ◌<>◌
port_handler-Answers now path accept p = elim (Bool-cases (is_wake_path path)) [
  | inl own ↦
      let (rest, e) = is_wake_path-prefix path own in rw own (reserved rest (sym e) refl refl refl)
  | inr foreign ↦ rw foreign (
      application (λ rest e. absurd (cc (foreign, prefix-is_wake_path path (rest, sym e))))
        (serve_state-ForState now accept p p.state))
]

debug_triggers-post : (method : String) → (debug_triggers method ≡ true) ↔ (method ≡ "POST")
unfolding debug_triggers
debug_triggers-post method = (λ e. ground (arith, e), λ e. ground (arith, e))

serve_route-IsAllowed :
    (config : Config) (now : ℤ) (method path accept : String) (p : Proxy) (route : Route)
    → Picked config path route
    → IsAllowed config now method path p (serve_route now method path accept p route)
unfolding serve_route
serve_route-IsAllowed config now method path accept p port_route other =
    port_handler-Answers now path accept p
serve_route-IsAllowed config now method path accept p status_route (status e) = (e, refl)
serve_route-IsAllowed config now method path accept p events_route (events e) = e
serve_route-IsAllowed config now method path accept p health_route (health e) = (e, refl)
serve_route-IsAllowed config now method path accept p wake_route (wake d e) =
    (d, e, debug_triggers-post method)
serve_route-IsAllowed config now method path accept p sleep_route (sleep d e) =
    (d, e, debug_triggers-post method)

pub serve-IsAllowed :
    (config : Config) (now : ℤ) (method path accept : String) (p : Proxy)
    → IsAllowed config now method path p (serve config now method path accept p)
unfolding serve
serve-IsAllowed config now method path accept p =
    serve_route-IsAllowed config now method path accept p (dispatch path (routes config))
      (routes-Picked config path)
