-- ===== src/Proxy/Routes.antt =====
-- The patterns that `main` of cmd/proxy/main.go registers, and what their handlers do: the handler of
-- a port, `handleStatus`, `handleSSE`, `handleHealth`, `handleWake` and `handleSleep`.
pub mod Access
use sleepyservice.Prelude.{String, Bool, true, false, List, [], ◌∷◌, ℤ, ite, string_discrete}
use sleepyservice.Proxy.Defs.{State, sleeping, waking, awake, Proxy, WakeStatus}
use sleepyservice.Proxy.Requests.{Handled, port_handler, debug_triggers}
use sleepyservice.Proxy.Config.{Config}

-- The handler of a pattern.
pub data Route : Type 0 where
  port_route status_route events_route health_route wake_route sleep_route : Route

unfoldable pub debug_routes : Bool → List (String × Route)
debug_routes true = ("/_wake/debug/wake", wake_route) ∷ ("/_wake/debug/sleep", sleep_route) ∷ []
debug_routes false = []

-- The patterns that `main` registers with the mux of each server.
unfoldable pub routes : Config → List (String × Route)
unfolding debug_routes
routes config =
    ("/", port_route)
    ∷ ("/_wake/status", status_route)
    ∷ ("/_wake/events", events_route)
    ∷ ("/_wake/health", health_route)
    ∷ debug_routes config.debug_endpoints

-- `http.ServeMux`, on a path that it does not redirect: of patterns that do not end in a slash each
-- matches its own path only, and "/" matches the other paths.
unfoldable pub dispatch : String → List (String × Route) → Route
dispatch path [] = port_route
dispatch path ((pattern, route) ∷ mux) =
    let rest = dispatch path mux in ite (string_discrete path pattern) route rest

-- `State.String`
unfoldable pub state_text : State → String
state_text sleeping = "sleeping"
state_text waking = "waking"
state_text awake = "awake"

-- What a handler does: that of a port, the two reports, the stream, and the two debug handlers, whose
-- flag tells whether the method was allowed and the goroutine was started.
pub data Served : Type 0 where
  by_port : Handled → Served
  status_shown : WakeStatus → Served
  stream_opened : Served
  healthy : String → Served
  wake_triggered hibernate_triggered : Bool → Served

unfoldable pub serve_route : ℤ → (method path accept : String) → Proxy → Route → Served
unfolding port_handler debug_triggers state_text
serve_route now method path accept p port_route = by_port (port_handler now path accept p)
serve_route now method path accept p status_route = status_shown p.wake_status
serve_route now method path accept p events_route = stream_opened
serve_route now method path accept p health_route = healthy (state_text p.state)
serve_route now method path accept p wake_route = wake_triggered (debug_triggers method)
serve_route now method path accept p sleep_route = hibernate_triggered (debug_triggers method)

unfoldable pub serve : Config → ℤ → (method path accept : String) → Proxy → Served
unfolding serve_route dispatch routes
serve config now method path accept p =
    serve_route now method path accept p (dispatch path (routes config))
