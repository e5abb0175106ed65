-- ===== src/Proxy/Requests.antt =====
-- `makePortHandler`, `isAPIRequest` and `waitAndProxyToPort`, and the debug endpoints.
use sleepyservice.Prelude.{
  String, Bool, true, false, not, ◌&&◌, Option, none, some, List, [], ◌∷◌, if◌then◌else◌, ite,
  string_discrete, ℤ,
}
use text.Mathlib.Text.{starts_with, find?}
use sleepyservice.Proxy.Defs.{State, sleeping, waking, awake, Proxy, is_awake}

-- What a handler does with a request. `proxied` hands it to the backend, `held` waits for the wake
-- first, `waiting_page` shows the page, and `no_answer` returns with nothing written.
pub data Reply : Type 0 where
  proxied held waiting_page no_answer : Reply

-- The reply, whether a wake is triggered in a new goroutine, and the state after the handler.
pub record Handled : Type 0 where
  pub reply : Reply
  pub triggers_wake : Bool
  pub proxy : Proxy

-- `strings.Contains`
abbrev contains : String → String → Bool
contains s t = elim (find? s t) [ none ↦ false | some i ↦ true ]

-- By the header `Accept`: there is one, and it does not name text/html.
unfoldable pub is_api_request : String → Bool
is_api_request accept =
    not (ite (string_discrete accept "") true false) && not (contains accept "text/html")

-- `len(path) >= 6 && path[:6] == "/_wake"`
unfoldable pub is_wake_path : String → Bool
is_wake_path path = starts_with path "/_wake"

abbrev pub page_or_hold : String → Reply
page_or_hold accept = if is_api_request accept then held else waiting_page

-- The switch on the state that was read under the lock.
unfoldable pub serve_state : ℤ → String → Proxy → State → Handled
serve_state now accept p awake = record {
  reply = proxied;
  triggers_wake = false;
  proxy = record p { last_activity = now };
}
serve_state now accept p waking = record {
  reply = page_or_hold accept;
  triggers_wake = false;
  proxy = p;
}
serve_state now accept p sleeping = record {
  reply = page_or_hold accept;
  triggers_wake = true;
  proxy = p;
}

unfoldable pub port_handler : ℤ → (path accept : String) → Proxy → Handled
unfolding serve_state
port_handler now path accept p =
    if is_wake_path path
    then record { reply = no_answer; triggers_wake = false; proxy = p }
    else serve_state now accept p p.state

-- What the `select` of a held request takes: the timeout, or a tick with the state at it.
pub data Poll : Type 0 where
  timeout : Poll
  tick : State → Poll

-- The value that is sent on `wakeCh`; `none` while nothing is sent.
unfoldable pub poll_awake : List Poll → Option Bool
poll_awake [] = none
poll_awake (timeout ∷ polls) = some false
poll_awake (tick state ∷ polls) =
    let rest = poll_awake polls in if is_awake state then some true else rest

pub data HeldReply : Type 0 where
  proxied_late gateway_timeout : HeldReply

unfoldable pub after_poll : ℤ → Bool → Proxy → HeldReply × Proxy
after_poll now true p = (proxied_late, record p { last_activity = now })
after_poll now false p = (gateway_timeout, p)

-- `handleWake` and `handleSleep`: only a POST triggers anything.
unfoldable pub debug_triggers : String → Bool
debug_triggers method = ite (string_discrete method "POST") true false
