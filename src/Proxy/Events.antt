-- ===== src/Proxy/Events.antt =====
-- The subscribers of `handleSSE`, and what `broadcastStatus` sends them.
pub mod Stream
use sleepyservice.Prelude.{
  ℕ, ◌≤◌, List, [], ◌∷◌, map, All, length, length-append, if◌then◌else◌, ◌==◌, arith,
}
use sleepyservice.Proxy.Defs.{WakeStatus, Subscriber, Proxy, capacity, offer, broadcast_status}

-- A new channel, which holds nothing yet.
unfoldable pub subscribe : ℕ → Proxy → Proxy
subscribe id p = record p { subscribers = record { id = id; pending = [] } ∷ p.subscribers }

drop_id : ℕ → List Subscriber → List Subscriber
drop_id id [] = []
drop_id id (s ∷ l) = let rest = drop_id id l in if s.id == id then rest else s ∷ rest

unfoldable pub unsubscribe : ℕ → Proxy → Proxy
unfolding drop_id
unsubscribe id p = record p { subscribers = drop_id id p.subscribers }

-- No channel holds more than it has room for.
abbrev pub IsBounded : Proxy → Type 0
IsBounded p = All (λ s. length s.pending ≤ capacity) p.subscribers

offer-le :
    (status : WakeStatus) (s : Subscriber)
    → length s.pending ≤ capacity
    → length (offer status s).pending ≤ capacity
unfolding offer
offer-le status s h = ground (arith, length-append s.pending (status ∷ []))

-- If no channel holds more than its capacity, none does after a broadcast.
broadcast_status-IsBounded :
    (status : WakeStatus) (p : Proxy) → IsBounded p → IsBounded (broadcast_status status p)
unfolding broadcast_status
broadcast_status-IsBounded status p h = go p.subscribers h
  where
    go :
        (l : List Subscriber)
        → All (λ s. length s.pending ≤ capacity) l
        → All (λ s. length s.pending ≤ capacity) (map (offer status) l)
    go [] h = tt
    go (s ∷ l) h = (offer-le status s h.0, go l h.1)
