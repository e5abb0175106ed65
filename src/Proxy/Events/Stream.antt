-- ===== src/Proxy/Events/Stream.antt =====
-- What `handleSSE` writes to one client, while statuses are broadcast and its loop takes them out of
-- the channel.
use sleepyservice.Prelude.{
  ◌+◌, ◌≤◌, ◌<◌, ◌≡◌, refl, sym, ◌∙◌, ap, subst, Option, none, some, List, [], ◌∷◌, ◌++◌,
  append_assoc, append-nil, length, length-append, ltb, Bool-cases, inl, inr, ◌⊎◌, arith,
}
use sleepyservice.Proxy.Defs.{WakeStatus, Subscriber, capacity, offer}

-- `case status := <-ch`; an empty channel blocks the loop.
unfoldable pub receive : List WakeStatus → Option WakeStatus × List WakeStatus
receive [] = (none, [])
receive (status ∷ pending) = (some status, pending)

-- A broadcast, or a turn of the client's loop.
pub data Traffic : Type 0 where
  sent : WakeStatus → Traffic
  turn : Traffic

abbrev written : Option WakeStatus → List WakeStatus × Subscriber → List WakeStatus × Subscriber
written none r = r
written (some status) (l, s) = (status ∷ l, s)

-- The statuses that the client is sent, and its channel afterwards.
unfoldable pub stream : List Traffic → Subscriber → List WakeStatus × Subscriber
unfolding offer receive
stream [] s = ([], s)
stream (sent status ∷ traffic) s = stream traffic (offer status s)
stream (turn ∷ traffic) s =
    let (o, pending) = receive s.pending in
    written o (stream traffic (record s { pending = pending }))

abbrev pub sent_of : List Traffic → List WakeStatus
sent_of [] = []
sent_of (sent status ∷ traffic) = status ∷ sent_of traffic
sent_of (turn ∷ traffic) = sent_of traffic

-- The first list has some of the elements of the second, in their order.
abbrev pub IsSublist : List WakeStatus → List WakeStatus → Type 0
IsSublist l [] = l ≡ []
IsSublist l (x ∷ m) = IsSublist l m ⊎ ((rest : List WakeStatus) × (l ≡ x ∷ rest) × IsSublist rest m)

IsSublist-refl : (l : List WakeStatus) → IsSublist l l
IsSublist-refl [] = refl
IsSublist-refl (x ∷ l) = inr (l, refl, IsSublist-refl l)

IsSublist-insert :
    (l a : List WakeStatus) (x : WakeStatus) (b : List WakeStatus)
    → IsSublist l (a ++ b)
    → IsSublist l (a ++ x ∷ b)
IsSublist-insert l [] x b h = inl h
IsSublist-insert l (y ∷ a) x b (inl h) = inl (IsSublist-insert l a x b h)
IsSublist-insert l (y ∷ a) x b (inr (rest, e, h)) = inr (rest, e, IsSublist-insert rest a x b h)

-- What was sent and what still waits.
abbrev pub received : List Traffic → Subscriber → List WakeStatus
received traffic s = (stream traffic s).0 ++ (stream traffic s).1.pending

offered :
    (status : WakeStatus) (s : Subscriber) (l rest : List WakeStatus)
    → IsSublist l ((offer status s).pending ++ rest)
    → IsSublist l (s.pending ++ status ∷ rest)
unfolding offer
offered status s l rest h = elim (Bool-cases (ltb (length s.pending) capacity)) [
  | inl room ↦ subst (IsSublist l) (rw room (append_assoc s.pending (status ∷ []) rest)) h
  | inr full ↦ IsSublist-insert l s.pending status rest (subst (IsSublist l) (rw full refl) h)
]

stream-IsSublist :
    (traffic : List Traffic) (s : Subscriber)
    → IsSublist (received traffic s) (s.pending ++ sent_of traffic)
unfolding stream receive
stream-IsSublist [] s =
    subst (IsSublist s.pending) (sym (append-nil s.pending)) (IsSublist-refl s.pending)
stream-IsSublist (sent status ∷ traffic) s =
    offered status s (received traffic (offer status s)) (sent_of traffic)
      (stream-IsSublist traffic (offer status s))
stream-IsSublist (turn ∷ traffic) s = by_pending s.pending (stream-IsSublist traffic)
  where
    by_pending :
        (q : List WakeStatus)
        → ((s : Subscriber) → IsSublist (received traffic s) (s.pending ++ sent_of traffic))
        → let (o, pending) = receive q in
          let (l, u) = written o (stream traffic (record s { pending = pending })) in
          IsSublist (l ++ u.pending) (q ++ sent_of traffic)
    by_pending [] later = later (record s { pending = [] })
    by_pending (x ∷ q) later =
        inr (received traffic (record s { pending = q }), refl, later (record s { pending = q }))

offer-room :
    (status : WakeStatus) (s : Subscriber)
    → length s.pending < capacity
    → offer status s ≡ record s { pending = s.pending ++ status ∷ [] }
unfolding offer
offer-room status s h = ground (arith, h)

stream-all :
    (traffic : List Traffic) (s : Subscriber)
    → length s.pending + length (sent_of traffic) ≤ capacity
    → received traffic s ≡ s.pending ++ sent_of traffic
unfolding stream receive
stream-all [] s h = sym (append-nil s.pending)
stream-all (sent status ∷ traffic) s h =
    ap (received traffic) (offer-room status s (omega (arith, h)))
    ∙ stream-all traffic (record s { pending = s.pending ++ status ∷ [] })
        (omega (arith, h, length-append s.pending (status ∷ [])))
    ∙ append_assoc s.pending (status ∷ []) (sent_of traffic)
stream-all (turn ∷ traffic) s h = by_pending s.pending h (stream-all traffic)
  where
    by_pending :
        (q : List WakeStatus)
        → length q + length (sent_of traffic) ≤ capacity
        → ((s : Subscriber)
            → length s.pending + length (sent_of traffic) ≤ capacity
            → received traffic s ≡ s.pending ++ sent_of traffic)
        → let (o, pending) = receive q in
          let (l, u) = written o (stream traffic (record s { pending = pending })) in
          l ++ u.pending ≡ q ++ sent_of traffic
    by_pending [] h later = later (record s { pending = [] }) h
    by_pending (x ∷ q) h later =
        ap (λ l. x ∷ l) (later (record s { pending = q }) (omega (arith, h)))

-- In any order of broadcasts and of turns of a client's loop: the client gets, or has yet to get, some
-- of what waited in its channel and of what was broadcast, in that order and nothing else; and all of
-- it if that is no more than the channel has room for.
pub stream-in_order :
    (traffic : List Traffic) (s : Subscriber)
    → IsSublist (received traffic s) (s.pending ++ sent_of traffic)
      × (length s.pending + length (sent_of traffic) ≤ capacity
          → received traffic s ≡ s.pending ++ sent_of traffic)
stream-in_order traffic s = (stream-IsSublist traffic s, stream-all traffic s)
