-- ===== src/Kubernetes/Waiting/Loop.antt =====
-- When a wait of internal/proxy/kubernetes.go succeeds, and what it reports.
use sleepyservice.Prelude.{
  ℕ, ◌≡◌, refl, Bool, true, false, Option, none, some, List, [], ◌∷◌, All, ◌↔◌, ◌⊎◌, inl, inr,
}
use sleepyservice.Errors.{ok, err}
use sleepyservice.Kubernetes.Waiting.{Report, Event, done, tick, Waited, after_look, wait}

-- Some tick before the end of the context has an answer of this kind.
abbrev pub Sees : {A : Type 0} → (A → Type 0) → List (Event A) → Type 0
Sees P [] = ⊥
Sees P (done e ∷ events) = ⊥
Sees P (tick n (err e) ∷ events) = Sees P events
Sees P (tick n (ok a) ∷ events) = P a ⊎ Sees P events

abbrev pub is_over : Option (Report × Bool) → Bool
is_over none = false
is_over (some (r, b)) = b

abbrev pub AllReports : (Report → Type 0) → Option (Report × Bool) → Type 0
AllReports P none = Unit
AllReports P (some (r, b)) = P r

after_look-over :
    (o : Option (Report × Bool)) (w : Waited)
    → is_over o ≡ true
    → (after_look o w).result ≡ some (ok tt)
after_look-over none w h = cc
after_look-over (some (r, true)) w h = refl
after_look-over (some (r, false)) w h = cc

after_look-ok :
    (o : Option (Report × Bool)) (w : Waited)
    → (after_look o w).result ≡ some (ok tt)
    → (is_over o ≡ true) ⊎ (w.result ≡ some (ok tt))
after_look-ok none w h = inr h
after_look-ok (some (r, true)) w h = inl refl
after_look-ok (some (r, false)) w h = inr h

after_look-onwards :
    (o : Option (Report × Bool)) (w : Waited)
    → w.result ≡ some (ok tt)
    → (after_look o w).result ≡ some (ok tt)
after_look-onwards none w h = h
after_look-onwards (some (r, true)) w h = refl
after_look-onwards (some (r, false)) w h = h

after_look-All :
    (P : Report → Type 0) (o : Option (Report × Bool)) (w : Waited)
    → AllReports P o
    → All P w.reports
    → All P (after_look o w).reports
after_look-All P none w h k = k
after_look-All P (some (r, true)) w h k = (h, tt)
after_look-All P (some (r, false)) w h k = (h, k)

module _ {A : Type 0} (look : ℕ → A → Option (Report × Bool)) where
  -- A wait whose looks end it at the answers of one kind succeeds exactly if it sees such an answer.
  pub wait-ok :
      (P : A → Type 0)
      → ((n : ℕ) (a : A) → (is_over (look n a) ≡ true) ↔ P a)
      → (events : List (Event A)) → ((wait look events).result ≡ some (ok tt)) ↔ Sees P events
  unfolding wait
  wait-ok P over [] = (λ e. cc, λ h. absurd h)
  wait-ok P over (done x ∷ events) = (λ e. cc, λ h. absurd h)
  wait-ok P over (tick n (err x) ∷ events) = wait-ok P over events
  wait-ok P over (tick n (ok a) ∷ events) = (
    λ e. to (wait-ok P over events).0 (after_look-ok (look n a) (wait look events) e),
    λ h. from (wait-ok P over events).1 h,
  )
    where
      to :
          ((wait look events).result ≡ some (ok tt) → Sees P events)
          → (is_over (look n a) ≡ true) ⊎ ((wait look events).result ≡ some (ok tt))
          → P a ⊎ Sees P events
      to later (inl e) = inl ((over n a).0 e)
      to later (inr e) = inr (later e)

      from :
          (Sees P events → (wait look events).result ≡ some (ok tt))
          → P a ⊎ Sees P events
          → (after_look (look n a) (wait look events)).result ≡ some (ok tt)
      from later (inl p) = after_look-over (look n a) (wait look events) ((over n a).1 p)
      from later (inr h) = after_look-onwards (look n a) (wait look events) (later h)

  pub wait-All :
      (P : Report → Type 0)
      → ((n : ℕ) (a : A) → AllReports P (look n a))
      → (events : List (Event A)) → All P (wait look events).reports
  unfolding wait
  wait-All P looks [] = tt
  wait-All P looks (done x ∷ events) = tt
  wait-All P looks (tick n (err x) ∷ events) = wait-All P looks events
  wait-All P looks (tick n (ok a) ∷ events) =
      after_look-All P (look n a) (wait look events) (looks n a) (wait-All P looks events)
