-- ===== src/Controller/Graph/Levels/Placing.antt =====
-- The loop over one level: what holds between two of its components.
use sleepyservice.Prelude.{
  ℕ, ◌+◌, ◌≤◌, ◌<◌, ◌≡◌, sym, ◌∙◌, ap, String, List, [], ◌∷◌, In, SameNames, count, count-cons,
  count-cons_self, count-nil, arith, ℤ, pos,
}
use sleepyservice.Controller.Graph.Defs.{Graph, Kahn, relax_dependents, relax_level}
use sleepyservice.Controller.Graph.Spec.{IsWellFormed}
use sleepyservice.Controller.Graph.Levels.Pending.{pending, pending-cons, pending_cong}
use sleepyservice.Controller.Graph.Levels.Relax.{Degrees, hit, relax_dependents_lem}

module _ (g : Graph) where
  abbrev pub waiting : List String → String → ℕ
  waiting placed c = pending placed (g.dependencies c)

  -- How often a name stands among the placed ones, in the rest of the level or in the queue.
  abbrev pub reached : List String → List String → Kahn → String → ℕ
  reached placed level s c = count c placed + count c level + count c s.queue

  -- Each in-degree counts the dependencies that are not placed, and the components that were
  -- reached are those with none of these.
  pub record Placing (placed level : List String) (s : Kahn) : Type 0 where
    pub degrees : Degrees (waiting placed) s
    pub once : (c : String) → reached placed level s c ≤ 1
    pub known : (c : String) → 0 < reached placed level s c → In c g.components
    pub complete :
        (c : String) → In c g.components → waiting placed c ≡ 0 → 0 < reached placed level s c
    pub sound : (c : String) → 0 < reached placed level s c → waiting placed c ≡ 0

  module _ (wf : IsWellFormed g) (placed level : List String) (x : String) (s : Kahn)
      (p : Placing placed (x ∷ level) s) where
    abbrev pub next : Kahn
    next = relax_dependents (g.dependents x) s

    absent : count x placed ≡ 0
    absent = omega (arith, p.once x, count-cons_self x level)

    falls : (c : String) → waiting (x ∷ placed) c + count c (g.dependents x) ≡ waiting placed c
    falls c = omega (arith, pending-cons x placed (g.dependencies c) absent, wf.mirrored c x)

    fits : (c : String) → count c (g.dependents x) ≤ waiting placed c
    fits c = omega (arith, falls c)

    degrees' : Degrees (waiting (x ∷ placed)) next
    degrees' c =
        (relax_dependents_lem (g.dependents x) (waiting placed) s p.degrees fits).0 c
        ∙ ap pos (omega (arith, falls c))

    -- The names that were reached grow by those whose last dependency was `x`.
    reached-next :
        (c : String)
        → reached (x ∷ placed) level next c
          ≡ reached placed (x ∷ level) s c + hit (waiting placed c) (count c (g.dependents x))
    reached-next c = omega (
      arith,
      (relax_dependents_lem (g.dependents x) (waiting placed) s p.degrees fits).1 c,
      count-cons c x placed,
      count-cons c x level,
    )

    dependent_known : (c : String) → 0 < count c (g.dependents x) → In c g.components
    dependent_known c m = wf.source c x (omega (arith, wf.mirrored c x))

    pub Placing-next : Placing (x ∷ placed) level next
    Placing-next = record {
      degrees = degrees';
      once = λ c. ground (arith, reached-next c, p.once c, p.sound c, falls c);
      known = λ c h. ground (arith, reached-next c, p.known c, dependent_known c);
      complete = λ c m e. ground (arith, reached-next c, p.complete c, falls c);
      sound = λ c h. ground (arith, reached-next c, p.sound c, falls c);
    }

  Placing-cong :
      {placed placed' level : List String} {s : Kahn}
      → SameNames placed placed'
      → Placing placed level s
      → Placing placed' level s
  Placing-cong {placed} {placed'} {level} {s} same p = record {
    degrees = λ c. p.degrees c ∙ ap pos (alike c);
    once = λ c. omega (arith, p.once c, same c);
    known = λ c h. p.known c (omega (arith, same c));
    complete = λ c m e. omega (arith, p.complete c m (alike c ∙ e), same c);
    sound = λ c h. sym (alike c) ∙ p.sound c (omega (arith, same c));
  }
    where
      alike : (c : String) → waiting placed c ≡ waiting placed' c
      alike c = pending_cong placed placed' (g.dependencies c) same

  -- After the loop over a level, all of the level is placed.
  pub relax_level_lem :
      (wf : IsWellFormed g) (level placed placed' : List String) (s : Kahn)
      → ((c : String) → count c placed' ≡ count c placed + count c level)
      → Placing placed level s
      → Placing placed' [] (relax_level g level s)
  unfolding relax_level
  relax_level_lem wf [] placed placed' s sum p =
      Placing-cong (λ c. omega (arith, sum c, count-nil c)) p
  relax_level_lem wf (x ∷ level) placed placed' s sum p =
      relax_level_lem wf level (x ∷ placed) placed' (relax_dependents (g.dependents x) s)
        (λ c. omega (arith, sum c, count-cons c x placed, count-cons c x level))
        (Placing-next wf placed level x s p)

  -- The queue becomes the next level.
  pub Placing-level :
      (in_degree : String → ℤ) {placed queue : List String}
      → Placing placed [] (record { in_degree = in_degree; queue = queue })
      → Placing placed queue (record { in_degree = in_degree; queue = [] })
  Placing-level in_degree p = record {
    degrees = p.degrees;
    once = λ c. omega (arith, p.once c, count-nil c);
    known = λ c h. p.known c (omega (arith, count-nil c));
    complete = λ c m e. omega (arith, p.complete c m e, count-nil c);
    sound = λ c h. p.sound c (omega (arith, count-nil c));
  }
