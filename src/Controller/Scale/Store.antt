-- ===== src/Controller/Scale/Store.antt =====
-- Objects of one kind in an API that holds what was written, and a step that reads one of them and
-- writes it changed if a test finds that it needs it.
use sleepyservice.Prelude.{
  ◌≡◌, refl, sym, ◌∙◌, ap, subst, String, Bool, true, false, ◌⊎◌, inl, inr, if◌then◌else◌,
}
use sleepyservice.Errors.{Result, ok, err}
use sleepyservice.Exec.{Exec, pure, wrap_error, ◌>>=◌, continue, rewrapped}
use sleepyservice.Cluster.{Ctx, call}

-- `held` is what the API holds under a namespace and a name. A read returns it and changes nothing,
-- an object is under its own key, and a write that succeeds puts the object under its key and leaves
-- the other keys.
pub record IsMap {W A : Type 0} (get : String → String → W → Result A × W)
    (put : A → W → Result (Unit {0}) × W) (held : String → String → W → Result A)
    (space name_of : A → String) : Type 0 where
  pub reads : (ns n : String) (w : W) → get ns n w ≡ (held ns n w, w)
  pub keyed :
      (ns n : String) (w : W) (a : A) → held ns n w ≡ ok a → (space a ≡ ns) × (name_of a ≡ n)
  pub hit : (a : A) (w v : W) → put a w ≡ (ok tt, v) → held (space a) (name_of a) v ≡ ok a
  pub miss :
      (a : A) (w v : W)
      → put a w ≡ (ok tt, v)
      → (ns n : String) → (held ns n v ≡ ok a) ⊎ (held ns n v ≡ held ns n w)

-- A write of this kind that succeeds changes no object of another kind.
abbrev pub IsFrame :
    {W A B : Type 0} → (A → W → Result (Unit {0}) × W) → (String → String → W → Result B) → Type 0
IsFrame {W} {A} put held =
    (a : A) (w v : W) → put a w ≡ (ok tt, v) → (ns n : String) → held ns n v ≡ held ns n w

-- The object is there, and the test does not find that it needs a change.
abbrev pub Rests :
    {W A : Type 0} → (String → String → W → Result A) → (A → Bool) → String → String → W → Type 0
Rests {W} {A} held test ns n w = (a : A) × (held ns n w ≡ ok a) × (test a ≡ false)

-- Nothing was written, or an object that needs no change.
abbrev pub Wrote : {W A : Type 0} → (A → W → Result (Unit {0}) × W) → (A → Bool) → W → W → Type 0
Wrote {W} {A} put test w v = (v ≡ w) ⊎ ((a : A) × (put a w ≡ (ok tt, v)) × (test a ≡ false))

module _ {W A : Type 0} (get : String → String → W → Result A × W)
    (put : A → W → Result (Unit {0}) × W) where
  unfoldable pub change_if : String → (A → Bool) → (A → A) → A → Exec (Ctx W) (Unit {0})
  change_if no_put test change a =
      if test a then wrap_error no_put (call (put (change a))) else pure tt

  unfoldable pub change_step :
      (no_get no_put : String) → (A → Bool) → (A → A) → (ns n : String) → Exec (Ctx W) (Unit {0})
  unfolding change_if
  change_step no_get no_put test change ns n =
      wrap_error no_get (call (get ns n)) >>= change_if no_put test change

  module _ (held : String → String → W → Result A) (space name_of : A → String)
      (map : IsMap get put held space name_of) (test : A → Bool) (change : A → A)
      (rests : (a : A) → test (change a) ≡ false)
      (same_space : (a : A) → space (change a) ≡ space a)
      (same_name : (a : A) → name_of (change a) ≡ name_of a) where
    -- A success leaves the object at rest, and wrote nothing else.
    pub change_step-Rests :
        (no_get no_put : String) (ns n : String) (c b : Ctx W)
        → change_step no_get no_put test change ns n c ≡ (ok tt, b)
        → Rests held test ns n b.world × Wrote put test c.world b.world
    unfolding change_step change_if ◌>>=◌ wrap_error call pure
    change_step-Rests no_get no_put ns n c b h = by_read (held ns n c.world) refl (
        subst
          (λ (o : Result A × W).
            continue (change_if no_put test change)
              (rewrapped no_get (o.0, record c { world = o.1 }))
            ≡ (ok tt, b))
          (map.reads ns n c.world) h)
      where
        Goal : Type 0
        Goal = Rests held test ns n b.world × Wrote put test c.world b.world

        by_put :
            (a : A)
            → held ns n c.world ≡ ok a
            → (o : Result (Unit {0}) × W) → put (change a) c.world ≡ o
            → rewrapped no_put (o.0, record c { world = o.1 }) ≡ (ok tt, b)
            → Goal
        by_put a e (err x, v) p h = absurd (cc)
        by_put a e (ok u, v) p h = (
          (
            change a,
            subst (λ w. held ns n w ≡ ok (change a)) same
                (subst (λ m. held ns m v ≡ ok (change a))
                  (same_name a ∙ (map.keyed ns n c.world a e).1)
                  (subst (λ m. held m (name_of (change a)) v ≡ ok (change a))
                    (same_space a ∙ (map.keyed ns n c.world a e).0)
                    (map.hit (change a) c.world v p))),
            rests a,
          ),
          inr (change a, subst (λ w. put (change a) c.world ≡ (ok tt, w)) same p, rests a),
        )
          where
            same : v ≡ b.world
            same = ap (λ (q : Result (Unit {0}) × Ctx W). q.1.world) h

        by_test :
            (a : A)
            → held ns n c.world ≡ ok a
            → (t : Bool) → test a ≡ t
            → (if t then wrap_error no_put (call (put (change a))) else pure tt) c ≡ (ok tt, b)
            → Goal
        by_test a e true t h = by_put a e (put (change a) c.world) refl h
        by_test a e false t h = ((a, subst (λ w. held ns n w ≡ ok a) same e, t), inl (sym same))
          where
            same : c.world ≡ b.world
            same = ap (λ (q : Result (Unit {0}) × Ctx W). q.1.world) h

        by_read :
            (r : Result A)
            → held ns n c.world ≡ r
            → continue (change_if no_put test change) (rewrapped no_get (r, c)) ≡ (ok tt, b)
            → Goal
        by_read (ok a) e h = by_test a e (test a) refl h
        by_read (err x) e h = absurd (cc)

  -- A success leaves the object that was read, changed if the test found that it needs it.
  pub change_step-held :
      (held : String → String → W → Result A) (space name_of : A → String)
      → IsMap get put held space name_of
      → (test : A → Bool) (change : A → A) → ((a : A) → space (change a) ≡ space a)
      → ((a : A) → name_of (change a) ≡ name_of a)
      → (no_get no_put : String) (ns n : String) (c b : Ctx W)
      → change_step no_get no_put test change ns n c ≡ (ok tt, b)
      → (a : A) × (held ns n c.world ≡ ok a)
        × (held ns n b.world ≡ ok (if test a then change a else a))
  unfolding change_step change_if ◌>>=◌ wrap_error call pure
  change_step-held held space name_of map test change same_space same_name no_get no_put ns n c b
        h =
      by_read (held ns n c.world) refl (
        subst
          (λ (o : Result A × W).
            continue (change_if no_put test change)
              (rewrapped no_get (o.0, record c { world = o.1 }))
            ≡ (ok tt, b))
          (map.reads ns n c.world) h)
    where
      by_put :
          (a : A)
          → held ns n c.world ≡ ok a
          → (o : Result (Unit {0}) × W) → put (change a) c.world ≡ o
          → rewrapped no_put (o.0, record c { world = o.1 }) ≡ (ok tt, b)
          → held ns n b.world ≡ ok (change a)
      by_put a e (err x, v) p h = absurd (cc)
      by_put a e (ok u, v) p h =
          subst (λ w. held ns n w ≡ ok (change a))
            (ap (λ (q : Result (Unit {0}) × Ctx W). q.1.world) h)
            (subst (λ m. held ns m v ≡ ok (change a)) (same_name a ∙ (map.keyed ns n c.world a e).1)
              (subst (λ m. held m (name_of (change a)) v ≡ ok (change a))
                (same_space a ∙ (map.keyed ns n c.world a e).0) (map.hit (change a) c.world v p)))

      by_test :
          (a : A)
          → held ns n c.world ≡ ok a
          → (t : Bool)
          → (if t then wrap_error no_put (call (put (change a))) else pure tt) c ≡ (ok tt, b)
          → held ns n b.world ≡ ok (if t then change a else a)
      by_test a e true h = by_put a e (put (change a) c.world) refl h
      by_test a e false h =
          subst (λ w. held ns n w ≡ ok a) (ap (λ (q : Result (Unit {0}) × Ctx W). q.1.world) h) e

      by_read :
          (r : Result A)
          → held ns n c.world ≡ r
          → continue (change_if no_put test change) (rewrapped no_get (r, c)) ≡ (ok tt, b)
          → (a : A) × (held ns n c.world ≡ ok a)
            × (held ns n b.world ≡ ok (if test a then change a else a))
      by_read (ok a) e h = (a, e, by_test a e (test a) h)
      by_read (err x) e h = absurd (cc)

  -- What is at rest stays so where nothing or an object at rest was written.
  pub Wrote-Rests :
      (held : String → String → W → Result A) (space name_of : A → String)
      → IsMap get put held space name_of
      → (test : A → Bool) (w v : W) → Wrote put test w v
      → (ns n : String) → Rests held test ns n w
      → Rests held test ns n v
  Wrote-Rests held space name_of map test w v (inl same) ns n r =
      subst (Rests held test ns n) (sym same) r
  Wrote-Rests held space name_of map test w v (inr (a, p, t)) ns n (d, e, q) =
      elim (map.miss a w v p ns n) [ inl new ↦ (a, new, t) | inr old ↦ (d, old ∙ e, q) ]

  pub Wrote-frame :
      {B : Type 0} (test : A → Bool) (held : String → String → W → Result B)
      → IsFrame put held
      → (w v : W) → Wrote put test w v
      → (ns n : String) → held ns n v ≡ held ns n w
  Wrote-frame test held frame w v (inl same) ns n = ap (held ns n) same
  Wrote-frame test held frame w v (inr (a, p, t)) ns n = frame a w v p ns n
