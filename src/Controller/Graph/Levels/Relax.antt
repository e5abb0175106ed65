-- ===== src/Controller/Graph/Levels/Relax.antt =====
-- The innermost loop: each occurrence of a dependent lowers its in-degree by one, and the
-- dependent is queued at the moment at which the in-degree becomes 0.
use sleepyservice.Prelude.{
  subst, ◌∙◌, count-cons_self, count_one-le, update_self, update_ne, ap, count-cons_ne, ℕ, zero,
  suc, ◌+◌, ◌-◌, ◌≤◌, ◌<◌, ◌≡◌, refl, String, List, [], ◌∷◌, ◌++◌, count, ◌==◌, if◌then◌else◌,
  arith, string_discrete, pos, count-append, count-nil, count-cons, pred_ℤ, is_zero,
}
use sleepyservice.Controller.Graph.Defs.{Kahn, relax, relax_dependents}

-- Whether an in-degree of `k` falls to 0 with `n` steps down.
abbrev pub hit : ℕ → ℕ → ℕ
hit k n = if n == 0 then 0 else if k == n then 1 else 0

-- The in-degrees as natural numbers.
abbrev pub Degrees : (String → ℕ) → Kahn → Type 0
Degrees k s = (c : String) → s.in_degree c ≡ pos (k c)

pred_ℤ-pos : (n : ℕ) → 0 < n → pred_ℤ (pos n) ≡ pos (n - 1)
pred_ℤ-pos zero h = absurd (omega arith)
pred_ℤ-pos (suc n) h = ap pos (omega arith)

pub is_zero-pos : (n : ℕ) → is_zero (pos n) ≡ (n == 0)
is_zero-pos zero = refl
is_zero-pos (suc n) = ground arith

module _ (d : String) (k : String → ℕ) (s : Kahn) (degrees : Degrees k s) (above : 0 < k d) where
  abbrev pub lowered : String → ℕ
  lowered c = k c - count c (d ∷ [])

  degree_after : pred_ℤ (s.in_degree d) ≡ pos (k d - 1)
  degree_after = rw (degrees d) (pred_ℤ-pos (k d) above)

  relax-Degrees_self : (relax d s).in_degree d ≡ pos (lowered d)
  unfolding relax
  relax-Degrees_self =
      rw (update_self, degree_after) (ap pos (omega (arith, count-cons_self d [], count-nil d)))

  pub relax-Degrees : Degrees lowered (relax d s)
  unfolding relax
  relax-Degrees c = elim (string_discrete d c) [
    | yes same ↦ subst (λ x. (relax d s).in_degree x ≡ pos (lowered x)) same relax-Degrees_self
    | no other ↦
        rw (update_ne s.in_degree d c (pred_ℤ (s.in_degree d)) other, degrees c)
          (ap pos (omega (arith, count-cons_ne c d [] other, count-nil c)))
  ]

  -- What the test adds to the queue.
  count-queued :
      (c : String) (n : ℕ)
      → count c (if n == 0 then s.queue ++ d ∷ [] else s.queue)
        ≡ count c s.queue + (if n == 0 then count c (d ∷ []) else 0)
  count-queued c n = ground (arith, count-append c s.queue (d ∷ []))

  hit_one :
      (c : String) → (if k d - 1 == 0 then count c (d ∷ []) else 0) ≡ hit (k c) (count c (d ∷ []))
  hit_one c = elim (string_discrete d c) [
    | yes same ↦
        subst (λ x. (if k d - 1 == 0 then count x (d ∷ []) else 0) ≡ hit (k x) (count x (d ∷ [])))
          same (ground (arith, count-cons_self d [], count-nil d))
    | no other ↦ ground (arith, count-cons_ne c d [] other, count-nil c)
  ]

  pub queue-relax :
      (c : String) → count c (relax d s).queue ≡ count c s.queue + hit (k c) (count c (d ∷ []))
  unfolding relax
  queue-relax c =
      rw (degree_after, is_zero-pos)
        (count-queued c (k d - 1) ∙ ap (λ (n : ℕ). count c s.queue + n) (hit_one c))

-- The loop over the dependents of one component.
pub relax_dependents_lem :
    (ds : List String) (k : String → ℕ) (s : Kahn)
    → Degrees k s
    → ((c : String) → count c ds ≤ k c)
    → Degrees (λ c. k c - count c ds) (relax_dependents ds s)
      × ((c : String)
          → count c (relax_dependents ds s).queue ≡ count c s.queue + hit (k c) (count c ds))
unfolding relax_dependents
relax_dependents_lem [] k s degrees fits =
    (λ c. degrees c ∙ ap pos (omega (arith, count-nil c)), λ c. ground (arith, count-nil c))
relax_dependents_lem (d ∷ ds) k s degrees fits =
    let above : 0 < k d = omega (arith, fits d, count-cons_self d ds) in
    let (degrees', queued) =
      relax_dependents_lem ds (lowered d k s degrees above) (relax d s)
        (relax-Degrees d k s degrees above) (λ c. omega (arith, fits c, count-cons c d ds)) in
    (
      λ c. degrees' c ∙ ap pos (omega (arith, count-cons c d ds)),
      λ c.
          queued c
          ∙ ground (
            arith,
            queue-relax d k s degrees above c,
            count-cons c d ds,
            count_one-le c d,
            fits c,
          ),
    )
