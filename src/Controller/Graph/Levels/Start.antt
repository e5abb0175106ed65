-- ===== src/Controller/Graph/Levels/Start.antt =====
-- The in-degrees and the queue before the first level.
use sleepyservice.Prelude.{
  ◌+◌, ◌≡◌, refl, sym, ◌∙◌, ap, String, List, [], ◌∷◌, ◌++◌, In, SameNames, count, count-cons,
  count-cons_self, count-cons_ne, count-append, count-nil, arith, ℤ, pos, subst, ◌==◌,
  if◌then◌else◌, length, is_zero, update, update_self, update_ne, string_discrete, ltb, Bool-cases,
  inl, inr,
}
use sleepyservice.Controller.Graph.Defs.{Graph, Kahn, init_degrees, init_queue}
use sleepyservice.Controller.Graph.Spec.{IsWellFormed}
use sleepyservice.Controller.Graph.Levels.Pending.{pending-nil}
use sleepyservice.Controller.Graph.Levels.Placing.{reached, Placing}
use sleepyservice.Controller.Graph.Levels.Relax.{is_zero-pos}

no_dependencies : (deps : List String) → ((d : String) → ¬ In d deps) → length deps ≡ 0
no_dependencies [] h = refl
no_dependencies (d ∷ deps) h = absurd (h d (omega (arith, count-cons_self d deps)))

module _ (g : Graph) where
  abbrev degree : String → ℤ
  degree c = pos (length (g.dependencies c))

  init_degrees_lem :
      (order : List String) (f : String → ℤ) (c : String)
      → init_degrees g order f c ≡ (if ltb 0 (count c order) then degree c else f c)
  unfolding init_degrees
  init_degrees_lem [] f c = ground (arith, count-nil c)
  init_degrees_lem (x ∷ order) f c =
      init_degrees_lem order (update f x (degree x)) c ∙ elim (string_discrete x c) [
        | yes same ↦
            subst
              (λ y.
                (if ltb 0 (count y order) then degree y else update f x (degree x) y)
                ≡ (if ltb 0 (count y (x ∷ order)) then degree y else f y))
              same (ground (arith, update_self f x (degree x), count-cons_self x order))
        | no other ↦ ground (arith, update_ne f x c (degree x) other, count-cons_ne c x order other)
      ]

  init_queue_lem :
      (f : String → ℤ) (order queue : List String) (c : String)
      → count c (init_queue f order queue)
        ≡ count c queue + (if is_zero (f c) then count c order else 0)
  unfolding init_queue
  init_queue_lem f [] queue c = ground (arith, count-nil c)
  init_queue_lem f (x ∷ order) queue c =
      init_queue_lem f order (if is_zero (f x) then queue ++ x ∷ [] else queue) c
      ∙ elim (string_discrete x c) [
        | yes same ↦
            subst
              (λ y.
                count y (if is_zero (f x) then queue ++ x ∷ [] else queue)
                  + (if is_zero (f y) then count y order else 0)
                ≡ count y queue + (if is_zero (f y) then count y (x ∷ order) else 0))
              same (ground (arith, count-append x queue (x ∷ []), count-cons x x order))
        | no other ↦ ground (
          arith,
          count-append c queue (x ∷ []),
          count-cons_ne c x order other,
          count-cons_ne c x [] other,
          count-nil c,
        )
      ]

  module _ (wf : IsWellFormed g) (order order' : List String) (same : SameNames order g.components)
      (same' : SameNames order' g.components) where
    abbrev pub start : Kahn
    start =
        let in_degree = init_degrees g order (λ _. pos 0) in
        record { in_degree = in_degree; queue = init_queue in_degree order' [] }

    start_degree : (c : String) → start.in_degree c ≡ degree c
    start_degree c = elim (Bool-cases (ltb 0 (count c order))) [
      | inl listed ↦ rw (init_degrees_lem order (λ _. pos 0) c, listed)
      | inr absent ↦
          rw (init_degrees_lem order (λ _. pos 0) c, absent)
            (ap pos (
              sym (
                no_dependencies (g.dependencies c)
                  (λ d m. ground (arith, wf.source c d m, same c)))))
    ]

    start_queue :
        (c : String) → count c start.queue ≡ (if is_zero (degree c) then count c order' else 0)
    start_queue c =
        init_queue_lem start.in_degree order' [] c
        ∙ rw (start_degree c) (ground (arith, count-nil c))

    reached-start :
        (c : String)
        → reached g [] [] start c
          ≡ (if length (g.dependencies c) == 0 then count c g.components else 0)
    reached-start c =
        ground (arith, start_queue c, is_zero-pos (length (g.dependencies c)), same' c, count-nil c)

    pub Placing-start : Placing g [] [] start
    Placing-start = record {
      degrees = λ c. start_degree c ∙ ap pos (sym (pending-nil (g.dependencies c)));
      once = λ c. ground (arith, reached-start c, wf.distinct c);
      known = λ c h. ground (arith, reached-start c);
      complete = λ c m e. ground (arith, reached-start c, pending-nil (g.dependencies c));
      sound = λ c h. ground (arith, reached-start c, pending-nil (g.dependencies c));
    }
