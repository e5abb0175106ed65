-- ===== src/Controller/Graph/Levels/Rounds.antt =====
-- The loop over the levels, and what `computeScalingLevels` promises.
use sleepyservice.Prelude.{
  ℕ, zero, suc, ◌+◌, ◌≤◌, ◌<◌, ◌≡◌, refl, String, some, List, [], ◌∷◌, ◌++◌, In, IsDistinct,
  SameNames, count, count-nil, count-append, length, length-append, length-le_of_count, flatten,
  arith, ℤ, pos,
}
use sleepyservice.Controller.Graph.Defs.{
  Graph, Kahn, init_degrees, relax_level, level_rounds, scaling_rounds, compute_scaling_levels,
}
use sleepyservice.Controller.Graph.Spec.{IsWellFormed, IsAcyclic, IsRanked, IsLayered}
use sleepyservice.Controller.Graph.Levels.Pending.{In_placed, pending-eq_zero}
use sleepyservice.Controller.Graph.Levels.Placing.{waiting, Placing, relax_level_lem, Placing-level}
use sleepyservice.Controller.Graph.Levels.Start.{start, Placing-start}

module _ (g : Graph) (wf : IsWellFormed g) where
  abbrev AtHead : List String → (String → ℤ) → List String → Type 0
  AtHead placed in_degree queue =
      Placing g placed [] (record { in_degree = in_degree; queue = queue })

  -- The names that were placed when the loop is over.
  record Placed (all : List String) : Type 0 where
    once : (c : String) → count c all ≤ 1
    known : (c : String) → In c all → In c g.components
    complete : (c : String) → In c g.components → waiting g all c ≡ 0 → In c all

  record Rounds (fuel : ℕ) (placed : List String) (in_degree : String → ℤ) (queue : List String)
      : Type 0 where
    levels : List (List String)
    runs : level_rounds fuel g in_degree queue ≡ some levels
    layered : IsLayered g placed levels
    all : List String
    gathered : (c : String) → count c all ≡ count c placed + count c (flatten levels)
    result : Placed all

  -- Names that are placed once, and known, are no more than there are components.
  placed_few :
      {placed queue : List String} {in_degree : String → ℤ}
      → AtHead placed in_degree queue
      → length placed ≤ length g.components
  placed_few {placed} p =
      length-le_of_count placed g.components (λ c. ground (arith, p.once c, p.known c))

  abbrev after : (String → ℤ) → List String → Kahn
  after in_degree level = relax_level g level (record { in_degree = in_degree; queue = [] })

  Rounds-level :
      (fuel : ℕ) (placed : List String) (in_degree : String → ℤ) (x : String) (queue : List String)
      → AtHead placed in_degree (x ∷ queue)
      → Rounds fuel
          ((x ∷ queue) ++ placed)
          (after in_degree (x ∷ queue)).in_degree
          (after in_degree (x ∷ queue)).queue
      → Rounds (suc fuel) placed in_degree (x ∷ queue)
  unfolding level_rounds
  Rounds-level fuel placed in_degree x queue p rest = record {
    levels = (x ∷ queue) ∷ rest.levels;
    runs = rw rest.runs;
    layered = (
      λ c d m e. In_placed placed (g.dependencies c) d (p.sound c (omega arith)) e,
      rest.layered,
    );
    all = rest.all;
    gathered = λ c. omega (
      arith,
      rest.gathered c,
      count-append c (x ∷ queue) placed,
      count-append c (x ∷ queue) (flatten rest.levels),
    );
    result = rest.result;
  }

  rounds :
      (fuel : ℕ) (placed : List String) (in_degree : String → ℤ) (queue : List String)
      → AtHead placed in_degree queue
      → length g.components < fuel + length placed
      → Rounds fuel placed in_degree queue
  rounds zero placed in_degree queue p enough = absurd (omega (arith, placed_few p))
  rounds (suc fuel) placed in_degree [] p enough =
      unfold level_rounds in
      record {
        levels = [];
        runs = refl;
        layered = tt;
        all = placed;
        gathered = λ c. omega (arith, count-nil c);
        result = record {
          once = λ c. omega (arith, p.once c);
          known = λ c m. p.known c (omega arith);
          complete = λ c m e. omega (arith, p.complete c m e, count-nil c);
        };
      }
  rounds (suc fuel) placed in_degree (x ∷ queue) p enough =
      Rounds-level fuel placed in_degree x queue p (
        rounds fuel ((x ∷ queue) ++ placed) (after in_degree (x ∷ queue)).in_degree
          (after in_degree (x ∷ queue)).queue
          (relax_level_lem g wf (x ∷ queue) placed ((x ∷ queue) ++ placed)
            (record { in_degree = in_degree; queue = [] })
            (λ c. omega (arith, count-append c (x ∷ queue) placed)) (Placing-level g in_degree p))
          (omega (arith, length-append (x ∷ queue) placed)))

  module _ (order order' : List String) (same : SameNames order g.components)
      (same' : SameNames order' g.components) where
    run :
        Rounds
          (suc (length g.components))
          []
          (init_degrees g order (λ _. pos 0))
          (start g wf order order' same same').queue
    run =
        rounds (suc (length g.components)) [] (init_degrees g order (λ _. pos 0))
          (start g wf order order' same same').queue (Placing-start g wf order order' same same')
          (omega arith)

    -- In a well-formed graph, whatever the two orders of its components, the loop over the levels
    -- ends within one round more than there are components, with what the function returns.
    pub scaling_rounds-total :
        scaling_rounds (suc (length g.components)) g order order'
        ≡ some (compute_scaling_levels g order order')
    unfolding scaling_rounds compute_scaling_levels
    scaling_rounds-total = rw run.runs

    levels_eq : compute_scaling_levels g order order' ≡ run.levels
    unfolding scaling_rounds compute_scaling_levels
    levels_eq = rw run.runs

    gathered_levels :
        (c : String) → count c run.all ≡ count c (flatten (compute_scaling_levels g order order'))
    gathered_levels c = rw levels_eq (omega (arith, run.gathered c, count-nil c))

    -- In a well-formed graph, whatever the two orders of its components, each component of a level
    -- has all of its dependencies in earlier levels, no name stands in the levels twice, and only
    -- components stand in them.
    pub compute_scaling_levels-IsLayered :
        IsLayered g [] (compute_scaling_levels g order order')
        × IsDistinct (flatten (compute_scaling_levels g order order'))
        × ((c : String)
            → In c (flatten (compute_scaling_levels g order order'))
            → In c g.components)
    compute_scaling_levels-IsLayered = (
      rw levels_eq run.layered,
      λ c. omega (arith, run.result.once c, gathered_levels c),
      λ c m. run.result.known c (omega (arith, gathered_levels c)),
    )

    module _ (rank : String → ℕ) (ranked : IsRanked g rank) where
      -- By induction on a bound of the rank: the dependencies are placed, so the component is.
      placed_below : (bound : ℕ) (c : String) → rank c < bound → In c g.components → In c run.all
      placed_below zero c b m = absurd (omega arith)
      placed_below (suc bound) c b m = run.result.complete c m (
          pending-eq_zero run.all (g.dependencies c)
            λ d edge. placed_below bound d (omega (arith, ranked c d edge)) (wf.target c d edge))

    -- In a well-formed graph with no cycle, whatever the two orders of its components, the levels
    -- hold each component exactly once.
    pub compute_scaling_levels-SameNames :
        IsAcyclic g → SameNames (flatten (compute_scaling_levels g order order')) g.components
    compute_scaling_levels-SameNames (rank, ranked) c = ground (
      arith,
      gathered_levels c,
      run.result.once c,
      run.result.known c,
      placed_below rank ranked (suc (rank c)) c (omega arith),
      wf.distinct c,
    )
