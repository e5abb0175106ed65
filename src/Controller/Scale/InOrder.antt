-- ===== src/Controller/Scale/InOrder.antt =====
-- `scaleUpComponents` scales up only components whose dependencies are all ready.
use mathlib.Core.Option
use sleepyservice.Prelude.{
  ℕ, ◌≡◌, refl, sym, ◌∙◌, ap, subst, String, Bool, true, some, List, [], ◌∷◌, ◌++◌, All, get_elem?,
  IsDistinct, In, SameNames, count-nil, count-cons, count-cons_self, flatten, arith,
}
use mathlib.Core.List.{Memᴰ}
use sleepyservice.Api.{SleepyService, Component}
use sleepyservice.Errors.{Result, ok, err, Ensures}
use sleepyservice.Exec.{Exec, pure, lift, wrap_error, ◌>>=◌, ◌>>◌, continue, rewrapped}
use sleepyservice.Cluster.{Client, Ctx}
use sleepyservice.Controller.Graph.{Graph, build_dependency_graph}
use sleepyservice.Controller.Graph.Spec.{IsAcyclic, IsLayered}
use sleepyservice.Controller.Graph.Levels.{compute_scaling_levels-IsLayered}
use sleepyservice.Controller.Graph.Builds.{Linked, Rejected, build_dependency_graph_lem}
use sleepyservice.Controller.Scale.{
  RangeOrders, levels_of, are_components_ready, current_level, scale_up_component, scale_up_named,
  scale_up_level, scale_up_current, scale_up_graph, scale_up_components,
}
use sleepyservice.Controller.Scale.Cut.{IsCut, current_level-IsCut, get_elem?-append}
use sleepyservice.Controller.Scale.Deps.{
  IsReadyNow, ready_levels, layer_before, count-flatten, Named, named,
}

-- The runtime visits each key once.
pub record IsPermuting (orders : RangeOrders) : Type 0 where
  pub validation : (l : List String) → SameNames (orders.validation l) l
  pub degrees : (l : List String) → SameNames (orders.degrees l) l
  pub queue : (l : List String) → SameNames (orders.queue l) l

-- A component of the service, all of whose dependencies are ready.
pub record MayScale (hs : SleepyService) (comp : Component) : Type 0 where
  pub listed : Memᴰ comp hs.spec.components
  pub deps_ready : (d : String) → In d comp.depends_on → IsReadyNow hs.status.components d

-- A sequence of calls that scale up components, each of which may be scaled up.
pub data Scalings {W : Type 0} (client : Client W) (hs : SleepyService)
    : Ctx W → Ctx W → Type 0 where
  finished : (c : Ctx W) → Scalings client hs c c
  scaled :
      (comp : Component)
      → MayScale hs comp
      → (a b c : Ctx W) → b ≡ (scale_up_component client hs comp a).1
      → Scalings client hs b c
      → Scalings client hs a c

module _ {W : Type 0} (client : Client W) (hs : SleepyService) where
  -- One component, and then what follows if that did not fail.
  Scalings-then :
      (comp : Component)
      → MayScale hs comp
      → (rest : Exec (Ctx W) (Unit {0})) → ((c : Ctx W) → Scalings client hs c (rest c).1)
      → (c : Ctx W) → Scalings client hs c ((scale_up_component client hs comp >> rest) c).1
  unfolding ◌>>=◌
  Scalings-then comp may rest keep c = go (scale_up_component client hs comp c) refl
    where
      go :
          (o : Result (Unit {0}) × Ctx W)
          → scale_up_component client hs comp c ≡ o
          → Scalings client hs c (continue (λ _. rest) o).1
      go (ok u, c') e = scaled comp may c c' (rest c').1 (sym (ap (λ o. o.1) e)) (keep c')
      go (err x, c') e = scaled comp may c c' c' (sym (ap (λ o. o.1) e)) (finished c')

  module _ (g : Graph) where
    abbrev Scalable : String → Type 0
    Scalable name = (comp : Component) × (g.components_by_name name ≡ some comp) × MayScale hs comp

    scale_up_level-Scalings :
        (level : List String)
        → ((name : String) → In name level → Scalable name)
        → (c : Ctx W) → Scalings client hs c (scale_up_level client hs g level c).1
    unfolding scale_up_level scale_up_named
    scale_up_level-Scalings [] each c = unfold pure in finished c
    scale_up_level-Scalings (name ∷ level) each c =
        let (comp, found, may) = each name (omega (arith, count-cons_self name level)) in
        rw found (
          Scalings-then comp may (scale_up_level client hs g level)
            (scale_up_level-Scalings level (λ n m. each n (omega (arith, count-cons n name level))))
            c)

module _ {W : Type 0} (client : Client W) (orders : RangeOrders) (permuting : IsPermuting orders)
    (hs : SleepyService) where
  abbrev ready_now : List String → Bool
  ready_now = are_components_ready hs.status.components

  module _ (g : Graph) (linked : Linked hs.spec.components g) where
    -- Every component of the level at the cut may be scaled up.
    cut-Scalable :
        (before : List (List String)) (level : List String) (after : List (List String))
        → levels_of orders g ≡ before ++ level ∷ after
        → All (λ l. ready_now l ≡ true) before
        → (name : String) → In name level
        → Scalable client hs g name
    cut-Scalable before level after split ready name m =
        (n.comp, n.found, record { listed = n.listed; deps_ready = λ d e. deps_ready d e })
      where
        layered :
            IsLayered g [] (levels_of orders g)
            × IsDistinct (flatten (levels_of orders g))
            × ((c : String) → In c (flatten (levels_of orders g)) → In c g.components)
        layered =
            unfold levels_of in
            compute_scaling_levels-IsLayered g linked.well_formed (orders.degrees g.components)
              (orders.queue g.components) (permuting.degrees g.components)
              (permuting.queue g.components)

        in_levels : In name (flatten (before ++ level ∷ after))
        in_levels = omega (arith, count-flatten name before level after)

        n : Named hs.spec.components g name
        n = named g hs.spec.components name linked.edges linked.by_name (
            subst (In name) linked.components
              (layered.2 name (subst (λ l. In name (flatten l)) (sym split) in_levels)))

        deps_ready : (d : String) → In d n.comp.depends_on → IsReadyNow hs.status.components d
        deps_ready d e = ready_levels hs.status.components before d ready (
            omega (
              arith,
              count-nil d,
              layer_before g before level after [] name d (subst (IsLayered g []) split layered.0) m
                  (subst (In d) (sym n.deps) e),
            ))

    scale_up_cut :
        (levels : List (List String))
        → levels_of orders g ≡ levels
        → (c : Ctx W)
        → Scalings client hs c
            (scale_up_current client hs g levels (current_level ready_now levels) c).1
    scale_up_cut [] e c = unfold scale_up_current current_level pure in finished c
    scale_up_cut (level ∷ rest) e c =
        let (i, at, cut) = current_level-IsCut ready_now level rest in
        rw at (
          unfold scale_up_current in
          rw (picked i cut) (
            scale_up_level-Scalings client hs g cut.level
              (cut-Scalable cut.before cut.level cut.after (e ∙ cut.split) cut.all_before) c))
      where
        picked :
            (i : ℕ) (cut : IsCut ready_now (level ∷ rest) i)
            → Option.get_or (get_elem? (level ∷ rest) i) [] ≡ cut.level
        picked i cut = rw (cut.split, ← cut.index, get_elem?-append cut.before cut.after cut.level)

    scale_up_graph-Scalings :
        (c : Ctx W) → Scalings client hs c (scale_up_graph client orders hs g c).1
    unfolding scale_up_graph
    scale_up_graph-Scalings c = scale_up_cut (levels_of orders g) refl c

  -- Whatever the API answers, and for any orders that visit each key once, `scaleUpComponents` does
  -- nothing to the cluster but a sequence of calls that scale up one component each, every one of
  -- them a component of the service whose dependencies are all ready in the status.
  pub scale_up_components-Scalings :
      (c : Ctx W) → Scalings client hs c (scale_up_components client orders hs c).1
  unfolding scale_up_components ◌>>=◌ wrap_error lift
  scale_up_components-Scalings c =
      go (build_dependency_graph orders.validation hs.spec.components)
        (build_dependency_graph_lem orders.validation permuting.validation hs.spec.components)
    where
      go :
          (r : Result Graph)
          → Ensures (λ g. Linked hs.spec.components g × IsAcyclic g) (Rejected hs.spec.components) r
          → Scalings client hs c
              (continue
                (scale_up_graph client orders hs)
                (rewrapped "failed to build dependency graph: " (r, c))).1
      go (ok g) h = scale_up_graph-Scalings g h.0 c
      go (err e) h = finished c
