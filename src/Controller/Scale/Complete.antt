-- ===== src/Controller/Scale/Complete.antt =====
-- `scaleUpComponents`, if it succeeds, scales up a whole level, and no other component.
use mathlib.Core.List.{Memᴰ}
use mathlib.Core.Option
use sleepyservice.Prelude.{
  ℕ, ◌≡◌, refl, sym, ◌∙◌, ap, subst, String, Bool, some, List, [], ◌∷◌, ◌++◌, get_elem?, In, All,
  count-cons, count-cons_self, flatten, arith,
}
use sleepyservice.Api.{SleepyService, Component}
use sleepyservice.Errors.{Result, ok, err, Ensures}
use sleepyservice.Exec.{pure, lift, wrap_error, ◌>>=◌, ◌>>◌, continue, rewrapped}
use sleepyservice.Cluster.{Client, Ctx}
use sleepyservice.Controller.Graph.{Graph, build_dependency_graph}
use sleepyservice.Controller.Graph.Spec.{IsAcyclic, names}
use sleepyservice.Controller.Graph.Levels.{compute_scaling_levels-IsLayered}
use sleepyservice.Controller.Graph.Builds.{Linked, Rejected, build_dependency_graph_lem}
use sleepyservice.Controller.Scale.{
  RangeOrders, levels_of, are_components_ready, current_level, scale_up_component, scale_up_named,
  scale_up_level, scale_up_current, scale_up_graph, scale_up_components,
}
use sleepyservice.Controller.Scale.Cut.{IsCut, current_level-IsCut, get_elem?-append}
use sleepyservice.Controller.Scale.Deps.{Named, named, count-flatten}
use sleepyservice.Controller.Scale.InOrder.{IsPermuting}

-- Calls that scale up these components, one after another, all of which succeed.
pub data AllScaled {W : Type 0} (client : Client W) (hs : SleepyService)
    : List Component → Ctx W → Ctx W → Type 0 where
  finished : (c : Ctx W) → AllScaled client hs [] c c
  scaled :
      (comp : Component) (comps : List Component) (a b c : Ctx W)
      → scale_up_component client hs comp a ≡ (ok tt, b)
      → AllScaled client hs comps b c
      → AllScaled client hs (comp ∷ comps) a c

module _ {W : Type 0} (client : Client W) (hs : SleepyService) where
  abbrev pub IsListed : Component → Type 0
  IsListed comp = Memᴰ comp hs.spec.components

  -- On success components of the service with these names were scaled up.
  abbrev pub LevelScaled : List String → Ctx W → Result (Unit {0}) × Ctx W → Type 0
  LevelScaled level c (ok u, c') =
      (comps : List Component) × (names comps ≡ level)
      × AllScaled client hs comps c c'
      × All IsListed comps
  LevelScaled level c (err e, c') = Unit

  LevelScaled-cons :
      (comp : Component) (level : List String) (c b : Ctx W) (o : Result (Unit {0}) × Ctx W)
      → IsListed comp
      → scale_up_component client hs comp c ≡ (ok tt, b)
      → LevelScaled level b o
      → LevelScaled (comp.name ∷ level) c o
  LevelScaled-cons comp level c b (ok u, c') m e (comps, same, all, ms) =
      (comp ∷ comps, ap (λ l. comp.name ∷ l) same, scaled comp comps c b c' e all, (m, ms))
  LevelScaled-cons comp level c b (err x, c') m e h = tt

  module _ (g : Graph) where
    abbrev Known : String → Type 0
    Known name =
        (comp : Component) × (comp.name ≡ name)
        × (g.components_by_name name ≡ some comp)
        × IsListed comp

    scale_up_then :
        (comp : Component) (level : List String)
        → IsListed comp
        → ((c : Ctx W) → LevelScaled level c (scale_up_level client hs g level c))
        → (c : Ctx W)
        → LevelScaled
            (comp.name ∷ level)
            c
            ((scale_up_component client hs comp >> scale_up_level client hs g level) c)
    unfolding ◌>>=◌
    scale_up_then comp level m rest c = go (scale_up_component client hs comp c) refl
      where
        go :
            (o : Result (Unit {0}) × Ctx W)
            → scale_up_component client hs comp c ≡ o
            → LevelScaled (comp.name ∷ level) c (continue (λ _. scale_up_level client hs g level) o)
        go (ok u, b) e =
            LevelScaled-cons comp level c b (scale_up_level client hs g level b) m e (rest b)
        go (err x, b) e = tt

    scale_up_level-LevelScaled :
        (level : List String)
        → ((name : String) → In name level → Known name)
        → (c : Ctx W) → LevelScaled level c (scale_up_level client hs g level c)
    unfolding scale_up_level scale_up_named
    scale_up_level-LevelScaled [] each c = unfold pure in ([], refl, finished c, tt)
    scale_up_level-LevelScaled (name ∷ level) each c =
        let (comp, same, found, m) = each name (omega (arith, count-cons_self name level)) in
        rw found (
          subst
            (λ n.
              LevelScaled (n ∷ level) c
                ((scale_up_component client hs comp >> scale_up_level client hs g level) c))
            same
            (scale_up_then comp level m
              (scale_up_level-LevelScaled level
                (λ n m. each n (omega (arith, count-cons n name level))))
              c))

-- What a success means: the graph was built, and either it has no levels and nothing was done, or the
-- level at the cut was scaled up.
pub data Completed {W : Type 0} (client : Client W) (orders : RangeOrders) (hs : SleepyService)
    (c : Ctx W) (c' : Ctx W) : Type 0 where
  empty :
      (g : Graph)
      → build_dependency_graph orders.validation hs.spec.components ≡ ok g
      → levels_of orders g ≡ []
      → c' ≡ c
      → Completed client orders hs c c'
  level :
      (g : Graph)
      → build_dependency_graph orders.validation hs.spec.components ≡ ok g
      → (i : ℕ) (cut : IsCut (are_components_ready hs.status.components) (levels_of orders g) i)
        (comps : List Component)
      → names comps ≡ cut.level
      → AllScaled client hs comps c c'
      → All (λ comp. Memᴰ comp hs.spec.components) comps
      → Completed client orders hs c c'

abbrev pub Completes :
    {W : Type 0}
    → Client W
    → RangeOrders
    → SleepyService
    → Ctx W
    → Result (Unit {0}) × Ctx W
    → Type 0
Completes client orders hs c (ok u, c') = Completed client orders hs c c'
Completes client orders hs c (err e, c') = Unit

module _ {W : Type 0} (client : Client W) (orders : RangeOrders) (permuting : IsPermuting orders)
    (hs : SleepyService) where
  abbrev ready_now : List String → Bool
  ready_now = are_components_ready hs.status.components

  module _ (g : Graph) (linked : Linked hs.spec.components g)
      (built : build_dependency_graph orders.validation hs.spec.components ≡ ok g) where
    level-Known :
        {i : ℕ} (cut : IsCut ready_now (levels_of orders g) i) (name : String)
        → In name cut.level
        → Known client hs g name
    level-Known cut name m = (n.comp, n.is_named, n.found, n.listed)
      where
        known : (c : String) → In c (flatten (levels_of orders g)) → In c g.components
        known =
            unfold levels_of in
            (compute_scaling_levels-IsLayered g linked.well_formed (orders.degrees g.components)
              (orders.queue g.components) (permuting.degrees g.components)
              (permuting.queue g.components)).2

        in_levels : In name (flatten (cut.before ++ cut.level ∷ cut.after))
        in_levels = omega (arith, count-flatten name cut.before cut.level cut.after)

        n : Named hs.spec.components g name
        n = named g hs.spec.components name linked.edges linked.by_name (
            subst (In name) linked.components
              (known name (subst (λ l. In name (flatten l)) (sym cut.split) in_levels)))

    scale_up_cut-Completes :
        (levels : List (List String))
        → levels_of orders g ≡ levels
        → (c : Ctx W)
        → Completes client orders hs c
            (scale_up_current client hs g levels (current_level ready_now levels) c)
    scale_up_cut-Completes [] e c =
        unfold scale_up_current current_level pure in empty g built e refl
    scale_up_cut-Completes (first ∷ rest) e c =
        let (i, at, cut) = current_level-IsCut ready_now first rest in
        rw at (
          unfold scale_up_current in
          rw (picked i cut) (
            completed i (whole i cut) (scale_up_level client hs g cut.level c)
              (scale_up_level-LevelScaled client hs g cut.level (level-Known (whole i cut)) c)))
      where
        picked :
            (i : ℕ) (cut : IsCut ready_now (first ∷ rest) i)
            → Option.get_or (get_elem? (first ∷ rest) i) [] ≡ cut.level
        picked i cut = rw (cut.split, ← cut.index, get_elem?-append cut.before cut.after cut.level)

        whole : (i : ℕ) → IsCut ready_now (first ∷ rest) i → IsCut ready_now (levels_of orders g) i
        whole i cut = record {
          before = cut.before;
          level = cut.level;
          after = cut.after;
          split = e ∙ cut.split;
          index = cut.index;
          all_before = cut.all_before;
          stops = cut.stops;
        }

        completed :
            (i : ℕ) (cut : IsCut ready_now (levels_of orders g) i) (o : Result (Unit {0}) × Ctx W)
            → LevelScaled client hs cut.level c o
            → Completes client orders hs c o
        completed i cut (ok u, c') (comps, same, all, ms) = level g built i cut comps same all ms
        completed i cut (err x, c') h = tt

  -- Whatever the API answers, and for any orders that visit each key once: if `scaleUpComponents`
  -- succeeds, the dependency graph was accepted, and the components of one level, all of them and no
  -- others, each as the service lists it, were scaled up one after another. All levels before it are ready, and it is not, or it is
  -- the last one. If there is no level, nothing was done.
  pub scale_up_components-Completes :
      (c : Ctx W) → Completes client orders hs c (scale_up_components client orders hs c)
  unfolding scale_up_components scale_up_graph ◌>>=◌ wrap_error lift
  scale_up_components-Completes c =
      go (build_dependency_graph orders.validation hs.spec.components) refl
        (build_dependency_graph_lem orders.validation permuting.validation hs.spec.components)
    where
      go :
          (r : Result Graph)
          → build_dependency_graph orders.validation hs.spec.components ≡ r
          → Ensures (λ g. Linked hs.spec.components g × IsAcyclic g) (Rejected hs.spec.components) r
          → Completes client orders hs c (
              continue
                (scale_up_graph client orders hs)
                (rewrapped "failed to build dependency graph: " (r, c)))
      go (ok g) e h = scale_up_cut-Completes g h.0 e (levels_of orders g) refl c
      go (err x) e h = tt
