-- ===== src/Examples/Liveness.antt =====
-- Passes over the shop, in each of which one more level is ready.
use sleepyservice.Prelude.{
  ℕ, zero, suc, ◌+◌, ◌≡◌, refl, ap, arith, subst, String, true, none, List, [], ◌∷◌, In, count,
  update, length, string_discrete, ◌*◌,
}
use sleepyservice.Errors.{Result, ok, err}
use sleepyservice.Api.{ComponentStatus}
use sleepyservice.Controller.Graph.{
  Graph, build_dependency_graph, validate_dependencies, compute_scaling_levels,
}
use sleepyservice.Controller.Graph.Defs.{
  dfs, scan, enter, leave, relax, relax_dependents, relax_level,
}
use sleepyservice.Controller.Graph.Build.{empty_graph}
use sleepyservice.Controller.Graph.Spec.{names}
use sleepyservice.Controller.Scale.{
  is_ready, status_map, levels_of, are_components_ready, current_level,
}
use sleepyservice.Controller.Scale.Eventually.{IsFair, scaled_level, fair-is_ready}
use sleepyservice.Examples.World.{in_order, orders, orders-IsPermuting, shop}

abbrev built : Result Graph
built = build_dependency_graph in_order shop

abbrev graph_in : Result Graph → Graph
graph_in (ok g) = g
graph_in (err e) = empty_graph

graph : Graph
graph = graph_in built

accepted : build_dependency_graph in_order shop ≡ ok graph
unfolding graph build_dependency_graph count string_discrete validate_dependencies dfs scan update
    enter leave
accepted = refl

abbrev shop_levels : List (List String)
shop_levels = ("db" ∷ []) ∷ ("api" ∷ []) ∷ ("web" ∷ []) ∷ []

shop_levels_eq : shop_levels ≡ levels_of orders graph
unfolding graph build_dependency_graph count string_discrete validate_dependencies dfs scan update
    enter leave levels_of compute_scaling_levels relax_level relax_dependents relax
shop_levels_eq = refl

abbrev up : String → ComponentStatus
up name = record { name = name; ready = true; message = "" }

abbrev passes : ℕ → List ComponentStatus
passes zero = []
passes (suc zero) = up "db" ∷ []
passes (suc (suc zero)) = up "db" ∷ up "api" ∷ []
passes (suc (suc (suc k))) = up "db" ∷ up "api" ∷ up "web" ∷ []

fair : IsFair shop_levels 1 (λ k. are_components_ready (passes k))
unfolding are_components_ready update string_discrete current_level
fair = record { keeps = (db, (api, (web, tt))); works = works }
  where
    Stays : List String → Type 0
    Stays l =
        (k : ℕ)
        → are_components_ready (passes k) l ≡ true
        → are_components_ready (passes (suc k)) l ≡ true

    db : Stays ("db" ∷ [])
    db zero h = refl
    db (suc zero) h = refl
    db (suc (suc zero)) h = refl
    db (suc (suc (suc k))) h = refl

    api : Stays ("api" ∷ [])
    api zero h = absurd (cc (h))
    api (suc zero) h = refl
    api (suc (suc zero)) h = refl
    api (suc (suc (suc k))) h = refl

    web : Stays ("web" ∷ [])
    web zero h = absurd (cc (h))
    web (suc zero) h = absurd (cc (h))
    web (suc (suc zero)) h = refl
    web (suc (suc (suc k))) h = refl

    works :
        (k : ℕ)
        → are_components_ready
            (passes (k + 1))
            (scaled_level (are_components_ready (passes k)) shop_levels)
          ≡ true
    works zero = refl
    works (suc zero) = refl
    works (suc (suc zero)) = refl
    works (suc (suc (suc k))) = rw (later) refl
      where
        later : passes (suc (suc (suc k)) + 1) ≡ up "db" ∷ up "api" ∷ up "web" ∷ []
        later = ap passes fourth
          where
            fourth : suc (suc (suc k)) + 1 ≡ suc (suc (suc (suc k)))
            fourth = omega arith

fair-is_ready_example :
    is_ready (status_map (passes (length (levels_of orders graph) * 1)) (λ _. none) "web") ≡ true
fair-is_ready_example =
    fair-is_ready orders orders-IsPermuting shop graph accepted 1 passes
      (subst (λ levels. IsFair levels 1 (λ k. are_components_ready (passes k))) shop_levels_eq fair)
      "web" listed
  where
    listed : In "web" (names shop)
    listed = unfold count string_discrete in omega arith
