-- ===== src/Controller/Graph/Defs.antt =====
-- `dependencyGraph`, `validateDependencies` and `computeScalingLevels`.
-- Go does not fix the order in which `range` visits a map: the order of `g.components` is an
-- argument of the functions that iterate over it.
use sleepyservice.Prelude.{
  ℕ, zero, suc, ◌-◌, String, Bool, true, false, Option, none, some, List, [], ◌∷◌, ◌++◌,
  if◌then◌else◌, length, take, drop, update, ite, string_discrete, ℤ, pos, is_zero, pred_ℤ,
}
use mathlib.Core.Option
use sleepyservice.Api.{Component}
use sleepyservice.Errors.{
  Error, circular_dependency, circular_involving, out_of_fuel, Result, ok, err, ◌>>=◌,
}

-- `components` holds the keys of the Go map of that name, all of which are mapped to `true`.
pub record Graph : Type 0 where
  pub dependencies : String → List String
  pub dependents : String → List String
  pub components : List String
  pub components_by_name : String → Option Component

-- The variables that `dfs` shares with `validateDependencies`.
pub record DfsState : Type 0 where
  pub visited : String → Bool
  pub rec_stack : String → Bool
  pub path : List String

unfoldable pub no_visits : DfsState
no_visits = record { visited = λ _. false; rec_stack = λ _. false; path = [] }

-- The three writes before and the two writes after the loop of `dfs`.
unfoldable pub enter : String → DfsState → DfsState
enter node st = record {
  visited = update st.visited node true;
  rec_stack = update st.rec_stack node true;
  path = st.path ++ node ∷ [];
}

unfoldable pub leave : String → DfsState → DfsState
leave node st = record st {
  rec_stack = update st.rec_stack node false;
  path = take (length st.path - 1) st.path;
}

-- The loop that looks for `cycleStart`; `none` is its -1.
unfoldable pub index_of : String → List String → Option ℕ
index_of dep [] = none
index_of dep (x ∷ path) =
    let rest = index_of dep path in ite (string_discrete x dep) (some 0) (Option.map suc rest)

unfoldable pub cycle_error : String → List String → Error
cycle_error dep path = elim (index_of dep path) [
  | some cycle_start ↦ circular_dependency (drop cycle_start path ++ dep ∷ [])
  | none ↦ circular_involving dep
]

-- The loop of `dfs` over the dependencies of a node, with the call of `dfs` as an argument.
unfoldable pub scan :
    (String → DfsState → Result DfsState) → List String → DfsState → Result DfsState
scan dfs [] st = ok st
scan dfs (dep ∷ deps) st = elim (st.visited dep) [
  | false ↦ dfs dep st >>= scan dfs deps
  | true ↦ elim (st.rec_stack dep) [
    | true ↦ err (cycle_error dep st.path)
    | false ↦ scan dfs deps st
  ]
]

-- The calls nest at most as deep as there are components.
unfoldable pub dfs : ℕ → Graph → String → DfsState → Result DfsState
dfs zero g node st = err out_of_fuel
dfs (suc fuel) g node st = do
  st' ← scan (dfs fuel g) (g.dependencies node) (enter node st)
  ok (leave node st')

-- The loop over `g.components`, in the order `order`.
unfoldable pub validate_from : Graph → List String → DfsState → Result DfsState
validate_from g [] st = ok st
validate_from g (comp ∷ order) st = elim (st.visited comp) [
  | true ↦ validate_from g order st
  | false ↦ dfs (length g.components) g comp st >>= validate_from g order
]

unfoldable pub validate_dependencies : Graph → List String → Result (Unit {0})
unfolding validate_from no_visits
validate_dependencies g order = do st ← validate_from g order no_visits; ok tt

-- The variables of `computeScalingLevels` that its loops change.
pub record Kahn : Type 0 where
  pub in_degree : String → ℤ
  pub queue : List String

unfoldable pub init_degrees : Graph → List String → (String → ℤ) → String → ℤ
init_degrees g [] in_degree = in_degree
init_degrees g (comp ∷ order) in_degree =
    init_degrees g order (update in_degree comp (pos (length (g.dependencies comp))))

unfoldable pub init_queue : (String → ℤ) → List String → List String → List String
init_queue in_degree [] queue = queue
init_queue in_degree (comp ∷ order) queue =
    init_queue in_degree order (if is_zero (in_degree comp) then queue ++ comp ∷ [] else queue)

-- `inDegree[dependent]--`, and the test behind it.
unfoldable pub relax : String → Kahn → Kahn
relax dependent s =
    let degree = pred_ℤ (s.in_degree dependent) in
    record {
      in_degree = update s.in_degree dependent degree;
      queue = if is_zero degree then s.queue ++ dependent ∷ [] else s.queue;
    }

unfoldable pub relax_dependents : List String → Kahn → Kahn
relax_dependents [] s = s
relax_dependents (dependent ∷ dependents) s = relax_dependents dependents (relax dependent s)

unfoldable pub relax_level : Graph → List String → Kahn → Kahn
relax_level g [] s = s
relax_level g (comp ∷ level) s = relax_level g level (relax_dependents (g.dependents comp) s)

-- The loop `for len(queue) > 0`; `none` if it is not over after so many rounds.
unfoldable pub level_rounds : ℕ → Graph → (String → ℤ) → List String → Option (List (List String))
level_rounds zero g in_degree queue = none
level_rounds (suc fuel) g in_degree [] = some []
level_rounds (suc fuel) g in_degree (comp ∷ queue) =
    let s = relax_level g (comp ∷ queue) (record { in_degree = in_degree; queue = [] }) in
    Option.map (λ levels. (comp ∷ queue) ∷ levels) (level_rounds fuel g s.in_degree s.queue)

-- The two loops over `g.components` may see its keys in two orders.
unfoldable pub scaling_rounds : ℕ → Graph → List String → List String → Option (List (List String))
unfolding init_degrees init_queue level_rounds
scaling_rounds fuel g order order' =
    let in_degree = init_degrees g order (λ _. pos 0) in
    level_rounds fuel g in_degree (init_queue in_degree order' [])

unfoldable pub compute_scaling_levels : Graph → List String → List String → List (List String)
unfolding scaling_rounds
compute_scaling_levels g order order' =
    Option.get_or (scaling_rounds (suc (length g.components)) g order order') []
