-- ===== src/Controller/Scale/Deps.antt =====
-- What the readiness of earlier levels says of the dependencies of a component.
use sleepyservice.Prelude.{
  ◌+◌, ◌≤◌, ◌<◌, ◌≡◌, refl, subst, String, true, Option, none, some, List, [], ◌∷◌, ◌++◌, All, ltb,
  In, count, count-nil, count-cons_ne, count-append, flatten, string_discrete, Bool-cases, inl, inr,
  arith,
}
use mathlib.Core.List.{Memᴰ}
use sleepyservice.Api.{Component, ComponentStatus}
use sleepyservice.Controller.Graph.{Graph}
use sleepyservice.Controller.Graph.Spec.{IsLayered, names}
use sleepyservice.Controller.Scale.{status_map, is_ready, all_ready_in, are_components_ready}

-- The last status of this name says that the component is ready.
abbrev pub IsReadyNow : List ComponentStatus → String → Type 0
IsReadyNow statuses name = is_ready (status_map statuses (λ _. none) name) ≡ true

all_ready_in_lem :
    (m : String → Option ComponentStatus) (level : List String) (d : String)
    → all_ready_in m level ≡ true
    → In d level
    → is_ready (m d) ≡ true
unfolding all_ready_in
all_ready_in_lem m [] d h e = absurd (omega (arith, count-nil d))
all_ready_in_lem m (x ∷ level) d h e = elim (string_discrete x d) [
  | yes same ↦ subst (λ y. is_ready (m y) ≡ true) same (ground arith)
  | no other ↦
      all_ready_in_lem m level d (ground arith) (omega (arith, count-cons_ne d x level other))
]

module _ (statuses : List ComponentStatus) where
  pub are_components_ready_lem :
      (level : List String) (d : String)
      → are_components_ready statuses level ≡ true
      → In d level
      → IsReadyNow statuses d
  unfolding are_components_ready
  are_components_ready_lem level d h m =
      all_ready_in_lem (status_map statuses (λ _. none)) level d h m

  pub ready_levels :
      (levels : List (List String)) (d : String)
      → All (λ l. are_components_ready statuses l ≡ true) levels
      → In d (flatten levels)
      → IsReadyNow statuses d
  ready_levels [] d h m = absurd (omega (arith, count-nil d))
  ready_levels (l ∷ levels) d h m = elim (Bool-cases (ltb 0 (count d l))) [
    | inl here ↦ are_components_ready_lem l d h.0 (ground arith)
    | inr later ↦ ready_levels levels d h.1 (ground (arith, count-append d l (flatten levels)))
  ]

-- A dependency of a component of a level is placed before that level.
pub layer_before :
    (g : Graph) (before : List (List String)) (level : List String) (after : List (List String))
    (placed : List String) (c d : String)
    → IsLayered g placed (before ++ level ∷ after)
    → In c level
    → In d (g.dependencies c)
    → 0 < count d placed + count d (flatten before)
layer_before g [] level after placed c d h m e = omega (arith, h.0 c d m e)
layer_before g (l ∷ before) level after placed c d h m e = omega (
  arith,
  layer_before g before level after (l ++ placed) c d h.1 m e,
  count-append d l placed,
  count-append d l (flatten before),
)

pub count-flatten :
    (c : String) (before : List (List String)) (level : List String) (after : List (List String))
    → count c level ≤ count c (flatten (before ++ level ∷ after))
count-flatten c [] level after = omega (arith, count-append c level (flatten after))
count-flatten c (l ∷ before) level after = omega (
  arith,
  count-append c l (flatten (before ++ level ∷ after)),
  count-flatten c before level after,
)

-- The component of a name, and what the graph holds of it.
pub record Named (cs : List Component) (g : Graph) (name : String) : Type 0 where
  pub comp : Component
  pub listed : Memᴰ comp cs
  pub is_named : comp.name ≡ name
  pub found : g.components_by_name name ≡ some comp
  pub deps : g.dependencies name ≡ comp.depends_on

pub named :
    (g : Graph) (cs : List Component) (name : String)
    → All (λ c. g.dependencies c.name ≡ c.depends_on) cs
    → All (λ c. g.components_by_name c.name ≡ some c) cs
    → In name (names cs)
    → Named cs g name
named g [] name e b m = absurd (omega (arith, count-nil name))
named g (c ∷ cs) name e b m = elim (string_discrete c.name name) [
  | yes same ↦ record {
    comp = c;
    listed = Memᴰ.head refl;
    is_named = same;
    found = subst (λ n. g.components_by_name n ≡ some c) same b.0;
    deps = subst (λ n. g.dependencies n ≡ c.depends_on) same e.0;
  }
  | no other ↦
      weaken (named g cs name e.1 b.1 (omega (arith, count-cons_ne name c.name (names cs) other)))
]
  where
    weaken : Named cs g name → Named (c ∷ cs) g name
    weaken n = record {
      comp = n.comp;
      listed = Memᴰ.tail n.listed;
      is_named = n.is_named;
      found = n.found;
      deps = n.deps;
    }
