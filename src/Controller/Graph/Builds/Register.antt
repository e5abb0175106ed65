-- ===== src/Controller/Graph/Builds/Register.antt =====
-- The first pass: the components by their names, with no edges.
use sleepyservice.Prelude.{
  In-one, ◌+◌, ◌≤◌, ◌<◌, ◌≡◌, refl, sym, ◌∙◌, subst, String, List, [], ◌∷◌, ◌++◌, All, some,
  append-nil, append_assoc, In, IsDistinct, count, count-append, count-cons_self, count-cons_ne,
  count-nil, count_one-le, arith, string_discrete, update, update_self, update_ne, ltb, Bool-cases,
  inl, inr, true,
}
use sleepyservice.Api.{Component}
use sleepyservice.Errors.{Error, Result, ok, err, duplicate_component, Ensures}
use sleepyservice.Controller.Graph.Defs.{Graph}
use sleepyservice.Controller.Graph.Build.{register, empty_graph}
use sleepyservice.Controller.Graph.Spec.{IsWellFormed, names}

-- A graph with no edges, and with distinct names.
pub record IsBare (g : Graph) : Type 0 where
  pub distinct : IsDistinct g.components
  pub no_dependencies : (n : String) → g.dependencies n ≡ []
  pub no_dependents : (n : String) → g.dependents n ≡ []

pub record Registered (cs : List Component) (g g' : Graph) : Type 0 where
  pub bare : IsBare g'
  pub components : g'.components ≡ g.components ++ names cs
  pub by_name : All (λ c. g'.components_by_name c.name ≡ some c) cs
  kept : (n : String) → In n g.components → g'.components_by_name n ≡ g.components_by_name n

-- A name that stands twice among those given, or was there before.
pub data IsDuplicate (given : List String) : Error → Type 0 where
  duplicate : (n : String) → 1 < count n given → IsDuplicate given (duplicate_component n)

-- The graph after one more component.
add_component : Component → Graph → Graph
add_component c g = record {
  dependencies = update g.dependencies c.name [];
  dependents = update g.dependents c.name [];
  components = g.components ++ c.name ∷ [];
  components_by_name = update g.components_by_name c.name (some c);
}

update_nil :
    (m : String → List String) (k n : String) → ((x : String) → m x ≡ []) → update m k [] n ≡ []
unfolding update
update_nil m k n h = ground (arith, h n)

add_component-IsBare :
    (c : Component) (g : Graph)
    → count c.name g.components ≡ 0
    → IsBare g
    → IsBare (add_component c g)
unfolding add_component
add_component-IsBare c g absent b = record {
  distinct = λ n. omega (arith, count-append n g.components (c.name ∷ []), one_more n);
  no_dependencies = λ n. update_nil g.dependencies c.name n b.no_dependencies;
  no_dependents = λ n. update_nil g.dependents c.name n b.no_dependents;
}
  where
    one_more : (n : String) → count n g.components + count n (c.name ∷ []) ≤ 1
    one_more n = elim (string_discrete c.name n) [
      | yes same ↦
          subst (λ x. count x g.components + count x (c.name ∷ []) ≤ 1) same
            (omega (arith, absent, count_one-le c.name c.name))
      | no other ↦ omega (arith, b.distinct n, count-cons_ne n c.name [] other, count-nil n)
    ]

Registered-cons :
    (c : Component) (cs : List Component) (g g' : Graph)
    → count c.name g.components ≡ 0
    → Registered cs (add_component c g) g'
    → Registered (c ∷ cs) g g'
unfolding add_component
Registered-cons c cs g g' absent r = record {
  bare = r.bare;
  components = r.components ∙ append_assoc g.components (c.name ∷ []) (names cs);
  by_name = (
    r.kept c.name (listed c.name (In-one c.name))
        ∙ update_self g.components_by_name c.name (some c),
    r.by_name,
  );
  kept = λ n m.
      r.kept n (omega (arith, m, count-append n g.components (c.name ∷ [])))
      ∙ update_ne g.components_by_name c.name n (some c)
          (λ same. absurd (omega (arith, m, subst (λ x. count x g.components ≡ 0) same absent)));
}
  where
    listed : (n : String) → In n (c.name ∷ []) → In n (g.components ++ c.name ∷ [])
    listed n m = omega (arith, m, count-append n g.components (c.name ∷ []))

-- The first pass registers the components, or finds a name that stands twice.
pub register_lem :
    (cs : List Component) (g : Graph)
    → IsBare g
    → Ensures (Registered cs g) (IsDuplicate (g.components ++ names cs)) (register cs g)
unfolding register add_component
register_lem [] g b = record {
  bare = b;
  components = sym (append-nil g.components);
  by_name = tt;
  kept = λ n m. refl;
}
register_lem (c ∷ cs) g b = elim (Bool-cases (ltb 0 (count c.name g.components))) [
  | inl taken ↦ rw taken (
      duplicate c.name (
        omega (
          arith,
          the_other taken,
          count-append c.name g.components (c.name ∷ names cs),
          count-cons_self c.name (names cs),
        )))
  | inr free ↦ rw free (
      widen (ground arith) (register cs (add_component c g))
        (register_lem cs (add_component c g) (add_component-IsBare c g (ground arith) b)))
]
  where
    the_other : ltb 0 (count c.name g.components) ≡ true → In c.name g.components
    the_other taken = ground arith

    widen :
        count c.name g.components ≡ 0
        → (m : Result Graph)
        → Ensures
            (Registered cs (add_component c g))
            (IsDuplicate ((g.components ++ c.name ∷ []) ++ names cs))
            m
        → Ensures (Registered (c ∷ cs) g) (IsDuplicate (g.components ++ c.name ∷ names cs)) m
    widen absent (ok g') r = Registered-cons c cs g g' absent r
    widen absent (err e) d =
        subst (λ l. IsDuplicate l e) (append_assoc g.components (c.name ∷ []) (names cs)) d

pub IsBare-empty_graph : IsBare empty_graph
unfolding empty_graph
IsBare-empty_graph = record {
  distinct = λ n. omega (arith, count-nil n);
  no_dependencies = λ n. refl;
  no_dependents = λ n. refl;
}

pub IsBare-IsWellFormed : (g : Graph) → IsBare g → IsWellFormed g
IsBare-IsWellFormed g b = record {
  distinct = b.distinct;
  source = λ n d m. absurd (no_edge n d m);
  target = λ n d m. absurd (no_edge n d m);
  mirrored =
      λ n d. rw (b.no_dependencies n, b.no_dependents d) (omega (arith, count-nil n, count-nil d));
}
  where
    no_edge : (n d : String) → In d (g.dependencies n) → ⊥
    no_edge n d m = omega (arith, count-nil d, subst (In d) (b.no_dependencies n) m)
