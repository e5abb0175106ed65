-- ===== src/Controller/Graph/Builds/Connect.antt =====
-- The second pass over all components.
use sleepyservice.Prelude.{
  In-one, ◌≡◌, ◌≢◌, refl, sym, ◌∙◌, ap, subst, String, List, [], ◌∷◌, ◌++◌, All, In, IsDistinct,
  count, count-cons, count-cons_self, arith,
}
use sleepyservice.Api.{Component}
use sleepyservice.Errors.{Error, Result, ok, err, Ensures, Ensures-bind}
use sleepyservice.Controller.Graph.Defs.{Graph}
use sleepyservice.Controller.Graph.Build.{add_edges, connect}
use sleepyservice.Controller.Graph.Spec.{IsWellFormed, names}
use sleepyservice.Controller.Graph.Builds.Edges.{Extended, IsMissing, add_edges_lem}

pub record Connected (comps : List Component) (g g' : Graph) : Type 0 where
  pub well_formed : IsWellFormed g'
  pub components : g'.components ≡ g.components
  pub by_name : g'.components_by_name ≡ g.components_by_name
  pub edges : All (λ c. g'.dependencies c.name ≡ g.dependencies c.name ++ c.depends_on) comps
  pub others : (n : String) → count n (names comps) ≡ 0 → g'.dependencies n ≡ g.dependencies n

-- A component names a dependency that is no component.
pub data IsDangling (components : List String) : List Component → Error → Type 0 where
  here :
      (c : Component) {cs : List Component} {e : Error}
      → IsMissing c.name c.depends_on components e
      → IsDangling components (c ∷ cs) e
  there :
      (c : Component) {cs : List Component} {e : Error}
      → IsDangling components cs e
      → IsDangling components (c ∷ cs) e

-- The edges may be read off any map that agrees at the names.
edges_cong :
    (new old old' : String → List String) (cs : List Component)
    → ((n : String) → In n (names cs) → old n ≡ old' n)
    → All (λ c. new c.name ≡ old c.name ++ c.depends_on) cs
    → All (λ c. new c.name ≡ old' c.name ++ c.depends_on) cs
edges_cong new old old' [] agree h = tt
edges_cong new old old' (c ∷ cs) agree h = (
  h.0
      ∙ ap (λ l. l ++ c.depends_on)
          (agree c.name (omega (arith, count-cons_self c.name (names cs)))),
  edges_cong new old old' cs (λ n m. agree n (omega (arith, count-cons n c.name (names cs)))) h.1,
)

module _ (c : Component) (cs : List Component) (g g' : Graph)
    (distinct : IsDistinct (names (c ∷ cs))) (e : Extended c.name c.depends_on g g') where
  -- A later component has another name.
  later_ne : (n : String) → In n (names cs) → c.name ≢ n
  later_ne n m same = omega (
    arith,
    distinct n,
    count-cons n c.name (names cs),
    subst (λ x. In n (x ∷ [])) (sym same) (In-one n),
  )

  widen :
      (m : Result Graph)
      → Ensures (Connected cs g') (IsDangling g'.components cs) m
      → Ensures (Connected (c ∷ cs) g) (IsDangling g.components (c ∷ cs)) m
  widen (ok h) k = record {
    well_formed = k.well_formed;
    components = k.components ∙ e.components;
    by_name = k.by_name ∙ e.by_name;
    edges = (
      k.others c.name (omega (arith, distinct c.name, count-cons_self c.name (names cs))) ∙ e.own,
      edges_cong h.dependencies g'.dependencies g.dependencies cs (λ n m. e.others n (later_ne n m))
          k.edges,
    );
    others = λ n absent.
        k.others n (omega (arith, count-cons n c.name (names cs)))
        ∙ e.others n (λ same. absurd (
            omega (
              arith,
              subst (λ x. In n (x ∷ [])) (sym same) (In-one n),
              count-cons n c.name (names cs),
            )));
  }
  widen (err x) k = there c (subst (λ l. IsDangling l cs x) e.components k)

-- The second pass links the components, or finds one that names a missing dependency.
pub connect_lem :
    (cs : List Component) (g : Graph)
    → ((n : String) → In n (names cs) → In n g.components)
    → IsDistinct (names cs)
    → IsWellFormed g
    → Ensures (Connected cs g) (IsDangling g.components cs) (connect cs g)
unfolding connect
connect_lem [] g known distinct wf = record {
  well_formed = wf;
  components = refl;
  by_name = refl;
  edges = tt;
  others = λ n absent. refl;
}
connect_lem (c ∷ cs) g known distinct wf =
    Ensures-bind (Extended c.name c.depends_on g) (IsMissing c.name c.depends_on g.components)
      (Connected (c ∷ cs) g) (IsDangling g.components (c ∷ cs)) (add_edges c.name c.depends_on g)
      (connect cs)
      (λ g' e. widen c cs g g' distinct e (connect cs g') (
        connect_lem cs g'
          (λ n m.
            subst (In n) (sym e.components)
              (known n (omega (arith, count-cons n c.name (names cs)))))
          (λ n. omega (arith, distinct n, count-cons n c.name (names cs))) e.well_formed))
      (λ e h. here c h)
      (add_edges_lem c.name c.depends_on g
        (known c.name (omega (arith, count-cons_self c.name (names cs)))) wf)
