-- ===== src/Controller/Graph/Builds/Edges.antt =====
-- The second pass: the edges of the components, in both maps.
use sleepyservice.Prelude.{
  subst, count_one-le, eq_of_In_one, ◌⊎◌, ◌==◌, ℕ, ◌+◌, ◌<◌, ◌≡◌, ◌≢◌, refl, sym, ◌∙◌, ap, String,
  List, [], ◌∷◌, ◌++◌, append_assoc, append-nil, In, count, count-append, count-cons,
  count-cons_self, count-cons_ne, count-nil, update, update_self, update_ne, arith, ltb,
  string_discrete, Bool-cases, inl, inr, if◌then◌else◌,
}
use sleepyservice.Errors.{Error, missing_dependency, Result, ok, err, Ensures}
use sleepyservice.Controller.Graph.Defs.{Graph}
use sleepyservice.Controller.Graph.Build.{add_edge, add_edges}
use sleepyservice.Controller.Graph.Spec.{IsWellFormed}

-- Whether two pairs of names are the same.
abbrev hits : String → String → String → String → ℕ
hits k n x d = if count n (k ∷ []) == 0 then 0 else count d (x ∷ [])

-- `m[k] = append(m[k], x)`
count-push :
    (m : String → List String) (k x n d : String)
    → count d (update m k (m k ++ x ∷ []) n) ≡ count d (m n) + hits k n x d
count-push m k x n d = elim (string_discrete k n) [
  | yes same ↦
      subst (λ y. count d (update m k (m k ++ x ∷ []) y) ≡ count d (m y) + hits k y x d) same
        (rw update_self (ground (arith, count-append d (m k) (x ∷ []), count-cons_self k [])))
  | no other ↦
      rw (update_ne m k n (m k ++ x ∷ []) other)
        (ground (arith, count-cons_ne n k [] other, count-nil n))
]

hits_comm : (k n x d : String) → hits k n x d ≡ hits x d k n
hits_comm k n x d = ground (arith, count_one-le n k, count_one-le d x)

module _ (name dep : String) (g : Graph) where
  count-dependencies :
      (n d : String)
      → count d ((add_edge name dep g).dependencies n)
        ≡ count d (g.dependencies n) + hits name n dep d
  unfolding add_edge
  count-dependencies n d = count-push g.dependencies name dep n d

  count-dependents :
      (n d : String)
      → count n ((add_edge name dep g).dependents d) ≡ count n (g.dependents d) + hits dep d name n
  unfolding add_edge
  count-dependents n d = count-push g.dependents dep name d n

  new_edge : (n d : String) → 0 < hits name n dep d → (name ≡ n) × (dep ≡ d)
  new_edge n d h = (
    eq_of_In_one n name (ground (arith, count_one-le n name)),
    eq_of_In_one d dep (ground (arith, count_one-le n name)),
  )

  add_edge-IsWellFormed :
      In name g.components
      → In dep g.components
      → IsWellFormed g
      → IsWellFormed (add_edge name dep g)
  add_edge-IsWellFormed from to wf = record {
    distinct = unfold add_edge in wf.distinct;
    source = λ n d m. elim (edge_cases n d m) [
      | inl old ↦ unfold add_edge in wf.source n d old
      | inr new ↦ unfold add_edge in subst (λ x. In x g.components) (new_edge n d new).0 from
    ];
    target = λ n d m. elim (edge_cases n d m) [
      | inl old ↦ unfold add_edge in wf.target n d old
      | inr new ↦ unfold add_edge in subst (λ x. In x g.components) (new_edge n d new).1 to
    ];
    mirrored = λ n d. omega (
      arith,
      wf.mirrored n d,
      count-dependencies n d,
      count-dependents n d,
      hits_comm name n dep d,
    );
  }
    where
      edge_cases :
          (n d : String)
          → In d ((add_edge name dep g).dependencies n)
          → (In d (g.dependencies n)) ⊎ (0 < hits name n dep d)
      edge_cases n d m = grind (arith, count-dependencies n d)

-- What adding the edges of one component does.
pub record Extended (name : String) (deps : List String) (g g' : Graph) : Type 0 where
  pub well_formed : IsWellFormed g'
  pub components : g'.components ≡ g.components
  pub by_name : g'.components_by_name ≡ g.components_by_name
  pub own : g'.dependencies name ≡ g.dependencies name ++ deps
  pub others : (n : String) → name ≢ n → g'.dependencies n ≡ g.dependencies n

-- A dependency that is missing is one of those given, and no component.
pub data IsMissing (name : String) (deps components : List String) : Error → Type 0 where
  missing :
      (d : String)
      → In d deps
      → count d components ≡ 0
      → IsMissing name deps components (missing_dependency name d)

pub add_edges_lem :
    (name : String) (deps : List String) (g : Graph)
    → In name g.components
    → IsWellFormed g
    → Ensures (Extended name deps g) (IsMissing name deps g.components) (add_edges name deps g)
unfolding add_edges
add_edges_lem name [] g from wf = record {
  well_formed = wf;
  components = refl;
  by_name = refl;
  own = sym (append-nil (g.dependencies name));
  others = λ n other. refl;
}
add_edges_lem name (dep ∷ deps) g from wf = elim (Bool-cases (ltb 0 (count dep g.components))) [
  | inl present ↦ rw present (
      widen (add_edges name deps (add_edge name dep g)) (
        add_edges_lem name deps (add_edge name dep g) from
          (add_edge-IsWellFormed name dep g from (ground arith) wf)))
  | inr absent ↦ rw absent (missing dep (omega (arith, count-cons_self dep deps)) (ground arith))
]
  where
    widen :
        (m : Result Graph)
        → Ensures (Extended name deps (add_edge name dep g)) (IsMissing name deps g.components) m
        → Ensures (Extended name (dep ∷ deps) g) (IsMissing name (dep ∷ deps) g.components) m
    widen (ok g') e = record {
      well_formed = e.well_formed;
      components = e.components;
      by_name = e.by_name;
      own =
          e.own
          ∙ ap (λ l. l ++ deps) (update_self g.dependencies name (g.dependencies name ++ dep ∷ []))
          ∙ append_assoc (g.dependencies name) (dep ∷ []) deps;
      others = λ n other.
          e.others n other
          ∙ update_ne g.dependencies name n (g.dependencies name ++ dep ∷ []) other;
    }
    widen (err x) (missing d m absent) = missing d (omega (arith, count-cons d dep deps)) absent
