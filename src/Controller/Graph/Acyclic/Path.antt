-- ===== src/Controller/Graph/Acyclic/Path.antt =====
-- The path of `dfs` is a chain of the graph, and the report of a cycle is cut out of it.
use sleepyservice.Prelude.{
  ℕ, ◌<◌, ◌≡◌, ◌≢◌, refl, subst, String, List, [], ◌∷◌, ◌++◌, In, count-nil, count-cons_ne, arith,
  string_discrete,
}
use sleepyservice.Errors.{circular_dependency}
use sleepyservice.Controller.Graph.Defs.{Graph, index_of, cycle_error}
use sleepyservice.Controller.Graph.Spec.{IsChain, IsRanked, IsReported}

module _ (g : Graph) where
  -- A chain grows at its end along an edge.
  pub IsChain-append :
      (p : List String) (x y : String)
      → IsChain g (p ++ x ∷ [])
      → In y (g.dependencies x)
      → IsChain g ((p ++ x ∷ []) ++ y ∷ [])
  IsChain-append [] x y c edge = (edge, tt)
  IsChain-append (a ∷ []) x y c edge = (c.0, (edge, tt))
  IsChain-append (a ∷ b ∷ p) x y c edge = (c.0, IsChain-append (b ∷ p) x y c.1 edge)

  IsChain-tail : (x : String) (p : List String) → IsChain g (x ∷ p) → IsChain g p
  IsChain-tail x [] c = tt
  IsChain-tail x (y ∷ p) c = c.1

  pub IsChain-prefix : (p : List String) (x : String) → IsChain g (p ++ x ∷ []) → IsChain g p
  IsChain-prefix [] x c = tt
  IsChain-prefix (a ∷ []) x c = tt
  IsChain-prefix (a ∷ b ∷ p) x c = (c.0, IsChain-prefix (b ∷ p) x c.1)

  cycle_error-cons_self :
      (dep : String) (path : List String)
      → cycle_error dep (dep ∷ path) ≡ circular_dependency (dep ∷ path ++ dep ∷ [])
  unfolding cycle_error index_of
  cycle_error-cons_self dep path = ground arith

  cycle_error-cons_ne :
      (dep x : String) (path : List String)
      → x ≢ dep
      → cycle_error dep (x ∷ path) ≡ cycle_error dep path
  unfolding cycle_error index_of
  cycle_error-cons_ne dep x path other = ground arith

  -- The suffix of the path from the first `dep` on, closed by `dep`.
  pub cut-IsReported :
      (dep : String) (path : List String)
      → IsChain g (path ++ dep ∷ [])
      → In dep path
      → IsReported g (cycle_error dep path)
  cut-IsReported dep [] c m = absurd (omega (arith, count-nil dep))
  cut-IsReported dep (x ∷ path) c m = elim (string_discrete x dep) [
    | yes same ↦
        rw (same, cycle_error-cons_self)
          (dep, path, refl, subst (λ y. IsChain g (y ∷ path ++ dep ∷ [])) same c)
    | no other ↦ rw (cycle_error-cons_ne dep x path other) (
        cut-IsReported dep path (IsChain-tail x (path ++ dep ∷ []) c)
          (omega (arith, count-cons_ne dep x path other)))
  ]

  -- Along a chain the rank falls.
  pub chain_falls :
      {rank : String → ℕ} (ranked : IsRanked g rank) (x : String) (mid : List String) (y : String)
      → IsChain g (x ∷ mid ++ y ∷ [])
      → rank y < rank x
  chain_falls ranked x [] y c = ranked x y c.0
  chain_falls {rank} ranked x (m ∷ mid) y c =
      omega (arith, ranked x m c.0, chain_falls ranked m mid y c.1)
