-- ===== src/Controller/Graph/Acyclic/Validate.antt =====
-- `validateDependencies` over all components, in any order of the map.
use sleepyservice.Prelude.{
  ◌≡◌, refl, subst, ◌∙◌, String, true, false, List, [], ◌∷◌, In, SameNames, count-nil, count-cons,
  count-cons_self, In-one, arith, Bool-cases, inl, inr, length,
}
use sleepyservice.Errors.{Error, circular_dependency, Result, ok, err, ◌>>=◌, Ensures, Ensures-bind}
use sleepyservice.Controller.Graph.Defs.{
  Graph, DfsState, no_visits, dfs, validate_from, validate_dependencies,
}
use sleepyservice.Controller.Graph.Spec.{IsWellFormed, IsCycle, IsChain, IsAcyclic, IsReported}
use sleepyservice.Controller.Graph.Acyclic.Path.{chain_falls}
use sleepyservice.Controller.Graph.Acyclic.Measure.{unvisited-le_length}
use sleepyservice.Controller.Graph.Acyclic.State.{IsFinished, Inv, Frame, Frame-refl}
use sleepyservice.Controller.Graph.Acyclic.Scan.{Ready, Scanned, Scanned-cons}
use sleepyservice.Controller.Graph.Acyclic.Search.{dfs_lem}

module _ (g : Graph) (comp : String) (order : List String) (st : DfsState) where
  validate_old :
      st.visited comp ≡ true → validate_from g (comp ∷ order) st ≡ validate_from g order st
  unfolding validate_from
  validate_old e = rw (e, validate_from)

  validate_fresh :
      st.visited comp ≡ false
      → validate_from g (comp ∷ order) st
        ≡ (dfs (length g.components) g comp st >>= validate_from g order)
  unfolding validate_from
  validate_fresh e = rw (e, validate_from)

module _ (g : Graph) (wf : IsWellFormed g) where
  -- The loop stands between two calls: nothing is on the stack.
  record Idle (order : List String) (st : DfsState) : Type 0 where
    inv : Inv g st
    path : st.path ≡ []
    off : (n : String) → st.rec_stack n ≡ false
    components : (n : String) → In n order → In n g.components

  Idle-next :
      (comp : String) (order : List String) {a b : DfsState}
      → Idle (comp ∷ order) a
      → Frame a b
      → Inv g b
      → Idle order b
  Idle-next comp order idle f inv = record {
    inv = inv;
    path = f.path ∙ idle.path;
    off = λ n. f.stack n ∙ idle.off n;
    components = λ n m. idle.components n (omega (arith, count-cons n comp order));
  }

  Idle-Ready :
      (comp : String) (order : List String) (st : DfsState)
      → Idle (comp ∷ order) st
      → st.visited comp ≡ false
      → Ready g wf.target (length g.components) comp st
  Idle-Ready comp order st idle fresh = record {
    inv = idle.inv;
    fresh = fresh;
    component = idle.components comp (omega (arith, count-cons_self comp order));
    chain = rw idle.path tt;
    enough = unvisited-le_length st.visited g.components;
  }

  widen :
      (comp : String) (order : List String) {a b : DfsState} (m : Result DfsState)
      → IsFinished comp b
      → Frame a b
      → Ensures (Scanned g wf.target order b) (IsReported g) m
      → Ensures (Scanned g wf.target (comp ∷ order) a) (IsReported g) m
  widen comp order (ok c) done f h = Scanned-cons g wf.target comp order done f h
  widen comp order (err e) done f h = h

  validate_from_lem :
      (order : List String) (st : DfsState)
      → Idle order st
      → Ensures (Scanned g wf.target order st) (IsReported g) (validate_from g order st)
  validate_from_lem [] st idle =
      unfold validate_from in
      record {
        inv = idle.inv;
        frame = Frame-refl st;
        finished = λ d m. absurd (omega (arith, count-nil d));
      }
  validate_from_lem (comp ∷ order) st idle = elim (Bool-cases (st.visited comp)) [
    | inl old ↦ rw (validate_old g comp order st old) (
        widen comp order (validate_from g order st) (old, idle.off comp) (Frame-refl st)
          (validate_from_lem order st (Idle-next comp order idle (Frame-refl st) idle.inv)))
    | inr fresh ↦ rw (validate_fresh g comp order st fresh) (
        Ensures-bind (Scanned g wf.target (comp ∷ []) st) (IsReported g)
          (Scanned g wf.target (comp ∷ order) st) (IsReported g)
          (dfs (length g.components) g comp st) (validate_from g order)
          (λ st' done.
            widen comp order (validate_from g order st') (done.finished comp (In-one comp))
              done.frame
              (validate_from_lem order st' (Idle-next comp order idle done.frame done.inv)))
          (λ e h. h)
          (dfs_lem g wf.target (length g.components) comp st (Idle-Ready comp order st idle fresh)))
  ]

  Idle-start : (order : List String) → SameNames order g.components → Idle order no_visits
  unfolding no_visits
  Idle-start order same = record {
    inv = record {
      rank = λ n. 0;
      bound = 0;
      below = λ n h. cc;
      closed = λ n d h m. cc;
      ranked = λ n d h m. cc;
      stacked = λ n h. cc;
      on_path = λ n h. cc;
    };
    path = refl;
    off = λ n. refl;
    components = λ n m. omega (arith, same n);
  }

  -- When every component is finished, the ranks of the search rank the graph.
  rank_of :
      {order : List String} {st : DfsState}
      → SameNames order g.components
      → Scanned g wf.target order no_visits st
      → IsAcyclic g
  rank_of same s = (
    s.inv.rank,
    λ n d edge. s.inv.ranked n d (s.finished n (omega (arith, same n, wf.source n d edge))) edge,
  )

  -- For a well-formed graph and any order of its components, `validate_dependencies` returns: on
  -- success the graph has a rank, and on an error the names of the error are a cycle of the graph.
  pub validate_dependencies_lem :
      (order : List String)
      → SameNames order g.components
      → Ensures (λ _. IsAcyclic g) (IsReported g) (validate_dependencies g order)
  unfolding validate_dependencies
  validate_dependencies_lem order same =
      Ensures-bind (Scanned g wf.target order no_visits) (IsReported g) (λ _. IsAcyclic g)
        (IsReported g) (validate_from g order no_visits) (λ _. ok tt) (λ st s. rank_of same s)
        (λ e h. h) (validate_from_lem order no_visits (Idle-start order same))

-- A graph with a rank has no cycle.
pub IsAcyclic-no-IsCycle : (g : Graph) → IsAcyclic g → (c : List String) → ¬ IsCycle g c
IsAcyclic-no-IsCycle g (rank, ranked) c (d, mid, e, chain) =
    omega (arith, chain_falls g ranked d mid d (subst (IsChain g) e chain))

-- An error is never reported for a graph with a rank.
pub IsReported-IsAcyclic : (g : Graph) (e : Error) → IsReported g e → IsAcyclic g → ⊥
IsReported-IsAcyclic g (circular_dependency c) r a = IsAcyclic-no-IsCycle g a c r
IsReported-IsAcyclic g e r a = absurd r
