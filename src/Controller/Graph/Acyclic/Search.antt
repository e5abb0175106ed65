-- ===== src/Controller/Graph/Acyclic/Search.antt =====
-- `dfs` from a node that was not visited, and `validateDependencies`: each finishes its nodes, or
-- reports a cycle of the graph.
use sleepyservice.Prelude.{
  ℕ, zero, suc, ◌≤◌, ◌≡◌, refl, ◌∙◌, subst, String, true, false, List, [], ◌∷◌, In, update,
  eq_of_In_one, arith, Bool-cases, inl, inr, update_self,
}
use sleepyservice.Errors.{ok, Ensures-bind}
use sleepyservice.Controller.Graph.Defs.{Graph, DfsState, enter, leave, scan, dfs}
use sleepyservice.Controller.Graph.Spec.{IsReported}
use sleepyservice.Controller.Graph.Acyclic.Measure.{unvisited-update}
use sleepyservice.Controller.Graph.Acyclic.State.{
  IsFinished, Inv, Frame, enter-Inv, leave-Inv, leave-IsFinished, path-leave,
}
use sleepyservice.Controller.Graph.Acyclic.Scan.{left, Ready, Scanned, Scanning, Visits, scan_lem}

module _ (g : Graph) (target : (n d : String) → In d (g.dependencies n) → In d g.components) where
  -- Entering a node that is ready opens its loop.
  Scanning-enter :
      (fuel : ℕ) (node : String) (st : DfsState)
      → Ready g target (suc fuel) node st
      → Scanning g target fuel node (g.dependencies node) (enter node st)
  Scanning-enter fuel node st r = record {
    inv = enter-Inv g node st r.fresh r.inv;
    before = st.path;
    path = unfold enter in refl;
    chain = r.chain;
    edges = λ d m. m;
    enough = fewer;
  }
    where
      fewer : left g target (enter node st) ≤ fuel
      fewer =
          unfold enter in
          omega (arith, r.enough, unvisited-update st.visited node g.components r.fresh r.component)

  -- The frame of a call: what the loop framed, between `enter` and `leave`.
  Frame-call :
      (node : String) (st mid : DfsState)
      → st.rec_stack node ≡ false
      → Frame (enter node st) mid
      → Frame st (leave node mid)
  unfolding enter leave update
  Frame-call node st mid off f = record {
    path = path-leave g node mid st.path f.path;
    stack = λ n. ground (arith, f.stack n);
    keeps = λ n h. f.keeps n (ground arith);
  }

  off_stack :
      (node : String) (st : DfsState)
      → Inv g st
      → st.visited node ≡ false
      → st.rec_stack node ≡ false
  off_stack node st inv fresh = elim (Bool-cases (st.rec_stack node)) [
    | inl on ↦ cc (inv.stacked node on)
    | inr off ↦ off
  ]

  dfs_step :
      (fuel : ℕ) (node : String) (st mid : DfsState)
      → Ready g target (suc fuel) node st
      → Scanned g target (g.dependencies node) (enter node st) mid
      → Scanned g target (node ∷ []) st (leave node mid)
  unfolding enter
  dfs_step fuel node st mid r s = record {
    inv = leave-Inv g node mid st.path s.inv visited stacked s.frame.path s.finished;
    frame = Frame-call node st mid (off_stack node st r.inv r.fresh) s.frame;
    finished = λ d m.
        subst (λ x. IsFinished x (leave node mid)) (eq_of_In_one d node m)
          (leave-IsFinished g node mid visited);
  }
    where
      visited : mid.visited node ≡ true
      visited = s.frame.keeps node (unfold enter in update_self st.visited node true)

      stacked : mid.rec_stack node ≡ true
      stacked = s.frame.stack node ∙ (unfold enter in update_self st.rec_stack node true)

  -- Enough fuel is given, and the call ends with the node finished or a cycle reported.
  pub dfs_lem : (fuel : ℕ) → Visits g target fuel (dfs fuel g)
  unfolding dfs
  dfs_lem zero node st r =
      absurd
        (omega (arith, r.enough, unvisited-update st.visited node g.components r.fresh r.component))
  dfs_lem (suc fuel) node st r =
      Ensures-bind (Scanned g target (g.dependencies node) (enter node st)) (IsReported g)
        (Scanned g target (node ∷ []) st) (IsReported g)
        (scan (dfs fuel g) (g.dependencies node) (enter node st)) (λ mid. ok (leave node mid))
        (λ mid s. dfs_step fuel node st mid r s) (λ e h. h)
        (scan_lem g target fuel node (dfs fuel g) (dfs_lem fuel) (g.dependencies node)
          (enter node st) (Scanning-enter fuel node st r))

  -- What the loop of `validateDependencies` has done: the path is empty again.
  record Validated (order : List String) (st : DfsState) : Type 0 where
    inv : Inv g st
    path : st.path ≡ []
    finished : (n : String) → In n order → IsFinished n st

  record Validating (order : List String) (st : DfsState) : Type 0 where
    inv : Inv g st
    path : st.path ≡ []
    components : (n : String) → In n order → In n g.components
