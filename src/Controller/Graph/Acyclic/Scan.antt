-- ===== src/Controller/Graph/Acyclic/Scan.antt =====
-- The loop of `dfs` over the dependencies of a node, for any function that visits nodes rightly.
use sleepyservice.Prelude.{
  ℕ, ◌≤◌, ◌≡◌, ◌∙◌, subst, String, true, false, List, [], ◌∷◌, ◌++◌, In, In-one, count-nil,
  count-cons, count-cons_ne, count-cons_self, arith, string_discrete, Bool-cases, inl, inr,
}
use sleepyservice.Errors.{ok, err, ◌>>=◌, Result, Ensures, Ensures-bind}
use sleepyservice.Controller.Graph.Defs.{Graph, cycle_error, DfsState, scan}
use sleepyservice.Controller.Graph.Spec.{IsChain, IsReported}
use sleepyservice.Controller.Graph.Acyclic.Path.{IsChain-append, cut-IsReported}
use sleepyservice.Controller.Graph.Acyclic.Measure.{unvisited, unvisited_mono}
use sleepyservice.Controller.Graph.Acyclic.State.{
  IsFinished, Inv, Frame, Frame-refl, Frame-trans, Frame-IsFinished,
}

module _ (visit : String → DfsState → Result DfsState) (dep : String) (deps : List String)
    (st : DfsState) where
  scan_fresh :
      st.visited dep ≡ false → scan visit (dep ∷ deps) st ≡ (visit dep st >>= scan visit deps)
  unfolding scan
  scan_fresh e = rw (e, scan)

  scan_on_stack :
      st.visited dep ≡ true
      → st.rec_stack dep ≡ true
      → scan visit (dep ∷ deps) st ≡ err (cycle_error dep st.path)
  unfolding scan
  scan_on_stack e on = rw (e, on, scan)

  scan_finished : IsFinished dep st → scan visit (dep ∷ deps) st ≡ scan visit deps st
  unfolding scan
  scan_finished h = rw (h.0, h.1, scan)

module _ (g : Graph) (target : (n d : String) → In d (g.dependencies n) → In d g.components) where
  abbrev pub left : DfsState → ℕ
  left st = unvisited st.visited g.components

  -- When `dfs` may be called for a node.
  pub record Ready (fuel : ℕ) (node : String) (st : DfsState) : Type 0 where
    pub inv : Inv g st
    pub fresh : st.visited node ≡ false
    pub component : In node g.components
    pub chain : IsChain g (st.path ++ node ∷ [])
    pub enough : left st ≤ fuel

  -- What the loop over some dependencies has done.
  pub record Scanned (deps : List String) (st st' : DfsState) : Type 0 where
    pub inv : Inv g st'
    pub frame : Frame st st'
    pub finished : (d : String) → In d deps → IsFinished d st'

  abbrev pub Visits : ℕ → (String → DfsState → Result DfsState) → Type 0
  Visits fuel visit =
      (node : String) (st : DfsState)
      → Ready fuel node st
      → Ensures (Scanned (node ∷ []) st) (IsReported g) (visit node st)

  pub Scanned-cons :
      (dep : String) (deps : List String) {a b : DfsState} {c : DfsState}
      → IsFinished dep b
      → Frame a b
      → Scanned deps b c
      → Scanned (dep ∷ deps) a c
  Scanned-cons dep deps {c} done f s = record {
    inv = s.inv;
    frame = Frame-trans f s.frame;
    finished = λ d m. elim (string_discrete dep d) [
      | yes same ↦ subst (λ x. IsFinished x c) same (Frame-IsFinished dep s.frame done)
      | no other ↦ s.finished d (rw (← count-cons_ne d dep deps other) m)
    ];
  }

  -- The state in the loop of the call for `node`, over some of its dependencies.
  pub record Scanning (fuel : ℕ) (node : String) (deps : List String) (st : DfsState) : Type 0 where
    pub inv : Inv g st
    pub before : List String
    pub path : st.path ≡ before ++ node ∷ []
    pub chain : IsChain g (before ++ node ∷ [])
    pub edges : (d : String) → In d deps → In d (g.dependencies node)
    pub enough : left st ≤ fuel

  Scanning-next :
      (fuel : ℕ) (node dep : String) (deps : List String) {a b : DfsState}
      → Scanning fuel node (dep ∷ deps) a
      → Frame a b
      → Inv g b
      → Scanning fuel node deps b
  Scanning-next fuel node dep deps {a} {b} s f inv = record {
    inv = inv;
    before = s.before;
    path = f.path ∙ s.path;
    chain = s.chain;
    edges = λ d m. s.edges d (omega (arith, count-cons d dep deps));
    enough = omega (arith, s.enough, unvisited_mono a.visited b.visited g.components f.keeps);
  }

  module _ (fuel : ℕ) (node : String) where
    edge :
        (dep : String) (deps : List String) {st : DfsState}
        → Scanning fuel node (dep ∷ deps) st
        → In dep (g.dependencies node)
    edge dep deps s = s.edges dep (omega (arith, count-cons_self dep deps))

    IsChain-to :
        (dep : String) (deps : List String) {st : DfsState}
        → Scanning fuel node (dep ∷ deps) st
        → IsChain g (st.path ++ dep ∷ [])
    IsChain-to dep deps s = rw s.path (IsChain-append g s.before node dep s.chain (edge dep deps s))

    Ready-dep :
        (dep : String) (deps : List String) {st : DfsState}
        → Scanning fuel node (dep ∷ deps) st
        → st.visited dep ≡ false
        → Ready fuel dep st
    Ready-dep dep deps s fresh = record {
      inv = s.inv;
      fresh = fresh;
      component = target node dep (edge dep deps s);
      chain = IsChain-to dep deps s;
      enough = s.enough;
    }

    pub scan_lem :
        (visit : String → DfsState → Result DfsState)
        → Visits fuel visit
        → (deps : List String) (st : DfsState) → Scanning fuel node deps st
        → Ensures (Scanned deps st) (IsReported g) (scan visit deps st)
    scan_lem visit visits [] st s =
        unfold scan in
        record {
          inv = s.inv;
          frame = Frame-refl st;
          finished = λ d m. absurd (omega (arith, count-nil d));
        }
    scan_lem visit visits (dep ∷ deps) st s = elim (Bool-cases (st.visited dep)) [
      | inl old ↦ elim (Bool-cases (st.rec_stack dep)) [
        | inl on ↦
            rw (scan_on_stack visit dep deps st old on)
              (cut-IsReported g dep st.path (IsChain-to dep deps s) (s.inv.on_path dep on))
        | inr off ↦ rw (scan_finished visit dep deps st (old, off)) (
            widen (scan visit deps st) (old, off) (Frame-refl st)
              (scan_lem visit visits deps st
                (Scanning-next fuel node dep deps s (Frame-refl st) s.inv)))
      ]
      | inr fresh ↦ rw (scan_fresh visit dep deps st fresh) (
          Ensures-bind (Scanned (dep ∷ []) st) (IsReported g) (Scanned (dep ∷ deps) st)
            (IsReported g) (visit dep st) (scan visit deps)
            (λ st' done. widen (scan visit deps st') (done.finished dep (In-one dep)) done.frame (
              scan_lem visit visits deps st'
                (Scanning-next fuel node dep deps s done.frame done.inv)))
            (λ e h. h) (visits dep st (Ready-dep dep deps s fresh)))
    ]
      where
        widen :
            {b : DfsState} (m : Result DfsState)
            → IsFinished dep b
            → Frame st b
            → Ensures (Scanned deps b) (IsReported g) m
            → Ensures (Scanned (dep ∷ deps) st) (IsReported g) m
        widen (ok c) done f h = Scanned-cons dep deps done f h
        widen (err e) done f h = h
