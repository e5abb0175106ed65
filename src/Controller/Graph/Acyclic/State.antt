-- ===== src/Controller/Graph/Acyclic/State.antt =====
-- What holds of the variables of `dfs` between two of its steps.
use sleepyservice.Prelude.{
  ℕ, suc, ◌<◌, ◌≡◌, ◌≢◌, refl, subst, ◌∙◌, String, true, false, List, [], ◌∷◌, ◌++◌, In, count,
  count-append, take-append_one, update, update_self, update_ne, arith, string_discrete, ◌⊎◌, inl,
  inr,
}
use sleepyservice.Controller.Graph.Defs.{Graph, DfsState, enter, leave}

-- `node` was visited, and the call for it is over.
abbrev pub IsFinished : String → DfsState → Type 0
IsFinished node st = (st.visited node ≡ true) × (st.rec_stack node ≡ false)

-- The finished nodes are ranked above their dependencies, which are finished too.
pub record Inv (g : Graph) (st : DfsState) : Type 0 where
  pub rank : String → ℕ
  pub bound : ℕ
  pub below : (n : String) → IsFinished n st → rank n < bound
  pub closed : (n d : String) → IsFinished n st → In d (g.dependencies n) → IsFinished d st
  pub ranked : (n d : String) → IsFinished n st → In d (g.dependencies n) → rank d < rank n
  pub stacked : (n : String) → st.rec_stack n ≡ true → st.visited n ≡ true
  pub on_path : (n : String) → st.rec_stack n ≡ true → In n st.path

-- What a loop or a call of `dfs` leaves as it was.
pub record Frame (st st' : DfsState) : Type 0 where
  pub path : st'.path ≡ st.path
  pub stack : (n : String) → st'.rec_stack n ≡ st.rec_stack n
  pub keeps : (n : String) → st.visited n ≡ true → st'.visited n ≡ true

pub Frame-refl : (st : DfsState) → Frame st st
Frame-refl st = record { path = refl; stack = λ n. refl; keeps = λ n h. h }

pub Frame-trans : {a b c : DfsState} → Frame a b → Frame b c → Frame a c
Frame-trans f k = record {
  path = k.path ∙ f.path;
  stack = λ n. k.stack n ∙ f.stack n;
  keeps = λ n h. k.keeps n (f.keeps n h);
}

pub Frame-IsFinished :
    {st st' : DfsState} (n : String) → Frame st st' → IsFinished n st → IsFinished n st'
Frame-IsFinished n f h = (f.keeps n h.0, f.stack n ∙ h.1)

module _ (g : Graph) (node : String) where
  -- Once entered, no other node is finished than before.
  IsFinished-before_enter :
      (st : DfsState) (n : String) → IsFinished n (enter node st) → IsFinished n st
  unfolding enter update
  IsFinished-before_enter st n h = ground arith

  IsFinished-after_enter :
      (st : DfsState) (n : String)
      → st.visited node ≡ false
      → IsFinished n st
      → IsFinished n (enter node st)
  unfolding enter update
  IsFinished-after_enter st n fresh h = ground arith

  stacked_after_enter :
      (st : DfsState) (n : String)
      → (st.rec_stack n ≡ true → st.visited n ≡ true)
      → (enter node st).rec_stack n ≡ true
      → (enter node st).visited n ≡ true
  unfolding enter update
  stacked_after_enter st n before h = ground arith

  on_path_after_enter :
      (st : DfsState) (n : String)
      → (st.rec_stack n ≡ true → In n st.path)
      → (enter node st).rec_stack n ≡ true
      → In n (enter node st).path
  unfolding enter update count
  on_path_after_enter st n before h = ground (arith, count-append n st.path (node ∷ []))

  pub enter-Inv : (st : DfsState) → st.visited node ≡ false → Inv g st → Inv g (enter node st)
  enter-Inv st fresh inv = record {
    rank = inv.rank;
    bound = inv.bound;
    below = λ n h. inv.below n (IsFinished-before_enter st n h);
    closed = λ n d h m.
        IsFinished-after_enter st d fresh (inv.closed n d (IsFinished-before_enter st n h) m);
    ranked = λ n d h m. inv.ranked n d (IsFinished-before_enter st n h) m;
    stacked = λ n h. stacked_after_enter st n (inv.stacked n) h;
    on_path = λ n h. on_path_after_enter st n (inv.on_path n) h;
  }

  -- On leaving, `node` is finished too.
  leave_cases :
      (st : DfsState) (n : String)
      → IsFinished n (leave node st)
      → (node ≡ n) ⊎ ((node ≢ n) × IsFinished n st)
  unfolding leave update
  leave_cases st n h = elim (string_discrete node n) [
    | yes same ↦ inl same
    | no other ↦ inr (other, (h.0, ground arith))
  ]

  pub IsFinished-after_leave :
      (st : DfsState) (n : String) → IsFinished n st → IsFinished n (leave node st)
  unfolding leave update
  IsFinished-after_leave st n h = ground arith

  pub leave-IsFinished : (st : DfsState) → st.visited node ≡ true → IsFinished node (leave node st)
  unfolding leave update
  leave-IsFinished st v = ground arith

  on_path_after_leave :
      (st : DfsState) (p : List String) (n : String)
      → st.path ≡ p ++ node ∷ []
      → (st.rec_stack n ≡ true → In n st.path)
      → (leave node st).rec_stack n ≡ true
      → In n p
  unfolding leave update count
  on_path_after_leave st p n e before h = ground (arith, count-append n p (node ∷ []))

  pub path-leave :
      (st : DfsState) (p : List String) → st.path ≡ p ++ node ∷ [] → (leave node st).path ≡ p
  unfolding leave
  path-leave st p e = rw (e, take-append_one)

  stacked_after_leave :
      (st : DfsState) (n : String)
      → (st.rec_stack n ≡ true → st.visited n ≡ true)
      → (leave node st).rec_stack n ≡ true
      → (leave node st).visited n ≡ true
  unfolding leave update
  stacked_after_leave st n before h = ground arith

  module _ (st : DfsState) (p : List String) (inv : Inv g st) (visited : st.visited node ≡ true)
      (stacked : st.rec_stack node ≡ true) (path : st.path ≡ p ++ node ∷ [])
      (deps : (d : String) → In d (g.dependencies node) → IsFinished d st) where
    -- `node` is ranked above all that was finished before it.
    rank_after : String → ℕ
    rank_after = update inv.rank node inv.bound

    rank_before : (n : String) → node ≢ n → rank_after n ≡ inv.rank n
    unfolding rank_after
    rank_before n other = update_ne inv.rank node n inv.bound other

    rank_node : rank_after node ≡ inv.bound
    unfolding rank_after
    rank_node = update_self inv.rank node inv.bound

    node_ne : (n : String) → IsFinished n st → node ≢ n
    node_ne n h e = cc (subst (λ m. st.rec_stack m ≡ true) e stacked, h.1)

    below_after : (n : String) → IsFinished n (leave node st) → rank_after n < suc inv.bound
    below_after n h = elim (leave_cases st n h) [
      | inl same ↦ rw (← same, rank_node) (omega arith)
      | inr (other, before) ↦ omega (arith, rank_before n other, inv.below n before)
    ]

    closed_after :
        (n d : String)
        → IsFinished n (leave node st)
        → In d (g.dependencies n)
        → IsFinished d (leave node st)
    closed_after n d h m = elim (leave_cases st n h) [
      | inl same ↦ IsFinished-after_leave st d (deps d (rw same m))
      | inr (other, before) ↦ IsFinished-after_leave st d (inv.closed n d before m)
    ]

    ranked_after :
        (n d : String)
        → IsFinished n (leave node st)
        → In d (g.dependencies n)
        → rank_after d < rank_after n
    ranked_after n d h m = elim (leave_cases st n h) [
      | inl same ↦
          let done : IsFinished d st = deps d (rw same m) in
          rw (← same, rank_node) (omega (arith, rank_before d (node_ne d done), inv.below d done))
      | inr (other, before) ↦
          let done : IsFinished d st = inv.closed n d before m in
          omega
            (arith, rank_before n other, rank_before d (node_ne d done), inv.ranked n d before m)
    ]

    pub leave-Inv : Inv g (leave node st)
    leave-Inv = record {
      rank = rank_after;
      bound = suc inv.bound;
      below = below_after;
      closed = closed_after;
      ranked = ranked_after;
      stacked = λ n h. stacked_after_leave st n (inv.stacked n) h;
      on_path =
          λ n h. rw (path-leave st p path) (on_path_after_leave st p n path (inv.on_path n) h);
    }
