-- ===== src/Controller/Scale/Eventually.antt =====
-- Pass by pass, `scaleUpComponents` gets through all levels, where what it scales up becomes ready.
use mathlib.Core.Option
use sleepyservice.Prelude.{
  ℕ, zero, suc, ◌+◌, ◌*◌, ◌≡◌, refl, sym, ◌∙◌, ap, subst, String, Bool, true, false, Option, none,
  some, List, [], ◌∷◌, ◌++◌, All, get_elem?, length, length-append, flatten, append_assoc,
  append-nil, In, count-append, count-nil, count-cons_ne, ◌<◌, inl, inr, ◌⊎◌, arith, SameNames,
  string_discrete,
}
use sleepyservice.Errors.{ok, Ensures}
use sleepyservice.Api.{ComponentStatus, Component}
use sleepyservice.Controller.Graph.{Graph, build_dependency_graph}
use sleepyservice.Controller.Graph.Spec.{names, IsAcyclic}
use sleepyservice.Controller.Graph.Builds.{Linked, Rejected, build_dependency_graph_lem}
use sleepyservice.Controller.Graph.Levels.{compute_scaling_levels-SameNames}
use sleepyservice.Controller.Scale.{
  RangeOrders, levels_of, status_map, is_ready, all_ready_in, are_components_ready, current_level,
}
use sleepyservice.Controller.Scale.Cut.{IsCut, current_level-IsCut, get_elem?-append}
use sleepyservice.Controller.Scale.InOrder.{IsPermuting}

-- The names that a pass scales up.
abbrev pub level_at : List (List String) → Option ℕ → List String
level_at levels none = []
level_at levels (some i) = Option.get_or (get_elem? levels i) []

abbrev pub scaled_level : (List String → Bool) → List (List String) → List String
scaled_level ready levels = level_at levels (current_level ready levels)

-- Where the levels are cut at `level`, and `pre` is ready: the first level behind `pre` is ready, or
-- it is `level`.
cut_behind :
    (ready : List String → Bool) (before : List (List String)) (level : List String)
    (after pre : List (List String)) (l : List String) (rest : List (List String))
    → before ++ level ∷ after ≡ pre ++ l ∷ rest
    → All (λ x. ready x ≡ true) before
    → All (λ x. ready x ≡ true) pre
    → (after ≡ []) ⊎ (ready level ≡ false)
    → (ready l ≡ true) ⊎ (level ≡ l)
cut_behind ready [] level after [] l rest e b p s = inr (cc)
cut_behind ready [] level after (x ∷ pre) l rest e b p (inl none_after) =
    absurd (omega (arith, ap length e, length-append pre (l ∷ rest), ap length none_after))
cut_behind ready [] level after (x ∷ pre) l rest e b p (inr not_ready) = absurd (cc (p.0))
cut_behind ready (y ∷ before) level after [] l rest e b p s = inl (cc (b.0))
cut_behind ready (y ∷ before) level after (x ∷ pre) l rest e b p s =
    cut_behind ready before level after pre l rest (cc) b.1 p.1 s

-- The names of the cut.
cut-scaled_level :
    (ready : List String → Bool) (levels : List (List String)) (i : ℕ) (cut : IsCut ready levels i)
    → current_level ready levels ≡ some i
    → scaled_level ready levels ≡ cut.level
cut-scaled_level ready levels i cut e =
    rw (e, cut.split, ← cut.index, get_elem?-append cut.before cut.after cut.level)

-- The first level behind ready ones is ready, or it is scaled up.
next_level :
    (ready : List String → Bool) (pre : List (List String)) (l : List String)
    (rest : List (List String))
    → All (λ x. ready x ≡ true) pre
    → (ready l ≡ true) ⊎ (scaled_level ready (pre ++ l ∷ rest) ≡ l)
next_level ready pre l rest p = by_cut (pre ++ l ∷ rest) refl
  where
    by_cut :
        (levels : List (List String))
        → levels ≡ pre ++ l ∷ rest
        → (ready l ≡ true) ⊎ (scaled_level ready levels ≡ l)
    by_cut [] e = absurd (omega (arith, ap length e, length-append pre (l ∷ rest)))
    by_cut (first ∷ others) e =
        let (i, at, cut) = current_level-IsCut ready first others in
        elim (cut_behind ready cut.before cut.level cut.after pre l rest (sym cut.split ∙ e)
          cut.all_before p cut.stops) [
            | inl yes_ready ↦ inl yes_ready
            | inr same ↦ inr (cut-scaled_level ready (first ∷ others) i cut at ∙ same)
          ]

In-append : (name : String) (xs ys : List String) → In name (xs ++ ys) → In name xs ⊎ In name ys
In-append name xs ys i = ground (arith, i, count-append name xs ys)

All-append :
    (P : List String → Type 0) (xs ys : List (List String)) → All P xs → All P ys → All P (xs ++ ys)
All-append P [] ys h k = k
All-append P (x ∷ xs) ys h k = (h.0, All-append P xs ys h.1 k)

-- The readiness that passes see, one pass after another: each level stays ready, and what a pass
-- scales up is ready `delay` passes later.
pub record IsFair (levels : List (List String)) (delay : ℕ) (seen : ℕ → List String → Bool)
    : Type 0 where
  pub keeps : All (λ l. (k : ℕ) → seen k l ≡ true → seen (suc k) l ≡ true) levels
  pub works : (k : ℕ) → seen (k + delay) (scaled_level (seen k) levels) ≡ true

module _ (levels : List (List String)) (delay : ℕ) (seen : ℕ → List String → Bool)
    (fair : IsFair levels delay seen) where
  abbrev Stays : List String → Type 0
  Stays l = (k : ℕ) → seen k l ≡ true → seen (suc k) l ≡ true

  abbrev IsSeen : ℕ → List String → Type 0
  IsSeen k l = seen k l ≡ true

  Stays-later : (l : List String) → Stays l → (n k : ℕ) → IsSeen k l → IsSeen (k + n) l
  Stays-later l s zero k h = subst (λ m. IsSeen m l) (omega arith) h
  Stays-later l s (suc n) k h =
      subst (λ m. IsSeen m l) (omega arith) (s (k + n) (Stays-later l s n k h))

  All-later :
      (ls : List (List String)) (k : ℕ)
      → All Stays ls
      → All (IsSeen k) ls
      → All (IsSeen (k + delay)) ls
  All-later [] k s h = tt
  All-later (l ∷ ls) k s h = (Stays-later l s.0 delay k h.0, All-later ls k s.1 h.1)

  -- One level more.
  next-IsSeen :
      (pre : List (List String)) (l : List String) (rest : List (List String)) (k : ℕ)
      → levels ≡ pre ++ l ∷ rest
      → Stays l
      → All (IsSeen k) pre
      → IsSeen (k + delay) l
  next-IsSeen pre l rest k e s h = elim (next_level (seen k) pre l rest h) [
    | inl yes_ready ↦ Stays-later l s delay k yes_ready
    | inr same ↦ subst (IsSeen (k + delay)) (ap (scaled_level (seen k)) e ∙ same) (fair.works k)
  ]

  pass_by_pass :
      (pre rest : List (List String)) (k : ℕ)
      → levels ≡ pre ++ rest
      → All Stays pre
      → All Stays rest
      → All (IsSeen k) pre
      → All (IsSeen (k + length rest * delay)) levels
  pass_by_pass pre [] k e sp sr h =
      subst (λ m. All (IsSeen m) levels) (omega arith)
        (subst (All (IsSeen k)) (sym (e ∙ append-nil pre)) h)
  pass_by_pass pre (l ∷ rest) k e sp sr h =
      subst (λ m. All (IsSeen m) levels) (ground arith)
        (pass_by_pass (pre ++ l ∷ []) rest (k + delay) (e ∙ sym (append_assoc pre (l ∷ []) rest))
          (All-append Stays pre (l ∷ []) sp (sr.0, tt)) sr.1
          (All-append (IsSeen (k + delay)) pre (l ∷ []) (All-later pre k sp h)
            (next-IsSeen pre l rest k e sr.0 h, tt)))

  pub levels-IsSeen : All (IsSeen (length levels * delay)) levels
  levels-IsSeen =
      subst (λ m. All (IsSeen m) levels) (omega arith)
        (pass_by_pass [] levels 0 refl tt fair.keeps tt)

all_ready_in-cons :
    (m : String → Option ComponentStatus) (x : String) (ns : List String)
    → all_ready_in m (x ∷ ns) ≡ true
    → (is_ready (m x) ≡ true) × (all_ready_in m ns ≡ true)
unfolding all_ready_in
all_ready_in-cons m x ns h = ground (arith, h)

all_ready_in-each :
    (m : String → Option ComponentStatus) (ns : List String)
    → all_ready_in m ns ≡ true
    → (name : String) → In name ns
    → is_ready (m name) ≡ true
unfolding all_ready_in
all_ready_in-each m [] h name i = absurd (omega (arith, i, count-nil name))
all_ready_in-each m (x ∷ ns) h name i = elim (string_discrete x name) [
  | yes same ↦ subst (λ n. is_ready (m n) ≡ true) same (all_ready_in-cons m x ns h).0
  | no other ↦
      all_ready_in-each m ns (all_ready_in-cons m x ns h).1 name
        (subst (λ n. 0 < n) (count-cons_ne name x ns other) i)
]

levels-each :
    (m : String → Option ComponentStatus) (levels : List (List String))
    → All (λ l. all_ready_in m l ≡ true) levels
    → (name : String) → In name (flatten levels)
    → is_ready (m name) ≡ true
levels-each m [] h name i = absurd (omega (arith, i, count-nil name))
levels-each m (l ∷ levels) h name i = elim (In-append name l (flatten levels) i) [
  | inl here ↦ all_ready_in-each m l h.0 name here
  | inr later ↦ levels-each m levels h.1 name later
]

-- If components are accepted, each level that is ready stays so, and what a pass of
-- `scaleUpComponents` scales up is ready `delay` passes later, then every component has a ready
-- status after `delay` passes for each level, from any statuses at the start.
pub fair-is_ready :
    (orders : RangeOrders)
    → IsPermuting orders
    → (cs : List Component) (g : Graph) → build_dependency_graph orders.validation cs ≡ ok g
    → (delay : ℕ) (statuses : ℕ → List ComponentStatus)
    → IsFair (levels_of orders g) delay (λ k. are_components_ready (statuses k))
    → (name : String) → In name (names cs)
    → is_ready (status_map (statuses (length (levels_of orders g) * delay)) (λ _. none) name) ≡ true
unfolding levels_of are_components_ready
fair-is_ready orders permuting cs g built delay statuses fair name listed =
    levels-each (status_map (statuses (length levels * delay)) (λ _. none)) levels
      (levels-IsSeen levels delay (λ k. are_components_ready (statuses k)) fair) name
      (subst (λ n. 0 < n) (sym (same name)) (subst (In name) (sym holds.0.components) listed))
  where
    levels : List (List String)
    levels = levels_of orders g

    holds : Linked cs g × IsAcyclic g
    holds =
        subst (Ensures (λ g. Linked cs g × IsAcyclic g) (Rejected cs)) built
          (build_dependency_graph_lem orders.validation permuting.validation cs)

    same : SameNames (flatten levels) g.components
    same =
        compute_scaling_levels-SameNames g holds.0.well_formed (orders.degrees g.components)
          (orders.queue g.components) (permuting.degrees g.components)
          (permuting.queue g.components) holds.1
