-- ===== src/Controller/Graph/Levels/Pending.antt =====
-- How many of the dependencies in a list are not placed yet: what the in-degree stands for.
use sleepyservice.Prelude.{
  ℕ, suc, ◌+◌, ◌≡◌, refl, String, List, [], ◌∷◌, In, SameNames, count, ltb, if◌then◌else◌, length,
  arith, count-cons, count-cons_self,
}

-- The occurrences in `deps` of names that do not stand in `placed`.
pub pending : List String → List String → ℕ
pending placed [] = 0
pending placed (d ∷ deps) =
    let rest = pending placed deps in if ltb 0 (count d placed) then rest else suc rest

pub pending-nil : (deps : List String) → pending [] deps ≡ length deps
unfolding pending count
pending-nil [] = refl
pending-nil (d ∷ deps) = omega (arith, pending-nil deps)

pub pending_cong :
    (placed placed' deps : List String)
    → SameNames placed placed'
    → pending placed deps ≡ pending placed' deps
unfolding pending
pending_cong placed placed' [] same = refl
pending_cong placed placed' (d ∷ deps) same =
    ground (arith, same d, pending_cong placed placed' deps same)

-- Placing a name takes off its occurrences.
pub pending-cons :
    (x : String) (placed deps : List String)
    → count x placed ≡ 0
    → pending (x ∷ placed) deps + count x deps ≡ pending placed deps
unfolding pending count
pending-cons x placed [] absent = refl
pending-cons x placed (d ∷ deps) absent = ground (arith, pending-cons x placed deps absent)

-- Nothing is pending exactly when all is placed.
pub In_placed :
    (placed deps : List String) (d : String) → pending placed deps ≡ 0 → In d deps → In d placed
unfolding pending count
In_placed placed [] d none_left m = absurd (omega arith)
In_placed placed (x ∷ deps) d none_left m = ground (arith, In_placed placed deps d)

pub pending-eq_zero :
    (placed deps : List String) → ((d : String) → In d deps → In d placed) → pending placed deps ≡ 0
unfolding pending
pending-eq_zero placed [] all = refl
pending-eq_zero placed (d ∷ deps) all = ground (
  arith,
  all d (omega (arith, count-cons_self d deps)),
  pending-eq_zero placed deps (λ x m. all x (omega (arith, count-cons x d deps))),
)
