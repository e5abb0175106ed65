-- ===== src/Controller/Graph/Acyclic/Measure.antt =====
-- The components that `dfs` has not visited yet: their number bounds how deep its calls nest.
use sleepyservice.Prelude.{
  ℕ, suc, ◌<◌, ◌≤◌, ◌≡◌, String, Bool, true, false, List, [], ◌∷◌, In, count, update, if◌then◌else◌,
  length, arith,
}

pub unvisited : (String → Bool) → List String → ℕ
unvisited visited [] = 0
unvisited visited (c ∷ cs) = let rest = unvisited visited cs in if visited c then rest else suc rest

pub unvisited-le_length :
    (visited : String → Bool) (cs : List String) → unvisited visited cs ≤ length cs
unfolding unvisited
unvisited-le_length visited [] = omega arith
unvisited-le_length visited (c ∷ cs) = ground (arith, unvisited-le_length visited cs)

pub unvisited_mono :
    (visited visited' : String → Bool) (cs : List String)
    → ((n : String) → visited n ≡ true → visited' n ≡ true)
    → unvisited visited' cs ≤ unvisited visited cs
unfolding unvisited
unvisited_mono visited visited' [] keeps = omega arith
unvisited_mono visited visited' (c ∷ cs) keeps =
    ground (arith, keeps c, unvisited_mono visited visited' cs keeps)

unvisited-update-le :
    (visited : String → Bool) (node : String) (cs : List String)
    → unvisited (update visited node true) cs ≤ unvisited visited cs
unfolding unvisited update
unvisited-update-le visited node [] = omega arith
unvisited-update-le visited node (c ∷ cs) = ground (arith, unvisited-update-le visited node cs)

-- Visiting a component for the first time leaves fewer.
pub unvisited-update :
    (visited : String → Bool) (node : String) (cs : List String)
    → visited node ≡ false
    → In node cs
    → unvisited (update visited node true) cs < unvisited visited cs
unfolding unvisited count update
unvisited-update visited node [] fresh m = absurd (omega arith)
unvisited-update visited node (c ∷ cs) fresh m =
    ground (arith, unvisited-update visited node cs, unvisited-update-le visited node cs)
