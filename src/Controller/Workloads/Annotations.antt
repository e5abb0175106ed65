-- ===== src/Controller/Workloads/Annotations.antt =====
-- The annotations of an object, as a map.
use sleepyservice.Prelude.{◌≡◌, ◌≢◌, refl, String, none, some, List, [], ◌∷◌, arith}
use sleepyservice.Controller.Workloads.{lookup, delete, insert}

pub lookup-delete :
    (key : String) (m : List (String × String))
    → (lookup key (delete key m) ≡ none)
      × ((other : String) → key ≢ other → lookup other (delete key m) ≡ lookup other m)
unfolding lookup delete
lookup-delete key [] = (refl, λ other h. refl)
lookup-delete key ((k, v) ∷ m) =
    let (gone, kept) = lookup-delete key m in
    (ground (arith, gone), λ other h. ground (arith, kept other h))

pub lookup-insert :
    (key value : String) (m : List (String × String))
    → (lookup key (insert key value m) ≡ some value)
      × ((other : String) → key ≢ other → lookup other (insert key value m) ≡ lookup other m)
unfolding lookup insert
lookup-insert key value m =
    let (gone, kept) = lookup-delete key m in
    (ground arith, λ other h. ground (arith, kept other h))
