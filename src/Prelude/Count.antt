-- ===== src/Prelude/Count.antt =====
-- How often a name stands in a list: membership, distinctness and reordering are read off it.
use Prim.Native.Nat.{ℕ, suc, ◌+◌, ◌≤◌, ◌<◌}
use Prim.Native.String.{String}
use mathlib.Core.Path.{◌≡◌, refl, subst}
use mathlib.Core.Logic.{◌≢◌, ite}
use mathlib.Core.List.{List, [], ◌∷◌, ◌++◌}
use native.Mathlib.Omega.{arith}
use sleepyservice.Prelude.Text.{string_discrete}
use sleepyservice.Prelude.Lists.{length}

unfoldable pub count : String → List String → ℕ
count a [] = 0
count a (x ∷ xs) = let rest = count a xs in ite (string_discrete x a) (suc rest) rest

-- `a` stands in `xs`.
abbrev pub In : String → List String → Type 0
In a xs = 0 < count a xs

abbrev pub IsDistinct : List String → Type 0
IsDistinct xs = (a : String) → count a xs ≤ 1

-- The same names, each as often.
abbrev pub SameNames : List String → List String → Type 0
SameNames xs ys = (a : String) → count a xs ≡ count a ys

pub count-nil : (a : String) → count a [] ≡ 0
unfolding count
count-nil a = refl

pub count-cons_self : (a : String) (xs : List String) → count a (a ∷ xs) ≡ suc (count a xs)
unfolding count
count-cons_self a xs = ground arith

pub count-cons_ne : (a x : String) (xs : List String) → x ≢ a → count a (x ∷ xs) ≡ count a xs
unfolding count
count-cons_ne a x xs h = ground arith

pub count-cons :
    (a x : String) (xs : List String) → count a (x ∷ xs) ≡ count a (x ∷ []) + count a xs
unfolding count
count-cons a x xs = ground arith

pub count-append : (a : String) (xs ys : List String) → count a (xs ++ ys) ≡ count a xs + count a ys
unfolding count
count-append a [] ys = omega arith
count-append a (x ∷ xs) ys = ground (arith, count-append a xs ys)

pub count_one-le : (a x : String) → count a (x ∷ []) ≤ 1
unfolding count
count_one-le a x = ground arith

pub eq_of_In_one : (a x : String) → In a (x ∷ []) → x ≡ a
unfolding count
eq_of_In_one a x h = ground arith

pub In-one : (a : String) → In a (a ∷ [])
In-one a = omega (arith, count-cons_self a [])

-- The first occurrence of a name taken out.
remove : String → List String → List String
remove a [] = []
remove a (x ∷ xs) = let rest = remove a xs in ite (string_discrete x a) xs (x ∷ rest)

length-remove : (a : String) (xs : List String) → In a xs → suc (length (remove a xs)) ≡ length xs
unfolding remove count
length-remove a [] h = absurd (omega arith)
length-remove a (x ∷ xs) h = ground (arith, length-remove a xs)

count-remove :
    (b a : String) (xs : List String) → count b xs ≤ count b (a ∷ []) + count b (remove a xs)
unfolding remove count
count-remove b a [] = omega arith
count-remove b a (x ∷ xs) = ground (arith, count-remove b a xs)

-- A list with no more of any name is no longer.
pub length-le_of_count :
    (xs ys : List String) → ((a : String) → count a xs ≤ count a ys) → length xs ≤ length ys
length-le_of_count [] ys h = omega arith
length-le_of_count (x ∷ xs) ys h =
    omega (arith, length-remove x ys found, length-le_of_count xs (remove x ys) fewer)
  where
    found : In x ys
    found = omega (arith, h x, count-cons_self x xs)

    fewer : (a : String) → count a xs ≤ count a (remove x ys)
    fewer a = omega (arith, h a, count-cons a x xs, count-remove a x ys)

-- A name that does not stand in a list of distinct names may be put before them.
pub IsDistinct-cons :
    (x : String) (xs : List String) → count x xs ≡ 0 → IsDistinct xs → IsDistinct (x ∷ xs)
IsDistinct-cons x xs fresh distinct a = elim (string_discrete x a) [
  | yes same ↦ subst (λ b. count b (x ∷ xs) ≤ 1) same (omega (arith, count-cons_self x xs))
  | no other ↦ omega (arith, count-cons_ne a x xs other, distinct a)
]
