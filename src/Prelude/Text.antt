-- ===== src/Prelude/Text.antt =====
-- Go strings as native texts: equality as a decision, concatenation, and what `fmt.Sprintf` prints
-- for `%d` and `%v`.
pub mod Digits
use Prim.Native.Char.{code}
use Prim.Native.Nat.{ℕ, zero, suc, ◌/◌, ◌%◌, compare, Ordering}
use Prim.Native.String.{String}
use Prim.Native.String.{◌++◌ as text_append}
use mathlib.Core.List.{List, [], ◌∷◌}
use mathlib.Core.Path.{◌≡◌, refl}
use mathlib.Core.Bool.{Bool, true, false}
use native.Mathlib.Omega.{arith}
use text.Mathlib.Text.{◌==◌}
use text.Mathlib.TextEquality.{eq_iff}

decide_by : (s t : String) (b : Bool) → (s == t) ≡ b → Dec (s ≡ t)
decide_by s t true e = yes ((eq_iff s t).0 e)
decide_by s t false e = no (λ p. ground (arith, eq_iff s t))

-- Go's `==` on strings.
unfoldable pub string_discrete : Discrete String
unfolding decide_by
string_discrete s t = decide_by s t (s == t) refl

-- The code points of a text.
abbrev pub codes : String → List ℕ
codes String.[] = []
codes (String.◌∷◌ c s) = code c ∷ codes s

-- `s + t`
infixr 65 ◌<>◌
unfoldable pub ◌<>◌ : String → String → String
s <> t = text_append s t

digit : ℕ → String
digit zero = "0"
digit (suc zero) = "1"
digit (suc (suc zero)) = "2"
digit (suc (suc (suc zero))) = "3"
digit (suc (suc (suc (suc zero)))) = "4"
digit (suc (suc (suc (suc (suc zero))))) = "5"
digit (suc (suc (suc (suc (suc (suc zero)))))) = "6"
digit (suc (suc (suc (suc (suc (suc (suc zero))))))) = "7"
digit (suc (suc (suc (suc (suc (suc (suc (suc zero)))))))) = "8"
digit (suc (suc (suc (suc (suc (suc (suc (suc (suc n))))))))) = "9"

-- The digits of a number, in front of a text; a number has no more digits than its own value.
digits_before : ℕ → ℕ → String → String
unfolding digit ◌<>◌
digits_before zero n out = out
digits_before (suc fuel) n out =
    let shown = digit (n % 10) <> out in
    let more = digits_before fuel (n / 10) shown in
    elim (compare n 10) [ Ordering.lt ↦ shown | _ ↦ more ]

-- `%d` of a number that is not negative.
unfoldable pub decimal : ℕ → String
unfolding digits_before
decimal n = digits_before (suc n) n ""

-- `strings.Join`
unfoldable pub join : String → List String → String
unfolding ◌<>◌
join sep [] = ""
join sep (x ∷ []) = x
join sep (x ∷ y ∷ rest) = x <> sep <> join sep (y ∷ rest)

-- `%v` of a slice of strings.
unfoldable pub show_list : List String → String
unfolding join
show_list xs = "[" <> join " " xs <> "]"

decimal_runs : decimal 2040 ≡ "2040"
unfolding decimal
decimal_runs = refl
