-- ===== src/Strconv.antt =====
-- What the code uses of Go's `strings` and `strconv`, on the code points of a text.
pub mod Signed
pub mod Parts
use sleepyservice.Prelude.{
  ℕ, zero, suc, ◌+◌, ◌-◌, ◌*◌, ◌^◌, ◌≡◌, refl, String, Bool, true, false, not, ◌&&◌, ◌||◌, Option,
  none, some, List, [], ◌∷◌, ◌++◌, if◌then◌else◌, ltb, leb, ◌==◌, ℤ, pos, negsuc, ite,
  string_discrete, codes,
}
use mathlib.Core.Option
use sleepyservice.Prelude.Text.Digits.{spelled}

-- `unicode.IsSpace`
unfoldable pub is_space : ℕ → Bool
is_space c =
    leb 9 c && leb c 13
    || c == 32
    || c == 0x85
    || c == 0xA0
    || c == 0x1680
    || leb 0x2000 c && leb c 0x200A
    || c == 0x2028
    || c == 0x2029
    || c == 0x202F
    || c == 0x205F
    || c == 0x3000

unfoldable pub trim_left : List ℕ → List ℕ
unfolding is_space
trim_left [] = []
trim_left (c ∷ s) = let rest = trim_left s in if is_space c then rest else c ∷ s

abbrev is_blank : List ℕ → Bool
is_blank [] = true
is_blank (c ∷ s) = false

unfoldable pub trim_right : List ℕ → List ℕ
unfolding is_space
trim_right [] = []
trim_right (c ∷ s) = let rest = trim_right s in if is_blank rest && is_space c then [] else c ∷ rest

-- `strings.TrimSpace`
unfoldable pub trim_space : List ℕ → List ℕ
unfolding trim_left trim_right
trim_space s = trim_right (trim_left s)

abbrev pub prepend : ℕ → List (List ℕ) → List (List ℕ)
prepend c [] = (c ∷ []) ∷ []
prepend c (part ∷ parts) = (c ∷ part) ∷ parts

-- `strings.Split`, by a separator of one character.
unfoldable pub split : ℕ → List ℕ → List (List ℕ)
split sep [] = [] ∷ []
split sep (c ∷ s) = let rest = split sep s in if c == sep then [] ∷ rest else prepend c rest

abbrev unsigned : List ℕ → Option ℕ
unsigned [] = none
unsigned (c ∷ s) = spelled (c ∷ s) 0

abbrev pub negated : ℕ → ℤ
negated zero = pos 0
negated (suc n) = negsuc n

-- A decimal number with an optional sign, of any size.
unfoldable pub parse_signed : List ℕ → Option ℤ
unfolding spelled
parse_signed [] = none
parse_signed (c ∷ s) =
    if c == b'-'
    then Option.map negated (unsigned s)
    else if c == b'+'
    then Option.map pos (unsigned s)
    else Option.map pos (unsigned (c ∷ s))

-- From -2 ^ w to 2 ^ w - 1: the values of an integer of w + 1 bits.
abbrev pub fits : ℕ → ℤ → Bool
fits w (pos n) = ltb n (2 ^ w)
fits w (negsuc n) = ltb n (2 ^ w)

abbrev pub in_range : ℕ → Option ℤ → Option ℤ
in_range w none = none
in_range w (some z) = if fits w z then some z else none

-- `strconv.ParseInt(s, 10, w + 1)`; its errors, of the syntax or of the range, are `none`.
unfoldable pub parse_int : ℕ → List ℕ → Option ℤ
unfolding parse_signed
parse_int w s = in_range w (parse_signed s)

abbrev is_one_of : List String → String → Bool
is_one_of [] s = false
is_one_of (t ∷ ts) s = let rest = is_one_of ts s in ite (string_discrete s t) true rest

-- `strconv.ParseBool`
unfoldable pub parse_bool : String → Option Bool
parse_bool s =
    if is_one_of ("1" ∷ "t" ∷ "T" ∷ "true" ∷ "TRUE" ∷ "True" ∷ []) s
    then some true
    else if is_one_of ("0" ∷ "f" ∷ "F" ∷ "false" ∷ "FALSE" ∷ "False" ∷ []) s
    then some false
    else none
