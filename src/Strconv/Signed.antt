-- ===== src/Strconv/Signed.antt =====
-- A printed integer is read back.
use mathlib.Core.Option
use sleepyservice.Prelude.{
  ℕ, suc, ◌≡◌, refl, ap, ◌∙◌, true, false, some, List, [], ◌∷◌, All, ℤ, pos, negsuc, show_ℤ,
  decimal, codes, arith, ◌==◌,
}
use sleepyservice.Prelude.Text.Digits.{
  codes-append, IsDigit, IsDigits, spelled, spelled-decimal, decimal-IsDigits,
}
use sleepyservice.Strconv.{parse_signed, parse_int, negated, fits, in_range, is_space}

parse_signed-IsDigits : (s : List ℕ) → IsDigits s → parse_signed s ≡ Option.map pos (spelled s 0)
unfolding parse_signed
parse_signed-IsDigits [] h = absurd (omega arith)
parse_signed-IsDigits (c ∷ s) h = ground arith

parse_signed_minus :
    (s : List ℕ) → IsDigits s → parse_signed (b'-' ∷ s) ≡ Option.map negated (spelled s 0)
unfolding parse_signed
parse_signed_minus [] h = absurd (omega arith)
parse_signed_minus (c ∷ s) h = refl

-- Every integer is read back from what `%d` prints.
pub parse_signed-show_ℤ : (z : ℤ) → parse_signed (codes (show_ℤ z)) ≡ some z
unfolding show_ℤ
parse_signed-show_ℤ (pos n) =
    parse_signed-IsDigits (codes (decimal n)) (decimal-IsDigits n)
    ∙ ap (Option.map pos) (spelled-decimal n)
parse_signed-show_ℤ (negsuc n) =
    ap parse_signed (codes-append "-" (decimal (suc n)))
    ∙ parse_signed_minus (codes (decimal (suc n))) (decimal-IsDigits (suc n))
    ∙ ap (Option.map negated) (spelled-decimal (suc n))

-- An integer of w + 1 bits is read back.
pub parse_int-show_ℤ : (w : ℕ) (z : ℤ) → fits w z ≡ true → parse_int w (codes (show_ℤ z)) ≡ some z
unfolding parse_int
parse_int-show_ℤ w z h = ap (in_range w) (parse_signed-show_ℤ z) ∙ rw h refl

-- What `%d` prints: no character of it is a space or a comma.
abbrev pub IsPlain : ℕ → Type 0
IsPlain c = (is_space c ≡ false) × (c == b',' ≡ false)

digits-IsPlain : (s : List ℕ) → All IsDigit s → All IsPlain s
unfolding is_space
digits-IsPlain [] h = tt
digits-IsPlain (c ∷ s) h = ((ground arith, ground arith), digits-IsPlain s h.1)

pub show_ℤ-IsPlain : (z : ℤ) → All IsPlain (codes (show_ℤ z))
unfolding show_ℤ is_space
show_ℤ-IsPlain (pos n) = digits-IsPlain (codes (decimal n)) (decimal-IsDigits n).0
show_ℤ-IsPlain (negsuc n) =
    rw (codes-append "-" (decimal (suc n)))
      ((refl, refl), digits-IsPlain (codes (decimal (suc n))) (decimal-IsDigits (suc n)).0)
