-- ===== src/Prelude/Text/Digits.antt =====
-- The digits that `decimal` prints, and the number that they spell.
use Prim.Native.Nat.{ℕ, zero, suc, ◌+◌, ◌-◌, ◌*◌, ◌/◌, ◌%◌, ◌<◌, compare, Ordering}
use Prim.Native.String.{String}
use Prim.Native.Char.{code}
use mathlib.Core.List.{List, [], ◌∷◌, ◌++◌}
use mathlib.Core.Option.{Option, none, some}
use mathlib.Core.Path.{◌≡◌, refl, ap, ◌∙◌}
use mathlib.Core.Bool.{Bool, true, ◌&&◌}
use native.Mathlib.Omega.{arith}
use text.Mathlib.TextLemmas.{nil-append, cons-append}
use sleepyservice.Prelude.Tests.{leb, if◌then◌else◌}
use sleepyservice.Prelude.Lists.{All, length}
use sleepyservice.Prelude.Text.{codes, digit, digits_before, decimal, ◌<>◌}

pub codes-append : (s t : String) → codes (s <> t) ≡ codes s ++ codes t
unfolding ◌<>◌
codes-append String.[] t = ap codes (nil-append t)
codes-append (String.◌∷◌ c s) t =
    ap codes (cons-append c s t) ∙ ap (λ l. code c ∷ l) (codes-append s t)

abbrev pub is_digit : ℕ → Bool
is_digit c = leb b'0' c && leb c b'9'

abbrev pub IsDigit : ℕ → Type 0
IsDigit c = is_digit c ≡ true

-- At least one digit, and nothing else.
abbrev pub IsDigits : List ℕ → Type 0
IsDigits s = All IsDigit s × (0 < length s)

-- The number that digits spell behind `n`; `none` at anything that is no digit.
unfoldable pub spelled : List ℕ → ℕ → Option ℕ
spelled [] n = some n
spelled (c ∷ s) n = let rest = spelled s (n * 10 + (c - b'0')) in if is_digit c then rest else none

codes-digit : (k : ℕ) → k < 10 → codes (digit k) ≡ (b'0' + k) ∷ []
unfolding digit
codes-digit zero h = refl
codes-digit (suc zero) h = refl
codes-digit (suc (suc zero)) h = refl
codes-digit (suc (suc (suc zero))) h = refl
codes-digit (suc (suc (suc (suc zero)))) h = refl
codes-digit (suc (suc (suc (suc (suc zero))))) h = refl
codes-digit (suc (suc (suc (suc (suc (suc zero)))))) h = refl
codes-digit (suc (suc (suc (suc (suc (suc (suc zero))))))) h = refl
codes-digit (suc (suc (suc (suc (suc (suc (suc (suc zero)))))))) h = refl
codes-digit (suc (suc (suc (suc (suc (suc (suc (suc (suc zero))))))))) h = refl
codes-digit (suc (suc (suc (suc (suc (suc (suc (suc (suc (suc n)))))))))) h = absurd (omega arith)

-- One digit put in front of a text.
codes_shown : (n : ℕ) (out : String) → codes (digit (n % 10) <> out) ≡ (b'0' + n % 10) ∷ codes out
codes_shown n out =
    codes-append (digit (n % 10)) out
    ∙ ap (λ l. l ++ codes out) (codes-digit (n % 10) (omega arith))

spelled_shown :
    (m n : ℕ) (out : String)
    → spelled (codes (digit (n % 10) <> out)) m ≡ spelled (codes out) (m * 10 + n % 10)
unfolding spelled
spelled_shown m n out = rw (codes_shown n out) (ground arith)

spelled-digits_before :
    (fuel n : ℕ) (out : String)
    → n < fuel
    → spelled (codes (digits_before fuel n out)) 0 ≡ spelled (codes out) n
unfolding digits_before
spelled-digits_before zero n out h = absurd (omega arith)
spelled-digits_before (suc fuel) n out h = ground (
  arith,
  spelled-digits_before fuel (n / 10) (digit (n % 10) <> out),
  spelled_shown 0 n out,
  spelled_shown (n / 10) n out,
)

IsDigits-shown :
    (n : ℕ) (out : String) → All IsDigit (codes out) → IsDigits (codes (digit (n % 10) <> out))
IsDigits-shown n out h = rw (codes_shown n out) ((ground arith, h), omega arith)

IsDigits-order :
    (o : Ordering) (a b : String)
    → IsDigits (codes a)
    → IsDigits (codes b)
    → IsDigits (codes (elim o [ Ordering.lt ↦ a | _ ↦ b ]))
IsDigits-order Ordering.lt a b h k = h
IsDigits-order Ordering.eq a b h k = k
IsDigits-order Ordering.gt a b h k = k

IsDigits-digits_before :
    (fuel n : ℕ) (out : String)
    → All IsDigit (codes out)
    → IsDigits (codes (digits_before (suc fuel) n out))
unfolding digits_before
IsDigits-digits_before zero n out h =
    let shown = IsDigits-shown n out h in
    IsDigits-order (compare n 10) (digit (n % 10) <> out) (digit (n % 10) <> out) shown shown
IsDigits-digits_before (suc fuel) n out h =
    let shown = IsDigits-shown n out h in
    IsDigits-order (compare n 10) (digit (n % 10) <> out)
      (digits_before (suc fuel) (n / 10) (digit (n % 10) <> out)) shown
      (IsDigits-digits_before fuel (n / 10) (digit (n % 10) <> out) shown.0)

-- `decimal` prints digits that spell the number.
pub decimal-IsDigits : (n : ℕ) → IsDigits (codes (decimal n))
unfolding decimal
decimal-IsDigits n = IsDigits-digits_before n n "" tt

pub spelled-decimal : (n : ℕ) → spelled (codes (decimal n)) 0 ≡ some n
unfolding decimal
spelled-decimal n = spelled-digits_before (suc n) n "" (omega arith) ∙ (unfold spelled in refl)
