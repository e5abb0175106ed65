-- ===== src/Prelude/Int.antt =====
-- Signed integers over the native numbers, under the library's names.
use Prim.Native.Nat.{ℕ, zero, suc, ◌+◌, ◌-◌, ◌%◌, ◌^◌}
use mathlib.Core.Bool.{Bool, true, false}
use Prim.Native.String.{String}
use sleepyservice.Prelude.Text.{decimal, ◌<>◌}
use sleepyservice.Prelude.Tests.{ltb, leb, if◌then◌else◌}

-- `negsuc n` is -(n + 1).
pub data ℤ : Type 0 where
  pos : ℕ → ℤ
  negsuc : ℕ → ℤ

abbrev pub pos_part : ℤ → ℕ
pos_part (pos n) = n
pos_part (negsuc n) = 0

abbrev pub neg_part : ℤ → ℕ
neg_part (pos n) = 0
neg_part (negsuc n) = suc n

-- a - b, as an integer.
abbrev pub sub_ℕ : ℕ → ℕ → ℤ
sub_ℕ a b = if leb b a then pos (a - b) else negsuc (b - a - 1)

infixl 65 ◌-ℤ◌
unfoldable pub ◌-ℤ◌ : ℤ → ℤ → ℤ
a -ℤ b = sub_ℕ (pos_part a + neg_part b) (neg_part a + pos_part b)

infixl 65 ◌+ℤ◌
unfoldable pub ◌+ℤ◌ : ℤ → ℤ → ℤ
a +ℤ b = sub_ℕ (pos_part a + pos_part b) (neg_part a + neg_part b)

abbrev pub ltb_ℤ : ℤ → ℤ → Bool
ltb_ℤ a b = ltb (pos_part a + neg_part b) (pos_part b + neg_part a)

abbrev pub is_zero : ℤ → Bool
is_zero (pos zero) = true
is_zero (pos (suc n)) = false
is_zero (negsuc n) = false

-- `n--`
abbrev pub pred_ℤ : ℤ → ℤ
pred_ℤ (pos zero) = negsuc 0
pred_ℤ (pos (suc n)) = pos n
pred_ℤ (negsuc n) = negsuc (suc n)

-- `%d`
unfoldable pub show_ℤ : ℤ → String
unfolding decimal ◌<>◌
show_ℤ (pos n) = decimal n
show_ℤ (negsuc n) = "-" <> decimal (suc n)

-- The conversion to an integer of w + 1 bits.
unfoldable pub wrap : ℕ → ℤ → ℤ
wrap w (pos n) =
    let r = n % 2 ^ suc w in if ltb r (2 ^ w) then pos r else negsuc (2 ^ suc w - 1 - r)
wrap w (negsuc n) =
    let r = n % 2 ^ suc w in if ltb r (2 ^ w) then negsuc r else pos (2 ^ suc w - 1 - r)

abbrev pub int32 : ℤ → ℤ
int32 = wrap 31

abbrev pub int64 : ℤ → ℤ
int64 = wrap 63
