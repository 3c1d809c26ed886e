-- ===== src/Common/Fixed.antt =====
-- The interface of floats can be met: decimals with four places over the integers. They serve the
-- tests and witnesses; quotients and products are rounded towards zero.
use Prim.Native.Nat.{ℕ, ◌+◌, ◌-◌, ◌*◌, ◌/◌, ◌^◌}
use mathlib.Core.Option.{some}
use mathlib.Core.List.{foldl}
use native.Mathlib.Omega.{arith}
use forex_bot.Common.Tests.{◌==◌}
use forex_bot.Common.Int.{ℤ, pos, negsuc, pos_part, neg_part, sub_ℕ, ltb_ℤ, leb_ℤ}
use forex_bot.Common.Float.{Float, IsOrdered}

abbrev pub Fixed : Type 0
Fixed = ℤ

abbrev pub unit : ℕ
unit = 10_000

abbrev magnitude : ℤ → ℕ
magnitude a = pos_part a + neg_part a

-- The number n with the sign of `a` and `b` together.
abbrev signed : ℤ → ℤ → ℕ → ℤ
signed (pos a) (pos b) n = pos n
signed (negsuc a) (negsuc b) n = pos n
signed _ _ n = sub_ℕ 0 n

instance abbrev pub fixed : Float Fixed
fixed = record {
  add = λ a b. sub_ℕ (pos_part a + pos_part b) (neg_part a + neg_part b);
  sub = λ a b. sub_ℕ (pos_part a + neg_part b) (neg_part a + pos_part b);
  mul = λ a b. signed a b (magnitude a * magnitude b / unit);
  div = λ a b. signed a b (magnitude a * unit / magnitude b);
  floordiv = λ a b. signed a b (magnitude a / magnitude b * unit);
  neg = λ a. sub_ℕ (neg_part a) (pos_part a);
  lt = ltb_ℤ;
  le = leb_ℤ;
  eq = λ a b. (pos_part a + neg_part b) == (pos_part b + neg_part a);
  lit = λ n k. pos (n * unit / 10 ^ k);
  sum = foldl (λ a b. sub_ℕ (pos_part a + pos_part b) (neg_part a + neg_part b)) (pos 0);
  floor = λ a. some (sub_ℕ (pos_part a / unit * unit) ((neg_part a + unit - 1) / unit * unit));
}

pub Fixed-IsOrdered : IsOrdered Fixed
Fixed-IsOrdered = ground arith

-- A decimal from its ten-thousandths, for the tests.
abbrev pub tenths : ℕ → Fixed
tenths n = pos (n * 1000)

abbrev pub whole : ℕ → Fixed
whole n = pos (n * unit)
