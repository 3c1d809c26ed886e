-- ===== src/Common/Float.antt =====
-- The interface of Python's floats: the operations that the program calls. Nothing is assumed of
-- rounding; `IsOrdered` states the order of the numbers that are not NaN.
use Prim.Native.Nat.{ℕ}
use mathlib.Core.Path.{◌≡◌}
use mathlib.Core.Logic.{◌⊎◌}
use mathlib.Core.Bool.{Bool, true, not}
use mathlib.Core.Option.{Option}
use mathlib.Core.List.{List}
use forex_bot.Common.Tests.{if◌then◌else◌}

pub record Float (F : Type 0) : Type 0 where
  pub add : F → F → F
  pub sub : F → F → F
  pub mul : F → F → F
  pub div : F → F → F  -- by a divisor that is not zero: Python raises on `x / 0.0`
  pub floordiv : F → F → F  -- `x // y`
  pub neg : F → F
  pub lt : F → F → Bool
  pub le : F → F → Bool
  pub eq : F → F → Bool
  pub lit : ℕ → ℕ → F  -- `lit n k` is the literal n / 10^k, `lit 15 1` for 1.5
  pub sum : List F → F  -- the built-in `sum`, whose rounding depends on the version of Python
  pub floor : F → Option F  -- `math.floor`, which raises on NaN and the infinities

module _ {F : Type 0} ⦃f : Float F⦄ where
  abbrev pub add : F → F → F
  add = f.add

  abbrev pub sub : F → F → F
  sub = f.sub

  abbrev pub mul : F → F → F
  mul = f.mul

  abbrev pub div : F → F → F
  div = f.div

  abbrev pub floordiv : F → F → F
  floordiv = f.floordiv

  abbrev pub neg : F → F
  neg = f.neg

  abbrev pub lt : F → F → Bool
  lt = f.lt

  abbrev pub le : F → F → Bool
  le = f.le

  abbrev pub lit : ℕ → ℕ → F
  lit = f.lit

  abbrev pub nought : F
  nought = f.lit 0 0

  abbrev pub sum : List F → F
  sum = f.sum

  abbrev pub floor : F → Option F
  floor = f.floor

  -- `x == 0`, the test on which a division raises
  abbrev pub is_zero : F → Bool
  is_zero x = f.eq x (f.lit 0 0)

  -- Python's `max(a, b)` and `min(a, b)` keep the first unless the second beats it.
  abbrev pub max : F → F → F
  max a b = if f.lt a b then b else a

  abbrev pub min : F → F → F
  min a b = if f.lt b a then b else a

  -- `abs`
  abbrev pub abs : F → F
  abs x = if f.lt x (f.lit 0 0) then f.neg x else x

-- NaN is the value that is not `<=` itself; away from it the order is total.
pub record IsOrdered (F : Type 0) ⦃f : Float F⦄ : Type 0 where
  pub refl_of_le : (x y : F) → le x y ≡ true → (le x x ≡ true) × (le y y ≡ true)
  pub le_trans : (x y z : F) → le x y ≡ true → le y z ≡ true → le x z ≡ true
  pub le_total : (x y : F) → le x x ≡ true → le y y ≡ true → (le x y ≡ true) ⊎ (le y x ≡ true)
  pub le_of_lt : (x y : F) → lt x y ≡ true → le x y ≡ true
  pub lt-eq-not-le : (x y : F) → le x x ≡ true → le y y ≡ true → lt x y ≡ not (le y x)
