-- ===== src/Base/Float.antt =====
-- Python's `float`, as far as the bot uses it: an interface, since the proof language has no floats.
-- `F` stands for the IEEE-754 doubles, NaN included. Comparisons with NaN are false, so `le` and
-- `lt` are two operations and `x > y`, `x >= y` are `lt y x` and `le y x`.
use async_trading_engine.Base.Tests.{if◌then◌else◌}
use Prim.Native.Nat.{ℕ}
use async_trading_engine.Base.Int.{ℤ}
use mathlib.Core.Path.{◌≡◌}
use mathlib.Core.Bool.{Bool, true, false, ◌&&◌}
use mathlib.Core.Option.{Option, none, some}
use mathlib.Core.List.{List}

pub record Float (F : Type 0) : Type 0 where
  pub zero : F
  pub infinity : F
  pub le : F → F → Bool
  pub lt : F → F → Bool
  pub add : F → F → F
  pub sub : F → F → F
  pub mul : F → F → F
  -- `x / y` where `y` is not zero
  pub div : F → F → F
  pub neg : F → F
  -- `decimal m k` is the literal `m / 10 ** k`: 0.25 is `decimal 25 2`.
  pub decimal : ℕ → ℕ → F
  -- `float(n)`
  pub of_nat : ℕ → F
  -- `int(x)`, of a number that is finite
  pub trunc : F → ℤ
  -- `float(math.ceil(x))`, of a number that is finite
  pub ceil : F → F
  -- `round(x, 1)` and `round(x, 2)`
  pub round1 : F → F
  pub round2 : F → F
  -- Python's `sum`, which compensates the rounding of its additions from version 3.12 on
  pub sum : List F → F
  -- `statistics.mean`, of a list that is not empty
  pub mean : List F → F

module _ {F : Type 0} ⦃d : Float F⦄ where
  open d use {zero, le, lt, add, div, neg}

  -- `max(a, b)` keeps its first argument unless the second is larger.
  abbrev pub max : F → F → F
  max a b = if lt a b then b else a

  -- `min(a, b)` keeps its first argument unless the second is smaller.
  abbrev pub min : F → F → F
  min a b = if lt b a then b else a

  abbrev pub abs : F → F
  abs a = if lt a zero then neg a else a

  -- `x / y`; `none` is the `ZeroDivisionError`.
  abbrev pub div? : F → F → Option F
  div? a b = if le b zero && le zero b then none else some (div a b)

  -- NaN is the value that is not `<=` itself.
  abbrev pub IsNumber : F → Type 0
  IsNumber a = le a a ≡ true

-- What the theorems use of IEEE-754 arithmetic, each law stated so that it holds for every double,
-- infinities and NaN included. Rounding to nearest is monotone, which gives the laws of `add`,
-- `sub`, `mul` and `div`.
module _ (F : Type 0) ⦃d : Float F⦄ where
  open d use {zero, le, lt, add, sub, mul, decimal}

  pub record IsOrdered : Type 0 where
    pub le_trans : (a b c : F) → le a b ≡ true → le b c ≡ true → le a c ≡ true
    pub lt_irrefl : (a : F) → lt a a ≡ false
    pub le_of_lt : (a b : F) → lt a b ≡ true → le a b ≡ true
    pub not-lt_of_le : (a b : F) → le a b ≡ true → lt b a ≡ false
    pub le_of_not_lt : (a b : F) → IsNumber a → IsNumber b → lt b a ≡ false → le a b ≡ true
    pub le_of_not_le : (a b : F) → IsNumber a → IsNumber b → le a b ≡ false → le b a ≡ true
    pub number_of_le : (a b : F) → le a b ≡ true → IsNumber a × IsNumber b
    pub zero-IsNumber : IsNumber zero
    pub le-add : (a b : F) → le zero b ≡ true → IsNumber (add a b) → le a (add a b) ≡ true
    pub sub_antitone :
        (a b c : F)
        → le b c ≡ true
        → IsNumber (sub a b)
        → IsNumber (sub a c)
        → le (sub a c) (sub a b) ≡ true
    pub mul_mono :
        (a b c : F)
        → le zero a ≡ true
        → le b c ≡ true
        → IsNumber (mul a b)
        → IsNumber (mul a c)
        → le (mul a b) (mul a c) ≡ true
    pub mul-half-le : (a : F) → le zero a ≡ true → le (mul a (decimal 5 1)) a ≡ true
    pub mul-quarter-le : (a : F) → le zero a ≡ true → le (mul a (decimal 25 2)) a ≡ true
    pub mul-nonneg :
        (a b : F)
        → le zero a ≡ true
        → le zero b ≡ true
        → IsNumber (mul a b)
        → le zero (mul a b) ≡ true
    pub mul-zero-le : (a : F) → IsNumber (mul a zero) → le (mul a zero) zero ≡ true
    pub sub-nonpos : (a b : F) → le a b ≡ true → lt zero (sub a b) ≡ false
