-- ===== src/Base/Fixed.antt =====
-- Fixed-point numbers with four decimals: an instance of the float interface that runs, for the
-- tests and for instances of the theorems. It shows that the laws can be met.
use async_trading_engine.Base.Int.{
  ℤ, pos, negsuc, pos_part, neg_part, sub_ℕ, ◌+ℤ◌, ◌-ℤ◌, ◌*ℤ◌, div_ℕ, ltb_ℤ, leb_ℤ,
}
use async_trading_engine.Base.Float.{Float, IsOrdered}
use Prim.Native.Nat.{ℕ, suc, ◌+◌, ◌*◌, ◌/◌, ◌^◌, ◌≤◌}
use mathlib.Core.Path.{◌≡◌}
use mathlib.Core.Bool.{true}
use mathlib.Core.List.{List, [], ◌∷◌}
use async_trading_engine.Base.Lists.{length}
use native.Mathlib.Omega.{arith}

-- A number in units of 1/10000.
abbrev pub Fixed : Type 0
Fixed = ℤ

abbrev divide : ℤ → ℤ → ℤ
divide a (pos n) = div_ℕ (a *ℤ pos 10000) n
divide a (negsuc n) = pos 0 -ℤ div_ℕ (a *ℤ pos 10000) (suc n)

abbrev total : List ℤ → ℤ
total [] = pos 0
total (x ∷ xs) = x +ℤ total xs

instance abbrev pub fixed_float : Float Fixed
fixed_float = record {
  zero = pos 0;
  infinity = pos (10 ^ 15);
  le = leb_ℤ;
  lt = ltb_ℤ;
  add = ◌+ℤ◌;
  sub = ◌-ℤ◌;
  mul = λ a b. div_ℕ (a *ℤ b) 10000;
  div = divide;
  neg = λ a. pos 0 -ℤ a;
  decimal = λ m k. pos (m * 10000 / 10 ^ k);
  of_nat = λ n. pos (n * 10000);
  trunc = λ a. sub_ℕ (pos_part a / 10000) (neg_part a / 10000);
  ceil = λ a. sub_ℕ ((pos_part a + 9999) / 10000 * 10000) (neg_part a / 10000 * 10000);
  round1 = λ a. sub_ℕ ((pos_part a + 500) / 1000 * 1000) ((neg_part a + 500) / 1000 * 1000);
  sum = total;
  mean = λ xs. div_ℕ (total xs) (length xs);
  round2 = λ a. sub_ℕ ((pos_part a + 50) / 100 * 100) ((neg_part a + 50) / 100 * 100);
}

-- `whole n` is the float n.0.
abbrev pub whole : ℕ → Fixed
whole n = pos (n * 10000)

product_mono : (n b c : ℕ) → b ≤ c → n * b / 10000 ≤ n * c / 10000
product_mono n b c h = grind arith

mul_mono :
    (a b c : ℤ)
    → leb_ℤ (pos 0) a ≡ true
    → leb_ℤ b c ≡ true
    → leb_ℤ (div_ℕ (a *ℤ b) 10000) (div_ℕ (a *ℤ c) 10000) ≡ true
mul_mono (negsuc n) b c h k = ground arith
mul_mono (pos n) (pos b) (pos c) h k = ground (arith, product_mono n b c)
mul_mono (pos n) (pos b) (negsuc c) h k = ground arith
mul_mono (pos n) (negsuc b) (pos c) h k = ground arith
mul_mono (pos n) (negsuc b) (negsuc c) h k = ground (arith, product_mono n (suc c) (suc b))

product-nonneg :
    (a b : ℤ)
    → leb_ℤ (pos 0) a ≡ true
    → leb_ℤ (pos 0) b ≡ true
    → leb_ℤ (pos 0) (div_ℕ (a *ℤ b) 10000) ≡ true
product-nonneg (negsuc n) b h k = ground arith
product-nonneg (pos n) (negsuc b) h k = ground arith
product-nonneg (pos n) (pos b) h k = ground arith

product-zero-le : (a : ℤ) → leb_ℤ (div_ℕ (a *ℤ pos 0) 10000) (pos 0) ≡ true
product-zero-le (pos n) = ground arith
product-zero-le (negsuc n) = ground arith

pub Fixed-IsOrdered : IsOrdered Fixed
Fixed-IsOrdered = record {
  le_trans = λ a b c h k. ground arith;
  lt_irrefl = λ a. ground arith;
  le_of_lt = λ a b h. ground arith;
  not-lt_of_le = λ a b h. ground arith;
  le_of_not_lt = λ a b m n h. ground arith;
  le_of_not_le = λ a b m n h. ground arith;
  number_of_le = λ a b h. ground arith;
  zero-IsNumber = ground arith;
  le-add = λ a b h n. ground arith;
  sub_antitone = λ a b c h m n. ground arith;
  mul_mono = λ a b c h k m n. mul_mono a b c h k;
  mul-nonneg = λ a b h k n. product-nonneg a b h k;
  mul-zero-le = λ a n. product-zero-le a;
  sub-nonpos = λ a b h. ground arith;
  mul-half-le = λ a h. ground arith;
  mul-quarter-le = λ a h. ground arith;
}
