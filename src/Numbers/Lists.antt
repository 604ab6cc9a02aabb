-- ===== src/Numbers/Lists.antt =====
-- The lists of numbers of framework/test_constants.py, and that they keep to their signs.
use functional_tests.Base.{
  ℕ, zero, suc, ◌≡◌, refl, Bool, true, false, List, [], ◌∷◌, ◌++◌, all, length, ◌+◌,
}
use functional_tests.Numbers.{
  Number, Sign, plus, minus, int, int64, double, infinite_double, decimal128, infinite_decimal,
  decimal128_infinity, decimal128_just_above_half, decimal128_just_below_half,
  decimal128_large_exponent, decimal128_many_trailing_zeros, decimal128_max, decimal128_min,
  decimal128_nan, decimal128_negative_infinity, decimal128_negative_zero, decimal128_small_exponent,
  decimal128_trailing_zero, decimal128_zero, double_max_safe_integer, double_min_negative_subnormal,
  double_min_subnormal, double_near_max, double_near_min, double_negative_zero,
  double_precision_loss, double_zero, float_infinity, float_nan, float_negative_infinity, int32_max,
  int32_min, int32_overflow, int32_underflow, int32_zero, int64_max, int64_min, int64_zero,
}

unfoldable pub numeric_int32_negative : List Number
numeric_int32_negative = int32_underflow ∷ int32_min ∷ []

unfoldable pub numeric_int32_zero : List Number
numeric_int32_zero = int32_zero ∷ []

unfoldable pub numeric_int32_positive : List Number
numeric_int32_positive = int32_overflow ∷ int32_max ∷ []

unfoldable pub numeric_int32 : List Number
unfolding numeric_int32_negative numeric_int32_zero numeric_int32_positive
numeric_int32 = numeric_int32_negative ++ numeric_int32_zero ++ numeric_int32_positive

unfoldable pub numeric_int64_negative : List Number
numeric_int64_negative = int64_min ∷ []

unfoldable pub numeric_int64_zero : List Number
numeric_int64_zero = int64_zero ∷ []

unfoldable pub numeric_int64_positive : List Number
numeric_int64_positive = int64_max ∷ []

unfoldable pub numeric_int64 : List Number
unfolding numeric_int64_negative numeric_int64_zero numeric_int64_positive
numeric_int64 = numeric_int64_negative ++ numeric_int64_zero ++ numeric_int64_positive

unfoldable pub numeric_double_negative : List Number
numeric_double_negative = double_min_negative_subnormal ∷ []

unfoldable pub numeric_double_zero : List Number
numeric_double_zero = double_negative_zero ∷ double_zero ∷ []

unfoldable pub numeric_double_positive : List Number
numeric_double_positive =
    double_min_subnormal ∷ double_near_max ∷ double_near_min ∷ double_max_safe_integer
    ∷ double_precision_loss ∷ []

unfoldable pub numeric_double : List Number
unfolding numeric_double_negative numeric_double_zero numeric_double_positive
numeric_double = numeric_double_negative ++ numeric_double_zero ++ numeric_double_positive

unfoldable pub numeric_float_negative : List Number
numeric_float_negative = float_negative_infinity ∷ []

unfoldable pub numeric_float_zero : List Number
numeric_float_zero = []

unfoldable pub numeric_float_positive : List Number
numeric_float_positive = float_infinity ∷ []

unfoldable pub numeric_float : List Number
unfolding numeric_float_negative numeric_float_zero numeric_float_positive
numeric_float = numeric_float_negative ++ numeric_float_zero ++ numeric_float_positive

unfoldable pub numeric_decimal128_negative : List Number
numeric_decimal128_negative = decimal128_negative_infinity ∷ decimal128_min ∷ []

unfoldable pub numeric_decimal128_zero : List Number
numeric_decimal128_zero = decimal128_zero ∷ decimal128_negative_zero ∷ []

unfoldable pub numeric_decimal128_positive : List Number
numeric_decimal128_positive =
    decimal128_infinity ∷ decimal128_max ∷ decimal128_large_exponent ∷ decimal128_small_exponent
    ∷ decimal128_trailing_zero ∷ decimal128_just_below_half ∷ decimal128_just_above_half
    ∷ decimal128_many_trailing_zeros ∷ []

unfoldable pub numeric_decimal128 : List Number
unfolding numeric_decimal128_negative numeric_decimal128_zero numeric_decimal128_positive
numeric_decimal128 =
    numeric_decimal128_negative ++ numeric_decimal128_zero ++ numeric_decimal128_positive

unfoldable pub negative_numeric : List Number
unfolding numeric_decimal128_negative numeric_float_negative numeric_int32_negative
    numeric_int64_negative numeric_double_negative
negative_numeric =
    numeric_decimal128_negative ++ numeric_float_negative ++ numeric_int32_negative
    ++ numeric_int64_negative ++ numeric_double_negative

unfoldable pub zero_numeric : List Number
unfolding numeric_decimal128_zero numeric_float_zero numeric_int32_zero numeric_int64_zero
    numeric_double_zero
zero_numeric =
    numeric_decimal128_zero ++ numeric_float_zero ++ numeric_int32_zero ++ numeric_int64_zero
    ++ numeric_double_zero

unfoldable pub positive_numeric : List Number
unfolding numeric_decimal128_positive numeric_float_positive numeric_int32_positive
    numeric_int64_positive numeric_double_positive
positive_numeric =
    numeric_decimal128_positive ++ numeric_float_positive ++ numeric_int32_positive
    ++ numeric_int64_positive ++ numeric_double_positive

unfoldable pub numeric : List Number
unfolding numeric_decimal128 numeric_float numeric_int32 numeric_int64 numeric_double
numeric = numeric_decimal128 ++ numeric_float ++ numeric_int32 ++ numeric_int64 ++ numeric_double

unfoldable pub not_a_number : List Number
not_a_number = float_nan ∷ decimal128_nan ∷ []

-- Whether the number is below, at or above zero; a NaN is none of these.
abbrev on_side : Sign → Sign → ℕ → Bool
on_side plus plus (suc n) = true
on_side minus minus (suc n) = true
on_side _ _ _ = false

abbrev pub is_side : Sign → Number → Bool
is_side side (int s n) = on_side side s n
is_side side (int64 s n) = on_side side s n
is_side side (double s n _ _) = on_side side s n
is_side side (decimal128 s n _ _) = on_side side s n
is_side side (infinite_double s) = on_side side s 1
is_side side (infinite_decimal s) = on_side side s 1
is_side side _ = false

abbrev pub is_at_zero : Number → Bool
is_at_zero (int _ zero) = true
is_at_zero (int64 _ zero) = true
is_at_zero (double _ zero _ _) = true
is_at_zero (decimal128 _ zero _ _) = true
is_at_zero _ = false

-- Each combined list has numbers of its sign alone, and the three have as many as `NUMERIC`.
numeric_signs :
    (all (is_side minus) negative_numeric ≡ true)
    × (all is_at_zero zero_numeric ≡ true)
    × (all (is_side plus) positive_numeric ≡ true)
    × (length numeric ≡ length negative_numeric + length zero_numeric + length positive_numeric)
unfolding negative_numeric zero_numeric positive_numeric numeric
numeric_signs = (refl, refl, refl, refl)
