-- ===== src/Numbers.antt =====
-- The numbers of framework/test_constants.py, as the literals of the file.
pub mod Lists
use functional_tests.Base.{ℕ, Bool, true, false, not, ◌&&◌, ◌==◌, nat_eq}

pub data Sign : Type 0 where
  plus minus : Sign

-- A Python `int`, an `Int64`, and a `float` or `Decimal128` by its sign, its digits and the sign and
-- size of its exponent of ten: `1.50` has the digits 150 and the exponent -2.
pub data Number : Type 0 where
  int : Sign → ℕ → Number
  int64 : Sign → ℕ → Number
  double : Sign → ℕ → Sign → ℕ → Number
  infinite_double : Sign → Number
  nan_double : Sign → Number
  decimal128 : Sign → ℕ → Sign → ℕ → Number
  infinite_decimal : Sign → Number
  nan_decimal : Sign → Number

abbrev pub int32_underflow : Number
int32_underflow = int minus 2147483649

abbrev pub int32_min : Number
int32_min = int minus 2147483648

abbrev pub int32_min_plus_1 : Number
int32_min_plus_1 = int minus 2147483647

abbrev pub int32_zero : Number
int32_zero = int plus 0

abbrev pub int32_max : Number
int32_max = int plus 2147483647

abbrev pub int32_max_minus_1 : Number
int32_max_minus_1 = int plus 2147483646

abbrev pub int32_overflow : Number
int32_overflow = int plus 2147483648

abbrev pub int64_min : Number
int64_min = int64 minus 9223372036854775808

abbrev pub int64_min_plus_1 : Number
int64_min_plus_1 = int64 minus 9223372036854775807

abbrev pub int64_zero : Number
int64_zero = int64 plus 0

abbrev pub int64_max : Number
int64_max = int64 plus 9223372036854775807

abbrev pub int64_max_minus_1 : Number
int64_max_minus_1 = int64 plus 9223372036854775806

abbrev pub int64_from_double_max_fitting : Number
int64_from_double_max_fitting = int64 plus 9223372036854774784

abbrev pub double_min : Number
double_min = double minus 17976931348623157 plus 292

abbrev pub double_min_negative_normal : Number
double_min_negative_normal = double minus 22250738585072014 minus 324

abbrev pub double_min_negative_subnormal : Number
double_min_negative_subnormal = double minus 5 minus 324

abbrev pub double_negative_zero : Number
double_negative_zero = double minus 0 minus 1

abbrev pub double_zero : Number
double_zero = double plus 0 minus 1

abbrev pub double_min_subnormal : Number
double_min_subnormal = double plus 5 minus 324

abbrev pub double_min_normal : Number
double_min_normal = double plus 22250738585072014 minus 324

abbrev pub double_near_max : Number
double_near_max = double plus 1 plus 308

abbrev pub double_near_min : Number
double_near_min = double plus 1 minus 308

abbrev pub double_max : Number
double_max = double plus 17976931348623157 plus 292

abbrev pub double_max_safe_integer : Number
double_max_safe_integer = int plus 9007199254740992

abbrev pub double_precision_loss : Number
double_precision_loss = int plus 9007199254740993

abbrev pub double_from_int64_max : Number
double_from_int64_max = double plus 9223372036854776 plus 3

abbrev pub double_max_fitting_int64 : Number
double_max_fitting_int64 = double plus 92233720368547747840 minus 1

abbrev pub double_half : Number
double_half = double plus 5 minus 1

abbrev pub double_one_and_half : Number
double_one_and_half = double plus 15 minus 1

abbrev pub double_two_and_half : Number
double_two_and_half = double plus 25 minus 1

abbrev pub double_negative_half : Number
double_negative_half = double minus 5 minus 1

abbrev pub double_negative_one_and_half : Number
double_negative_one_and_half = double minus 15 minus 1

abbrev pub double_just_below_half : Number
double_just_below_half = double plus 4999999999999994 minus 16

abbrev pub double_just_above_half : Number
double_just_above_half = double plus 500000001 minus 9

abbrev pub float_negative_infinity : Number
float_negative_infinity = infinite_double minus

abbrev pub float_infinity : Number
float_infinity = infinite_double plus

abbrev pub float_nan : Number
float_nan = nan_double plus

abbrev pub float_negative_nan : Number
float_negative_nan = nan_double minus

abbrev pub decimal128_negative_infinity : Number
decimal128_negative_infinity = infinite_decimal minus

abbrev pub decimal128_min : Number
decimal128_min = decimal128 minus 9999999999999999999999999999999999 plus 6111

abbrev pub decimal128_max_negative : Number
decimal128_max_negative = decimal128 minus 1 minus 6176

abbrev pub decimal128_zero : Number
decimal128_zero = decimal128 plus 0 plus 0

abbrev pub decimal128_negative_zero : Number
decimal128_negative_zero = decimal128 minus 0 plus 0

abbrev pub decimal128_min_positive : Number
decimal128_min_positive = decimal128 plus 1 minus 6176

abbrev pub decimal128_infinity : Number
decimal128_infinity = infinite_decimal plus

abbrev pub decimal128_max : Number
decimal128_max = decimal128 plus 9999999999999999999999999999999999 plus 6111

abbrev pub decimal128_large_exponent : Number
decimal128_large_exponent = decimal128 plus 1 plus 6144

abbrev pub decimal128_small_exponent : Number
decimal128_small_exponent = decimal128 plus 1 minus 6143

abbrev pub decimal128_trailing_zero : Number
decimal128_trailing_zero = decimal128 plus 10 minus 1

abbrev pub decimal128_many_trailing_zeros : Number
decimal128_many_trailing_zeros = decimal128 plus 100000000000000000000000000000000 minus 32

abbrev pub decimal128_max_coefficient : Number
decimal128_max_coefficient = decimal128 plus 9999999999999999999999999999999999 plus 0

abbrev pub decimal128_min_coefficient : Number
decimal128_min_coefficient = decimal128 minus 9999999999999999999999999999999999 plus 0

abbrev pub decimal128_int64_max : Number
decimal128_int64_max = decimal128 plus 9223372036854775807 plus 0

abbrev pub decimal128_int64_overflow : Number
decimal128_int64_overflow = decimal128 plus 9223372036854775808 plus 0

abbrev pub decimal128_int64_underflow : Number
decimal128_int64_underflow = decimal128 minus 9223372036854775809 plus 0

abbrev pub decimal128_nan : Number
decimal128_nan = nan_decimal plus

abbrev pub decimal128_negative_nan : Number
decimal128_negative_nan = nan_decimal minus

abbrev pub decimal128_half : Number
decimal128_half = decimal128 plus 5 minus 1

abbrev pub decimal128_one_and_half : Number
decimal128_one_and_half = decimal128 plus 15 minus 1

abbrev pub decimal128_two_and_half : Number
decimal128_two_and_half = decimal128 plus 25 minus 1

abbrev pub decimal128_negative_half : Number
decimal128_negative_half = decimal128 minus 5 minus 1

abbrev pub decimal128_negative_one_and_half : Number
decimal128_negative_one_and_half = decimal128 minus 15 minus 1

abbrev pub decimal128_just_below_half : Number
decimal128_just_below_half = decimal128 plus 4999999999999999999999999999999999 minus 34

abbrev pub decimal128_just_above_half : Number
decimal128_just_above_half = decimal128 plus 5000000000000000000000000000000001 minus 34
