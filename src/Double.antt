-- ===== src/Double.antt =====
-- IEEE 754 doubles as the program compares them.
-- A finite double is a whole number of units of 2^-1074 (the least positive double), so every
-- finite double is some `fin z` and comparisons, negation, `std::abs`, `std::min`, `std::max`,
-- `std::clamp` and `std::isfinite` are exact here. The two zeros, which no comparison tells apart,
-- are one value. Rounded arithmetic is not defined: it is the parameter `Arith`.
pub mod Order
use easy_navigation.Common.{
  ℕ, ◌*◌, ◌/◌, ◌^◌, ℤ, pos, negsuc, neg_ℤ, ltb_ℤ, leb_ℤ, eqb_ℤ, Bool, true, false, not, ◌||◌,
  if◌then◌else◌,
}

pub data Double : Type 0 where
  nan neg_inf : Double
  fin : ℤ → Double
  inf : Double

abbrev pub zero_d : Double
zero_d = fin (pos 0)

-- `a < b`; `a > b` is `lt b a`.
unfoldable pub lt : Double → Double → Bool
lt neg_inf (fin b) = true
lt neg_inf inf = true
lt (fin a) (fin b) = ltb_ℤ a b
lt (fin a) inf = true
lt _ _ = false

-- `a == b`; false at a NaN.
unfoldable pub eq : Double → Double → Bool
eq neg_inf neg_inf = true
eq (fin a) (fin b) = eqb_ℤ a b
eq inf inf = true
eq _ _ = false

-- `a <= b`; `a >= b` is `le b a`.
unfoldable pub le : Double → Double → Bool
unfolding lt eq
le a b = lt a b || eq a b

unfoldable pub is_finite : Double → Bool
is_finite (fin a) = true
is_finite _ = false

unfoldable pub is_nan : Double → Bool
is_nan nan = true
is_nan _ = false

unfoldable pub neg : Double → Double
neg nan = nan
neg neg_inf = inf
neg (fin a) = fin (neg_ℤ a)
neg inf = neg_inf

-- `std::abs` and `std::fabs`.
unfoldable pub abs : Double → Double
unfolding neg lt
abs a = if lt a zero_d then neg a else a

-- `std::min(a, b)` is `(b < a) ? b : a`, `std::max(a, b)` is `(a < b) ? b : a`.
unfoldable pub min_d : Double → Double → Double
unfolding lt
min_d a b = if lt b a then b else a

unfoldable pub max_d : Double → Double → Double
unfolding lt
max_d a b = if lt a b then b else a

-- `std::clamp(v, lo, hi)`, defined by the standard for `lo <= hi` only.
unfoldable pub clamp : Double → Double → Double → Double
unfolding lt
clamp v lo hi = if lt v lo then lo else if lt hi v then hi else v

-- An `int` that is not negative, as a double: exact below 2^53.
unfoldable pub of_int : ℕ → Double
of_int n = fin (pos (n * 2 ^ 1074))

-- `static_cast<int>` of a double that is not negative. Beyond the range of `int` the conversion is
-- undefined; here it goes on without a bound, and takes what is not finite to 0.
unfoldable pub truncate : Double → ℕ
truncate (fin (pos n)) = n / 2 ^ 1074
truncate _ = 0

-- The arithmetic of the machine and of the libraries, which round: `seconds` is the length in
-- seconds of a span of nanoseconds (rclcpp::Duration::seconds, std::chrono::duration<double>), and
-- `nanoseconds` goes back (rclcpp::Duration::from_seconds, std::chrono::duration_cast).
pub record Arith : Type 0 where
  pub add : Double → Double → Double
  pub sub : Double → Double → Double
  pub mul : Double → Double → Double
  pub div : Double → Double → Double
  pub seconds : ℤ → Double
  pub nanoseconds : Double → ℤ
