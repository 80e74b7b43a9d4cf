-- ===== src/Double/Order.antt =====
-- The laws of the comparisons, of `std::min`, `std::max` and `std::clamp`.
use easy_navigation.Common.{◌≡◌, true, false, arith}
use easy_navigation.Double.{Double, nan, fin, zero_d, lt, le, is_finite, is_nan, abs, max_d}

pub lt_irrefl : (a : Double) → lt a a ≡ false
unfolding lt
lt_irrefl nan = ground arith
lt_irrefl (fin a) = ground arith
lt_irrefl _ = ground arith

pub lt_asymm : (a b : Double) → lt a b ≡ true → lt b a ≡ false
unfolding lt
lt_asymm a b h = ground arith

pub lt_trans : (a b c : Double) → lt a b ≡ true → lt b c ≡ true → lt a c ≡ true
unfolding lt
lt_trans a b c h k = ground arith

pub le_trans : (a b c : Double) → le a b ≡ true → le b c ≡ true → le a c ≡ true
unfolding le
le_trans a b c h k = ground arith

pub le_refl : (a : Double) → is_nan a ≡ false → le a a ≡ true
unfolding le is_nan
le_refl a h = ground arith

pub le_of_not_lt :
    (a b : Double) → is_nan a ≡ false → is_nan b ≡ false → lt a b ≡ false → le b a ≡ true
unfolding le is_nan
le_of_not_lt a b ha hb h = ground arith

pub lt_of_le : (a b : Double) → le a b ≡ true → lt b a ≡ false
unfolding le
lt_of_le a b h = ground arith

pub lt_of_not_le :
    (a b : Double) → is_nan a ≡ false → is_nan b ≡ false → le a b ≡ false → lt b a ≡ true
unfolding le is_nan
lt_of_not_le a b ha hb h = ground arith

pub abs_sign : (a : Double) → lt (abs a) zero_d ≡ false
unfolding abs
abs_sign a = ground arith

pub max_d_sign : (a : Double) → lt (max_d a zero_d) zero_d ≡ false
unfolding max_d
max_d_sign a = ground arith

pub not_nan_of_finite : (a : Double) → is_finite a ≡ true → is_nan a ≡ false
unfolding is_finite is_nan
not_nan_of_finite a h = ground arith
