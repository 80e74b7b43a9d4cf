-- ===== src/Tests/Data.antt =====
-- An arithmetic for the runs: finite numbers rounded towards zero, and no number beyond them.
use easy_navigation.Common.{
  ℕ, suc, ◌*◌, ◌/◌, ◌^◌, ℤ, pos, negsuc, ◌+ℤ◌, ◌-ℤ◌, neg_ℤ, ◌≡◌, refl, Bool, true, false, arith,
  if◌then◌else◌, ◌==◌,
}
use easy_navigation.Double.{Double, nan, fin, zero_d, lt, Arith}
use easy_navigation.VelocitySmoother.Axis.{SignLaws}

-- The double 1.
abbrev pub one : ℕ
one = 2 ^ 1074

abbrev pub whole : ℕ → Double
whole n = fin (pos (n * one))

abbrev pub add : Double → Double → Double
add (fin x) (fin y) = fin (x +ℤ y)
add _ _ = nan

abbrev pub sub : Double → Double → Double
sub (fin x) (fin y) = fin (x -ℤ y)
sub _ _ = nan

abbrev pub mul : Double → Double → Double
mul (fin (pos m)) (fin (pos n)) = fin (pos ((m * n) / one))
mul (fin (pos m)) (fin (negsuc n)) = fin (neg_ℤ (pos ((m * suc n) / one)))
mul (fin (negsuc m)) (fin (pos n)) = fin (neg_ℤ (pos ((suc m * n) / one)))
mul (fin (negsuc m)) (fin (negsuc n)) = fin (pos ((suc m * suc n) / one))
mul _ _ = nan

abbrev pub div : Double → Double → Double
div (fin (pos m)) (fin (pos n)) = if n == 0 then nan else fin (pos ((m * one) / n))
div (fin (negsuc m)) (fin (pos n)) = if n == 0 then nan else fin (neg_ℤ (pos ((suc m * one) / n)))
div _ _ = nan

abbrev pub seconds : ℤ → Double
seconds (pos n) = fin (pos ((n * one) / 10 ^ 9))
seconds (negsuc n) = fin (neg_ℤ (pos ((suc n * one) / 10 ^ 9)))

abbrev pub nanoseconds : Double → ℤ
nanoseconds (fin (pos n)) = pos ((n * 10 ^ 9) / one)
nanoseconds _ = pos 0

abbrev pub truncating : Arith
truncating = record {
  add = add;
  sub = sub;
  mul = mul;
  div = div;
  seconds = seconds;
  nanoseconds = nanoseconds;
}

pos_sign : (n : ℕ) → lt (fin (pos n)) zero_d ≡ false
unfolding lt
pos_sign n = ground arith

negative : (n : ℕ) → lt (fin (negsuc n)) zero_d ≡ true
unfolding lt
negative n = ground arith

nan_sign : lt nan zero_d ≡ false
unfolding lt
nan_sign = refl

mul_sign_lem :
    (x y : Double) → lt x zero_d ≡ false → lt y zero_d ≡ false → lt (mul x y) zero_d ≡ false
mul_sign_lem (fin (pos m)) (fin (pos n)) h k = pos_sign ((m * n) / one)
mul_sign_lem (fin (pos m)) (fin (negsuc n)) h k = cc (negative n)
mul_sign_lem (fin (negsuc m)) (fin (pos n)) h k = cc (negative m)
mul_sign_lem (fin (negsuc m)) (fin (negsuc n)) h k = cc (negative m)
mul_sign_lem _ _ h k = nan_sign

quotient_sign : (b : Bool) (n : ℕ) → lt (if b then nan else fin (pos n)) zero_d ≡ false
quotient_sign true n = nan_sign
quotient_sign false n = pos_sign n

div_sign_lem :
    (x y : Double) → lt x zero_d ≡ false → lt zero_d y ≡ true → lt (div x y) zero_d ≡ false
div_sign_lem (fin (pos m)) (fin (pos n)) h k = quotient_sign (n == 0) ((m * one) / n)
div_sign_lem (fin (negsuc m)) (fin (pos n)) h k = cc (negative m)
div_sign_lem _ _ h k = nan_sign

pub truncating-SignLaws : SignLaws truncating
truncating-SignLaws = record { mul_sign = mul_sign_lem; div_sign = div_sign_lem }
