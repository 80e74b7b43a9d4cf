-- ===== src/RobotLimits/Valid.antt =====
-- What the check of the limits accepts: every field finite and on its side of zero.
use easy_navigation.Common.{◌≡◌, refl, true, false, none, List, [], ◌∷◌, arith}
use easy_navigation.Double.{lt, zero_d, is_finite, is_nan}
use easy_navigation.Double.Order.{lt_of_le, lt_asymm, not_nan_of_finite}
use easy_navigation.RobotLimits.{RobotLimits, invalid_robot_limits, first_invalid, fields, Field}

-- Every entry is finite and passes its test.
abbrev pub AllGood : List Field → Type 0
AllGood [] = Unit {0}
AllGood ((name, value, valid) ∷ rest) = (is_finite value ≡ true) × (valid ≡ true) × AllGood rest

pub first_invalid-none : (fs : List Field) → first_invalid fs ≡ none → AllGood fs
unfolding first_invalid is_finite
first_invalid-none [] h = tt
first_invalid-none ((name, value, valid) ∷ rest) h = ground (arith, first_invalid-none rest)

pub none-first_invalid : (fs : List Field) → AllGood fs → first_invalid fs ≡ none
unfolding first_invalid is_finite
none-first_invalid [] h = refl
none-first_invalid ((name, value, valid) ∷ rest) h = ground (arith, none-first_invalid rest)

-- Valid limits as the smoother uses them.
pub valid-fields : (l : RobotLimits) → invalid_robot_limits l ≡ none → AllGood (fields l)
unfolding invalid_robot_limits
valid-fields l h = first_invalid-none (fields l) h

pub valid-velocity :
    (l : RobotLimits)
    → invalid_robot_limits l ≡ none
    → (lt l.max_linear_vel zero_d ≡ false)
      × (lt zero_d l.min_linear_vel ≡ false)
      × (lt l.max_lateral_vel zero_d ≡ false)
      × (lt l.max_vertical_vel zero_d ≡ false)
      × (lt l.max_angular_vel zero_d ≡ false)
unfolding fields
valid-velocity l h =
    let g = valid-fields l h in
    ground (
      arith,
      g,
      lt_of_le zero_d l.max_linear_vel,
      lt_of_le l.min_linear_vel zero_d,
      lt_of_le zero_d l.max_lateral_vel,
      lt_of_le zero_d l.max_vertical_vel,
      lt_of_le zero_d l.max_angular_vel,
    )

pub valid-acceleration :
    (l : RobotLimits)
    → invalid_robot_limits l ≡ none
    → (lt l.max_linear_acc zero_d ≡ false)
      × (lt l.max_linear_decel zero_d ≡ false)
      × (lt l.max_lateral_acc zero_d ≡ false)
      × (lt l.max_lateral_decel zero_d ≡ false)
      × (lt l.max_vertical_acc zero_d ≡ false)
      × (lt l.max_vertical_decel zero_d ≡ false)
      × (lt l.max_angular_acc zero_d ≡ false)
      × (lt l.max_angular_decel zero_d ≡ false)
unfolding fields
valid-acceleration l h =
    let g = valid-fields l h in
    ground (
      arith,
      g,
      lt_asymm zero_d l.max_linear_acc,
      lt_asymm zero_d l.max_linear_decel,
      lt_asymm zero_d l.max_lateral_acc,
      lt_asymm zero_d l.max_lateral_decel,
      lt_asymm zero_d l.max_vertical_acc,
      lt_asymm zero_d l.max_vertical_decel,
      lt_asymm zero_d l.max_angular_acc,
      lt_asymm zero_d l.max_angular_decel,
    )

pub valid-turning :
    (l : RobotLimits)
    → invalid_robot_limits l ≡ none
    → (is_nan l.min_turning_radius ≡ false) × (lt l.min_turning_radius zero_d ≡ false)
unfolding fields
valid-turning l h =
    let g = valid-fields l h in
    ground (arith, g, not_nan_of_finite l.min_turning_radius, lt_of_le zero_d l.min_turning_radius)
