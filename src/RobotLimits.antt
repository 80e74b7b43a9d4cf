-- ===== src/RobotLimits.antt =====
-- easynav_core RobotLimits: the limits of the robot and their check. `invalid_robot_limits` returns
-- the name and the value that its message prints.
pub mod Valid
use easy_navigation.Common.{
  Bool, true, false, not, ◌&&◌, ◌||◌, Option, none, some, String, List, [], ◌∷◌, if◌then◌else◌,
}
use easy_navigation.Double.{Double, zero_d, lt, le, is_finite}

pub record RobotLimits : Type 0 where
  pub max_linear_vel : Double
  pub min_linear_vel : Double
  pub max_angular_vel : Double
  pub max_linear_acc : Double
  pub max_linear_decel : Double
  pub max_angular_acc : Double
  pub max_angular_decel : Double
  pub max_lateral_vel : Double
  pub max_lateral_acc : Double
  pub max_lateral_decel : Double
  pub max_vertical_vel : Double
  pub max_vertical_acc : Double
  pub max_vertical_decel : Double
  pub min_turning_radius : Double

-- `configured field` says whether "robot_limits.<field>" is configured.
unfoldable pub default_lateral_limits : RobotLimits → (String → Bool) → RobotLimits
default_lateral_limits l configured = record l {
  max_lateral_vel = if configured "max_lateral_vel" then l.max_lateral_vel else l.max_linear_vel;
  max_lateral_acc = if configured "max_lateral_acc" then l.max_lateral_acc else l.max_linear_acc;
  max_lateral_decel =
      if configured "max_lateral_decel" then l.max_lateral_decel else l.max_linear_decel;
}

-- One entry of the table `fields`: its name, its value and its test.
abbrev pub Field : Type 0
Field = String × Double × Bool

unfoldable pub fields : RobotLimits → List Field
unfolding le lt
fields l =
    ("max_linear_vel", l.max_linear_vel, le zero_d l.max_linear_vel)
    ∷ ("min_linear_vel", l.min_linear_vel, le l.min_linear_vel zero_d)
    ∷ ("max_angular_vel", l.max_angular_vel, le zero_d l.max_angular_vel)
    ∷ ("max_linear_acc", l.max_linear_acc, lt zero_d l.max_linear_acc)
    ∷ ("max_linear_decel", l.max_linear_decel, lt zero_d l.max_linear_decel)
    ∷ ("max_angular_acc", l.max_angular_acc, lt zero_d l.max_angular_acc)
    ∷ ("max_angular_decel", l.max_angular_decel, lt zero_d l.max_angular_decel)
    ∷ ("max_lateral_vel", l.max_lateral_vel, le zero_d l.max_lateral_vel)
    ∷ ("max_lateral_acc", l.max_lateral_acc, lt zero_d l.max_lateral_acc)
    ∷ ("max_lateral_decel", l.max_lateral_decel, lt zero_d l.max_lateral_decel)
    ∷ ("max_vertical_vel", l.max_vertical_vel, le zero_d l.max_vertical_vel)
    ∷ ("max_vertical_acc", l.max_vertical_acc, lt zero_d l.max_vertical_acc)
    ∷ ("max_vertical_decel", l.max_vertical_decel, lt zero_d l.max_vertical_decel)
    ∷ ("min_turning_radius", l.min_turning_radius, le zero_d l.min_turning_radius)
    ∷ []

-- The loop over the table: the first field that is not finite or fails its test.
unfoldable pub first_invalid : List Field → Option (String × Double)
unfolding is_finite
first_invalid [] = none
first_invalid ((name, value, valid) ∷ rest) =
    if not (is_finite value) || not valid then some (name, value) else first_invalid rest

unfoldable pub invalid_robot_limits : RobotLimits → Option (String × Double)
unfolding fields first_invalid
invalid_robot_limits l = first_invalid (fields l)
