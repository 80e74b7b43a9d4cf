-- ===== src/VelocitySmoother/Command.antt =====
-- The whole command of a step: its target, its change, its directions and its curvature.
use easy_navigation.Common.{◌≡◌, ◌&&◌, ◌||◌, if◌then◌else◌, false}
use easy_navigation.Double.{Double, zero_d, lt, abs, Arith}
use easy_navigation.Messages.{Twist}
use easy_navigation.RobotLimits.{RobotLimits}
use easy_navigation.VelocitySmoother.{VelocitySmoother}
use easy_navigation.VelocitySmoother.Axis.{IsStep, IsTurn}

-- No axis exceeds the limits, and the curvature is within the turning radius.
pub record IsAllowed (a : Arith) (l : RobotLimits) (t : Twist) : Type 0 where
  pub not_slower : lt t.linear.x l.min_linear_vel ≡ false
  pub not_faster : lt l.max_linear_vel t.linear.x ≡ false
  pub lateral : lt l.max_lateral_vel (abs t.linear.y) ≡ false
  pub vertical : lt l.max_vertical_vel (abs t.linear.z) ≡ false
  pub angular : lt l.max_angular_vel (abs t.angular.z) ≡ false
  pub curvature :
      (lt zero_d l.min_turning_radius
        && lt (a.div (abs t.linear.x) l.min_turning_radius) (abs t.angular.z))
      ≡ false

-- The most that an axis may change in `dt` seconds: slowing down, when its speed goes down, by the
-- deceleration, and otherwise by the acceleration.
abbrev pub most_change : Arith → Double → Double → Double → Double → Double → Double
most_change a current target acc decel dt =
    a.mul
      (if (lt zero_d current && lt target current) || (lt current zero_d && lt current target)
        then decel
        else acc)
      dt

-- A command that leads from `current` towards `goal` in `dt` seconds.
pub record IsNext (a : Arith) (l : RobotLimits) (goal : Twist) (dt : Double) (current next : Twist)
    : Type 0 where
  pub along :
      IsStep a
        (most_change a current.linear.x goal.linear.x l.max_linear_acc l.max_linear_decel dt)
        current.linear.x
        goal.linear.x
        next.linear.x
  pub across :
      IsStep a
        (most_change a current.linear.y goal.linear.y l.max_lateral_acc l.max_lateral_decel dt)
        current.linear.y
        goal.linear.y
        next.linear.y
  pub upwards :
      IsStep a
        (most_change a current.linear.z goal.linear.z l.max_vertical_acc l.max_vertical_decel dt)
        current.linear.z
        goal.linear.z
        next.linear.z
  pub turn :
      (w : Double) × IsStep a
        (most_change a current.angular.z goal.angular.z l.max_angular_acc l.max_angular_decel dt)
        current.angular.z
        goal.angular.z
        w
      × IsTurn a w next.linear.x l.min_turning_radius next.angular.z
