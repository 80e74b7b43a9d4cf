-- ===== src/VelocitySmoother.antt =====
-- easynav_controller VelocitySmoother.hpp and VelocitySmoother.cpp: the commanded velocity follows
-- its target within the limits of the robot. The arithmetic that rounds is the parameter `a`.
pub mod Axis
pub mod Command
use easy_navigation.Common.{pos, ◌*◌, ◌^◌, Bool, ◌&&◌, ◌||◌, if◌then◌else◌}
use easy_navigation.Double.{Double, zero_d, fin, lt, le, neg, abs, max_d, clamp, Arith}
use easy_navigation.Messages.{Twist, Vector3, zero_twist, origin}
use easy_navigation.RobotLimits.{RobotLimits}

pub record VelocitySmoother : Type 0 where
  pub limits : RobotLimits
  pub current : Twist

-- `kEpsilon`: the double nearest to 1e-6.
abbrev epsilon : Double
epsilon = fin (pos (4722366482869645 * 2 ^ 1002))

-- A change of sign stops at zero.
unfoldable pub stop_at_zero : Double → Double → Double
unfolding lt
stop_at_zero current next =
    if (lt zero_d current && lt next zero_d) || (lt current zero_d && lt zero_d next)
    then zero_d
    else next

module _ (a : Arith) where
  unfoldable pub max_delta : Double → Double → Double → Double → Double → Double
  unfolding lt
  max_delta current target acc decel dt =
      let slowing =
        (lt zero_d current && lt target current) || (lt current zero_d && lt current target) in
      a.mul (if slowing then decel else acc) dt

  unfoldable pub step_axis : Double → Double → Double → Double → Double → Double
  unfolding max_delta stop_at_zero clamp neg
  step_axis current target acc decel dt =
      let d = max_delta current target acc decel dt in
      stop_at_zero current (a.add current (clamp (a.sub target current) (neg d) d))

  unfoldable pub within_radius : Double → Double → Double → Double
  unfolding le abs clamp neg
  within_radius angular linear radius =
      if le radius zero_d
      then angular
      else clamp angular (neg (a.div (abs linear) radius)) (a.div (abs linear) radius)

  -- `VelocitySmoother::clamp`.
  unfoldable pub clamp_target : RobotLimits → Twist → Twist
  unfolding clamp neg within_radius
  clamp_target l target =
      let x = clamp target.linear.x l.min_linear_vel l.max_linear_vel in
      record {
        linear = record {
          x = x;
          y = clamp target.linear.y (neg l.max_lateral_vel) l.max_lateral_vel;
          z = clamp target.linear.z (neg l.max_vertical_vel) l.max_vertical_vel;
        };
        angular = record origin {
          z =
              within_radius (clamp target.angular.z (neg l.max_angular_vel) l.max_angular_vel) x
                l.min_turning_radius;
        };
      }

  -- The command after `step`, which the next one starts from.
  unfoldable pub next_command : RobotLimits → Twist → Double → Twist → Twist
  unfolding step_axis within_radius
  next_command l goal dt current =
      let x = step_axis current.linear.x goal.linear.x l.max_linear_acc l.max_linear_decel dt in
      let w = step_axis current.angular.z goal.angular.z l.max_angular_acc l.max_angular_decel dt in
      record {
        linear = record {
          x = x;
          y = step_axis current.linear.y goal.linear.y l.max_lateral_acc l.max_lateral_decel dt;
          z = step_axis current.linear.z goal.linear.z l.max_vertical_acc l.max_vertical_decel dt;
        };
        angular = record c { z = within_radius w x l.min_turning_radius };
      }
    where
      c : Vector3
      c = current.angular

  unfoldable pub step : Twist → Double → VelocitySmoother → VelocitySmoother
  unfolding clamp_target max_d next_command
  step target dt s = record s {
    current = next_command s.limits (clamp_target s.limits target) (max_d dt zero_d) s.current;
  }

  unfoldable pub reached : Twist → VelocitySmoother → Bool
  unfolding clamp_target abs lt
  reached target s =
      let goal = clamp_target s.limits target in
      lt (abs (a.sub s.current.linear.x goal.linear.x)) epsilon
      && lt (abs (a.sub s.current.linear.y goal.linear.y)) epsilon
      && lt (abs (a.sub s.current.linear.z goal.linear.z)) epsilon
      && lt (abs (a.sub s.current.angular.z goal.angular.z)) epsilon

  unfoldable pub time_to_stop : VelocitySmoother → Double
  unfolding abs max_d
  time_to_stop s =
      max_d
        (max_d
          (max_d (time s.current.linear.x s.limits.max_linear_decel)
            (time s.current.linear.y s.limits.max_lateral_decel))
          (time s.current.linear.z s.limits.max_vertical_decel))
        (time s.current.angular.z s.limits.max_angular_decel)
    where
      time : Double → Double → Double
      time v decel = a.div (abs v) (max_d decel epsilon)

unfoldable pub set_limits : RobotLimits → VelocitySmoother → VelocitySmoother
set_limits l s = record s { limits = l }

unfoldable pub reset : Twist → VelocitySmoother → VelocitySmoother
reset current s = record s {
  current = record {
    linear = record { x = current.linear.x; y = current.linear.y; z = current.linear.z };
    angular = record origin { z = current.angular.z };
  };
}
