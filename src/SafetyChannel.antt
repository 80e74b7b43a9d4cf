-- ===== src/SafetyChannel.antt =====
-- easynav_core SafetyChannel.hpp and easynav_system safety/SafetyChannelMonitor: what the safety
-- channel imposes, and how its messages become that. Times are steady-clock nanoseconds; the mutex
-- makes each call one step.
pub mod Monitor
pub mod Decision
pub mod Limits
use easy_navigation.Common.{Bool, true, false, ◌&&◌}
use easy_navigation.Double.{Double, inf, eq, min_d, max_d, neg}
use easy_navigation.RobotLimits.{RobotLimits}

pub record SafetyChannelState : Type 0 where
  pub protective_stop : Bool
  pub status_lost : Bool
  pub max_linear_vel : Double
  pub max_angular_vel : Double

-- The default member initialisers.
abbrev pub unrestricted : SafetyChannelState
unrestricted = record {
  protective_stop = false;
  status_lost = false;
  max_linear_vel = inf;
  max_angular_vel = inf;
}

unfoldable pub limited_by : RobotLimits → SafetyChannelState → RobotLimits
unfolding min_d max_d neg
limited_by limits s = record limits {
  max_linear_vel = min_d limits.max_linear_vel s.max_linear_vel;
  min_linear_vel = max_d limits.min_linear_vel (neg s.max_linear_vel);
  max_lateral_vel = min_d limits.max_lateral_vel s.max_linear_vel;
  max_vertical_vel = min_d limits.max_vertical_vel s.max_linear_vel;
  max_angular_vel = min_d limits.max_angular_vel s.max_angular_vel;
}
