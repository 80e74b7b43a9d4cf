-- ===== src/Tests/Safety.antt =====
-- Runs of the monitors and of the blackboard.
use easy_navigation.Common.{ℤ, pos, ◌-ℤ◌, ◌≤ℤ◌, ◌≡◌, ◌↔◌, refl, true, false, none, List, [], ◌∷◌}
use easy_navigation.Double.{zero_d, lt}
use easy_navigation.RobotLimits.{RobotLimits, invalid_robot_limits}
use easy_navigation.RtMonitor
use easy_navigation.RtMonitor.{RtMonitor, Status, ok, error}
use easy_navigation.RtMonitor.Streak
use easy_navigation.RtMonitor.Streak.{AllLate, status-run_iff}
use easy_navigation.SafetyChannel.{limited_by}
use easy_navigation.SafetyChannel.Monitor.{
  SafetyStatus, SafetyChannelMonitor, invalid_reason, received, evaluate,
}
use easy_navigation.SafetyChannel.Decision
use easy_navigation.SafetyChannel.Decision.{Call, configures, receives, moves-received}
use easy_navigation.SafetyChannel.Limits.{IsWithin, limited_by-evaluate}
use easy_navigation.Tests.Data.{truncating, whole}

abbrev pub limits : RobotLimits
limits = record {
  max_linear_vel = whole 1;
  min_linear_vel = zero_d;
  max_angular_vel = whole 1;
  max_linear_acc = whole 1;
  max_linear_decel = whole 2;
  max_angular_acc = whole 1;
  max_angular_decel = whole 2;
  max_lateral_vel = zero_d;
  max_lateral_acc = whole 1;
  max_lateral_decel = whole 1;
  max_vertical_vel = zero_d;
  max_vertical_acc = whole 1;
  max_vertical_decel = whole 1;
  min_turning_radius = whole 1;
}

pub limits_valid : invalid_robot_limits limits ≡ none
unfolding invalid_robot_limits
limits_valid = refl

abbrev slow_status : SafetyStatus
slow_status = record {
  protective_stop = false;
  speed_limited = true;
  max_linear_vel = whole 1;
  max_angular_vel = zero_d;
  active_field = "near";
  muting = false;
}

abbrev channel_monitor : SafetyChannelMonitor
channel_monitor = record {
  timeout = pos 500000000;
  last = none;
  last_time = pos 0;
  last_valid = false;
}

abbrev heard : List Call
heard = configures (whole 1) ∷ receives slow_status (pos 10) ∷ []

moves-received_example :
    ((evaluate (pos 30) (received slow_status (pos 10) channel_monitor)).state.protective_stop
      ≡ false)
    ↔ ((invalid_reason slow_status ≡ none)
        × (slow_status.protective_stop ≡ false)
        × (pos 30 -ℤ pos 10 ≤ℤ channel_monitor.timeout))
moves-received_example = moves-received slow_status (pos 10) (pos 30) channel_monitor

limited_by-evaluate_example :
    (invalid_robot_limits (
        limited_by limits (evaluate (pos 20) (Decision.run truncating heard channel_monitor)).state)
      ≡ none)
    × IsWithin
        (limited_by limits
          (evaluate (pos 20) (Decision.run truncating heard channel_monitor)).state)
        (evaluate (pos 20) (Decision.run truncating heard channel_monitor)).state
limited_by-evaluate_example =
    limited_by-evaluate truncating heard channel_monitor (pos 20) limits tt limits_valid

abbrev rt_monitor : RtMonitor
rt_monitor = record {
  max_period = whole 1;
  max_late_cycles = pos 2;
  last_start = none;
  status = ok;
  late_cycles = 0;
  consecutive_late = 0;
  last_period = zero_d;
}

-- Starts, newest first: the last two periods take two seconds each.
abbrev starts : List ℤ
starts = pos 4000000000 ∷ pos 2000000000 ∷ pos 1500000000 ∷ []

late_twice : (Streak.run truncating (pos 6000000000 ∷ starts) rt_monitor).status ≡ error
unfolding Streak.run RtMonitor.reset RtMonitor.cycle_started lt ◌-ℤ◌
late_twice = refl
