-- ===== src/SafetyChannel/Monitor.antt =====
-- The class SafetyChannelMonitor. A message is invalid by its first bad limit: the name and the
-- value that the reason prints.
use easy_navigation.Common.{
  ℤ, ◌-ℤ◌, ltb_ℤ, Bool, true, false, not, ◌||◌, Option, none, some, is_some, String, if◌then◌else◌,
}
use easy_navigation.Double.{Double, zero_d, lt, is_finite, Arith}
use easy_navigation.SafetyChannel.{SafetyChannelState, unrestricted}

-- The message SafetyStatus, without its header, which nothing here reads.
pub record SafetyStatus : Type 0 where
  pub protective_stop : Bool
  pub speed_limited : Bool
  pub max_linear_vel : Double
  pub max_angular_vel : Double
  pub active_field : String
  pub muting : Bool

pub data Condition : Type 0 where
  valid no_status stale invalid : Condition

pub record Evaluation : Type 0 where
  pub state : SafetyChannelState
  pub condition : Condition

pub record SafetyChannelMonitor : Type 0 where
  pub timeout : ℤ
  pub last : Option SafetyStatus
  pub last_time : ℤ
  pub last_valid : Bool

abbrev bad_limit : Double → Bool
bad_limit v = not (is_finite v) || lt v zero_d

unfoldable pub invalid_reason : SafetyStatus → Option (String × Double)
unfolding is_finite lt
invalid_reason msg =
    if not msg.speed_limited
    then none
    else if bad_limit msg.max_linear_vel
    then some ("max_linear_vel", msg.max_linear_vel)
    else if bad_limit msg.max_angular_vel
    then some ("max_angular_vel", msg.max_angular_vel)
    else none

unfoldable pub configure : Arith → Double → SafetyChannelMonitor → SafetyChannelMonitor
configure a timeout m = record m {
  timeout = a.nanoseconds timeout;
  last = none;
  last_valid = false;
}

unfoldable pub received : SafetyStatus → ℤ → SafetyChannelMonitor → SafetyChannelMonitor
unfolding invalid_reason
received msg now m = record m {
  last = some msg;
  last_time = now;
  last_valid = not (is_some (invalid_reason msg));
}

abbrev stopped : Condition → Evaluation
stopped c = record {
  state = record unrestricted { status_lost = true; protective_stop = true };
  condition = c;
}

abbrev applied : SafetyStatus → Evaluation
applied msg = record {
  state =
      if msg.speed_limited
      then record unrestricted {
        protective_stop = msg.protective_stop;
        max_linear_vel = msg.max_linear_vel;
        max_angular_vel = msg.max_angular_vel;
      }
      else record unrestricted { protective_stop = msg.protective_stop };
  condition = valid;
}

unfoldable pub evaluate_last : Option SafetyStatus → ℤ → SafetyChannelMonitor → Evaluation
evaluate_last none now m = stopped no_status
evaluate_last (some msg) now m =
    if not m.last_valid
    then stopped invalid
    else if ltb_ℤ m.timeout (now -ℤ m.last_time)
    then stopped stale
    else applied msg

unfoldable pub evaluate : ℤ → SafetyChannelMonitor → Evaluation
unfolding evaluate_last
evaluate now m = evaluate_last m.last now m
