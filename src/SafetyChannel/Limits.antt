-- ===== src/SafetyChannel/Limits.antt =====
-- The limits enforced while the safety channel restricts the robot.
use easy_navigation.Common.{ℤ, ◌≡◌, true, none, List, arith}
use easy_navigation.Double.{Double, zero_d, le, is_finite, neg, min_d, max_d, Arith}
use easy_navigation.RobotLimits.{RobotLimits, invalid_robot_limits, fields}
use easy_navigation.RobotLimits.Valid.{AllGood, first_invalid-none, none-first_invalid}
use easy_navigation.SafetyChannel.{SafetyChannelState, limited_by}
use easy_navigation.SafetyChannel.Monitor.{SafetyChannelMonitor, evaluate}
use easy_navigation.SafetyChannel.Decision.{
  HasLimits, Call, run, IsConsistent, run-IsConsistent, evaluate-HasLimits,
}

-- A limit cut down by a non-negative one stays finite and on its side of zero.
min_d_good :
    (a b : Double)
    → is_finite a ≡ true
    → le zero_d a ≡ true
    → le zero_d b ≡ true
    → (is_finite (min_d a b) ≡ true) × (le zero_d (min_d a b) ≡ true) × (le (min_d a b) b ≡ true)
unfolding min_d is_finite le
min_d_good a b ha h hb = ground arith

max_d_good :
    (a b : Double)
    → is_finite a ≡ true
    → le a zero_d ≡ true
    → le zero_d b ≡ true
    → (is_finite (max_d a (neg b)) ≡ true)
      × (le (max_d a (neg b)) zero_d ≡ true)
      × (le (neg b) (max_d a (neg b)) ≡ true)
unfolding max_d neg is_finite le
max_d_good a b ha h hb = ground arith

-- No velocity limit exceeds the one that the safety channel imposes.
pub record IsWithin (l : RobotLimits) (s : SafetyChannelState) : Type 0 where
  pub forward : le l.max_linear_vel s.max_linear_vel ≡ true
  pub backward : le (neg s.max_linear_vel) l.min_linear_vel ≡ true
  pub lateral : le l.max_lateral_vel s.max_linear_vel ≡ true
  pub vertical : le l.max_vertical_vel s.max_linear_vel ≡ true
  pub angular : le l.max_angular_vel s.max_angular_vel ≡ true

limited_by-good :
    (l : RobotLimits) (s : SafetyChannelState)
    → AllGood (fields l)
    → HasLimits s
    → AllGood (fields (limited_by l s)) × IsWithin (limited_by l s) s
unfolding fields limited_by
limited_by-good l s g h = ground (
  arith,
  min_d_good l.max_linear_vel s.max_linear_vel,
  max_d_good l.min_linear_vel s.max_linear_vel,
  min_d_good l.max_lateral_vel s.max_linear_vel,
  min_d_good l.max_vertical_vel s.max_linear_vel,
  min_d_good l.max_angular_vel s.max_angular_vel,
)

-- Whatever messages arrived, if the configured limits are valid then so are the limits that the
-- monitor's state leaves at any time, and none of them exceeds that state's speed limits. The
-- monitor starts in a state whose `last_valid` speaks of its last message.
pub limited_by-evaluate :
    (a : Arith) (cs : List Call) (m : SafetyChannelMonitor) (now : ℤ) (l : RobotLimits)
    → IsConsistent m
    → invalid_robot_limits l ≡ none
    → (invalid_robot_limits (limited_by l (evaluate now (run a cs m)).state) ≡ none)
      × IsWithin (limited_by l (evaluate now (run a cs m)).state) (evaluate now (run a cs m)).state
unfolding invalid_robot_limits
limited_by-evaluate a cs m now l v h =
    let s = (evaluate now (run a cs m)).state in
    let good =
      limited_by-good l s (first_invalid-none (fields l) h)
        (evaluate-HasLimits now (run a cs m) (run-IsConsistent a cs m v)) in
    (none-first_invalid (fields (limited_by l s)) good.0, good.1)
