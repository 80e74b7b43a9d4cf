-- ===== src/ControllerNode.antt =====
-- easynav_controller ControllerNode: what it sends to the robot, from the commands proposed on the
-- blackboard. `now` is the node's clock; a publisher is whether there is one. The plugins, their
-- switcher, the lifecycle and the parameters are left out. The constants 0.1 and 0.02 are the
-- doubles nearest to them.
pub mod Synced
pub mod Stop
pub mod Cycle
use easy_navigation.Common.{
  ℕ, zero, suc, ℤ, pos, ◌-ℤ◌, ◌*◌, ◌^◌, Bool, true, false, not, ◌&&◌, ◌||◌, Option, none, some,
  String, List, [], ◌∷◌, ◌++◌, if◌then◌else◌, str_eq,
}
use easy_navigation.Double.{Double, zero_d, fin, eq, clamp, Arith}
use easy_navigation.Messages.{Header, no_header, Twist, TwistStamped, zero_twist}
use easy_navigation.RobotLimits.{RobotLimits, invalid_robot_limits}
use easy_navigation.SafetyChannel.{SafetyChannelState, limited_by}
use easy_navigation.NavState.{
  NavState, Outcome, ok, Exec, return, bind_outcome, ◌>>=◌, as_safety, as_twist, has, get_safe,
}
use easy_navigation.VelocityCommand.{VelocitySource, propose}
use easy_navigation.VelocityMux.{VelocityMux, Selection, Choice, safety_stop, select}
use easy_navigation.VelocityMux
use easy_navigation.VelocitySmoother.{VelocitySmoother, set_limits, reached, step}
use easy_navigation.VelocitySmoother
use easy_navigation.CommandGuard.{
  CommandGuard, discard_non_finite, supervise, report, keepalive_due, published, is_new,
}
use easy_navigation.CommandGuard

pub record ControllerNode : Type 0 where
  pub robot_limits : RobotLimits
  pub safety_channel : SafetyChannelState
  pub use_cmd_vel_stamped : Bool
  pub vel_pub_stamped : Bool
  pub vel_pub : Bool
  pub mux : VelocityMux
  pub smoother : VelocitySmoother
  pub command_guard : CommandGuard
  pub last_smoother_step : Option ℤ
  pub last_published_zero : Bool

-- What leaves the node.
pub data Output : Type 0 where
  stamped : TwistStamped → Output
  plain : Twist → Output

unfoldable pub is_zero : Twist → Bool
unfolding eq
is_zero t =
    eq t.linear.x zero_d
    && eq t.linear.y zero_d
    && eq t.linear.z zero_d
    && eq t.angular.x zero_d
    && eq t.angular.y zero_d
    && eq t.angular.z zero_d

unfoldable pub get_robot_limits : ControllerNode → RobotLimits
unfolding limited_by
get_robot_limits n = limited_by n.robot_limits n.safety_channel

unfoldable pub refresh_limits : ControllerNode → ControllerNode
unfolding get_robot_limits set_limits
refresh_limits n = record n { smoother = set_limits (get_robot_limits n) n.smoother }

unfoldable pub set_robot_limits : RobotLimits → ControllerNode → ControllerNode
unfolding refresh_limits
set_robot_limits limits n = refresh_limits (record n { robot_limits = limits })

unfoldable pub apply_safety_channel : SafetyChannelState → ControllerNode → ControllerNode
unfolding refresh_limits
apply_safety_channel state n = refresh_limits (record n { safety_channel = state })

abbrev pub same_flag : Bool → Bool → Bool
same_flag true b = b
same_flag false b = not b

unfoldable pub same_state : SafetyChannelState → SafetyChannelState → Bool
unfolding eq
same_state a b =
    same_flag a.protective_stop b.protective_stop
    && same_flag a.status_lost b.status_lost
    && eq a.max_linear_vel b.max_linear_vel
    && eq a.max_angular_vel b.max_angular_vel

-- `safety_channel != safety_channel_`.
unfoldable pub follow_channel : SafetyChannelState → ControllerNode → ControllerNode
unfolding same_state apply_safety_channel
follow_channel state n =
    if same_state state n.safety_channel then n else apply_safety_channel state n

unfoldable pub read_channel : ControllerNode → Exec NavState ControllerNode
unfolding follow_channel
read_channel n st =
    if has "safety_status" st
    then bind_outcome (get_safe as_safety "safety_status" st) (λ s. return (follow_channel s n))
    else return n st

abbrev message : Bool → Bool → Bool → TwistStamped → List Output
message true true plain_pub cmd = stamped cmd ∷ []
message false stamped_pub true cmd = plain cmd.twist ∷ []
message _ _ _ cmd = []

unfoldable pub publish : TwistStamped → ControllerNode → ControllerNode × List Output
unfolding published is_zero
publish cmd n = (
  record n {
    command_guard = published cmd.header.stamp n.command_guard;
    last_published_zero = is_zero cmd.twist;
  },
  message n.use_cmd_vel_stamped n.vel_pub_stamped n.vel_pub cmd,
)

abbrev restamped : TwistStamped → Twist → ℤ → TwistStamped
restamped cmd twist now = record { header = record h { stamp = now }; twist = twist }
  where
    h : Header
    h = cmd.header

abbrev is_stop : Choice → Bool
is_stop safety_stop = true
is_stop _ = false

-- `kMaxSmootherStep`.
abbrev max_smoother_step : Double
max_smoother_step = fin (pos (3602879701896397 * 2 ^ 1019))

-- `kStopPeriod`.
abbrev pub stop_period : Double
stop_period = fin (pos (5764607523034235 * 2 ^ 1016))

abbrev pub zero_command : String → ℤ → TwistStamped
zero_command frame now = record {
  header = record { stamp = now; frame_id = frame };
  twist = zero_twist;
}

module _ (a : Arith) where
  unfoldable pub smoother_time : Option ℤ → ℤ → Double
  unfolding clamp
  smoother_time none now = zero_d
  smoother_time (some t) now = clamp (a.seconds (now -ℤ t)) zero_d max_smoother_step

  -- The command goes through the smoother.
  unfoldable pub send_smooth :
      Selection → Double → ℤ → ControllerNode → ControllerNode × List Output
  unfolding reached is_zero keepalive_due step publish
  send_smooth s dt now n =
      let ramping = not (reached a s.cmd.twist n.smoother) in
      let at_rest = n.last_published_zero && is_zero s.cmd.twist in
      if (not s.fresh || at_rest) && not ramping && not (keepalive_due a now n.command_guard)
      then (n, [])
      else let smoother = step a s.cmd.twist dt n.smoother in
        publish (restamped s.cmd smoother.current now) (record n { smoother = smoother })

  -- The command goes out as it is.
  unfoldable pub send_raw : Selection → ℤ → ControllerNode → ControllerNode × List Output
  unfolding VelocitySmoother.reset publish
  send_raw s now n =
      publish (restamped s.cmd s.cmd.twist now)
        (record n { smoother = VelocitySmoother.reset s.cmd.twist n.smoother })

  -- publish_cmd_vel_rt() once the selection is made and reported.
  unfoldable pub send : Selection → ℤ → ControllerNode → ControllerNode × List Output
  unfolding smoother_time VelocitySmoother.reset send_smooth send_raw
  send s now n =
      let dt = smoother_time n.last_smoother_step now in
      let n' =
        if is_stop s.choice
        then record n {
          last_smoother_step = some now;
          smoother = VelocitySmoother.reset zero_twist n.smoother;
        }
        else record n { last_smoother_step = some now } in
      if s.smooth then send_smooth s dt now n' else send_raw s now n'

  -- The selection is supervised, reported and sent.
  unfoldable pub finish :
      Bool
      → ℤ
      → ControllerNode
      → Selection × VelocityMux
      → Exec NavState (ControllerNode × List Output)
  unfolding supervise report send
  finish discarded now n (selection, mux) st =
      let (s, g) = supervise a selection now n.command_guard in
      bind_outcome (report discarded s.fresh g st)
        (λ g'. return (send s now (record n { mux = mux; command_guard = g' })))

  unfoldable pub publish_cmd_vel_rt :
      ℤ → ControllerNode → Exec NavState (ControllerNode × List Output)
  unfolding read_channel discard_non_finite select finish
  publish_cmd_vel_rt now n = do
    n' ← read_channel n
    discarded ← discard_non_finite
    selected ← select n'.mux
    finish discarded now n' selected

  -- The braking loop of stop_robot(): `rounds` bounds the rounds before its deadline, and the
  -- `i`-th round's clock reads `clock i`.
  unfoldable pub brake : ℕ → String → (ℕ → ℤ) → ControllerNode → ControllerNode × List Output
  unfolding reached step publish
  brake zero frame clock n = (n, [])
  brake (suc rounds) frame clock n =
      let smoother = step a zero_twist stop_period n.smoother in
      let sent =
        publish (restamped (zero_command frame (clock 0)) smoother.current (clock 0))
          (record n { smoother = smoother }) in
      let rest = brake rounds frame (λ i. clock (suc i)) sent.0 in
      if reached a zero_twist n.smoother then (n, []) else (rest.0, sent.1 ++ rest.1)

  abbrev braked :
      Option (String × Double)
      → ℕ
      → String
      → (ℕ → ℤ)
      → ControllerNode
      → ControllerNode × List Output
  braked none rounds frame clock n = brake rounds frame clock n
  braked (some bad) rounds frame clock n = (n, [])

  -- The last, zero command, and the fresh start.
  unfoldable pub rest_robot : TwistStamped → ControllerNode → ControllerNode × List Output
  unfolding publish VelocitySmoother.reset CommandGuard.reset
  rest_robot cmd n =
      let sent = publish cmd n in
      let m = sent.0 in
      (
        record m {
          smoother = VelocitySmoother.reset zero_twist m.smoother;
          mux = VelocityMux.reset;
          command_guard = CommandGuard.reset m.command_guard;
        },
        sent.1,
      )

  -- `last` is the clock's last reading.
  unfoldable pub stop_robot :
      ℕ → String → (ℕ → ℤ) → ℤ → ControllerNode → ControllerNode × List Output
  unfolding get_robot_limits invalid_robot_limits brake rest_robot
  stop_robot rounds frame clock last n =
      if not n.vel_pub && not n.vel_pub_stamped
      then (n, [])
      else let slow = braked (invalid_robot_limits (get_robot_limits n)) rounds frame clock n in
        let still = rest_robot (zero_command frame last) slow.0 in (still.0, slow.1 ++ still.1)

-- The end of cycle_rt(), after the plugin ran: its command is proposed if it is a new one.
unfoldable pub propose_new : TwistStamped → ControllerNode → Exec NavState ControllerNode
unfolding is_new propose
propose_new cmd n st =
    let (fresh, g) = is_new cmd n.command_guard in
    let n' = record n { command_guard = g } in
    if fresh
    then bind_outcome (propose VelocitySource.controller cmd st) (λ _. return n')
    else return n' st

unfoldable pub propose_cmd_vel : Bool → ControllerNode → Exec NavState ControllerNode
unfolding propose_new
propose_cmd_vel ran n st =
    if ran && has "cmd_vel" st
    then bind_outcome (get_safe as_twist "cmd_vel" st) (λ cmd. propose_new cmd n)
    else return n st
