-- ===== src/SafetySupervisor/Reports.antt =====
-- SafetySupervisor: the age of the pose and the state of the safety channel, with their diagnostics.
use Prim.Native.String.{◌++◌}
use easy_navigation.Common.{
  ℤ, pos, ◌-ℤ◌, eqb_ℤ, Bool, true, false, not, ◌&&◌, ◌||◌, Option, none, some, String, List, [],
  ◌∷◌, if◌then◌else◌,
}
use easy_navigation.Double.{Double, zero_d, lt, is_finite, Arith}
use easy_navigation.Messages.{DiagnosticStatus, Level, Odometry}
use easy_navigation.NavState.{
  NavState, Exec, return, branch, ◌>>=◌, ◌>>◌, has, get_safe, set, as_odometry, bool,
}
use easy_navigation.SafetyChannel.{SafetyChannelState}
use easy_navigation.SafetyChannel.Monitor.{SafetyStatus, Evaluation, Condition, invalid_reason}
use easy_navigation.ControllerNode.{same_state}
use easy_navigation.MethodUpdate.{on_nav}
use easy_navigation.SafetySupervisor.{SafetySupervisor, Print, write_diagnostic}

unfoldable pub is_finite_pose : Odometry → Bool
unfolding is_finite
is_finite_pose odom =
    let p = odom.pose.position in
    let q = odom.pose.orientation in
    is_finite p.x
    && is_finite p.y
    && is_finite p.z
    && is_finite q.qx
    && is_finite q.qy
    && is_finite q.qz
    && is_finite q.qw

-- Nothing to report until the pose goes stale; then, only changes.
unfoldable pub is_stale_reported : Bool → Option Bool → Bool
is_stale_reported stale none = not stale
is_stale_reported stale (some last) = if last then stale else not stale

abbrev suffix : Bool → String
suffix safety_mode = if safety_mode then ": motion inhibited" else ""

module _ (a : Arith) (print : Print) where
  -- The pose's age at `wall`.
  unfoldable pub pose_age : ℤ → Odometry → Double
  pose_age wall odom = a.seconds (wall -ℤ odom.header.stamp)

  unfoldable pub is_stale : ℤ → Odometry → SafetySupervisor → Bool
  unfolding lt pose_age is_finite_pose
  is_stale wall odom s = lt s.max_pose_age (pose_age wall odom) || not (is_finite_pose odom)

  unfoldable pub pose_diagnostic : Bool → ℤ → Odometry → SafetySupervisor → DiagnosticStatus
  unfolding is_finite_pose pose_age
  pose_diagnostic true wall odom s = record {
    level = Level.error;
    name = "robot_pose";
    hardware_id = s.hardware_id;
    message =
        (if is_finite_pose odom
          then "robot_pose is "
            ++ print.real (pose_age wall odom)
            ++ " s old (safety.max_pose_age: "
            ++ print.real s.max_pose_age
            ++ " s)"
          else "robot_pose is not finite")
        ++ suffix s.safety_mode;
    values = [];
  }
  pose_diagnostic false wall odom s = record {
    level = Level.ok;
    name = "robot_pose";
    hardware_id = s.hardware_id;
    message = "robot_pose up to date";
    values = [];
  }

  unfoldable pub report_pose : Bool → ℤ → Odometry → Exec (SafetySupervisor × NavState) (Unit {0})
  unfolding is_stale_reported pose_diagnostic write_diagnostic
  report_pose stale wall odom (s, st) =
      if is_stale_reported stale s.last_pose_stale
      then return tt (s, st)
      else on_nav (write_diagnostic "diagnostics.robot_pose" (pose_diagnostic stale wall odom s))
          (record s { last_pose_stale = some stale }, st)

  -- A pose with a stamp: in safety mode, motion is inhibited while it is stale.
  unfoldable pub judge_pose : ℤ → Odometry → Exec (SafetySupervisor × NavState) (Unit {0})
  unfolding is_stale report_pose set
  judge_pose wall odom (s, st) =
      let stale = is_stale wall odom s in
      (branch s.safety_mode (on_nav (set "inhibit_motion" (bool stale))) (return tt)
          >> report_pose stale wall odom)
        (s, st)

  unfoldable pub check_pose_age : ℤ → Exec (SafetySupervisor × NavState) (Unit {0})
  unfolding lt has get_safe judge_pose
  check_pose_age wall (s, st) =
      if not (lt zero_d s.max_pose_age) || not (has "robot_pose" st)
      then return tt (s, st)
      else (on_nav (get_safe as_odometry "robot_pose") >>= (λ odom.
            branch (eqb_ℤ odom.header.stamp (pos 0)) (return tt) (judge_pose wall odom)))
          (s, st)

  abbrev same_condition : Condition → Condition → Bool
  same_condition Condition.valid Condition.valid = true
  same_condition Condition.no_status Condition.no_status = true
  same_condition Condition.stale Condition.stale = true
  same_condition Condition.invalid Condition.invalid = true
  same_condition _ _ = false

  -- The evaluations' `==`.
  unfoldable pub same_evaluation : Evaluation → Evaluation → Bool
  unfolding same_state
  same_evaluation e e' = same_state e.state e'.state && same_condition e.condition e'.condition

  unfoldable pub is_known : Evaluation → Option Evaluation → Bool
  unfolding same_evaluation
  is_known e none = false
  is_known e (some last) = same_evaluation last e

  unfoldable pub channel_level : SafetyChannelState → Condition → Level
  channel_level e Condition.valid = if e.protective_stop then Level.warn else Level.ok
  channel_level e _ = Level.error

  abbrev limit_text : SafetyChannelState → String
  limit_text s =
      if is_finite s.max_linear_vel
      then ", speed limited to "
        ++ print.real s.max_linear_vel
        ++ " m/s, "
        ++ print.real s.max_angular_vel
        ++ " rad/s"
      else ""

  -- A reason is a limit's name and value; the text that invalid_reason() makes of it is `reason`.
  abbrev reason_of : (String × Double → String) → Option SafetyStatus → String
  reason_of reason none = ""
  reason_of reason (some msg) = elim (invalid_reason msg) [ none ↦ "" | some bad ↦ reason bad ]

  abbrev flag_text : Bool → String
  flag_text b = if b then "true" else "false"

  abbrev fields_of : Option SafetyStatus → List (String × String)
  fields_of none = []
  fields_of (some msg) = ("active_field", msg.active_field) ∷ ("muting", flag_text msg.muting) ∷ []

  unfoldable pub channel_message :
      (String × Double → String) → SafetyChannelState → Condition → SafetySupervisor → String
  unfolding is_finite invalid_reason
  channel_message reason e Condition.no_status s =
      "No safety status received on easynav_safety_status: robot stopped"
  channel_message reason e Condition.stale s =
      "No safety status for more than " ++ print.real s.safety_status_timeout ++ " s: robot stopped"
  channel_message reason e Condition.invalid s =
      "Invalid safety status (" ++ reason_of reason s.safety_channel.last ++ "): robot stopped"
  channel_message reason e Condition.valid s =
      (if e.protective_stop
        then "Protective stop by the safety channel"
        else "Safety channel: no stop")
      ++ limit_text e

  unfoldable pub channel_diagnostic :
      (String × Double → String) → Evaluation → SafetySupervisor → DiagnosticStatus
  unfolding channel_level channel_message
  channel_diagnostic reason e s = record {
    level = channel_level e.state e.condition;
    name = "safety_status";
    hardware_id = s.hardware_id;
    message = channel_message reason e.state e.condition s;
    values = fields_of s.safety_channel.last;
  }

  unfoldable pub report_safety_status :
      (String × Double → String) → Evaluation → Exec (SafetySupervisor × NavState) (Unit {0})
  unfolding is_known channel_diagnostic write_diagnostic
  report_safety_status reason e (s, st) =
      if is_known e s.last_safety_report
      then return tt (s, st)
      else on_nav (write_diagnostic "diagnostics.safety_status" (channel_diagnostic reason e s))
          (record s { last_safety_report = some e }, st)
