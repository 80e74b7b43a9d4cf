-- ===== src/SafetySupervisor.antt =====
-- easynav_system safety/SafetySupervisor: what it does in each real-time cycle. `now` is the steady
-- clock and `stamp` and `wall` are the node's clock, in nanoseconds; stamps are not negative
-- (rclcpp::Time refuses those). `failure` is `none` for the empty text. A publisher and the
-- subscription are whether there is one, and `published` is what the heartbeat's publisher was
-- given, the latest first. The logging is left out, but not what it counts.
pub mod Reports
pub mod Cycle
pub mod Configure
use Prim.Native.String.{◌++◌}
use easy_navigation.Common.{
  ℕ, ◌+◌, ◌*◌, ◌%◌, ◌^◌, ℤ, pos, ◌-ℤ◌, leb_ℤ, eqb_ℤ, ◌==◌, Bool, true, false, not, ◌&&◌, ◌||◌,
  Option, none, some, is_some, String, List, [], ◌∷◌, if◌then◌else◌,
}
use easy_navigation.Double.{Double, zero_d, fin, lt, le, eq, is_finite, Arith}
use easy_navigation.Messages.{DiagnosticStatus, Level, Odometry, Vector3, Quaternion}
use easy_navigation.NavState.{
  NavState, Outcome, ok, Exec, return, branch, bind_outcome, ◌>>=◌, ◌>>◌, has, get_safe, set,
  add_to_group, as_odometry, diagnostic, bool, safety,
}
use easy_navigation.SafetyChannel.{SafetyChannelState}
use easy_navigation.SafetyChannel.Monitor.{
  SafetyChannelMonitor, SafetyStatus, Evaluation, Condition, invalid_reason, evaluate,
}
use easy_navigation.RtMonitor.{RtMonitor, Status, cycle_started}
use easy_navigation.RtMonitor
use easy_navigation.ParameterFreezer.{ParameterFreezer}
use easy_navigation.MethodUpdate.{on_nav}

pub record Heartbeat : Type 0 where
  pub stamp : ℤ
  pub sequence : ℕ
  pub rt_status : Status
  pub late_cycles : ℕ
  pub safety_mode : Bool
  pub configuration_hash : String

pub record SafetySupervisor : Type 0 where
  pub safety_mode : Bool
  pub lock_memory : Bool
  pub max_linear_vel : Double
  pub max_angular_vel : Double
  pub rt_monitor : RtMonitor
  pub max_period_factor : Double
  pub last_rt_report : Option Status
  pub last_late_log : Option ℤ
  pub late_cycles_logged : ℕ
  pub hardware_id : String
  pub failure : Option String
  pub heartbeat_period : Double
  pub last_heartbeat : Option ℤ
  pub heartbeat : Heartbeat
  pub heartbeat_pub : Bool
  pub published : List Heartbeat
  pub max_pose_age : Double
  pub last_pose_stale : Option Bool
  pub safety_status_timeout : Double
  pub safety_channel : SafetyChannelMonitor
  pub safety_status_sub : Bool
  pub last_safety_report : Option Evaluation
  pub configuration_hash : String
  pub freezer : ParameterFreezer

-- How a stream prints a double, and a count.
pub record Print : Type 0 where
  pub real : Double → String
  pub count : ℕ → String

unfoldable pub on_activate : SafetySupervisor → SafetySupervisor
unfolding RtMonitor.reset
on_activate s = record s {
  rt_monitor = RtMonitor.reset s.rt_monitor;
  last_late_log = none;
  late_cycles_logged = 0;
  last_heartbeat = none;
  last_safety_report = none;
  last_pose_stale = none;
  failure = none;
}

unfoldable pub write_diagnostic : String → DiagnosticStatus → Exec NavState (Unit {0})
unfolding set add_to_group
write_diagnostic key d = set key (diagnostic d) >> add_to_group "diagnostics" key

abbrev same_status : Status → Status → Bool
same_status RtMonitor.ok RtMonitor.ok = true
same_status RtMonitor.late RtMonitor.late = true
same_status RtMonitor.error RtMonitor.error = true
same_status _ _ = false

abbrev pub is_late : Status → Bool
is_late s = same_status s RtMonitor.late

abbrev pub is_error : Status → Bool
is_error s = same_status s RtMonitor.error

-- `kLateLogPeriod` in nanoseconds.
abbrev pub late_log_period : ℤ
late_log_period = pos (5 * 10 ^ 9)

abbrev log_due : Option ℤ → ℤ → Bool
log_due none now = true
log_due (some t) now = leb_ℤ late_log_period (now -ℤ t)

-- What a late cycle's line in the log leaves.
unfoldable pub log_late : Status → ℤ → SafetySupervisor → SafetySupervisor
log_late status now s =
    if is_late status && log_due s.last_late_log now
    then record s { last_late_log = some now; late_cycles_logged = m.late_cycles }
    else s
  where
    m : RtMonitor
    m = s.rt_monitor

unfoldable pub is_reported : Status → Option Status → Bool
is_reported status none = same_status status RtMonitor.ok
is_reported status (some last) = same_status last status

unfoldable pub rt_level : Bool → Status → Level
rt_level safety_mode RtMonitor.ok = Level.ok
rt_level safety_mode RtMonitor.late = Level.warn
rt_level safety_mode RtMonitor.error = if safety_mode then Level.error else Level.warn

abbrev pub flag_or : Option Bool → Bool → Bool
flag_or none b = b
flag_or (some last) b = if last then b else not b

-- Milliseconds from seconds: `* 1e3`.
abbrev thousand : Double
thousand = fin (pos (1000 * 2 ^ 1074))

module _ (a : Arith) (print : Print) where
  unfoldable pub rt_message : Status → SafetySupervisor → String
  rt_message RtMonitor.ok s = "Real-time cycles on time"
  rt_message RtMonitor.late s =
      "A real-time cycle started late: "
      ++ print.real (a.mul s.rt_monitor.last_period thousand)
      ++ " ms after the previous one"
  rt_message RtMonitor.error s =
      print.count s.rt_monitor.consecutive_late
      ++ " real-time cycles in a row started late (more than "
      ++ print.real s.max_period_factor
      ++ " periods after the previous one)"

  unfoldable pub rt_diagnostic : Status → SafetySupervisor → DiagnosticStatus
  unfolding rt_level rt_message
  rt_diagnostic status s = record {
    level = rt_level s.safety_mode status;
    name = "rt_cycle";
    hardware_id = s.hardware_id;
    message = rt_message status s;
    values = [];
  }

  unfoldable pub report_rt_status : Status → ℤ → Exec (SafetySupervisor × NavState) (Unit {0})
  unfolding log_late is_reported rt_diagnostic write_diagnostic
  report_rt_status status now (s, st) =
      let s' = log_late status now s in
      branch (is_reported status s'.last_rt_report) (return tt)
        (on_nav (write_diagnostic "diagnostics.rt_cycle" (rt_diagnostic status s')))
        (
          record s' {
            last_rt_report =
                if is_reported status s'.last_rt_report then s'.last_rt_report else some status;
          },
          st,
        )
