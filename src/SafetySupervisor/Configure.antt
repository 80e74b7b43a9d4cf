-- ===== src/SafetySupervisor/Configure.antt =====
-- SafetySupervisor: the checks of the configuration, and what it does once configured. An error is
-- listed by its parameter's name, since its text is only logged. What the operating system answers
-- to the real-time priority and the memory lock is an argument, and so are the texts and the hash
-- of the configuration, and the `==` of its values; the files are left out.
pub mod Bounds
use easy_navigation.Common.{
  ℕ, ◌+◌, ◌-◌, ◌*◌, ◌%◌, ◌^◌, ℤ, pos, negsuc, ◌-ℤ◌, to_int, leb_ℤ, ltb, Bool, true, false, not,
  ◌&&◌, ◌||◌, Option, none, some, String, List, [], ◌∷◌, ◌++◌, is_empty, if◌then◌else◌,
}
use easy_navigation.Double.{Double, zero_d, lt, le, eq, abs, is_finite, of_int, Arith}
use easy_navigation.RobotLimits.{RobotLimits}
use easy_navigation.RtMonitor.{RtMonitor}
use easy_navigation.RtMonitor
use easy_navigation.SafetyChannel.{SafetyChannelState, unrestricted}
use easy_navigation.SafetyChannel.Monitor.{evaluate}
use easy_navigation.SafetyChannel.Monitor
use easy_navigation.NavState.{NavState, Exec, ◌>>◌, return, set, text, safety}
use easy_navigation.MethodUpdate.{on_nav}
use easy_navigation.ParameterFreezer.{ParameterFreezer, Nodes, freeze, accept_new_parameters}
use easy_navigation.SafetySupervisor.{SafetySupervisor, Heartbeat}

-- The parameters that check_system() reads.
pub record SystemParameters : Type 0 where
  pub safety_mode : Bool
  pub lock_memory : Bool
  pub max_linear_vel : Double
  pub max_angular_vel : Double
  pub heartbeat_period : Double
  pub max_period_factor : Double
  pub max_late_cycles : ℤ
  pub safety_status_timeout : Double
  pub max_pose_age : Double
  pub rt_freq : Double
  pub use_real_time : Bool

-- The names of the checks that fail.
abbrev pub errors_of : List (Bool × String) → List String
errors_of [] = []
errors_of ((fails, name) ∷ checks) =
    let rest = errors_of checks in if fails then name ∷ rest else rest

-- Not finite, below 0, or 0 in safety mode.
unfoldable pub is_unusable : Bool → Double → Bool
unfolding is_finite lt eq
is_unusable safety_mode v = not (is_finite v) || lt v zero_d || (safety_mode && eq v zero_d)

-- The checks of the parameters, each with whether it fails, in the code's order.
unfoldable pub parameter_checks : SystemParameters → List (Bool × String)
unfolding is_unusable is_finite lt le of_int
parameter_checks p =
    (is_unusable p.safety_mode p.max_linear_vel, "safety.plc_limits.max_linear_vel")
    ∷ (is_unusable p.safety_mode p.max_angular_vel, "safety.plc_limits.max_angular_vel")
    ∷ (is_unusable p.safety_mode p.heartbeat_period, "safety.heartbeat.period")
    ∷ (is_unusable p.safety_mode p.safety_status_timeout, "safety.status.timeout")
    ∷ (not (is_finite p.max_pose_age) || lt p.max_pose_age zero_d, "safety.max_pose_age")
    ∷ (
      not (is_finite p.max_period_factor) || le p.max_period_factor (of_int 1),
      "safety.rt_monitor.max_period_factor",
    )
    ∷ (not (leb_ℤ (pos 1) p.max_late_cycles), "safety.rt_monitor.max_late_cycles")
    ∷ []

unfoldable pub parameter_errors : SystemParameters → List String
unfolding parameter_checks
parameter_errors p = errors_of (parameter_checks p)

-- The errors of the system; the arguments say whether it answered with an error.
unfoldable pub system_errors : Bool → Bool → SystemParameters → List String
system_errors priority_fails lock_fails p = errors_of (
    (p.safety_mode && (not p.use_real_time || priority_fails), "use_real_time")
    ∷ (p.lock_memory && lock_fails, "safety.lock_memory")
    ∷ [])

abbrev is_positive : Double → Bool
is_positive v = is_finite v && lt zero_d v

module _ (a : Arith) where
  unfoldable pub check_system :
      Bool → Bool → String → SystemParameters → SafetySupervisor → Bool × SafetySupervisor
  unfolding parameter_errors system_errors is_finite lt of_int to_int RtMonitor.configure
      Monitor.configure accept_new_parameters
  check_system priority_fails lock_fails node_name p s = (
    is_empty (parameter_errors p ++ system_errors priority_fails lock_fails p),
    record s {
      safety_mode = p.safety_mode;
      lock_memory = p.lock_memory;
      max_linear_vel = p.max_linear_vel;
      max_angular_vel = p.max_angular_vel;
      heartbeat_period = p.heartbeat_period;
      max_period_factor = p.max_period_factor;
      safety_status_timeout = p.safety_status_timeout;
      max_pose_age = p.max_pose_age;
      hardware_id = node_name;
      rt_monitor =
          if is_positive p.rt_freq
          then RtMonitor.configure a (a.div (of_int 1) p.rt_freq) p.max_period_factor
              (to_int p.max_late_cycles) s.rt_monitor
          else s.rt_monitor;
      heartbeat_pub = is_positive p.heartbeat_period;
      heartbeat = record h { safety_mode = p.safety_mode };
      safety_status_sub = is_positive p.safety_status_timeout;
      safety_channel =
          if is_positive p.safety_status_timeout
          then Monitor.configure a p.safety_status_timeout s.safety_channel
          else s.safety_channel;
      freezer = accept_new_parameters true s.freezer;
    },
  )
    where
      h : Heartbeat
      h = s.heartbeat

-- A limit of the controller, against one of the safety channel (0: not given).
unfoldable pub exceeds : Double → Double → Bool
unfolding lt abs
exceeds value limit = lt zero_d limit && lt limit (abs value)

unfoldable pub controller_checks :
    Double → Double → RobotLimits → SafetySupervisor → List (Bool × String)
unfolding exceeds le
controller_checks cmd_timeout keepalive_period limits s =
    (s.safety_mode && le cmd_timeout zero_d, "cmd_timeout")
    ∷ (s.safety_mode && le keepalive_period zero_d, "cmd_vel_keepalive_period")
    ∷ (exceeds limits.max_linear_vel s.max_linear_vel, "max_linear_vel")
    ∷ (exceeds limits.min_linear_vel s.max_linear_vel, "min_linear_vel")
    ∷ (exceeds limits.max_lateral_vel s.max_linear_vel, "max_lateral_vel")
    ∷ (exceeds limits.max_vertical_vel s.max_linear_vel, "max_vertical_vel")
    ∷ (exceeds limits.max_angular_vel s.max_angular_vel, "max_angular_vel")
    ∷ []

unfoldable pub controller_errors : Double → Double → RobotLimits → SafetySupervisor → List String
unfolding controller_checks
controller_errors cmd_timeout keepalive_period limits s =
    errors_of (controller_checks cmd_timeout keepalive_period limits s)

-- `limits` are those that the controller's node enforces.
unfoldable pub check_controller : Double → Double → RobotLimits → SafetySupervisor → Bool
unfolding controller_errors
check_controller cmd_timeout keepalive_period limits s =
    is_empty (controller_errors cmd_timeout keepalive_period limits s)

unfoldable pub allows_reconfiguration : SafetySupervisor → Bool
allows_reconfiguration s = not s.safety_mode

unfoldable pub freeze_configuration : Nodes → SafetySupervisor → SafetySupervisor
unfolding freeze accept_new_parameters
freeze_configuration nodes s =
    if s.safety_mode
    then record s { freezer = accept_new_parameters false (freeze nodes s.freezer) }
    else s

abbrev beats_with : String → SafetySupervisor → SafetySupervisor
beats_with hash s = record s { heartbeat = record h { configuration_hash = hash } }
  where
    h : Heartbeat
    h = s.heartbeat

-- `hash` is that of the nodes' configuration.
unfoldable pub on_configured : String → ℤ → Nodes → Exec (SafetySupervisor × NavState) (Unit {0})
unfolding set evaluate freeze_configuration
on_configured hash now nodes (s, st) =
    let state =
      if s.safety_status_sub then (evaluate now s.safety_channel).state else unrestricted in
    (on_nav (set "configuration_hash" (text hash))
        >> on_nav (set "safety_status" (safety state))
        >> (λ (s', st'). return tt (freeze_configuration nodes (beats_with hash s'), st')))
      (record s { configuration_hash = hash }, st)
