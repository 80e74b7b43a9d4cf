-- ===== src/Tests/Supervisor.antt =====
-- Runs of the safety supervisor and of the frozen configuration.
use easy_navigation.Common.{
  ℤ, pos, ◌-ℤ◌, ◌≡◌, ◌↔◌, refl, arith, Bool, true, false, none, some, String, List, [], ◌∷◌, str_eq,
}
use easy_navigation.Double.{Double, zero_d, lt, le, is_finite}
use easy_navigation.Messages.{Odometry, origin, zero_twist}
use easy_navigation.NavState.{NavState, odometry, empty, lookup, insert, set, bool, ok, type_code}
use easy_navigation.NavState.Rules.{Returns}
use easy_navigation.NavState.Schema.{IsTyped, empty-IsTyped, set-IsTyped}
use easy_navigation.RtMonitor
use easy_navigation.VelocityMux
use easy_navigation.VelocityMux.Priority.{Selects}
use easy_navigation.ParameterFreezer.{
  ParameterValue, Nodes, new, string, accepts, freeze, accept_new_parameters,
}
use easy_navigation.ParameterFreezer.Frozen.{IsUnchanged, accepts-IsUnchanged}
use easy_navigation.SafetySupervisor.{SafetySupervisor, Print}
use easy_navigation.SafetySupervisor.Reports.{is_finite_pose}
use easy_navigation.SafetySupervisor.Cycle.{cycle_rt}
use easy_navigation.SafetySupervisor.Cycle.Stale.{cycle_rt-stale}
use easy_navigation.SafetySupervisor.Cycle.Failure.{Input, WasLate, after, cycle_rt_stops}
use easy_navigation.SafetySupervisor.Configure.{SystemParameters, check_system, check_controller}
use easy_navigation.SafetySupervisor.Configure.Bounds.{IsWithin, check_controller-IsWithin}
use easy_navigation.Tests.Data.{truncating, whole}
use easy_navigation.Tests.Safety.{limits}

abbrev pub quiet : Print
quiet = record { real = λ d. ""; count = λ n. "" }

abbrev pub unnamed : String × Double → String
unnamed bad = bad.0

abbrev pub supervisor : SafetySupervisor
supervisor = record {
  safety_mode = true;
  lock_memory = false;
  max_linear_vel = whole 1;
  max_angular_vel = whole 1;
  rt_monitor = record {
    max_period = whole 1;
    max_late_cycles = pos 2;
    last_start = none;
    status = RtMonitor.ok;
    late_cycles = 0;
    consecutive_late = 0;
    last_period = zero_d;
  };
  max_period_factor = whole 2;
  last_rt_report = none;
  last_late_log = none;
  late_cycles_logged = 0;
  hardware_id = "system_node";
  failure = none;
  heartbeat_period = whole 1;
  last_heartbeat = none;
  heartbeat = record {
    stamp = pos 0;
    sequence = 0;
    rt_status = RtMonitor.ok;
    late_cycles = 0;
    safety_mode = true;
    configuration_hash = "";
  };
  heartbeat_pub = true;
  published = [];
  max_pose_age = whole 1;
  last_pose_stale = none;
  safety_status_timeout = zero_d;
  safety_channel = record { timeout = pos 0; last = none; last_time = pos 0; last_valid = false };
  safety_status_sub = false;
  last_safety_report = none;
  configuration_hash = "";
  freezer = new;
}

-- A pose of the first second, seen at ten seconds.
abbrev old_pose : Odometry
old_pose = record {
  header = record { stamp = pos 1000000000; frame_id = "map" };
  pose = record {
    position = origin;
    orientation = record { qx = zero_d; qy = zero_d; qz = zero_d; qw = whole 1 };
  };
}

abbrev localized : NavState
localized = (set "robot_pose" (odometry old_pose) empty).1

localized-IsTyped : IsTyped localized
unfolding lookup type_code
localized-IsTyped = (set-IsTyped "robot_pose" (odometry old_pose) empty refl empty-IsTyped).1

cycle_rt-stale_example :
    Returns
      (λ _ s'.
        (lookup "inhibit_motion" s'.1.values ≡ some (bool true))
        × Selects VelocityMux.reset s'.1 (λ c. (c.cmd.twist ≡ zero_twist) × (c.smooth ≡ true)))
      (cycle_rt truncating quiet unnamed (pos 5) (pos 6) (pos 10000000000) (supervisor, localized))
unfolding lookup set insert lt is_finite_pose is_finite ◌-ℤ◌
cycle_rt-stale_example =
    cycle_rt-stale truncating quiet unnamed (pos 5) (pos 6) (pos 10000000000) old_pose supervisor
      localized VelocityMux.reset localized-IsTyped refl (λ e. ground arith) refl refl refl

abbrev at : ℤ → Input
at now = record { now = now; stamp = now; wall = now; nav_state = empty }

-- Cycles three seconds apart, newest first.
abbrev late_cycles : List Input
late_cycles = at (pos 4000000000) ∷ at (pos 1000000000) ∷ []

cycle_rt_stops_example :
    (go : Bool) × ((cycle_rt truncating quiet unnamed
        (pos 7000000000)
        (pos 7000000000)
        (pos 7000000000)
        (after truncating quiet unnamed late_cycles supervisor, empty)).0
      ≡ ok go)
    × ((go ≡ false) ↔ (
        (true ≡ true)
        × WasLate truncating (whole 1) 1 (pos 7000000000 ∷ pos 4000000000 ∷ pos 1000000000 ∷ [])))
cycle_rt_stops_example =
    cycle_rt_stops truncating quiet unnamed supervisor 1 refl late_cycles (at (pos 7000000000))
      (empty-IsTyped, (empty-IsTyped, (empty-IsTyped, tt)))

abbrev safe_parameters : SystemParameters
safe_parameters = record {
  safety_mode = true;
  lock_memory = false;
  max_linear_vel = whole 1;
  max_angular_vel = whole 1;
  heartbeat_period = whole 1;
  max_period_factor = whole 2;
  max_late_cycles = pos 10;
  safety_status_timeout = whole 1;
  max_pose_age = whole 1;
  rt_freq = whole 200;
  use_real_time = true;
}

check_controller-IsWithin_example :
    (lt zero_d (whole 1) ≡ true)
    × (lt zero_d (whole 1) ≡ true)
    × ((le (whole 1) zero_d ≡ false)
        × (le (whole 1) zero_d ≡ false)
        × IsWithin limits (whole 1) (whole 1))
unfolding check_system check_controller lt le
check_controller-IsWithin_example =
    check_controller-IsWithin truncating false false "system_node" safe_parameters supervisor
      (whole 1) (whole 1) limits refl refl refl

abbrev robot_nodes : Nodes
robot_nodes =
    ("controller_node", ("mode", string "slow") ∷ [])
    ∷ ("system_node", ("frame", string "map") ∷ [])
    ∷ []

abbrev same_text : ParameterValue → ParameterValue → Bool
same_text (string a) (string b) = str_eq a b
same_text _ _ = false

accepted :
    accepts same_text "controller_node"
      (("mode", string "slow") ∷ [])
      (accept_new_parameters false (freeze robot_nodes new))
    ≡ true
unfolding accepts freeze accept_new_parameters lookup insert
accepted = refl

accepts-IsUnchanged_example :
    IsUnchanged same_text (("mode", string "slow") ∷ []) (("mode", string "slow") ∷ [])
unfolding lookup
accepts-IsUnchanged_example =
    accepts-IsUnchanged same_text robot_nodes "controller_node" (("mode", string "slow") ∷ [])
      (("mode", string "slow") ∷ []) (refl, (refl, tt)) refl (refl, tt) accepted
