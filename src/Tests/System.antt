-- ===== src/Tests/System.antt =====
-- Runs of the system node and of the recovery manager.
use easy_navigation.Common.{pos, ◌≡◌, refl, Bool, true, false, ◌||◌, some, arith}
use easy_navigation.NavState.{NavState, Exec, return, empty}
use easy_navigation.NavState.Schema.{empty-IsTyped}
use easy_navigation.SystemNode.{SystemNode, Plugins, Times, system_cycle_rt}
use easy_navigation.SystemNode.Shutdown.{first_reason, system_cycle_rt-request}
use easy_navigation.SafetySupervisor.Cycle.Failure.{fails_at}
use easy_navigation.NavState.{throws, runtime_error}
use easy_navigation.NavState.Rules.{Returns}
use easy_navigation.NavState.Schema.{IsTyped}
use easy_navigation.RecoveryManager.{cycle_rt}
use easy_navigation.RecoveryManager.Stop.{WillStop, cycle_rt_failsafe}
use easy_navigation.Tests.Data.{truncating}
use easy_navigation.Tests.Velocity.{node}
use easy_navigation.Tests.Supervisor.{supervisor, quiet, unnamed}
use easy_navigation.Tests.Plugins.{follower, verbatim, names, faulty, at}

abbrev system : SystemNode
system = record {
  active = true;
  safety = supervisor;
  controller_node = node;
  controller_method = some follower;
  shutdown_requested = false;
  shutdown_reason = "";
}

abbrev quiet_cycle : Exec NavState Bool
quiet_cycle = return false

abbrev plugins : Plugins
plugins = record {
  sensors_cycle_rt = quiet_cycle;
  localizer_cycle_rt = λ trigger. quiet_cycle;
  controller_update_rt = faulty;
  has_recovery = true;
  recovery_update_rt = quiet_cycle;
}

abbrev times : Times
times = record {
  steady = pos 5;
  stamp = pos 6;
  wall = pos 7;
  controller = at;
  recovery = pos 11;
  publish = pos 12;
}

system_cycle_rt-request_example :
    ((system_cycle_rt truncating quiet unnamed verbatim names plugins times
        (system, empty)).1.0.shutdown_requested
      ≡ (false || (false || fails_at truncating (pos 5) supervisor)))
    × ((system_cycle_rt truncating quiet unnamed verbatim names plugins times
          (system, empty)).1.0.shutdown_reason
        ≡ first_reason false ""
            (system_cycle_rt truncating quiet unnamed verbatim names plugins times
              (system, empty)).1.0.safety.failure)
system_cycle_rt-request_example =
    system_cycle_rt-request truncating quiet unnamed verbatim names plugins times system empty refl
      empty-IsTyped

abbrev faulty_rt : Exec NavState Bool
faulty_rt st = (throws runtime_error, st)

cycle_rt_failsafe_example :
    Returns
      (λ taken st'. (taken ≡ true) × IsTyped st' × WillStop st')
      (cycle_rt true "base_link" (pos 5) faulty_rt empty)
cycle_rt_failsafe_example =
    cycle_rt_failsafe "base_link" (pos 5) faulty_rt runtime_error empty refl (λ e. ground arith)
      empty-IsTyped
