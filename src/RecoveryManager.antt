-- ===== src/RecoveryManager.antt =====
-- easynav_core RecoveryManagerBase and easynav_recovery RecoveryManagerNode: the updates of the
-- recovery plugin, whose code is an argument. What a plugin throws is a std::exception here: the
-- code catches nothing else. Of the node only whether it has a plugin matters. The actions that a
-- plugin asks of the system are left out.
pub mod Stop
use easy_navigation.Common.{ℤ, Bool, true, false, String}
use easy_navigation.Messages.{TwistStamped, zero_twist}
use easy_navigation.NavState.{
  NavState, Outcome, ok, throws, undefined_behaviour, Exec, return, ◌>>◌, ◌>>=◌,
}
use easy_navigation.VelocityCommand.{VelocitySource, propose}
use easy_navigation.MethodUpdate.{attempt}

abbrev pub command_velocity : TwistStamped → Exec NavState (Unit {0})
command_velocity cmd = propose VelocitySource.takeover cmd

abbrev pub override_velocity : TwistStamped → Exec NavState (Unit {0})
override_velocity cmd = propose VelocitySource.override cmd

unfoldable pub internal_update : Exec NavState (Unit {0}) → Exec NavState (Unit {0})
unfolding attempt
internal_update update = attempt update >>= (λ failed. return tt)

-- The stop in the catch block.
unfoldable pub failsafe_stop : String → ℤ → TwistStamped
failsafe_stop robot_frame now = record {
  header = record { stamp = now; frame_id = robot_frame };
  twist = zero_twist;
}

abbrev pub recovered : String → ℤ → Outcome Bool × NavState → Outcome Bool × NavState
recovered robot_frame now (ok taken, st) = (ok taken, st)
recovered robot_frame now (throws undefined_behaviour, st) = (throws undefined_behaviour, st)
recovered robot_frame now (throws e, st) =
    (override_velocity (failsafe_stop robot_frame now) >> return true) st

-- A plugin that throws stops the robot.
unfoldable pub internal_update_rt : String → ℤ → Exec NavState Bool → Exec NavState Bool
unfolding failsafe_stop propose
internal_update_rt robot_frame now update_rt st = recovered robot_frame now (update_rt st)

-- RecoveryManagerNode.
unfoldable pub cycle : Bool → Exec NavState (Unit {0}) → Exec NavState (Unit {0})
unfolding internal_update
cycle true update = internal_update update
cycle false update = return tt

unfoldable pub cycle_rt : Bool → String → ℤ → Exec NavState Bool → Exec NavState Bool
unfolding internal_update_rt
cycle_rt true robot_frame now update_rt = internal_update_rt robot_frame now update_rt
cycle_rt false robot_frame now update_rt = return false
