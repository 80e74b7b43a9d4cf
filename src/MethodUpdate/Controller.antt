-- ===== src/MethodUpdate/Controller.antt =====
-- easynav_core ControllerMethodBase: the updates of a controller plugin.
pub mod Zero
use easy_navigation.Common.{ℤ, Bool, true, false, ◌||◌, some, String}
use easy_navigation.Double.{Arith}
use easy_navigation.Messages.{TwistStamped, zero_twist}
use easy_navigation.NavState.{
  NavState, Outcome, Exec, return, branch, bind_outcome, ◌>>=◌, ◌>>◌, set, twist,
}
use easy_navigation.MethodBase.{MethodBase, Format, is_time2_run_rt, set_run_rt, report_rt_rate}
use easy_navigation.MethodUpdate.{Names, Reads, attempt, on_nav}

unfoldable pub zero_speed : Names → ℤ → TwistStamped
zero_speed names now = record {
  header = record { stamp = now; frame_id = names.robot_frame };
  twist = zero_twist;
}

-- The end of ControllerMethodBase::internal_update_rt(): its command when the plugin failed.
unfoldable pub stop_if_failed : Names → ℤ → Bool → Exec NavState Bool
unfolding zero_speed set
stop_if_failed names now failed =
    branch failed (set "cmd_vel" (twist (zero_speed names now)) >> return true) (return true)

module _ (a : Arith) (format : Format) (names : Names) (reads : Reads) where
  -- Once an update is due or triggered.
  unfoldable pub run : Exec NavState (Unit {0}) → Exec (MethodBase × NavState) Bool
  unfolding set_run_rt attempt stop_if_failed
  run update_rt (m, st) =
      on_nav (attempt update_rt >>= stop_if_failed names reads.stopped)
        (set_run_rt a (some reads.ran) m, st)

  unfoldable pub check : Exec NavState (Unit {0}) → Bool → Exec (MethodBase × NavState) Bool
  unfolding is_time2_run_rt run
  check update_rt trigger (m, st) =
      let (due, m') = is_time2_run_rt a (some reads.checked) m in
      branch (due || trigger) (run update_rt) (return false) (m', st)

  unfoldable pub internal_update_rt :
      Exec NavState (Unit {0}) → Bool → Exec (MethodBase × NavState) Bool
  unfolding report_rt_rate check
  internal_update_rt update_rt trigger =
      report_rt_rate a format names.node_name (some reads.reported) >> check update_rt trigger
