-- ===== src/SafetySupervisor/Cycle.antt =====
-- SafetySupervisor::cycle_rt().
pub mod Safe
pub mod Stale
pub mod Failure
use Prim.Native.String.{◌++◌}
use easy_navigation.Common.{
  ℕ, ◌+◌, ◌%◌, ◌^◌, ℤ, ◌-ℤ◌, Bool, true, false, not, ◌&&◌, Option, none, some, is_some, String,
  List, [], ◌∷◌, if◌then◌else◌,
}
use easy_navigation.Double.{Double, le, Arith}
use easy_navigation.NavState.{
  NavState, Exec, return, branch, bind_outcome, ◌>>=◌, ◌>>◌, set, safety,
}
use easy_navigation.SafetyChannel.Monitor.{Evaluation, evaluate}
use easy_navigation.RtMonitor.{RtMonitor, Status, cycle_started}
use easy_navigation.MethodUpdate.{on_nav}
use easy_navigation.SafetySupervisor.{
  SafetySupervisor, Heartbeat, Print, is_error, report_rt_status,
}
use easy_navigation.SafetySupervisor.Reports.{check_pose_age, report_safety_status}

module _ (a : Arith) (print : Print) where
  abbrev beat_due : Option ℤ → Double → ℤ → Bool
  beat_due none period now = true
  beat_due (some t) period now = le period (a.seconds (now -ℤ t))

  unfoldable pub next_heartbeat : ℤ → Status → SafetySupervisor → Heartbeat
  next_heartbeat stamp status s = record h {
    stamp = stamp;
    sequence = (h.sequence + 1) % 2 ^ 64;
    rt_status = status;
    late_cycles = m.late_cycles;
  }
    where
      h : Heartbeat
      h = s.heartbeat

      m : RtMonitor
      m = s.rt_monitor

  unfoldable pub beat : ℤ → ℤ → Status → SafetySupervisor → SafetySupervisor
  unfolding le next_heartbeat
  beat now stamp status s =
      if s.heartbeat_pub && beat_due s.last_heartbeat s.heartbeat_period now
      then record s {
        last_heartbeat = some now;
        heartbeat = next_heartbeat stamp status s;
        published = next_heartbeat stamp status s ∷ s.published;
      }
      else s

  unfoldable pub follow_channel :
      (String × Double → String) → ℤ → Exec (SafetySupervisor × NavState) (Unit {0})
  unfolding evaluate set report_safety_status
  follow_channel reason now (s, st) =
      let e = evaluate now s.safety_channel in
      branch s.safety_status_sub
        (on_nav (set "safety_status" (safety e.state)) >> report_safety_status a print reason e)
        (return tt) (s, st)

  -- Once it asks to stop, it keeps asking until activated again.
  unfoldable pub judge : Status → SafetySupervisor → SafetySupervisor
  judge status s =
      if s.safety_mode && is_error status && not (is_some s.failure)
      then record s {
        failure = some (
            "[safety.mode] "
            ++ print.count m.consecutive_late
            ++ " real-time cycles in a row started late");
      }
      else s
    where
      m : RtMonitor
      m = s.rt_monitor

  -- The first half of the cycle: the monitor, its report and the heartbeat.
  unfoldable pub supervise_rt : ℤ → ℤ → Exec (SafetySupervisor × NavState) Status
  unfolding cycle_started report_rt_status beat
  supervise_rt now stamp (s, st) =
      let m = cycle_started a now s.rt_monitor in
      bind_outcome (report_rt_status a print m.status now (record s { rt_monitor = m }, st))
        (λ _ (s', st'). return m.status (beat now stamp m.status s', st'))

  unfoldable pub conclude : Status → Exec (SafetySupervisor × NavState) Bool
  unfolding judge
  conclude status (s, st) = let s' = judge status s in return (not (is_some s'.failure)) (s', st)

  -- The second half, by the status of the first.
  abbrev pub finish : ℤ → Status → Exec (SafetySupervisor × NavState) Bool
  finish wall status = check_pose_age a print wall >> conclude status

  abbrev pub follow :
      (String × Double → String) → ℤ → ℤ → Status → Exec (SafetySupervisor × NavState) Bool
  follow reason now wall status = follow_channel reason now >> finish wall status

  unfoldable pub cycle_rt :
      (String × Double → String) → ℤ → ℤ → ℤ → Exec (SafetySupervisor × NavState) Bool
  unfolding supervise_rt follow_channel check_pose_age conclude
  cycle_rt reason now stamp wall = supervise_rt now stamp >>= follow reason now wall
