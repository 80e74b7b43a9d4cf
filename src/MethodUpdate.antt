-- ===== src/MethodUpdate.antt =====
-- easynav_core PlannerMethodBase and MapsManagerBase, and what the updates of all plugins share. A
-- plugin's own update is an argument; whatever it throws is caught. `reads` are the clock's
-- readings in the order in which the code takes them. The logging and the tracing are left out.
pub mod Controller
pub mod Localizer
use easy_navigation.Common.{ℤ, Bool, true, false, some, String}
use easy_navigation.Double.{Arith}
use easy_navigation.NavState.{
  NavState, Outcome, ok, throws, undefined_behaviour, Exec, return, branch, bind_outcome, ◌>>=◌,
  ◌>>◌,
}
use easy_navigation.MethodBase.{MethodBase, Format, is_time2_run, set_run_cycle, report_rate}

-- `try { m(); } catch (...) { failed = true; }`: whether it failed.
abbrev pub caught : {S : Type 0} → Outcome (Unit {0}) × S → Outcome Bool × S
caught (ok u, s) = (ok false, s)
caught (throws undefined_behaviour, s) = (throws undefined_behaviour, s)
caught (throws e, s) = (ok true, s)

unfoldable pub attempt : {S : Type 0} → Exec S (Unit {0}) → Exec S Bool
attempt m s = caught (m s)

-- The names that the node and the transforms have.
pub record Names : Type 0 where
  pub node_name : String
  pub map_frame : String
  pub robot_frame : String

pub record Reads : Type 0 where
  pub reported : ℤ
  pub checked : ℤ
  pub ran : ℤ
  pub stopped : ℤ

abbrev pub on_nav : {M A : Type 0} → Exec NavState A → Exec (M × NavState) A
on_nav f (m, st) = let (r, st') = f st in (r, (m, st'))

module _ (a : Arith) (format : Format) (names : Names) (reads : Reads) where
  -- PlannerMethodBase::internal_update() and MapsManagerBase::internal_update(), which are the same
  -- code.
  unfoldable pub run_update : Exec NavState (Unit {0}) → Exec (MethodBase × NavState) (Unit {0})
  unfolding set_run_cycle attempt
  run_update update (m, st) =
      on_nav (attempt update >>= (λ _. return tt)) (set_run_cycle a (some reads.ran) m, st)

  unfoldable pub check_update : Exec NavState (Unit {0}) → Exec (MethodBase × NavState) (Unit {0})
  unfolding is_time2_run run_update
  check_update update (m, st) =
      let (due, m') = is_time2_run a (some reads.checked) m in
      branch due (run_update update) (return tt) (m', st)

  unfoldable pub internal_update :
      Exec NavState (Unit {0}) → Exec (MethodBase × NavState) (Unit {0})
  unfolding report_rate check_update
  internal_update update =
      report_rate a format names.node_name (some reads.reported) >> check_update update

  -- PlannerMethodBase::force_update().
  unfoldable pub force_update : Exec NavState (Unit {0}) → Exec (MethodBase × NavState) (Unit {0})
  unfolding run_update
  force_update update = run_update update
