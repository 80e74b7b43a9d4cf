-- ===== src/MethodUpdate/Localizer.antt =====
-- easynav_core LocalizerMethodBase: the updates of a localizer plugin, and the pose known from
-- before it was loaded.
pub mod Pose
use easy_navigation.Common.{
  Bool, true, false, not, ◌&&◌, ◌||◌, some, String, List, [], ◌∷◌, ◌++◌, if◌then◌else◌, str_eq,
}
use easy_navigation.Double.{zero_d, eq, is_finite, Arith}
use easy_navigation.Messages.{Odometry, Quaternion, Vector3}
use easy_navigation.NavState.{
  NavState, Outcome, ok, throws, Exec, return, branch, bind_outcome, ◌>>=◌, ◌>>◌, has, get_safe,
  as_odometry,
}
use easy_navigation.MethodBase.{
  MethodBase, Format, is_time2_run_rt, is_time2_run, set_run_rt, set_run_cycle, report_rt_rate,
  report_rate,
}
use easy_navigation.MethodUpdate.{Names, Reads, attempt, on_nav}

-- `known_poses` are the poses given to on_last_known_pose(), the latest first.
pub record LocalizerMethodBase : Type 0 where
  pub method : MethodBase
  pub last_known_pose_once : Bool
  pub known_poses : List Odometry

unfoldable pub is_valid_pose : String → Odometry → Bool
unfolding is_finite eq
is_valid_pose map_frame odom =
    let p = odom.pose.position in
    let q = odom.pose.orientation in
    is_finite p.x
    && is_finite p.y
    && is_finite p.z
    && is_finite q.qx
    && is_finite q.qy
    && is_finite q.qz
    && is_finite q.qw
    && (not (eq q.qx zero_d)
        || not (eq q.qy zero_d)
        || not (eq q.qz zero_d)
        || not (eq q.qw zero_d))
    && str_eq odom.header.frame_id map_frame

abbrev usable : String → Outcome Odometry → List Odometry
usable map_frame (ok odom) = if is_valid_pose map_frame odom then odom ∷ [] else []
usable map_frame (throws e) = []

-- The pose that the plugin is given, if any: an exception is caught.
unfoldable pub last_known_pose : String → NavState → List Odometry
unfolding has get_safe is_valid_pose
last_known_pose map_frame st =
    if has "robot_pose" st then usable map_frame (get_safe as_odometry "robot_pose" st).0 else []

unfoldable pub check_last_known_pose : String → NavState → LocalizerMethodBase → LocalizerMethodBase
unfolding last_known_pose
check_last_known_pose map_frame st l = if l.last_known_pose_once then l else record l {
  last_known_pose_once = true;
  known_poses = last_known_pose map_frame st ++ l.known_poses;
}

abbrev on_method :
    {A : Type 0} → Exec (MethodBase × NavState) A → Exec (LocalizerMethodBase × NavState) A
on_method f (l, st) = let (r, (m, st')) = f (l.method, st) in (r, (record l { method = m }, st'))

module _ (a : Arith) (format : Format) (names : Names) (reads : Reads) where
  unfoldable pub run_rt : Exec NavState (Unit {0}) → Exec (LocalizerMethodBase × NavState) Bool
  unfolding set_run_rt check_last_known_pose attempt
  run_rt update_rt (l, st) = on_nav (attempt update_rt >>= (λ _. return true)) (
    check_last_known_pose names.map_frame st
        (record l { method = set_run_rt a (some reads.ran) l.method }),
    st,
  )

  unfoldable pub check_rt :
      Exec NavState (Unit {0}) → Bool → Exec (LocalizerMethodBase × NavState) Bool
  unfolding is_time2_run_rt run_rt
  check_rt update_rt trigger (l, st) =
      let (due, m) = is_time2_run_rt a (some reads.checked) l.method in
      branch (due || trigger) (run_rt update_rt) (return false) (record l { method = m }, st)

  unfoldable pub internal_update_rt :
      Exec NavState (Unit {0}) → Bool → Exec (LocalizerMethodBase × NavState) Bool
  unfolding report_rt_rate check_rt
  internal_update_rt update_rt trigger =
      on_method (report_rt_rate a format names.node_name (some reads.reported))
      >> check_rt update_rt trigger

  unfoldable pub run : Exec NavState (Unit {0}) → Exec (LocalizerMethodBase × NavState) (Unit {0})
  unfolding set_run_cycle check_last_known_pose attempt
  run update (l, st) = on_nav (attempt update >>= (λ _. return tt)) (
    check_last_known_pose names.map_frame st
        (record l { method = set_run_cycle a (some reads.ran) l.method }),
    st,
  )

  unfoldable pub check : Exec NavState (Unit {0}) → Exec (LocalizerMethodBase × NavState) (Unit {0})
  unfolding is_time2_run run
  check update (l, st) =
      let (due, m) = is_time2_run a (some reads.checked) l.method in
      branch due (run update) (return tt) (record l { method = m }, st)

  unfoldable pub internal_update :
      Exec NavState (Unit {0}) → Exec (LocalizerMethodBase × NavState) (Unit {0})
  unfolding report_rate check
  internal_update update =
      on_method (report_rate a format names.node_name (some reads.reported)) >> check update
