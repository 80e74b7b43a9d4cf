-- ===== src/GoalManager/Update.antt =====
-- GoalManager::update() and publish_final_info(), over the blackboard.
use easy_navigation.Common.{
  ℕ, ◌+◌, pos, ◌+ℤ◌, ◌-ℤ◌, leb_ℤ, Bool, true, false, not, ◌&&◌, ◌||◌, Option, none, some, String,
  List, [], ◌∷◌, ◌++◌, is_empty, if◌then◌else◌,
}
use easy_navigation.Messages.{
  Pose, Goals, no_goals, PoseStamped, Odometry, NavigationState, idle, active, no_header,
}
use easy_navigation.Control.{NavigationControl, GoalManagerInfo, no_control, feedback}
use easy_navigation.NavState.{
  NavState, undefined_behaviour, Outcome, ok, throws, Exec, branch, return, ◌>>=◌, ◌>>◌, Value,
  real, state, bool, goals, as_odometry, as_goals, has, set, get_safe,
}
use easy_navigation.GoalManager.{
  GoalManager, Output, control, information, Clock, is_idle, next_revision, set_finished,
}
use easy_navigation.GoalManager.Reached.{
  Geometry, calculate_distance_xy, calculate_angle, check_goals,
}

-- What update() works on: the manager, the blackboard, and what it has published so far.
pub record World : Type 0 where
  pub gm : GoalManager
  pub nav : NavState
  pub out : List Output

-- `subscribed` says whether "easynav_manager_info" has subscribers; `equal_goals` is the messages'
-- `==`, whose doubles compare as IEEE's.
pub record Environment : Type 0 where
  pub node : Option Clock
  pub subscribed : Bool
  pub geometry : Geometry
  pub equal_goals : Goals → Goals → Bool

abbrev pub modify : (GoalManager → GoalManager) → Exec World (Unit {0})
modify f w = (ok tt, record w { gm = f w.gm })

abbrev pub publish : Output → Exec World (Unit {0})
publish o w = (ok tt, record w { out = w.out ++ o ∷ [] })

abbrev with_nav : {A : Type 0} → World → Outcome A × NavState → Outcome A × World
with_nav w (r, nav) = (r, record w { nav = nav })

-- A call on the blackboard.
abbrev pub call : {A : Type 0} → Exec NavState A → Exec World A
call m w = with_nav w (m w.nav)

-- `nav_state.set(key, value)`.
unfoldable pub put : String → Value → Exec World (Unit {0})
put key v = call (set key v)

abbrev when : Bool → Exec World (Unit {0}) → Exec World (Unit {0})
when b m = branch b m (return tt)

abbrev same_state : NavigationState → NavigationState → Bool
same_state idle idle = true
same_state active active = true
same_state _ _ = false

abbrev same_bool : Bool → Bool → Bool
same_bool true b = b
same_bool false b = not b

unfoldable pub sync_state : Exec World (Unit {0})
sync_state w =
    branch (same_state w.gm.last_synced_state w.gm.state) (return tt)
      (put "navigation_state" (state w.gm.state)
        >> modify (λ m. record m { last_synced_state = m.state }))
      w

unfoldable pub sync_paused : Exec World (Unit {0})
sync_paused w =
    branch (same_bool w.gm.last_synced_paused w.gm.is_paused) (return tt)
      (put "navigation_paused" (bool w.gm.is_paused)
        >> modify (λ m. record m { last_synced_paused = m.is_paused }))
      w

unfoldable pub sync_tolerances : Exec World (Unit {0})
sync_tolerances w =
    (put "goal_tolerance.position" (real w.gm.tolerance.position)
        >> put "goal_tolerance.height" (real w.gm.tolerance.height)
        >> put "goal_tolerance.yaw" (real w.gm.tolerance.yaw))
      w

abbrev with_info : GoalManager → NavigationState → GoalManagerInfo
with_info m s = record info { status = s; goals = goals }
  where
    open m use {info, goals}

unfoldable pub publish_final_info : Environment → Exec World (Unit {0})
publish_final_info env w =
    branch (not w.gm.info_final_pending) (return tt)
      (modify (λ m. record m { info_final_pending = false; info = with_info m idle })
        >> when env.subscribed (publish (information (with_info w.gm idle))))
      w

-- update() while no mission is active.
unfoldable pub update_idle : Environment → Exec World (Unit {0})
unfolding publish_final_info
update_idle env w =
    (publish_final_info env
        >> branch w.gm.goals_synced_empty (return tt) (
            modify
              (λ m. record m { goals = no_goals; goals_revision = next_revision m.goals_revision })
            >> put "goals" (goals no_goals)
            >> modify (λ m. record m { goals_synced_empty = true })))
      w

-- `goals_.goals.front()`.
unfoldable pub front_goal : List PoseStamped → Exec World PoseStamped
front_goal [] w = (throws undefined_behaviour, w)
front_goal (first ∷ rest) w = (ok first, w)

unfoldable pub feedback_message :
    Environment → Clock → Odometry → Pose → GoalManager → NavigationControl
feedback_message env clock odom first m = record no_control {
  type = feedback;
  header = record no_header { stamp = clock 0 };
  seq = last_control.seq +ℤ pos 1;
  user_id = id;
  nav_current_user_id = current_client_id;
  goals = goals;
  current_pose = record { header = odom.header; pose = odom.pose };
  navigation_time = clock 1 -ℤ nav_start_time;
  distance_to_goal = env.geometry.to_float (calculate_distance_xy env.geometry odom.pose first);
}
  where
    open m use {last_control, id, current_client_id, goals, nav_start_time}

-- Whether the periodic messages are due.
unfoldable pub should_publish : Clock → GoalManager → Bool
should_publish clock m = m.first_update || leb_ℤ m.update_period (clock 2 -ℤ m.last_update_time)

unfoldable pub publish_feedback : Clock → NavigationControl → Exec World (Unit {0})
publish_feedback clock message =
    publish (control message)
    >> modify
        (λ m. record m { last_control = message; first_update = false; last_update_time = clock 2 })

unfoldable pub measure : Environment → Odometry → Pose → NavigationControl → Exec World (Unit {0})
measure env odom first message = modify (λ m. record m {
  info =
      let i = m.info in
      record i {
        position_tolerance = m.tolerance.position;
        angle_tolerance = m.tolerance.yaw;
        position_distance = message.distance_to_goal;
        angle_distance = calculate_angle env.geometry odom.pose first;
      };
})

abbrev put_if_new : Environment → Goals → Exec World (Unit {0})
put_if_new env stored w =
    branch (env.equal_goals stored w.gm.goals) (return tt) (put "goals" (goals w.gm.goals)) w

unfoldable pub ensure_goals : Exec World (Unit {0})
ensure_goals w = branch (has "goals" w.nav) (return tt) (put "goals" (goals w.gm.goals)) w

unfoldable pub refresh_goals : Environment → Exec World (Unit {0})
refresh_goals env = do stored ← call (get_safe as_goals "goals"); put_if_new env stored

unfoldable pub sync_goals : Environment → Exec World (Unit {0})
sync_goals env = do ensure_goals; refresh_goals env

unfoldable pub check_progress : Environment → Pose → Exec World (Unit {0})
check_progress env current =
    modify (λ m. if m.progress_held then m else check_goals env.geometry current m.tolerance m)

abbrev pub publish_all : GoalManager × List Output → Exec World (Unit {0})
publish_all (m, os) w = (ok tt, record w { gm = m; out = w.out ++ os })

-- The mission is finished once no goal is left.
unfoldable pub finish_if_empty : Clock → Exec World (Unit {0})
finish_if_empty clock w =
    branch (is_empty w.gm.goals.goals) (publish_all (set_finished (some clock) w.gm)) (return tt) w

-- The end of update(): the final information, or the periodic one.
unfoldable pub report : Environment → Bool → Exec World (Unit {0})
report env due w =
    branch (is_idle w.gm.state) (publish_final_info env)
      (when (due && env.subscribed) (
        modify (λ m. record m { info = with_info m active })
        >> publish (information (with_info w.gm active))))
      w

abbrev clock_from : ℕ → Clock → Clock
clock_from k clock i = clock (k + i)

-- From the reading of the pose on, at the front goal `first`.
unfoldable pub pursue : Environment → Clock → Odometry → PoseStamped → Exec World (Unit {0})
pursue env clock odom first w =
    let message = feedback_message env clock odom first.pose w.gm in
    let due = should_publish clock w.gm in
    (do
      when due (publish_feedback clock message)
      measure env odom first.pose message
      check_progress env odom.pose
      sync_goals env
      finish_if_empty (clock_from 3 clock)
      sync_state
      report env due)
      w

-- update() while a mission is active.
unfoldable pub update_active : Environment → Option Clock → Exec World (Unit {0})
update_active env none w = return tt w
update_active env (some clock) w =
    branch (not (has "robot_pose" w.nav)) (return tt)
      (do
        odom ← call (get_safe as_odometry "robot_pose")
        first ← front_goal w.gm.goals.goals
        pursue env clock odom first)
      w

abbrev pub update_mission : Environment → Exec World (Unit {0})
update_mission env w = branch (is_idle w.gm.state) (update_idle env) (update_active env env.node) w

unfoldable pub update : Environment → Exec World (Unit {0})
update env = do sync_state; sync_paused; sync_tolerances; update_mission env
