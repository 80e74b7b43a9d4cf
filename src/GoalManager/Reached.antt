-- ===== src/GoalManager/Reached.antt =====
-- The distances of GoalManager.cpp and check_goals(), which takes the front goal as reached.
use easy_navigation.Common.{◌*◌, ◌^◌, pos, Bool, false, ◌||◌, List, [], ◌∷◌, if◌then◌else◌}
use easy_navigation.Double.{Double, fin, zero_d, lt, le, abs, Arith}
use easy_navigation.Messages.{Quaternion, Pose, PoseStamped}
use easy_navigation.GoalManager.{GoalManager, GoalTolerance, next_revision}

-- The functions of the standard and tf2 libraries that the distances use; `to_float` rounds to a
-- float, as the message's field does.
pub record Geometry : Type 0 where
  pub arith : Arith
  pub hypot : Double → Double → Double
  pub fmod : Double → Double → Double
  pub get_yaw : Quaternion → Double
  pub to_float : Double → Double

-- M_PI and 2 * M_PI.
abbrev pi : Double
pi = fin (pos (884279719003555 * 2 ^ 1026))

abbrev two_pi : Double
two_pi = fin (pos (884279719003555 * 2 ^ 1027))

unfoldable pub calculate_distance_xy : Geometry → Pose → Pose → Double
calculate_distance_xy g p q =
    g.hypot (g.arith.sub p.position.x q.position.x) (g.arith.sub p.position.y q.position.y)

unfoldable pub norm_angle : Geometry → Double → Double
unfolding lt
norm_angle g angle =
    let out = g.fmod (g.arith.add angle pi) two_pi in
    g.arith.sub (if lt out zero_d then g.arith.add out two_pi else out) pi

unfoldable pub calculate_angle : Geometry → Pose → Pose → Double
unfolding norm_angle
calculate_angle g p q =
    norm_angle g (g.arith.sub (g.get_yaw p.orientation) (g.get_yaw q.orientation))

-- The tests of check_goals() on the front goal.
unfoldable pub is_reached : Geometry → Pose → GoalTolerance → Pose → Bool
unfolding calculate_distance_xy calculate_angle lt le abs
is_reached g current tolerance goal =
    if lt tolerance.position (calculate_distance_xy g current goal)
      || lt tolerance.height (abs (g.arith.sub current.position.z goal.position.z))
    then false
    else le (abs (calculate_angle g current goal)) tolerance.yaw

unfoldable pub check_goal_list :
    Geometry → Pose → GoalTolerance → List PoseStamped → GoalManager → GoalManager
unfolding is_reached
check_goal_list g current tolerance [] m = m
check_goal_list g current tolerance (first ∷ rest) m =
    if is_reached g current tolerance first.pose
    then record m {
      goals = record goals { goals = rest };
      goals_revision = next_revision m.goals_revision;
    }
    else m
  where
    open m use {goals}

unfoldable pub check_goals : Geometry → Pose → GoalTolerance → GoalManager → GoalManager
unfolding check_goal_list
check_goals g current tolerance m = check_goal_list g current tolerance m.goals.goals m
