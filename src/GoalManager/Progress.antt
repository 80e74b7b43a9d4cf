-- ===== src/GoalManager/Progress.antt =====
-- update() on a typed blackboard: it throws nothing, reads no front of an empty list, and keeps the
-- manager's invariant.
use easy_navigation.Common.{
  ◌≡◌, refl, true, false, Option, none, some, List, [], ◌∷◌, arith, is_empty, sym, subst,
}
use easy_navigation.Messages.{Odometry, PoseStamped}
use easy_navigation.NavState.{as_odometry, lookup, has, get_safe}
use easy_navigation.NavState.Laws.{get_odometry}
use easy_navigation.NavState.Rules.{Returns, returns, bind_rule, branch_rule, weaken_rule}
use easy_navigation.NavState.Schema.{IsTyped}
use easy_navigation.GoalManager.{GoalManager, Clock, is_idle}
use easy_navigation.GoalManager.Invariant.{Inv}
use easy_navigation.GoalManager.Steps.{
  On, IsOn, Idle, sync_state_rule, sync_paused_rule, sync_tolerances_rule, update_idle_rule,
  finish_rule, report_rule, sync_goals_rule, check_rule,
}
use easy_navigation.GoalManager.Update.{
  update_mission, World, Environment, call, front_goal, publish_feedback, measure, pursue,
  update_active, update,
}

pursue_rule :
    (env : Environment) (clock : Clock) (odom : Odometry) (first : PoseStamped) (w : World)
    → On IsOn tt w
    → Returns (On Inv) (pursue env clock odom first w)
unfolding pursue measure publish_feedback
pursue_rule env clock odom first w h =
    bind_rule (On IsOn) (branch_rule _ _ _ (λ _. returns tt refl h) (λ _. returns tt refl h))
      (λ _ w₁ h₁. bind_rule (On IsOn) (check_rule env odom.pose _ h₁) (λ _ w₂ h₂.
        bind_rule (On IsOn) (sync_goals_rule env w₂ h₂) (λ _ w₃ h₃.
          bind_rule (On Inv) (finish_rule _ w₃ h₃) (λ _ w₄ h₄.
            bind_rule (On Inv) (sync_state_rule w₄ h₄) (λ _ w₅ h₅. report_rule env _ w₅ h₅)))))

Inv-IsOn : (m : GoalManager) → Inv m → is_idle m.state ≡ false → IsOn m
Inv-IsOn m v e = ground arith

-- The front of a mission's goals, which are not empty.
front_rule :
    (l : List PoseStamped) (w : World)
    → is_empty l ≡ false
    → On IsOn tt w
    → Returns (λ _. On IsOn tt) (front_goal l w)
unfolding front_goal
front_rule [] w e h = cc
front_rule (first ∷ rest) w e h = returns first refl h

pose_read :
    (w : World)
    → has "robot_pose" w.nav ≡ true
    → On Inv tt w
    → Returns (λ _ w'. On Inv tt w' × (w'.gm ≡ w.gm)) (call (get_safe as_odometry "robot_pose") w)
unfolding lookup
pose_read w h (v, t) =
    let (o, e) = get_odometry "robot_pose" w.nav h (t "robot_pose" 5 refl) in
    rw e (returns o refl ((v, t), refl))

update_active_rule :
    (env : Environment) (node : Option Clock) (w : World)
    → is_idle w.gm.state ≡ false
    → On Inv tt w
    → Returns (On Inv) (update_active env node w)
unfolding update_active
update_active_rule env none w i h = returns tt refl h
update_active_rule env (some clock) w i h =
    branch_rule _ _ _ (λ _. returns tt refl h)
      (λ e.
        bind_rule (λ _ w'. On Inv tt w' × (w'.gm ≡ w.gm)) (pose_read w (ground arith) h)
          (λ odom w' (h', same).
            bind_rule (λ _. On IsOn tt)
              (front_rule w.gm.goals.goals w' (ground arith)
                (subst IsOn (sym same) (Inv-IsOn w.gm h.0 i), h'.1))
              (λ first w'' h''. pursue_rule env clock odom first w'' h'')))

update_mission_rule :
    (env : Environment) (w : World) → On Inv tt w → Returns (On Inv) (update_mission env w)
update_mission_rule env w h =
    branch_rule _ _ _
      (λ e.
        weaken_rule (On Idle) (update_idle_rule env w ((h.0, e), h.1)) (λ _ w' h'. (h'.0.0, h'.1)))
      (λ e. update_active_rule env env.node w e h)

-- On a blackboard whose keys have their types, update() throws nothing and never takes the front of
-- an empty list of goals; it keeps the manager's invariant and the keys' types.
pub update-Inv :
    (env : Environment) (w : World)
    → Inv w.gm
    → IsTyped w.nav
    → Returns (λ _ w'. Inv w'.gm × IsTyped w'.nav) (update env w)
unfolding update
update-Inv env w v t = bind_rule (On Inv) (sync_state_rule w (v, t)) (λ _ w₁ h₁.
    bind_rule (On Inv) (sync_paused_rule w₁ h₁) (λ _ w₂ h₂.
      bind_rule (On Inv) (sync_tolerances_rule w₂ h₂) (λ _ w₃ h₃. update_mission_rule env w₃ h₃)))
