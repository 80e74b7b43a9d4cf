-- ===== src/GoalManager/History.antt =====
-- The manager from its construction on: every history of messages, updates and calls of the other
-- components.
use easy_navigation.Common.{
  ◌*◌, ◌^◌, if◌then◌else◌, ℤ, pos, refl, Bool, true, false, Option, none, some, String, List, [],
  ◌∷◌, arith,
}
use easy_navigation.Double.{Double, fin, zero_d, le, Arith}
use easy_navigation.Messages.{no_goals, Odometry, PoseStamped, idle}
use easy_navigation.Control.{NavigationControl, no_control, no_info}
use easy_navigation.NavState.{
  NavState, Exec, return, ◌>>◌, odometry, state, bool, goals, type_code, lookup,
}
use easy_navigation.NavState.Rules.{Returns, returns, bind_rule}
use easy_navigation.NavState.Schema.{IsTyped}
use easy_navigation.GoalManager.{
  GoalManager, GoalTolerance, Clock, control_callback, comanded_pose_callback, set_failed,
  set_error, set_progress_held,
}
use easy_navigation.GoalManager.Invariant.{
  Inv, control_callback-Inv, comanded_pose-Inv, end_mission-Inv,
}
use easy_navigation.GoalManager.Update.{
  World, Environment, put, publish_all, modify, sync_tolerances, update,
}
use easy_navigation.GoalManager.Steps.{On, put_rule, sync_tolerances_rule}
use easy_navigation.GoalManager.Progress.{update-Inv}

-- The parameters that the constructor reads.
pub record Parameters : Type 0 where
  pub tolerance : GoalTolerance
  pub allow_preempt_goal : Bool
  pub update_frequency : Double

-- 1 / update_frequency as a duration; 20.0 in place of a frequency that is not positive.
unfoldable pub period : Arith → Double → ℤ
period a frequency = a.nanoseconds (
    a.div (fin (pos (2 ^ 1074)))
      (if le frequency zero_d then fin (pos (20 * 2 ^ 1074)) else frequency))

-- The member initialisers and `id_`, with the parameters' values from the start.
unfoldable pub new : Arith → Parameters → GoalManager
unfolding period
new a p = record {
  tolerance = p.tolerance;
  goals = no_goals;
  goals_revision = 0;
  last_control = no_control;
  id = "easynav_system";
  current_client_id = "";
  allow_preempt_goal = p.allow_preempt_goal;
  nav_start_time = pos 0;
  update_period = period a p.update_frequency;
  last_update_time = pos 0;
  first_update = true;
  state = idle;
  is_paused = false;
  progress_held = false;
  last_synced_state = idle;
  last_synced_paused = false;
  goals_synced_empty = true;
  info = no_info;
  info_final_pending = false;
}

unfoldable with_parameters : Arith → Parameters → GoalManager → GoalManager
unfolding period
with_parameters a p m = record m {
  tolerance = p.tolerance;
  allow_preempt_goal = p.allow_preempt_goal;
  update_period = period a p.update_frequency;
}

-- `none` once the node is gone.
unfoldable pub read_parameters : Arith → Option Parameters → Exec World (Unit {0})
unfolding with_parameters
read_parameters a none w = return tt w
read_parameters a (some p) w = (modify (with_parameters a p) >> sync_tolerances) w

-- What the constructor writes to the blackboard.
unfoldable pub construct : Arith → Parameters → Exec World (Unit {0})
unfolding read_parameters
construct a p w =
    (do
      put "navigation_state" (state w.gm.state)
      put "navigation_paused" (bool w.gm.is_paused)
      put "goals" (goals w.gm.goals)
      read_parameters a (some p))
      w

pub data Event : Type 0 where
  receives : Option Clock → NavigationControl → Event
  commands : Option Clock → PoseStamped → Event
  fails : String → Option Clock → Event
  errs : String → Option Clock → Event
  holds : Bool → Event
  localizes : Odometry → Event
  updates : Environment → Event
  configures : Arith → Option Parameters → Event

unfoldable pub step : Event → Exec World (Unit {0})
unfolding set_failed set_error
step (receives node msg) w = publish_all (control_callback node msg w.gm) w
step (commands node msg) w = publish_all (comanded_pose_callback node msg w.gm) w
step (fails reason node) w = publish_all (set_failed reason node w.gm) w
step (errs reason node) w = publish_all (set_error reason node w.gm) w
step (holds held) w = modify (set_progress_held held) w
step (localizes pose) w = put "robot_pose" (odometry pose) w
step (updates env) w = update env w
step (configures a p) w = read_parameters a p w

unfoldable pub run : List Event → Exec World (Unit {0})
run [] = return tt
run (e ∷ es) = do step e; run es

read_parameters_rule :
    (a : Arith) (p : Option Parameters) (w : World)
    → On Inv tt w
    → Returns (On Inv) (read_parameters a p w)
unfolding read_parameters
read_parameters_rule a none w h = returns tt refl h
read_parameters_rule a (some p) w (v, t) =
    bind_rule (On Inv) {f = λ _. sync_tolerances} (returns tt refl (v, t))
      (λ _ w' h'. sync_tolerances_rule w' h')

step-Inv : (e : Event) (w : World) → On Inv tt w → Returns (On Inv) (step e w)
unfolding step set_progress_held lookup type_code
step-Inv (receives node msg) w (v, t) = returns tt refl (control_callback-Inv node msg w.gm v, t)
step-Inv (commands node msg) w (v, t) = returns tt refl (comanded_pose-Inv node msg w.gm v, t)
step-Inv (fails reason node) w (v, t) = returns tt refl (end_mission-Inv _ reason node w.gm v, t)
step-Inv (errs reason node) w (v, t) = returns tt refl (end_mission-Inv _ reason node w.gm v, t)
step-Inv (holds held) w (v, t) = returns tt refl (v, t)
step-Inv (localizes pose) w h = put_rule Inv "robot_pose" (odometry pose) w refl h
step-Inv (updates env) w (v, t) = update-Inv env w v t
step-Inv (configures a p) w h = read_parameters_rule a p w h

run-Inv : (es : List Event) (w : World) → On Inv tt w → Returns (On Inv) (run es w)
unfolding run
run-Inv [] w h = returns tt refl h
run-Inv (e ∷ es) w h = bind_rule (On Inv) (step-Inv e w h) (λ _ w' h'. run-Inv es w' h')

new-Inv : (a : Arith) (p : Parameters) → Inv (new a p)
unfolding new
new-Inv a p = ground arith

construct_rule :
    (a : Arith) (p : Parameters) (w : World) → On Inv tt w → Returns (On Inv) (construct a p w)
unfolding construct lookup type_code
construct_rule a p w h =
    bind_rule (On Inv) (put_rule Inv "navigation_state" (state w.gm.state) w refl h) (λ _ w₁ h₁.
      bind_rule (On Inv) (put_rule Inv "navigation_paused" (bool w.gm.is_paused) w₁ refl h₁)
        (λ _ w₂ h₂.
          bind_rule (On Inv) (put_rule Inv "goals" (goals w.gm.goals) w₂ refl h₂)
            (λ _ w₃ h₃. read_parameters_rule a (some p) w₃ h₃)))

-- From the constructor on, on a blackboard whose keys have their types, no history of messages,
-- poses, failures, holds, parameters and updates makes the manager throw or take the front of an
-- empty list; after it there are goals exactly while a mission is active, only a mission is paused, and the end
-- of an active mission is still to be published.
pub construct-run-Inv :
    (a : Arith) (p : Parameters) (es : List Event) (nav : NavState)
    → IsTyped nav
    → Returns
        (λ _ w. Inv w.gm × IsTyped w.nav)
        ((do construct a p; run es) (record { gm = new a p; nav = nav; out = [] }))
construct-run-Inv a p es nav t =
    bind_rule (On Inv) (construct_rule a p _ (new-Inv a p, t)) (λ _ w h. run-Inv es w h)
