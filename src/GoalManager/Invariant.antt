-- ===== src/GoalManager/Invariant.antt =====
-- What holds of the manager between two calls, and that every handler of a message keeps it.
use easy_navigation.Common.{
  ◌≡◌, Bool, true, false, not, ◌&&◌, ◌||◌, Option, none, some, String, List, arith, is_empty,
  Bool-cases, inl, inr, str_eq,
}
use easy_navigation.Messages.{PoseStamped, NavigationState}
use easy_navigation.Control.{ControlType, NavigationControl, request, cancel, pause, resume}
use easy_navigation.GoalManager.{
  GoalManager, Clock, is_idle, end_mission, dispatch, on_request, on_cancel, on_pause, on_resume,
  reply, control_callback, comanded_pose_callback,
}

pub record IsCoherent (state : NavigationState) (goals : List PoseStamped)
    (is_paused goals_synced_empty pending : Bool) : Type 0 where
  -- There are goals exactly during a mission.
  pub has_goals : is_idle state ≡ is_empty goals
  -- Only a mission is paused.
  pub pauses : (is_paused && is_idle state) ≡ false
  -- The goals of a mission, and its end, are still to be told.
  pub syncs : (is_idle state || not goals_synced_empty) ≡ true
  pub announces : (is_idle state || pending) ≡ true

abbrev pub Inv : GoalManager → Type 0
Inv m = IsCoherent m.state m.goals.goals m.is_paused m.goals_synced_empty m.info_final_pending

on_request-Inv :
    (clock : Clock) (msg response : NavigationControl) (m : GoalManager)
    → Inv m
    → Inv (on_request clock msg response m).0
unfolding on_request
on_request-Inv clock msg response m v = ground arith

dispatch-Inv :
    (type : ControlType) (clock : Clock) (msg response : NavigationControl) (m : GoalManager)
    → Inv m
    → Inv (dispatch type clock msg response m).0
unfolding dispatch on_cancel on_pause on_resume
dispatch-Inv request clock msg response m v = on_request-Inv clock msg response m v
dispatch-Inv cancel clock msg response m v = ground arith
dispatch-Inv pause clock msg response m v = ground arith
dispatch-Inv resume clock msg response m v = ground arith
dispatch-Inv _ clock msg response m v = v

pub control_callback-Inv :
    (node : Option Clock) (msg : NavigationControl) (m : GoalManager)
    → Inv m
    → Inv (control_callback node msg m).0
unfolding control_callback
control_callback-Inv none msg m v = ground arith
control_callback-Inv (some clock) msg m v = elim (Bool-cases (str_eq msg.user_id m.id)) [
  | inl own ↦ rw own v
  | inr other ↦ rw other (dispatch-Inv msg.type clock msg (reply m msg (clock 0)) m v)
]

pub comanded_pose-Inv :
    (node : Option Clock) (msg : PoseStamped) (m : GoalManager)
    → Inv m
    → Inv (comanded_pose_callback node msg m).0
unfolding comanded_pose_callback
comanded_pose-Inv node msg m v = control_callback-Inv node _ m v

pub end_mission-Inv :
    (how : ControlType) (why : String) (node : Option Clock) (m : GoalManager)
    → Inv m
    → Inv (end_mission how why node m).0
unfolding end_mission
end_mission-Inv how why none m v = v
end_mission-Inv how why (some clock) m v = ground arith
