-- ===== src/Tests/Goals.antt =====
-- Runs of the goal manager, its client and the circular buffer.
use easy_navigation.Common.{
  ℕ, ◌+◌, pos, ◌+ℤ◌, ◌≡◌, ◌≢◌, refl, arith, true, false, Option, none, some, List, [], ◌∷◌, ◌++◌,
}
use easy_navigation.Messages.{Goals, Odometry, idle, active, no_header, no_goals}
use easy_navigation.Control.{
  NavigationControl, no_control, no_pose, no_info, request, reject, cancel,
}
use easy_navigation.NavState.{NavState, ok, ◌>>◌, odometry, empty, set, type_code, lookup}
use easy_navigation.NavState.Rules.{Returns}
use easy_navigation.NavState.Schema.{IsTyped, empty-IsTyped, set-IsTyped}
use easy_navigation.GoalManager.{GoalManager, Output, Clock, control, control_callback}
use easy_navigation.GoalManager.Reached.{Geometry}
use easy_navigation.GoalManager.Update.{Environment, update}
use easy_navigation.GoalManager.Invariant.{Inv}
use easy_navigation.GoalManager.Progress.{update-Inv}
use easy_navigation.GoalManager.Replies.{
  mission, control_callback_replies, control_callback_refuses, control_callback_keeps,
}
use easy_navigation.GoalManager.History
use easy_navigation.GoalManager.History.{
  Parameters, Event, receives, updates, configures, localizes, construct, construct-run-Inv,
}
use easy_navigation.GoalManagerClient
use easy_navigation.GoalManagerClient.{GoalManagerClient, accepted_and_navigating, cancel_mission}
use easy_navigation.GoalManagerClient.Linked
use easy_navigation.GoalManagerClient.Linked.{message, sending, pausing, cancel-run}
use easy_navigation.GoalManagerClient.Protocol.{deliver, send_goals-accepted}
use easy_navigation.CircularBuffer
use easy_navigation.CircularBuffer.{CircularBuffer}
use easy_navigation.CircularBuffer.Invariant.{IsValid}
use easy_navigation.CircularBuffer.Refine.{contents}
use easy_navigation.CircularBuffer.Calls
use easy_navigation.CircularBuffer.Calls.{
  Call, pushing, popping, reading, clearing, run_queue, run_refines,
}
use easy_navigation.Tests.Data.{truncating, whole}

abbrev clock : Clock
clock i = pos (1000 + i)

abbrev geometry : Geometry
geometry = record {
  arith = truncating;
  hypot = λ x y. truncating.add x y;
  fmod = λ x y. x;
  get_yaw = λ q. q.qz;
  to_float = λ x. x;
}

abbrev environment : Environment
environment = record {
  node = some clock;
  subscribed = true;
  geometry = geometry;
  equal_goals = λ a b. false;
}

abbrev parameters : Parameters
parameters = record {
  tolerance = record { position = whole 1; height = whole 1; yaw = whole 1 };
  allow_preempt_goal = true;
  update_frequency = whole 10;
}

abbrev two_goals : Goals
two_goals = record { header = no_header; goals = no_pose ∷ no_pose ∷ [] }

abbrev here : Odometry
here = record { header = no_header; pose = no_pose.pose }

abbrev going : NavigationControl
going = record no_control { user_id = "operator"; goals = two_goals }

abbrev idle_manager : GoalManager
idle_manager = record {
  tolerance = parameters.tolerance;
  goals = no_goals;
  goals_revision = 0;
  last_control = no_control;
  id = "easynav_system";
  current_client_id = "";
  allow_preempt_goal = true;
  nav_start_time = pos 0;
  update_period = pos 100000000;
  last_update_time = pos 0;
  first_update = true;
  state = idle;
  is_paused = false;
  progress_held = false;
  last_synced_state = idle;
  last_synced_paused = false;
  goals_synced_empty = true;
  info = no_info;
  info_final_pending = false;
}

abbrev active_manager : GoalManager
active_manager = record idle_manager {
  state = active;
  goals = two_goals;
  current_client_id = "operator";
  goals_synced_empty = false;
  info_final_pending = true;
}

-- The pose is known.
abbrev located : NavState
located = (set "robot_pose" (odometry here) empty).1

located-IsTyped : IsTyped located
unfolding lookup type_code
located-IsTyped = (set-IsTyped "robot_pose" (odometry here) empty refl empty-IsTyped).1

active-Inv : Inv active_manager
active-Inv = record { has_goals = refl; pauses = refl; syncs = refl; announces = refl }

abbrev history : List Event
history =
    localizes here
    ∷ receives (some clock) going
    ∷ updates environment
    ∷ configures truncating (some parameters)
    ∷ receives (some clock) (record going { type = cancel })
    ∷ updates environment
    ∷ []

construct-run-Inv_example :
    Returns
      (λ _ w. Inv w.gm × IsTyped w.nav)
      ((do construct truncating parameters; History.run history)
        (record { gm = History.new truncating parameters; nav = empty; out = [] }))
construct-run-Inv_example = construct-run-Inv truncating parameters history empty empty-IsTyped

update-Inv_example :
    Returns
      (λ _ w'. Inv w'.gm × IsTyped w'.nav)
      (update environment (record { gm = active_manager; nav = located; out = [] }))
update-Inv_example =
    update-Inv environment (record { gm = active_manager; nav = located; out = [] }) active-Inv
      located-IsTyped

control_callback_replies_example :
    (before : List Output) × (r : NavigationControl) × ((control_callback
        (some clock)
        going
        active_manager).1
      ≡ before ++ control r ∷ [])
    × (r.seq ≡ going.seq +ℤ pos 1)
    × (r.user_id ≡ active_manager.id)
control_callback_replies_example = control_callback_replies clock going active_manager refl

abbrev no_goals_request : NavigationControl
no_goals_request = record going { goals = no_goals }

control_callback_refuses_example :
    (r : NavigationControl) × (control_callback (some clock) no_goals_request active_manager
      ≡ (record active_manager { last_control = no_goals_request }, control r ∷ []))
    × (r.type ≡ reject)
control_callback_refuses_example =
    control_callback_refuses clock no_goals_request active_manager refl refl refl

abbrev foreign_cancel : NavigationControl
foreign_cancel = record no_control { type = cancel; user_id = "stranger" }

not_request : cancel ≢ request
not_request e = cc

control_callback_keeps_example :
    mission (control_callback (some clock) foreign_cancel active_manager).0 ≡ mission active_manager
control_callback_keeps_example =
    control_callback_keeps clock foreign_cancel active_manager not_request refl

abbrev client : GoalManagerClient
client = GoalManagerClient.new "panel"

send_goals-accepted_example :
    (c' : GoalManagerClient) × (msg : NavigationControl) × (GoalManagerClient.send_goals two_goals
        client
      ≡ (c', some msg))
    × (mission (control_callback (some clock) msg idle_manager).0 ≡ (active, two_goals, client.id))
    × ((deliver (control_callback (some clock) msg idle_manager).1 c').state
        ≡ accepted_and_navigating)
unfolding GoalManagerClient.new
send_goals-accepted_example =
    send_goals-accepted clock two_goals client idle_manager refl refl refl refl

cancel-run_example :
    (out : Option NavigationControl) × (cancel_mission (
        Linked.run
          (sending two_goals ∷ message no_control ∷ pausing ∷ [])
          (GoalManagerClient.new "panel"))
      ≡ ok out)
cancel-run_example = cancel-run "panel" (sending two_goals ∷ message no_control ∷ pausing ∷ [])

-- Four pushes into three places, and a wrapped read.
abbrev calls : List (Call ℕ)
calls =
    pushing 1
    ∷ pushing 2
    ∷ pushing 3
    ∷ pushing 4
    ∷ reading
    ∷ popping
    ∷ popping
    ∷ clearing
    ∷ popping
    ∷ []

abbrev half_full : CircularBuffer ℕ
half_full = record { buffer = 7 ∷ 8 ∷ 9 ∷ []; capacity = 3; head = 1; tail = 2; size = 2 }

half_full-IsValid : IsValid half_full
half_full-IsValid = record {
  storage = refl;
  tail_in = omega arith;
  size_in = omega arith;
  head_at = refl;
}

run_refines_example :
    Calls.run 0 calls half_full ≡ run_queue half_full.capacity calls (contents 0 half_full)
run_refines_example = run_refines 0 calls half_full half_full-IsValid

calls_answered : run_queue 3 calls [] ≡ some 4 ∷ some 2 ∷ some 3 ∷ none ∷ []
unfolding run_queue CircularBuffer.Queue.push CircularBuffer.Queue.pop CircularBuffer.Queue.latest
calls_answered = refl
