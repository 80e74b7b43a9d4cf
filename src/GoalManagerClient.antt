-- ===== src/GoalManagerClient.antt =====
-- easynav_system GoalManagerClient: a client of the goal manager, which follows what the manager
-- answers. `last_control` is a null pointer at first; the node and its logs are left out.
pub mod Linked
pub mod Protocol
use Prim.Native.String.{◌++◌ as append}
use easy_navigation.Common.{
  pos, ◌+ℤ◌, Bool, true, false, not, ◌||◌, Option, none, some, String, List, [], ◌∷◌, is_empty,
  if◌then◌else◌, str_eq,
}
use easy_navigation.Messages.{Header, Goals, PoseStamped}
use easy_navigation.NavState.{Outcome, ok, throws, undefined_behaviour}
use easy_navigation.Control.{
  ControlType, NavigationControl, no_control, request, reject, accept, feedback, finished, failed,
  cancel, cancelled, error, pause, resume, paused, resumed,
}

-- `GoalManagerClient::State`.
pub data ClientState : Type 0 where
  idle sent_goal sent_preempt accepted_and_navigating navigation_finished navigation_rejected
        navigation_failed navigation_cancelled in_error :
      ClientState

pub record GoalManagerClient : Type 0 where
  pub last_control : Option NavigationControl
  pub last_feedback : NavigationControl
  pub last_result : NavigationControl
  pub id : String
  pub state : ClientState
  pub is_paused : Bool

unfoldable pub new : String → GoalManagerClient
new node_name = record {
  last_control = none;
  last_feedback = no_control;
  last_result = no_control;
  id = append node_name "_goal_manager_client";
  state = idle;
  is_paused = false;
}

unfoldable pub answer_to_goal : ControlType → ClientState
answer_to_goal accept = accepted_and_navigating
answer_to_goal reject = navigation_failed
answer_to_goal _ = in_error

unfoldable pub answer_to_preempt :
    ControlType → NavigationControl → GoalManagerClient → GoalManagerClient
answer_to_preempt feedback msg c = record c { last_feedback = msg }
answer_to_preempt accept msg c = record c { state = accepted_and_navigating }
answer_to_preempt reject msg c = record c { state = accepted_and_navigating }
answer_to_preempt _ msg c = record c { state = in_error }

-- The mission is over, and `msg` is its result.
abbrev over : ClientState → NavigationControl → GoalManagerClient → GoalManagerClient
over how msg c = record c { last_result = msg; state = how; is_paused = false }

unfoldable pub progress : ControlType → NavigationControl → GoalManagerClient → GoalManagerClient
progress feedback msg c = record c { last_feedback = msg }
progress finished msg c = over navigation_finished msg c
progress failed msg c = over navigation_failed msg c
progress cancelled msg c = over navigation_cancelled msg c
progress _ msg c = record c { last_result = msg; state = in_error }

-- The switch on the state; a rejected navigation falls into its `default`.
unfoldable pub follow : ClientState → NavigationControl → GoalManagerClient → GoalManagerClient
unfolding answer_to_goal answer_to_preempt progress
follow idle msg c = c
follow navigation_finished msg c = c
follow navigation_failed msg c = c
follow navigation_cancelled msg c = c
follow in_error msg c = c
follow sent_goal msg c = record c { state = answer_to_goal msg.type }
follow sent_preempt msg c = answer_to_preempt msg.type msg c
follow accepted_and_navigating msg c = progress msg.type msg c
follow navigation_rejected msg c = record c { state = in_error }

-- A message for this client: pausing is told in any state, all else follows the state.
unfoldable pub receive : ControlType → NavigationControl → GoalManagerClient → GoalManagerClient
unfolding follow
receive paused msg c = record c { is_paused = true }
receive resumed msg c = record c { is_paused = false }
receive _ msg c = follow c.state msg c

abbrev remember : NavigationControl → GoalManagerClient → GoalManagerClient
remember msg c = record c { last_control = some msg }

unfoldable pub control_callback : NavigationControl → GoalManagerClient → GoalManagerClient
unfolding receive
control_callback msg c =
    if str_eq msg.user_id c.id || not (str_eq msg.nav_current_user_id c.id)
    then c
    else remember msg (receive msg.type msg c)

-- `last_control_`, made if there is none.
abbrev pub control_or_new : Option NavigationControl → NavigationControl
control_or_new none = no_control
control_or_new (some last) = last

abbrev pub message_after :
    ControlType → Header → NavigationControl → GoalManagerClient → NavigationControl
message_after type header last c = record no_control {
  type = type;
  header = header;
  user_id = c.id;
  seq = last.seq +ℤ pos 1;
}

abbrev pub request_for : Goals → NavigationControl → GoalManagerClient → NavigationControl
request_for goals last c = record no_control {
  type = request;
  header = goals.header;
  user_id = c.id;
  seq = last.seq +ℤ pos 1;
  goals = goals;
}

-- The state that a request leads to, if one may be sent.
unfoldable pub request_state : ClientState → Option ClientState
request_state idle = some sent_goal
request_state accepted_and_navigating = some sent_preempt
request_state _ = none

-- The new state, and what is published.
abbrev Sent : Type 0
Sent = GoalManagerClient × Option NavigationControl

abbrev send_as : Option ClientState → Goals → NavigationControl → GoalManagerClient → Sent
send_as none goals last c = (record c { last_control = some last }, none)
send_as (some s) goals last c =
    (record c { last_control = some last; state = s }, some (request_for goals last c))

unfoldable pub send_goals : Goals → GoalManagerClient → Sent
unfolding request_state
send_goals goals c =
    let last = control_or_new c.last_control in
    if is_empty goals.goals
    then (record c { last_control = some last }, none)
    else send_as (request_state c.state) goals last c

unfoldable pub send_goal : PoseStamped → GoalManagerClient → Sent
unfolding send_goals
send_goal goal c = send_goals (record { header = goal.header; goals = goal ∷ [] }) c

-- cancel() reads `last_control_` without a test.
abbrev cancel_after :
    Option NavigationControl → GoalManagerClient → Outcome (Option NavigationControl)
cancel_after none c = throws undefined_behaviour
cancel_after (some last) c = ok (some (message_after cancel last.header last c))

unfoldable pub cancel_from : ClientState → GoalManagerClient → Outcome (Option NavigationControl)
cancel_from accepted_and_navigating c = cancel_after c.last_control c
cancel_from _ c = ok none

unfoldable pub cancel_mission : GoalManagerClient → Outcome (Option NavigationControl)
unfolding cancel_from
cancel_mission c = cancel_from c.state c

-- pause() and resume().
unfoldable pub send_control : ControlType → GoalManagerClient → Sent
send_control type c =
    let last = control_or_new c.last_control in
    (record c { last_control = some last }, some (message_after type last.header last c))

unfoldable pub pause_mission : GoalManagerClient → Sent
unfolding send_control
pause_mission = send_control pause

unfoldable pub resume_mission : GoalManagerClient → Sent
unfolding send_control
resume_mission = send_control resume

unfoldable pub reset_state : ClientState → ClientState
reset_state navigation_finished = idle
reset_state navigation_rejected = idle
reset_state navigation_failed = idle
reset_state navigation_cancelled = idle
reset_state in_error = idle
reset_state s = s

unfoldable pub reset : GoalManagerClient → GoalManagerClient
unfolding reset_state
reset c = record c { state = reset_state c.state }
