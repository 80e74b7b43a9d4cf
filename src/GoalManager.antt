-- ===== src/GoalManager.antt =====
-- easynav_system GoalManager: the navigation requests, and the mission that they start and end.
-- A handler returns the new state and what it publishes, in order. `node` is the parent node, with
-- the readings of its clock during the call, or `none` once the node is gone. The sequence number
-- (int64) is unbounded here; `goals_revision` (uint64) wraps.
pub mod Reached
pub mod Update
pub mod Invariant
pub mod Steps
pub mod Progress
pub mod History
pub mod Replies
use Prim.Native.String.{◌++◌ as append}
use easy_navigation.Common.{
  ℕ, ◌+◌, ◌%◌, ◌^◌, ℤ, pos, ◌+ℤ◌, Bool, true, false, not, Option, none, some, String, List, [], ◌∷◌,
  ◌++◌, is_empty, if◌then◌else◌, str_eq,
}
use easy_navigation.Double.{Double, zero_d}
use easy_navigation.Messages.{Header, Goals, no_goals, PoseStamped, NavigationState, idle, active}
use easy_navigation.Control.{
  ControlType, NavigationControl, GoalManagerInfo, no_control, no_info, request, reject, accept,
  finished, failed, cancel, cancelled, error, pause, resume, paused, resumed,
}

pub record GoalTolerance : Type 0 where
  pub position : Double
  pub height : Double
  pub yaw : Double

pub record GoalManager : Type 0 where
  pub tolerance : GoalTolerance
  pub goals : Goals
  pub goals_revision : ℕ
  pub last_control : NavigationControl
  pub id : String
  pub current_client_id : String
  pub allow_preempt_goal : Bool
  pub nav_start_time : ℤ
  pub update_period : ℤ
  pub last_update_time : ℤ
  pub first_update : Bool
  pub state : NavigationState
  pub is_paused : Bool
  pub progress_held : Bool
  pub last_synced_state : NavigationState
  pub last_synced_paused : Bool
  pub goals_synced_empty : Bool
  pub info : GoalManagerInfo
  pub info_final_pending : Bool

-- What a handler publishes: on "easynav_control" and on "easynav_manager_info".
pub data Output : Type 0 where
  control : NavigationControl → Output
  information : GoalManagerInfo → Output

-- The `i`-th reading of the node's clock in a call.
abbrev pub Clock : Type 0
Clock = ℕ → ℤ

abbrev later : ℕ → Clock → Clock
later k clock i = clock (k + i)

abbrev pub is_idle : NavigationState → Bool
is_idle idle = true
is_idle active = false

abbrev pub next_revision : ℕ → ℕ
next_revision r = (r + 1) % 2 ^ 64

abbrev pub stamped : ℤ → Header → Header
stamped t h = record h { stamp = t }

-- A message of the manager's own that follows `c`.
abbrev pub reply : GoalManager → NavigationControl → ℤ → NavigationControl
reply m c now = record c { header = stamped now c.header; seq = c.seq +ℤ pos 1; user_id = m.id }

unfoldable pub accept_request :
    Clock → NavigationControl → NavigationControl → GoalManager → GoalManager × NavigationControl
accept_request clock msg response m = (
  record m {
    nav_start_time = clock 0;
    goals = msg.goals;
    goals_revision = next_revision m.goals_revision;
    goals_synced_empty = false;
    is_paused = false;
    current_client_id = msg.user_id;
    info = no_info;
    info_final_pending = true;
    state = active;
  },
  record response {
    status_message = "Goal accepted";
    type = accept;
    nav_current_user_id = msg.user_id;
  },
)

unfoldable pub set_preempted : Option Clock → GoalManager → GoalManager × List Output
set_preempted none m = (m, [])
set_preempted (some clock) m = (
  record m { goals = record g { goals = [] }; goals_revision = next_revision m.goals_revision },
  control (record r {
    type = cancelled;
    nav_current_user_id = m.current_client_id;
    status_message = "Navigation preempted by others";
  })
      ∷ [],
)
  where
    g : Goals
    g = m.goals

    r : NavigationControl
    r = reply m m.last_control (clock 0)

-- set_finished(), set_failed() and set_error(): the mission ends, and its client is told how.
unfoldable pub end_mission :
    ControlType → String → Option Clock → GoalManager → GoalManager × List Output
end_mission how why none m = (m, [])
end_mission how why (some clock) m = (
  record m {
    state = idle;
    goals = no_goals;
    goals_revision = next_revision m.goals_revision;
    is_paused = false;
  },
  control (record r { type = how; nav_current_user_id = m.current_client_id; status_message = why })
      ∷ [],
)
  where
    r : NavigationControl
    r = reply m m.last_control (clock 0)

unfoldable pub set_finished : Option Clock → GoalManager → GoalManager × List Output
unfolding end_mission
set_finished = end_mission finished "Navigation succesfully finished"

unfoldable pub set_failed : String → Option Clock → GoalManager → GoalManager × List Output
unfolding end_mission
set_failed reason = end_mission failed reason

unfoldable pub set_error : String → Option Clock → GoalManager → GoalManager × List Output
unfolding end_mission
set_error reason = end_mission error reason

unfoldable pub set_progress_held : Bool → GoalManager → GoalManager
set_progress_held held m = record m { progress_held = held }

abbrev refuse : ControlType → String → NavigationControl → NavigationControl → NavigationControl
refuse how why msg response = record response {
  status_message = why;
  type = how;
  nav_current_user_id = msg.user_id;
}

-- A case of control_callback()'s switch: the new state, what it published on the way, and the
-- response.
abbrev Handled : Type 0
Handled = GoalManager × List Output × NavigationControl

abbrev accepted : List Output → GoalManager × NavigationControl → Handled
accepted out (m, response) = (m, out, response)

-- A request preempts the active mission: another client's is cancelled first.
unfoldable pub preempt : Clock → NavigationControl → NavigationControl → GoalManager → Handled
unfolding set_preempted accept_request
preempt clock msg response m =
    if str_eq msg.user_id m.current_client_id
    then accepted [] (accept_request (later 1 clock) msg response m)
    else accepted (set_preempted (some (later 1 clock)) m).1
        (accept_request (later 2 clock) msg response (set_preempted (some (later 1 clock)) m).0)

unfoldable pub on_request : Clock → NavigationControl → NavigationControl → GoalManager → Handled
unfolding accept_request preempt
on_request clock msg response m =
    if is_empty msg.goals.goals
    then (m, [], refuse reject "Goals are empty" msg response)
    else if is_idle m.state
    then accepted [] (accept_request (later 1 clock) msg response m)
    else if m.allow_preempt_goal
    then preempt clock msg response m
    else (m, [], refuse reject "Goal rejected; unable to preempt current active goal" msg response)

unfoldable pub on_cancel : NavigationControl → NavigationControl → GoalManager → Handled
on_cancel msg response m =
    if not (str_eq m.current_client_id msg.user_id)
    then (m, [], refuse reject "Trying to cancel a navigation not commanded by you" msg response)
    else if is_idle m.state
    then (m, [], refuse error "Nothing to cancel; easynav is idle" msg response)
    else (
      record m {
        goals = record g { goals = [] };
        goals_revision = next_revision m.goals_revision;
        state = idle;
        is_paused = false;
      },
      [],
      record response {
        status_message = "Goal cancelled";
        type = cancelled;
        nav_current_user_id = m.current_client_id;
      },
    )
  where
    g : Goals
    g = m.goals

unfoldable pub on_pause : NavigationControl → NavigationControl → GoalManager → Handled
on_pause msg response m =
    if is_idle m.state
    then (m, [], refuse reject "Nothing to pause; easynav is idle" msg response)
    else (record m { is_paused = true }, [], refuse paused "Navigation paused" msg response)

unfoldable pub on_resume : NavigationControl → NavigationControl → GoalManager → Handled
on_resume msg response m =
    if is_idle m.state
    then (m, [], refuse reject "Nothing to resume; easynav is idle" msg response)
    else (record m { is_paused = false }, [], refuse resumed "Navigation resumed" msg response)

-- The switch on the message's type; the last clause is `default`.
unfoldable pub dispatch :
    ControlType → Clock → NavigationControl → NavigationControl → GoalManager → Handled
unfolding on_request on_cancel on_pause on_resume
dispatch request clock msg response m = on_request clock msg response m
dispatch cancel clock msg response m = on_cancel msg response m
dispatch pause clock msg response m = on_pause msg response m
dispatch resume clock msg response m = on_resume msg response m
dispatch _ clock msg response m = (m, [], refuse error "Unable to process message" msg response)

abbrev pub finish_callback : NavigationControl → Handled → GoalManager × List Output
finish_callback msg (m, out, response) =
    (record m { last_control = msg }, out ++ control response ∷ [])

abbrev pub handle : Option Clock → NavigationControl → GoalManager → GoalManager × List Output
unfolding dispatch
handle none msg m = (m, [])
handle (some clock) msg m =
    finish_callback msg (dispatch msg.type clock msg (reply m msg (clock 0)) m)

unfoldable pub control_callback :
    Option Clock → NavigationControl → GoalManager → GoalManager × List Output
unfolding dispatch
control_callback node msg m = if str_eq msg.user_id m.id then (m, []) else handle node msg m

-- A pose on "goal_pose" is a request of its own client.
unfoldable pub comanded_pose_callback :
    Option Clock → PoseStamped → GoalManager → GoalManager × List Output
unfolding control_callback
comanded_pose_callback node msg m = control_callback node command m
  where
    command : NavigationControl
    command = record no_control {
      header = msg.header;
      seq = m.last_control.seq +ℤ pos 1;
      user_id = append m.id "_initpose";
      type = request;
      goals = record { header = msg.header; goals = msg ∷ [] };
    }
