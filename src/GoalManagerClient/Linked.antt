-- ===== src/GoalManagerClient/Linked.antt =====
-- What every sequence of messages and calls keeps of a client.
use easy_navigation.Common.{
  ◌≡◌, refl, ◌&&◌, not, Bool, true, false, Option, none, some, is_some, List, [], ◌∷◌, arith,
  String,
}
use easy_navigation.Messages.{Goals}
use easy_navigation.NavState.{ok}
use easy_navigation.Control.{NavigationControl}
use easy_navigation.GoalManagerClient.{
  GoalManagerClient, ClientState, sent_goal, sent_preempt, accepted_and_navigating, new,
  control_callback, send_goals, cancel_mission, cancel_from, pause_mission, resume_mission,
  send_control, reset, reset_state,
}

pub data Event : Type 0 where
  message : NavigationControl → Event
  sending : Goals → Event
  cancelling pausing resuming resetting : Event

unfoldable pub step : Event → GoalManagerClient → GoalManagerClient
unfolding control_callback send_goals pause_mission resume_mission reset
step (message msg) c = control_callback msg c
step (sending goals) c = (send_goals goals c).0
step cancelling c = c
step pausing c = (pause_mission c).0
step resuming c = (resume_mission c).0
step resetting c = reset c

unfoldable pub run : List Event → GoalManagerClient → GoalManagerClient
run [] c = c
run (e ∷ es) c = run es (step e c)

-- The states between a request and the end of its mission.
abbrev pub in_mission : ClientState → Bool
in_mission sent_goal = true
in_mission sent_preempt = true
in_mission accepted_and_navigating = true
in_mission _ = false

-- During a mission there is a last message.
abbrev pub IsLinked : GoalManagerClient → Type 0
IsLinked c = (in_mission c.state && not (is_some c.last_control)) ≡ false

reset_state_linked :
    (s : ClientState) (b : Bool)
    → (in_mission s && b) ≡ false
    → (in_mission (reset_state s) && b) ≡ false
unfolding reset_state
reset_state_linked s b v = ground arith

step-IsLinked : (e : Event) (c : GoalManagerClient) → IsLinked c → IsLinked (step e c)
unfolding step control_callback send_goals send_control pause_mission resume_mission reset
step-IsLinked (message msg) c v = ground arith
step-IsLinked (sending goals) c v = ground arith
step-IsLinked cancelling c v = v
step-IsLinked pausing c v = ground arith
step-IsLinked resuming c v = ground arith
step-IsLinked resetting c v = reset_state_linked c.state (not (is_some c.last_control)) v

new-IsLinked : (name : String) → IsLinked (new name)
unfolding new
new-IsLinked name = refl

run-IsLinked : (es : List Event) (c : GoalManagerClient) → IsLinked c → IsLinked (run es c)
unfolding run
run-IsLinked [] c v = v
run-IsLinked (e ∷ es) c v = run-IsLinked es (step e c) (step-IsLinked e c v)

cancel_linked :
    (c : GoalManagerClient)
    → IsLinked c
    → (out : Option NavigationControl) × (cancel_mission c ≡ ok out)
unfolding cancel_mission cancel_from
cancel_linked c v = from c.state c.last_control v
  where
    from :
        (s : ClientState) (o : Option NavigationControl)
        → (in_mission s && not (is_some o)) ≡ false
        → (out : Option NavigationControl) × (cancel_from s (record c { last_control = o })
            ≡ ok out)
    from accepted_and_navigating none e = cc
    from accepted_and_navigating (some last) e = (_, refl)
    from _ o e = (none, refl)

-- After any messages and calls, a cancellation never reads a missing last message: it publishes a
-- message, or refuses because no accepted mission is under way.
pub cancel-run :
    (name : String) (es : List Event)
    → (out : Option NavigationControl) × (cancel_mission (run es (new name)) ≡ ok out)
cancel-run name es =
    cancel_linked (run es (new name)) (run-IsLinked es (new name) (new-IsLinked name))
