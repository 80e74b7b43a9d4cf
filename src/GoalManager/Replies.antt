-- ===== src/GoalManager/Replies.antt =====
-- What the manager answers to each message, and what a message can change.
use easy_navigation.Common.{
  ◌+ℤ◌, pos, ◌≡◌, refl, ◌≢◌, inl, inr, true, false, not, ◌||◌, some, String, List, [], ◌∷◌, ◌++◌,
  arith, ap₂, ◌∙◌, is_empty, str_eq, Bool-cases,
}
use easy_navigation.Messages.{Goals, NavigationState, active}
use easy_navigation.Control.{
  ControlType, NavigationControl, request, reject, accept, cancel, pause, resume,
}
use easy_navigation.GoalManager.{
  GoalManager, Output, control, Clock, is_idle, reply, dispatch, on_request, on_cancel, on_pause,
  on_resume, handle, control_callback, finish_callback,
}

-- One case of the switch, as control_callback() leaves it.
callback_foreign :
    (clock : Clock) (msg : NavigationControl) (m : GoalManager)
    → str_eq msg.user_id m.id ≡ false
    → control_callback (some clock) msg m ≡ handle (some clock) msg m
unfolding control_callback
callback_foreign clock msg m e = rw e

-- What a mission is.
abbrev pub mission : GoalManager → NavigationState × Goals × String
mission m = (m.state, m.goals, m.current_client_id)

dispatch_reply :
    (type : ControlType) (clock : Clock) (msg r : NavigationControl) (m : GoalManager)
    → ((dispatch type clock msg r m).2.seq ≡ r.seq)
      × ((dispatch type clock msg r m).2.user_id ≡ r.user_id)
unfolding dispatch on_request on_cancel on_pause on_resume
dispatch_reply request clock msg r m = ground arith
dispatch_reply cancel clock msg r m = ground arith
dispatch_reply pause clock msg r m = ground arith
dispatch_reply resume clock msg r m = ground arith
dispatch_reply _ clock msg r m = (refl, refl)

-- Every message of another user, of any type, is answered: the last thing published is a message
-- of the manager's own that follows it in sequence.
pub control_callback_replies :
    (clock : Clock) (msg : NavigationControl) (m : GoalManager)
    → str_eq msg.user_id m.id ≡ false
    → (before : List Output) × (r : NavigationControl) × ((control_callback (some clock) msg m).1
        ≡ before ++ control r ∷ [])
      × (r.seq ≡ msg.seq +ℤ pos 1)
      × (r.user_id ≡ m.id)
unfolding dispatch
control_callback_replies clock msg m e =
    let d = dispatch msg.type clock msg (reply m msg (clock 0)) m in
    let (s, u) = dispatch_reply msg.type clock msg (reply m msg (clock 0)) m in
    (d.1, d.2, rw (callback_foreign clock msg m e), s, u)

dispatch_accept :
    (clock : Clock) (msg r : NavigationControl) (m : GoalManager)
    → is_empty msg.goals.goals ≡ false
    → (is_idle m.state || m.allow_preempt_goal) ≡ true
    → (mission (on_request clock msg r m).0 ≡ (active, msg.goals, msg.user_id))
      × ((on_request clock msg r m).0.is_paused ≡ false)
      × ((on_request clock msg r m).2.type ≡ accept)
unfolding on_request
dispatch_accept clock msg r m e a = ground arith

pub handle_request :
    (clock : Clock) (msg : NavigationControl) (m : GoalManager)
    → str_eq msg.user_id m.id ≡ false
    → msg.type ≡ request
    → control_callback (some clock) msg m
      ≡ finish_callback msg (on_request clock msg (reply m msg (clock 0)) m)
unfolding dispatch
handle_request clock msg m e t = rw (callback_foreign clock msg m e, t)

-- A request with goals, while no mission is active or preemption is allowed, starts the mission of
-- its goals and its user, not paused, and is answered ACCEPT last.
pub control_callback_accepts :
    (clock : Clock) (msg : NavigationControl) (m : GoalManager)
    → str_eq msg.user_id m.id ≡ false
    → msg.type ≡ request
    → is_empty msg.goals.goals ≡ false
    → (is_idle m.state || m.allow_preempt_goal) ≡ true
    → (before : List Output) × (r : NavigationControl) × (mission
          (control_callback (some clock) msg m).0
        ≡ (active, msg.goals, msg.user_id))
      × ((control_callback (some clock) msg m).0.is_paused ≡ false)
      × ((control_callback (some clock) msg m).1 ≡ before ++ control r ∷ [])
      × (r.type ≡ accept)
control_callback_accepts clock msg m e t g a =
    let d = on_request clock msg (reply m msg (clock 0)) m in
    let q = handle_request clock msg m e t in
    let (k, p, y) = dispatch_accept clock msg (reply m msg (clock 0)) m g a in
    (d.1, d.2, rw q k, rw q p, rw q, y)

on_request_refuse :
    (clock : Clock) (msg r : NavigationControl) (m : GoalManager)
    → (is_empty msg.goals.goals || not (is_idle m.state || m.allow_preempt_goal)) ≡ true
    → ((on_request clock msg r m).0 ≡ m)
      × ((on_request clock msg r m).1 ≡ [])
      × ((on_request clock msg r m).2.type ≡ reject)
unfolding on_request
on_request_refuse clock msg r m e = ground arith

-- A request without goals, or during a mission that may not be preempted, changes only the last
-- message, and is answered by one REJECT.
pub control_callback_refuses :
    (clock : Clock) (msg : NavigationControl) (m : GoalManager)
    → str_eq msg.user_id m.id ≡ false
    → msg.type ≡ request
    → (is_empty msg.goals.goals || not (is_idle m.state || m.allow_preempt_goal)) ≡ true
    → (r : NavigationControl) × (control_callback (some clock) msg m
        ≡ (record m { last_control = msg }, control r ∷ []))
      × (r.type ≡ reject)
control_callback_refuses clock msg m e t g =
    let d = on_request clock msg (reply m msg (clock 0)) m in
    let (k, p, y) = on_request_refuse clock msg (reply m msg (clock 0)) m g in
    (d.2, handle_request clock msg m e t ∙ ap₂ pair k p, y)
  where
    pair : GoalManager → List Output → GoalManager × List Output
    pair n o = (
      record n { last_control = msg },
      o ++ control (on_request clock msg (reply m msg (clock 0)) m).2 ∷ [],
    )

cancel_keeps :
    (msg r : NavigationControl) (m : GoalManager)
    → str_eq m.current_client_id msg.user_id ≡ false
    → mission (on_cancel msg r m).0 ≡ mission m
unfolding on_cancel
cancel_keeps msg r m c = rw c

dispatch_keeps :
    (type : ControlType) (clock : Clock) (msg r : NavigationControl) (m : GoalManager)
    → type ≢ request
    → str_eq m.current_client_id msg.user_id ≡ false
    → mission (dispatch type clock msg r m).0 ≡ mission m
unfolding dispatch on_pause on_resume
dispatch_keeps request clock msg r m t c = elim (t refl) [ ]
dispatch_keeps cancel clock msg r m t c = cancel_keeps msg r m c
dispatch_keeps pause clock msg r m t c = ground arith
dispatch_keeps resume clock msg r m t c = ground arith
dispatch_keeps _ clock msg r m t c = refl

-- Whoever sends it, a message that is neither a request nor a cancellation by the mission's own
-- client leaves the mission as it is: its state, its goals and its client.
pub control_callback_keeps :
    (clock : Clock) (msg : NavigationControl) (m : GoalManager)
    → msg.type ≢ request
    → str_eq m.current_client_id msg.user_id ≡ false
    → mission (control_callback (some clock) msg m).0 ≡ mission m
unfolding control_callback
control_callback_keeps clock msg m t c = elim (Bool-cases (str_eq msg.user_id m.id)) [
  | inl own ↦ rw own
  | inr other ↦ rw other (dispatch_keeps msg.type clock msg (reply m msg (clock 0)) m t c)
]
