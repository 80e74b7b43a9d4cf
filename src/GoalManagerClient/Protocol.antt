-- ===== src/GoalManagerClient/Protocol.antt =====
-- A client and its manager together: a request that the manager accepts.
use easy_navigation.Common.{
  ◌≡◌, refl, ◌||◌, ℤ, eq_refl, eq_iff, true, false, some, List, [], ◌∷◌, ◌++◌, is_empty, str_eq,
  arith, String,
}
use easy_navigation.Messages.{Goals, active}
use easy_navigation.Control.{NavigationControl}
use easy_navigation.GoalManager.{
  GoalManager, Output, Clock, control, information, is_idle, on_request, reply, preempt,
  set_preempted, accept_request,
}
use easy_navigation.GoalManager
use easy_navigation.GoalManager.Replies.{mission, handle_request, control_callback_accepts}
use easy_navigation.GoalManagerClient.{
  GoalManagerClient, idle, sent_goal, accepted_and_navigating, send_goals, control_callback,
  request_for, control_or_new, request_state, receive, follow, answer_to_goal,
}

-- The control messages among what the manager published reach the client in order.
unfoldable pub deliver : List Output → GoalManagerClient → GoalManagerClient
unfolding control_callback
deliver [] c = c
deliver (control msg ∷ out) c = deliver out (control_callback msg c)
deliver (information i ∷ out) c = deliver out c

-- An idle client's first request, as it is published.
send_idle :
    (goals : Goals) (c : GoalManagerClient)
    → c.state ≡ idle
    → is_empty goals.goals ≡ false
    → send_goals goals c ≡ (
      record c { last_control = some (control_or_new c.last_control); state = sent_goal },
      some (request_for goals (control_or_new c.last_control) c),
    )
unfolding send_goals request_state
send_idle goals c i g = ground arith

-- A waiting client that is told of the acceptance, perhaps after another's cancellation.
deliver_accept :
    (clock : Clock) (msg : NavigationControl) (m : GoalManager) (c : GoalManagerClient) (t : ℤ)
    → c.state ≡ sent_goal
    → c.id ≡ msg.user_id
    → str_eq m.id c.id ≡ false
    → is_empty msg.goals.goals ≡ false
    → (is_idle m.state || m.allow_preempt_goal) ≡ true
    → let (m', out, r) = on_request clock msg (reply m msg t) m in
      (deliver (out ++ control r ∷ []) c).state ≡ accepted_and_navigating
unfolding on_request preempt set_preempted accept_request deliver control_callback receive follow
    answer_to_goal
deliver_accept clock msg m c t s i n g a =
    ground
      (arith, eq_refl c.id, eq_iff m.current_client_id c.id, eq_iff msg.user_id m.current_client_id)

differ : (s t : String) → str_eq s t ≡ false → str_eq t s ≡ false
differ s t e = ground (arith, eq_iff s t, eq_iff t s)

-- An idle client requests goals of a manager that is idle or may be preempted, their names
-- differing: the request is published, the manager's mission is that of the client's goals, and
-- once the client has received what the manager published it is navigating.
pub send_goals-accepted :
    (clock : Clock) (goals : Goals) (c : GoalManagerClient) (m : GoalManager)
    → c.state ≡ idle
    → is_empty goals.goals ≡ false
    → (is_idle m.state || m.allow_preempt_goal) ≡ true
    → str_eq c.id m.id ≡ false
    → (c' : GoalManagerClient) × (msg : NavigationControl) × (send_goals goals c ≡ (c', some msg))
      × (mission (GoalManager.control_callback (some clock) msg m).0 ≡ (active, goals, c.id))
      × ((deliver (GoalManager.control_callback (some clock) msg m).1 c').state
          ≡ accepted_and_navigating)
send_goals-accepted clock goals c m i g a n =
    let msg = request_for goals (control_or_new c.last_control) c in
    let (b, r, k, p, q, y) = control_callback_accepts clock msg m n refl g a in
    let c' = record c { last_control = some (control_or_new c.last_control); state = sent_goal } in
    (
      c',
      msg,
      send_idle goals c i g,
      k,
      rw (handle_request clock msg m n refl)
          (deliver_accept clock msg m c' (clock 0) refl refl (differ c.id m.id n) g a),
    )
