-- ===== src/CommandGuard.antt =====
-- easynav_controller safety/CommandGuard: keeps the velocity command from being stale or invalid.
-- The node is a parameter: its name and its parameters' values. `print` is the text that a stream
-- makes of a double. A clock reading is nanoseconds; the logs and qos() are left out.
pub mod Timeout
pub mod Finite
use Prim.Native.String.{◌++◌ as append}
use easy_navigation.Common.{
  ℤ, pos, ◌-ℤ◌, eqb_ℤ, ltb_ℤ, ◌*◌, ◌^◌, Bool, true, false, not, ◌&&◌, ◌||◌, Option, none, some,
  is_some, String, List, [], ◌∷◌, if◌then◌else◌, str_eq,
}
use easy_navigation.Double.{Double, zero_d, fin, lt, le, eq, is_finite, Arith}
use easy_navigation.Messages.{
  Header, Vector3, Twist, TwistStamped, zero_twist, DiagnosticStatus, Level, ok, warn, error,
}
use easy_navigation.NavState.{
  NavState, Exec, return, bind_outcome, ◌>>=◌, ◌>>◌, Value, diagnostic, set, add_to_group, branch,
}
use easy_navigation.VelocityCommand.{VelocitySource, peek, take}
use easy_navigation.VelocityMux.{Selection}

pub record CommandGuard : Type 0 where
  pub cmd_timeout : Double
  pub keepalive_period : Double
  pub hardware_id : String
  pub timeout_message : String
  pub last_controller_cmd : Option TwistStamped
  pub last_proposal : Option ℤ
  pub last_publish : Option ℤ
  pub timed_out : Bool
  pub last_report : Option (Level × String)

-- The members' initial values; 0.5 is 2^-1.
abbrev pub new : CommandGuard
new = record {
  cmd_timeout = fin (pos (2 ^ 1073));
  keepalive_period = zero_d;
  hardware_id = "controller_node";
  timeout_message = "";
  last_controller_cmd = none;
  last_proposal = none;
  last_publish = none;
  timed_out = false;
  last_report = none;
}

unfoldable pub is_finite_twist : Twist → Bool
unfolding is_finite
is_finite_twist t =
    is_finite t.linear.x
    && is_finite t.linear.y
    && is_finite t.linear.z
    && is_finite t.angular.x
    && is_finite t.angular.y
    && is_finite t.angular.z

-- The last report is kept.
unfoldable pub reset : CommandGuard → CommandGuard
reset g = record g {
  last_controller_cmd = none;
  last_proposal = none;
  last_publish = none;
  timed_out = false;
}

abbrev bad_parameter : Double → Bool
bad_parameter v = not (is_finite v) || lt v zero_d

-- The parameters read from the node; false if they are invalid.
unfoldable pub configure :
    (Double → String) → String → Double → Double → CommandGuard → Bool × CommandGuard
unfolding reset is_finite lt
configure print node_name timeout period g =
    let r =
      reset
        (record g { hardware_id = node_name; cmd_timeout = timeout; keepalive_period = period }) in
    if bad_parameter timeout || bad_parameter period then (false, r) else (
      true,
      record r {
        timeout_message =
            append "No new velocity command in " (append (print timeout) " s: stopping");
      },
    )

unfoldable pub check_controller_period : Double → CommandGuard → Bool
unfolding lt le
check_controller_period period g = not (lt zero_d g.cmd_timeout && le g.cmd_timeout period)

-- The messages' `==`.
unfoldable pub same_vector : Vector3 → Vector3 → Bool
unfolding eq
same_vector a b = eq a.x b.x && eq a.y b.y && eq a.z b.z

unfoldable pub same_twist : Twist → Twist → Bool
unfolding same_vector
same_twist a b = same_vector a.linear b.linear && same_vector a.angular b.angular

unfoldable pub same_command : TwistStamped → TwistStamped → Bool
unfolding same_twist
same_command a b =
    eqb_ℤ a.header.stamp b.header.stamp
    && str_eq a.header.frame_id b.header.frame_id
    && same_twist a.twist b.twist

abbrev is_last : TwistStamped → Option TwistStamped → Bool
is_last cmd none = false
is_last cmd (some last) = same_command cmd last

unfoldable pub is_new : TwistStamped → CommandGuard → Bool × CommandGuard
unfolding same_command
is_new cmd g =
    if is_last cmd g.last_controller_cmd
    then (false, g)
    else (true, record g { last_controller_cmd = some cmd })

abbrev pub is_bad : Option TwistStamped → Bool
is_bad none = false
is_bad (some cmd) = not (is_finite_twist cmd.twist)

abbrev discard_taken : VelocitySource → Exec NavState Bool
discard_taken source = do cmd ← take source; return true

-- One round of the loop over the sources.
unfoldable pub discard_one : VelocitySource → Exec NavState Bool
unfolding is_finite_twist branch
discard_one source = do cmd ← peek source; branch (is_bad cmd) (discard_taken source) (return false)

unfoldable pub discard_non_finite : Exec NavState Bool
unfolding discard_one
discard_non_finite = do
  o ← discard_one VelocitySource.override
  t ← discard_one VelocitySource.takeover
  c ← discard_one VelocitySource.controller
  return (o || t || c)

abbrev pub stopped : Selection → Selection
stopped s = record s { cmd = record c { twist = zero_twist } }
  where
    c : TwistStamped
    c = s.cmd

-- The clock jumped back.
abbrev pub rebased : Option ℤ → ℤ → Option ℤ
rebased none now = none
rebased (some t) now = if ltb_ℤ now t then some now else some t

module _ (a : Arith) where
  -- `(now - *last_proposal_).seconds() > cmd_timeout_`, with a proposal to count from.
  abbrev pub is_late : Option ℤ → Double → ℤ → Bool
  is_late none timeout now = false
  is_late (some t) timeout now = lt timeout (a.seconds (now -ℤ t))

  unfoldable pub supervise : Selection → ℤ → CommandGuard → Selection × CommandGuard
  unfolding same_twist lt
  supervise s now g =
      if s.fresh
      then (s, record g { last_proposal = some now; timed_out = false })
      else let p = rebased g.last_proposal now in
        let g' = record g { last_proposal = p } in
        if g.timed_out
        then (stopped s, g')
        else if lt zero_d g.cmd_timeout
            && not (same_twist s.cmd.twist zero_twist)
            && is_late p g.cmd_timeout now
        then (record (stopped s) { fresh = true }, record g' { timed_out = true })
        else (s, g')

  abbrev due_after : Option ℤ → Double → ℤ → Bool
  due_after none period now = true
  due_after (some t) period now =
      lt (a.seconds (now -ℤ t)) zero_d || le period (a.seconds (now -ℤ t))

  unfoldable pub keepalive_due : ℤ → CommandGuard → Bool
  unfolding lt le
  keepalive_due now g =
      not (le g.keepalive_period zero_d) && due_after g.last_publish g.keepalive_period now

unfoldable pub published : ℤ → CommandGuard → CommandGuard
published stamp g = record g { last_publish = some stamp }

abbrev is_ok : Level → Bool
is_ok ok = true
is_ok _ = false

abbrev same_level : Level → Level → Bool
same_level ok ok = true
same_level warn warn = true
same_level error error = true
same_level _ _ = false

-- Nothing to report until something goes wrong; then, only changes.
unfoldable pub is_reported : Level → String → Option (Level × String) → Bool
is_reported level message none = is_ok level
is_reported level message (some (l, m)) = same_level l level && str_eq m message

-- What throws here also ends the cycle: the guard that is left then is not told.
unfoldable pub write_report : Level → String → CommandGuard → Exec NavState CommandGuard
unfolding is_reported
write_report level message g = if is_reported level message g.last_report then return g else (do
  set "diagnostics.cmd_vel" (
      diagnostic (record {
        level = level;
        name = "cmd_vel";
        hardware_id = g.hardware_id;
        message = message;
        values = [];
      }))
  add_to_group "diagnostics" "diagnostics.cmd_vel"
  return (record g { last_report = some (level, message) }))

unfoldable pub report : Bool → Bool → CommandGuard → Exec NavState CommandGuard
unfolding write_report
report discarded fresh g =
    if g.timed_out
    then write_report error g.timeout_message g
    else if discarded
    then write_report error "Non-finite velocity command discarded" g
    else if fresh
    then write_report ok "Receiving velocity commands" g
    else return g
