-- ===== src/VelocityCommand.antt =====
-- easynav_core VelocityCommand: the velocity commands that each source proposes in its slot of the
-- blackboard.
use easy_navigation.Common.{true, false, Option, none, some, String, if◌then◌else◌}
use easy_navigation.Messages.{TwistStamped}
use easy_navigation.NavState.{
  NavState, Exec, return, bind_outcome, ◌>>=◌, ◌>>◌, proposal, as_proposal, has, set, get_safe,
}

pub data VelocitySource : Type 0 where
  controller takeover override : VelocitySource

unfoldable pub key : VelocitySource → String
key takeover = "cmd_vel.proposal.takeover"
key override = "cmd_vel.proposal.override"
key controller = "cmd_vel.proposal.controller"

unfoldable pub propose : VelocitySource → TwistStamped → Exec NavState (Unit {0})
unfolding key
propose source cmd = set (key source) (proposal (record { pending = true; cmd = cmd }))

unfoldable pub peek : VelocitySource → Exec NavState (Option TwistStamped)
unfolding key
peek source st =
    if has (key source) st
    then bind_outcome (get_safe as_proposal (key source) st)
        (λ p. return (if p.pending then some p.cmd else none))
    else return none st

abbrev pub consume : VelocitySource → Option TwistStamped → Exec NavState (Option TwistStamped)
consume source none = return none
consume source (some cmd) = do
  set (key source) (proposal (record { pending = false; cmd = cmd }))
  return (some cmd)

unfoldable pub take : VelocitySource → Exec NavState (Option TwistStamped)
unfolding key
take source = do cmd ← peek source; consume source cmd
