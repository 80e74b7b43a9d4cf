-- ===== src/Tests/Velocity.antt =====
-- Runs of what commands the velocity.
use easy_navigation.Common.{
  ℕ, ◌*◌, ℤ, pos, ◌-ℤ◌, ◌≡◌, refl, arith, true, false, ◌||◌, none, List, [], ◌∷◌, ◌++◌,
}
use easy_navigation.Double.{nan, lt}
use easy_navigation.Messages.{TwistStamped, zero_twist, origin, no_header}
use easy_navigation.NavState.{NavState, ok, proposal, safety, lookup, type_code, empty}
use easy_navigation.SafetyChannel.{SafetyChannelState, unrestricted, limited_by}
use easy_navigation.VelocityCommand.{VelocitySource, controller, takeover, override, key}
use easy_navigation.VelocityMux
use easy_navigation.VelocityMux.{VelocityMux, Selection, Choice, choose, remember, select}
use easy_navigation.VelocityMux.Slots.{pending}
use easy_navigation.VelocityMux.Select.{WellTyped, inputs_of, drained, OtherKey, select_typed}
use easy_navigation.VelocityMux.Priority.{Selects, select_halted}
use easy_navigation.VelocitySmoother.{VelocitySmoother}
use easy_navigation.CommandGuard
use easy_navigation.CommandGuard.{
  CommandGuard, supervise, stopped, same_twist, is_bad, discard_non_finite,
}
use easy_navigation.CommandGuard.Timeout
use easy_navigation.CommandGuard.Timeout.{Cycle, supervise-run}
use easy_navigation.CommandGuard.Finite.{Slots, finite_only, discard_non_finite_lem}
use easy_navigation.NavState.{set}
use easy_navigation.NavState.Rules.{Returns}
use easy_navigation.NavState.Schema.{IsTyped, empty-IsTyped, set-IsTyped}
use easy_navigation.ControllerNode.Cycle.{channel_state, publish_cmd_vel_rt-Synced}
use easy_navigation.ControllerNode.{
  get_robot_limits, publish_cmd_vel_rt, ControllerNode, stop_robot, set_robot_limits, zero_command,
}
use easy_navigation.ControllerNode.Stop.{IsFresh, IsIdle, as_sent, stop_robot-last}
use easy_navigation.ControllerNode.Synced
use easy_navigation.ControllerNode.Synced.{Event, channel, sending, stopping, run-Synced}
use easy_navigation.Tests.Data.{truncating, whole}
use easy_navigation.Tests.Safety.{limits}

abbrev forward : TwistStamped
forward = record {
  header = no_header;
  twist = record { linear = record origin { x = whole 1 }; angular = origin };
}

abbrev broken : TwistStamped
broken = record {
  header = no_header;
  twist = record { linear = record origin { x = nan }; angular = origin };
}

abbrev protective : SafetyChannelState
protective = record unrestricted { protective_stop = true }

-- An override is pending, under a protective stop.
abbrev halted_state : NavState
halted_state = record {
  values =
      ("cmd_vel.proposal.override", proposal (record { pending = true; cmd = forward }))
      ∷ ("safety_status", safety protective)
      ∷ [];
  groups = [];
}

halted-WellTyped : WellTyped halted_state
unfolding lookup type_code key
halted-WellTyped = record { slots = slots; paused = tt; inhibited = tt; status = refl }
  where
    slots : Slots halted_state
    slots controller = tt
    slots takeover = tt
    slots override = refl

status_other : OtherKey "safety_status"
unfolding key
status_other controller = refl
status_other takeover = refl
status_other override = refl

select_typed_example :
    (select VelocityMux.reset halted_state ≡ (
      ok (
        choose (inputs_of halted_state) VelocityMux.reset,
        remember (choose (inputs_of halted_state) VelocityMux.reset),
      ),
      drained halted_state,
    ))
    × ((s : VelocitySource) → pending s (drained halted_state) ≡ none)
    × (lookup "safety_status" (drained halted_state).values
        ≡ lookup "safety_status" halted_state.values)
select_typed_example =
    select_typed VelocityMux.reset halted_state "safety_status" halted-WellTyped status_other

select_halted_example :
    Selects VelocityMux.reset halted_state (λ s. (s.cmd.twist ≡ zero_twist) × (s.smooth ≡ true))
unfolding lookup
select_halted_example = select_halted VelocityMux.reset halted_state halted-WellTyped refl

abbrev fresh : Selection
fresh = record { cmd = forward; choice = VelocityMux.controller; fresh = true; smooth = true }

abbrev held : Selection
held = record { cmd = forward; choice = VelocityMux.no_choice; fresh = false; smooth = true }

-- Half a second after the command, and three seconds after it.
supervise-run_example :
    same_twist
      (supervise truncating held (pos 4000000000) (
        Timeout.run truncating
          ((fresh, pos 1000000000) ∷ (held, pos 1500000000) ∷ [])
          CommandGuard.new)).0.cmd.twist
      zero_twist
    ≡ true
unfolding lt ◌-ℤ◌
supervise-run_example =
    supervise-run truncating fresh (pos 1000000000) ((held, pos 1500000000) ∷ []) held
      (pos 4000000000) CommandGuard.new refl (refl, omega arith, tt) refl (omega arith) refl refl

-- A command that is not a number waits beside a good one.
abbrev broken_state : NavState
broken_state = record {
  values =
      ("cmd_vel.proposal.takeover", proposal (record { pending = true; cmd = broken }))
      ∷ ("cmd_vel.proposal.controller", proposal (record { pending = true; cmd = forward }))
      ∷ [];
  groups = [];
}

broken-Slots : Slots broken_state
unfolding lookup type_code key
broken-Slots controller = refl
broken-Slots takeover = refl
broken-Slots override = tt

discard_non_finite_lem_example :
    ((discard_non_finite broken_state).0
      ≡ ok (
          is_bad (pending override broken_state)
          || is_bad (pending takeover broken_state)
          || is_bad (pending controller broken_state)))
    × ((s : VelocitySource)
        → pending s (discard_non_finite broken_state).1 ≡ finite_only (pending s broken_state))
discard_non_finite_lem_example = discard_non_finite_lem broken_state broken-Slots

abbrev smoother : VelocitySmoother
smoother = record { limits = limits; current = zero_twist }

abbrev pub node : ControllerNode
node = record {
  robot_limits = limits;
  safety_channel = unrestricted;
  use_cmd_vel_stamped = true;
  vel_pub_stamped = true;
  vel_pub = false;
  mux = VelocityMux.reset;
  smoother = smoother;
  command_guard = CommandGuard.new;
  last_smoother_step = none;
  last_published_zero = false;
}

abbrev clock : ℕ → ℤ
clock i = pos (20000000 * i)

stop_robot-last_example :
    (before : List _) × ((stop_robot truncating 3 "base" clock (pos 99) node).1
      ≡ before ++ as_sent node (zero_command "base" (pos 99)) ∷ [])
    × ((stop_robot truncating 3 "base" clock (pos 99) node).0.smoother.current ≡ zero_twist)
    × IsIdle (stop_robot truncating 3 "base" clock (pos 99) node).0.mux
    × IsFresh (stop_robot truncating 3 "base" clock (pos 99) node).0.command_guard
    × ((stop_robot truncating 3 "base" clock (pos 99) node).0.last_published_zero ≡ true)
stop_robot-last_example = stop_robot-last truncating 3 "base" clock (pos 99) node refl

abbrev events : List Event
events = sending fresh (pos 5) ∷ channel protective ∷ stopping 2 "base" clock (pos 50) ∷ []

run-Synced_example :
    (Synced.run truncating events (set_robot_limits limits node)).smoother.limits
    ≡ limited_by (Synced.last_limits events limits) (Synced.last_state events node.safety_channel)
run-Synced_example = run-Synced truncating limits events node

abbrev stopping_state : NavState
stopping_state = (set "safety_status" (safety protective) empty).1

stopping-IsTyped : IsTyped stopping_state
unfolding lookup type_code
stopping-IsTyped = (set-IsTyped "safety_status" (safety protective) empty refl empty-IsTyped).1

node-Synced : Synced.Synced node
unfolding get_robot_limits
node-Synced = refl

publish_cmd_vel_rt-Synced_example :
    Returns
      (λ r st'.
        Synced.Enforces node.robot_limits (channel_state node.safety_channel stopping_state) r.0
        × IsTyped st')
      (publish_cmd_vel_rt truncating (pos 7) node stopping_state)
publish_cmd_vel_rt-Synced_example =
    publish_cmd_vel_rt-Synced truncating (pos 7) node stopping_state stopping-IsTyped node-Synced
