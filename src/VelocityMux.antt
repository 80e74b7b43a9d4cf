-- ===== src/VelocityMux.antt =====
-- easynav_controller VelocityMux: picks one of the commands proposed in a real-time cycle.
pub mod Slots
pub mod Select
pub mod Priority
pub mod Typed
use easy_navigation.Common.{
  Bool, true, false, not, ◌||◌, Option, none, some, is_some, String, if◌then◌else◌,
}
use easy_navigation.Messages.{Header, TwistStamped, zero_twist, no_twist}
use easy_navigation.NavState.{
  NavState, Exec, return, bind_outcome, ◌>>=◌, ◌>>◌, Value, as_bool, as_safety, has, get_safe,
}
use easy_navigation.SafetyChannel.{SafetyChannelState}
use easy_navigation.VelocityCommand.{VelocitySource, take}

pub data Choice : Type 0 where
  no_choice controller paused takeover override safety_stop inhibited : Choice

pub record Selection : Type 0 where
  pub cmd : TwistStamped
  pub choice : Choice
  pub fresh : Bool
  pub smooth : Bool

pub record VelocityMux : Type 0 where
  pub last_target : TwistStamped
  pub last_choice : Choice

-- `reset()`.
abbrev pub reset : VelocityMux
reset = record { last_target = no_twist; last_choice = no_choice }

abbrev is_safety_stop : Choice → Bool
is_safety_stop safety_stop = true
is_safety_stop _ = false

abbrev is_inhibited : Choice → Bool
is_inhibited inhibited = true
is_inhibited _ = false

-- What select() has read when it decides.
pub record Inputs : Type 0 where
  pub override_cmd : Option TwistStamped
  pub takeover_cmd : Option TwistStamped
  pub controller_cmd : Option TwistStamped
  pub navigation_paused : Bool
  pub protective_stop : Bool
  pub motion_inhibited : Bool

-- `has(key) && get_safe<bool>(key)`.
unfoldable pub read_flag : String → Exec NavState Bool
read_flag key st = if has key st then get_safe as_bool key st else return false st

unfoldable pub read_protective_stop : Exec NavState Bool
read_protective_stop st =
    if has "safety_status" st
    then bind_outcome (get_safe as_safety "safety_status" st) (λ s. return s.protective_stop)
    else return false st

unfoldable pub read_inputs : Exec NavState Inputs
read_inputs = do
  override_cmd ← take VelocitySource.override
  takeover_cmd ← take VelocitySource.takeover
  controller_cmd ← take VelocitySource.controller
  navigation_paused ← read_flag "navigation_paused"
  protective_stop ← read_protective_stop
  motion_inhibited ← read_flag "inhibit_motion"
  return (record {
    override_cmd = override_cmd;
    takeover_cmd = takeover_cmd;
    controller_cmd = controller_cmd;
    navigation_paused = navigation_paused;
    protective_stop = protective_stop;
    motion_inhibited = motion_inhibited;
  })

-- The zero command that takes the controller's header, or the last target's.
unfoldable pub stop_command : Option TwistStamped → TwistStamped → TwistStamped
stop_command (some c) last = record { header = c.header; twist = zero_twist }
stop_command none last = record { header = last.header; twist = zero_twist }

unfoldable pub choose_controller : Option TwistStamped → VelocityMux → Selection
choose_controller (some c) m = record { cmd = c; choice = controller; fresh = true; smooth = true }
choose_controller none m = record {
  cmd = m.last_target;
  choice = no_choice;
  fresh = false;
  smooth = true;
}

unfoldable pub choose_paused : Inputs → VelocityMux → Selection
unfolding choose_controller stop_command
choose_paused i m =
    if i.navigation_paused
    then record {
      cmd = stop_command i.controller_cmd m.last_target;
      choice = paused;
      fresh = is_some i.controller_cmd;
      smooth = true;
    }
    else choose_controller i.controller_cmd m

unfoldable pub choose_takeover : Option TwistStamped → Inputs → VelocityMux → Selection
unfolding choose_paused
choose_takeover (some t) i m = record { cmd = t; choice = takeover; fresh = true; smooth = true }
choose_takeover none i m = choose_paused i m

unfoldable pub choose_override : Option TwistStamped → Inputs → VelocityMux → Selection
unfolding choose_takeover
choose_override (some o) i m = record { cmd = o; choice = override; fresh = true; smooth = false }
choose_override none i m = choose_takeover i.takeover_cmd i m

-- The ladder of select(), from the safety channel's stop down to the last target.
unfoldable pub choose : Inputs → VelocityMux → Selection
unfolding choose_override stop_command
choose i m =
    if i.protective_stop
    then record {
      cmd = stop_command i.controller_cmd m.last_target;
      choice = safety_stop;
      fresh = is_some i.controller_cmd || not (is_safety_stop m.last_choice);
      smooth = true;
    }
    else if i.motion_inhibited
    then record {
      cmd = stop_command i.controller_cmd m.last_target;
      choice = inhibited;
      fresh = is_some i.controller_cmd || not (is_inhibited m.last_choice);
      smooth = true;
    }
    else choose_override i.override_cmd i m

unfoldable pub remember : Selection → VelocityMux
remember s = record { last_target = s.cmd; last_choice = s.choice }

-- The selection and the mux after it.
unfoldable pub select : VelocityMux → Exec NavState (Selection × VelocityMux)
unfolding read_inputs choose remember
select m = do i ← read_inputs; return (choose i m, remember (choose i m))
