-- ===== src/VelocityMux/Typed.antt =====
-- What the mux needs of the blackboard, from the schema of the system's keys.
use easy_navigation.Common.{refl}
use easy_navigation.NavState.{NavState, lookup}
use easy_navigation.NavState.Laws.{Typed}
use easy_navigation.NavState.Schema.{IsTyped}
use easy_navigation.VelocityCommand.{VelocitySource, controller, takeover, override, key}
use easy_navigation.VelocityMux.Select.{WellTyped}

pub well_typed : (st : NavState) → IsTyped st → WellTyped st
unfolding lookup key
well_typed st t = record {
  slots = slots;
  paused = t "navigation_paused" 0 refl;
  inhibited = t "inhibit_motion" 0 refl;
  status = t "safety_status" 8 refl;
}
  where
    slots : (s : VelocitySource) → Typed 7 (lookup (key s) st.values)
    slots controller = t "cmd_vel.proposal.controller" 7 refl
    slots takeover = t "cmd_vel.proposal.takeover" 7 refl
    slots override = t "cmd_vel.proposal.override" 7 refl
