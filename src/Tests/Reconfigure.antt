-- ===== src/Tests/Reconfigure.antt =====
-- Runs of a reconfiguration.
use easy_navigation.Common.{
  pos, ◌≡◌, refl, Bool, true, false, ◌&&◌, ◌==◌, Option, some, String, [], ◌∷◌, if◌then◌else◌,
  str_eq, eq_refl,
}
use easy_navigation.ParameterFreezer.{ParameterValue, integer}
use easy_navigation.SystemNode.Reconfigure.{
  State, Transition, configure, cleanup, activate, deactivate, unconfigured, inactive, active,
  ParameterChange, Ros, previous_values, attempt,
}
use easy_navigation.SystemNode.Values.{Keeps}
use easy_navigation.SystemNode.Restore.{attempt-restored}

-- A node whose configuration is refused unless its parameter is 1.
record World : Type 0 where
  values : String → String → Option ParameterValue
  state : State

abbrev is_good : Option ParameterValue → Bool
is_good (some (integer (pos n))) = n == 1
is_good _ = false

abbrev next : Transition → World → State
next configure w = if is_good (w.values "controller_node" "level") then inactive else unconfigured
next cleanup w = unconfigured
next activate w = active
next deactivate w = inactive

abbrev ros : Ros World
ros = record {
  get_current_state = λ w. w.state;
  trigger_transition = λ t w. record w { state = next t w };
  nodes = [];
  node_state = λ name w. w.state;
  trigger_node = λ name t w. w;
  get_parameter = λ node name w. w.values node name;
  set_parameter = λ node name value w. (
    true,
    record w {
      values = λ n m. if str_eq n node && str_eq m name then some value else w.values n m;
    },
  );
  has_override = λ node name. false;
  declare_absent = λ node name value w. w;
}

ros-Keeps : Keeps ros
ros-Keeps = record {
  transition = λ t w node name v h. h;
  node_transition = λ sub t w node name v h. h;
  declares = λ n p x w node name v h. h;
  others = λ c w node name v h s. rw s h;
  done = λ c w d. rw (eq_refl c.node, eq_refl c.name) refl;
}

abbrev running : World
running = record { values = λ node name. some (integer (pos 1)); state = active }

abbrev change : ParameterChange
change = record { node = "controller_node"; name = "level"; value = integer (pos 2) }

abbrev old : ParameterChange
old = record { node = "controller_node"; name = "level"; value = integer (pos 1) }

attempt-restored_example :
    (attempt ros (change ∷ []) (old ∷ []) running).1.values "controller_node" "level"
    ≡ some (integer (pos 1))
unfolding previous_values attempt
attempt-restored_example =
    attempt-restored ros ros-Keeps (change ∷ []) (old ∷ []) running "controller_node" "level"
      (integer (pos 1)) refl refl refl refl
