-- ===== src/SystemNode/Reconfigure.antt =====
-- SystemNode: the changes of parameters that a recovery asks for. What the lifecycle of the nodes
-- and their parameters do is an argument (rclcpp): `World` is their state. The map of the original
-- values is an association list in the order of insertion, where the source's is in the order of
-- keys.
use Prim.Native.String.{◌++◌}
use easy_navigation.Common.{
  Bool, true, false, not, ◌&&◌, ◌||◌, Option, none, some, is_some, String, List, [], ◌∷◌, map,
  is_empty, if◌then◌else◌,
}
use easy_navigation.Common.{◌++◌ as append}
use easy_navigation.NavState.{NavState, Exec, return, bind_outcome, set, texts, lookup}
use easy_navigation.ParameterFreezer.{ParameterValue, bool}
use easy_navigation.SafetySupervisor.Configure.{allows_reconfiguration}
use easy_navigation.SystemNode.{SystemNode, request_shutdown}

pub data State : Type 0 where
  unconfigured inactive active finalized : State

abbrev pub same_state : State → State → Bool
same_state unconfigured unconfigured = true
same_state inactive inactive = true
same_state active active = true
same_state finalized finalized = true
same_state _ _ = false

pub data Transition : Type 0 where
  configure cleanup activate deactivate : Transition

pub record ParameterChange : Type 0 where
  pub node : String
  pub name : String
  pub value : ParameterValue

pub record ReconfigureRequest : Type 0 where
  pub changes : List ParameterChange
  pub restore : Bool
  pub reason : String

-- `get_parameter` is none where the node or the parameter does not exist, and where it has no value,
-- for which the source throws; `nodes` are the subnodes.
pub record Ros (World : Type 0) : Type 0 where
  pub get_current_state : World → State
  pub trigger_transition : Transition → World → World
  pub nodes : List String
  pub node_state : String → World → State
  pub trigger_node : String → Transition → World → World
  pub get_parameter : String → String → World → Option ParameterValue
  pub set_parameter : String → String → ParameterValue → World → Bool × World
  pub has_override : String → String → Bool
  pub declare_absent : String → String → ParameterValue → World → World

pub record Reconfiguration : Type 0 where
  pub pending_reconfigure : Option ReconfigureRequest
  pub original_parameters : List (String × ParameterChange)

abbrev pub key_of : ParameterChange → String
key_of c = c.node ++ "/" ++ c.name

-- emplace(): a key that is there keeps its value.
unfoldable pub emplace_all :
    List ParameterChange → List (String × ParameterChange) → List (String × ParameterChange)
unfolding lookup
emplace_all [] originals = originals
emplace_all (c ∷ changes) originals = emplace_all changes (
    if is_some (lookup (key_of c) originals)
    then originals
    else append originals ((key_of c, c) ∷ []))

abbrev pub values_of : List (String × ParameterChange) → List ParameterChange
values_of originals = map (λ o. o.1) originals

abbrev pub keys_of : List (String × ParameterChange) → List String
keys_of originals = map (λ o. o.0) originals

abbrev pub with_value :
    ParameterChange
    → Option ParameterValue
    → Option (List ParameterChange)
    → Option (List ParameterChange)
with_value c (some value) (some rest) = some (record c { value = value } ∷ rest)
with_value c _ _ = none

abbrev pub use_cmd_vel_stamped : String
use_cmd_vel_stamped = "use_cmd_vel_stamped"

abbrev pub or_false : Option ParameterValue → ParameterValue
or_false none = bool false
or_false (some value) = value

-- What an attempt to reconfigure does to the parameters.
pub data Attempt : Type 0 where
  applied restored lost : Attempt

module _ {World : Type 0} (ros : Ros World) where
  unfoldable pub clean_up : List String → World → World
  clean_up [] w = w
  clean_up (name ∷ names) w =
      clean_up names
        (if same_state (ros.node_state name w) inactive then ros.trigger_node name cleanup w else w)

  -- The loop of set_parameter() calls: whether all were done.
  unfoldable pub set_all : List ParameterChange → World → Bool × World
  set_all [] w = (true, w)
  set_all (c ∷ changes) w =
      let (done, w') = ros.set_parameter c.node c.name c.value w in
      let (rest, w'') = set_all changes w' in (done && rest, w'')

  abbrev pub step_if : State → Transition → World → World
  step_if s t w = if same_state (ros.get_current_state w) s then ros.trigger_transition t w else w

  -- Down to unconfigured, with the subnodes that a failed configure left configured.
  abbrev pub bring_down : World → World
  bring_down w = step_if inactive cleanup (step_if active deactivate w)

  -- forward_deprecated_use_cmd_vel_stamped(), which on_configure() calls first. The parameter is a
  -- bool; the source throws where it is of another type.
  unfoldable pub forward_deprecated_use_cmd_vel_stamped : World → World
  forward_deprecated_use_cmd_vel_stamped w =
      let name = use_cmd_vel_stamped in
      if not (ros.has_override "system_node" name)
        && not (is_some (ros.get_parameter "system_node" name w))
      then w
      else let w' = ros.declare_absent "system_node" name (bool false) w in
        if ros.has_override "controller_node" name
        then w'
        else (ros.set_parameter "controller_node" name
            (or_false (ros.get_parameter "system_node" name w')) w').1

  -- The transition to inactive: `trigger_transition` is the rest of it.
  abbrev pub configure_node : World → World
  configure_node w = ros.trigger_transition configure (forward_deprecated_use_cmd_vel_stamped w)

  -- Up again, as far as it goes: whether the node is active and every value was set.
  unfoldable pub bring_up : Bool → World → Bool × World
  unfolding forward_deprecated_use_cmd_vel_stamped
  bring_up all_set w =
      let w₁ = configure_node w in
      if not (same_state (ros.get_current_state w₁) inactive)
      then (false, w₁)
      else let w₂ = ros.trigger_transition activate w₁ in
        (same_state (ros.get_current_state w₂) active && all_set, w₂)

  unfoldable pub restart_with : List ParameterChange → World → Bool × World
  unfolding clean_up set_all bring_up
  restart_with changes w =
      let w₁ = bring_down w in
      if not (same_state (ros.get_current_state w₁) unconfigured)
      then (false, w₁)
      else let (all_set, w₂) = set_all changes (clean_up ros.nodes w₁) in bring_up all_set w₂

  -- The current values of the parameters to change; none if one does not exist.
  unfoldable pub previous_values : List ParameterChange → World → Option (List ParameterChange)
  previous_values [] w = some []
  previous_values (c ∷ changes) w =
      with_value c (ros.get_parameter c.node c.name w) (previous_values changes w)

  unfoldable pub attempt : List ParameterChange → List ParameterChange → World → Attempt × World
  unfolding restart_with
  attempt changes previous w =
      let (done, w₁) = restart_with changes w in
      let (back, w₂) = restart_with previous w₁ in
      if done then (applied, w₁) else (if back then restored else lost, w₂)

  pub record Node : Type 0 where
    pub system : SystemNode
    pub reconfiguration : Reconfiguration
    pub world : World

  -- request_reconfigure() and request_restore_parameters().
  abbrev request : ReconfigureRequest → Node → Bool × Node
  request r n = if not (allows_reconfiguration n.system.safety) then (false, n) else (
    true,
    record n { reconfiguration = record n.reconfiguration { pending_reconfigure = some r } },
  )

  unfoldable pub request_reconfigure : List ParameterChange → String → Node → Bool × Node
  unfolding allows_reconfiguration
  request_reconfigure changes reason n =
      request (record { changes = changes; restore = false; reason = reason }) n

  unfoldable pub request_restore_parameters : String → Node → Bool × Node
  unfolding allows_reconfiguration
  request_restore_parameters reason n =
      request (record { changes = []; restore = true; reason = reason }) n

  abbrev pub failed_reason : String → String
  failed_reason reason = "unable to reconfigure (" ++ reason ++ ") or restore"

  abbrev pub originals_after :
      Bool
      → List ParameterChange
      → List (String × ParameterChange)
      → List (String × ParameterChange)
  originals_after restore previous originals =
      if restore then [] else emplace_all previous originals

  -- What the outcome of the attempt leaves.
  unfoldable pub conclude :
      ReconfigureRequest → List ParameterChange → Attempt × World → Exec (Node × NavState) Bool
  unfolding request_shutdown emplace_all set
  conclude r previous (lost, w) (n, st) =
      return true
        (record n { world = w; system = request_shutdown (failed_reason r.reason) n.system }, st)
  conclude r previous (restored, w) (n, st) = return true (record n { world = w }, st)
  conclude r previous (applied, w) (n, st) =
      let originals = originals_after r.restore previous n.reconfiguration.original_parameters in
      let n' = record n {
        world = w;
        reconfiguration = record n.reconfiguration { original_parameters = originals };
      } in
      let (o, st') = set "reconfigured_parameters" (texts (keys_of originals)) st in
      bind_outcome (o, (n', st')) (λ _. return true)

  -- From the request on, which is no longer pending.
  unfoldable pub apply_request : ReconfigureRequest → Exec (Node × NavState) Bool
  unfolding previous_values attempt conclude
  apply_request r (n, st) =
      let changes =
        if r.restore then values_of n.reconfiguration.original_parameters else r.changes in
      if is_empty changes then return false (n, st) else elim (previous_values changes n.world) [
        | none ↦ return false (n, st)
        | some previous ↦ conclude r previous (attempt changes previous n.world) (n, st)
      ]

  unfoldable pub apply_pending_reconfigure : Exec (Node × NavState) Bool
  unfolding apply_request
  apply_pending_reconfigure (n, st) = elim n.reconfiguration.pending_reconfigure [
    | none ↦ return false (n, st)
    | some r ↦
        if n.system.shutdown_requested || not (same_state (ros.get_current_state n.world) active)
        then return false (n, st)
        else apply_request r (
          record n { reconfiguration = record n.reconfiguration { pending_reconfigure = none } },
          st,
        )
  ]
