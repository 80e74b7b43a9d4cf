-- ===== src/SystemNode.antt =====
-- easynav_system SystemNode: the order of the components in a real-time cycle, and the requests of
-- shutdown. The cycles of the sensors and the localizer, and the plugins' own code, are arguments;
-- `times` are the clocks' readings. A recovery plugin that calls the system's actions in its own
-- cycle, and what a throw leaves of the controller node's fields, are left out, as are the threads,
-- the executors and the lifecycle.
pub mod Shutdown
pub mod Reconfigure
pub mod Values
pub mod Restore
use easy_navigation.Common.{
  ℤ, Bool, true, false, not, ◌||◌, Option, none, some, String, List, [], ◌∷◌, if◌then◌else◌,
}
use easy_navigation.Double.{Double, Arith}
use easy_navigation.NavState.{
  NavState, Outcome, ok, throws, Exec, return, branch, bind_outcome, ◌>>=◌, ◌>>◌, set, twist,
}
use easy_navigation.Messages.{TwistStamped, zero_twist}
use easy_navigation.MethodBase.{MethodBase, Format}
use easy_navigation.MethodUpdate.{Names, Reads}
use easy_navigation.MethodUpdate.Controller.{internal_update_rt}
use easy_navigation.ControllerNode.{ControllerNode, Output, propose_cmd_vel, publish_cmd_vel_rt}
use easy_navigation.RecoveryManager
use easy_navigation.SafetySupervisor.{SafetySupervisor, Print}
use easy_navigation.SafetySupervisor.Cycle.{cycle_rt}

-- The parts of the node that a real-time cycle changes. `controller_method` is the controller
-- plugin's, if one is loaded.
pub record SystemNode : Type 0 where
  pub active : Bool
  pub safety : SafetySupervisor
  pub controller_node : ControllerNode
  pub controller_method : Option MethodBase
  pub shutdown_requested : Bool
  pub shutdown_reason : String

-- The plugins' own code, and the cycles that are not modelled.
pub record Plugins : Type 0 where
  pub sensors_cycle_rt : Exec NavState Bool
  pub localizer_cycle_rt : Bool → Exec NavState Bool
  pub controller_update_rt : Exec NavState (Unit {0})
  pub has_recovery : Bool
  pub recovery_update_rt : Exec NavState Bool

pub record Times : Type 0 where
  pub steady : ℤ
  pub stamp : ℤ
  pub wall : ℤ
  pub controller : Reads
  pub recovery : ℤ
  pub publish : ℤ

unfoldable pub request_shutdown : String → SystemNode → SystemNode
request_shutdown reason n =
    if n.shutdown_requested
    then n
    else record n { shutdown_reason = reason; shutdown_requested = true }

abbrev pub or_empty : Option String → String
or_empty none = ""
or_empty (some reason) = reason

-- `if (!safety_.cycle_rt(...)) { request_shutdown(...); }`.
unfoldable pub heed : Bool → SafetySupervisor → SystemNode → SystemNode
unfolding request_shutdown
heed go safety n =
    if go
    then record n { safety = safety }
    else request_shutdown (or_empty safety.failure) (record n { safety = safety })

abbrev pub heeded :
    Outcome Bool × (SafetySupervisor × NavState)
    → SystemNode
    → Outcome (Unit {0}) × (SystemNode × NavState)
heeded (ok go, (s, st)) n = (ok tt, (heed go s n, st))
heeded (throws e, (s, st)) n = (throws e, (record n { safety = s }, st))

-- The controller node after its code returned.
abbrev pub keep_node :
    {A : Type 0}
    → Outcome (ControllerNode × A) × NavState
    → SystemNode
    → Outcome A × (SystemNode × NavState)
keep_node (ok (c, x), st) n = (ok x, (record n { controller_node = c }, st))
keep_node (throws e, st) n = (throws e, (n, st))

module _ (a : Arith) (print : Print) (reason : String × Double → String) (format : Format)
    (names : Names) (plugins : Plugins) (times : Times) where
  unfoldable pub safety_cycle_rt : Exec (SystemNode × NavState) (Unit {0})
  unfolding cycle_rt
  safety_cycle_rt (n, st) =
      heeded (cycle_rt a print reason times.steady times.stamp times.wall (n.safety, st)) n

  -- ControllerNode::cycle_rt().
  abbrev pub update_rt : Bool → MethodBase → Exec (SystemNode × NavState) Bool
  update_rt trigger m (n, st) =
      let (r, (m', st')) =
        internal_update_rt a format names times.controller plugins.controller_update_rt trigger
          (m, st) in
      (r, (record n { controller_method = some m' }, st'))

  abbrev pub propose_rt : Bool → Exec (SystemNode × NavState) Bool
  propose_rt ran (n, st) =
      keep_node ((propose_cmd_vel ran n.controller_node >>= (λ c. return (c, ran))) st) n

  unfoldable pub controller_cycle_rt : Bool → Option MethodBase → Exec (SystemNode × NavState) Bool
  unfolding internal_update_rt propose_cmd_vel
  controller_cycle_rt trigger none = return false
  controller_cycle_rt trigger (some m) = update_rt trigger m >>= propose_rt

  abbrev pub on_board : {A : Type 0} → Exec NavState A → Exec (SystemNode × NavState) A
  on_board f (n, st) = let (r, st') = f st in (r, (n, st'))

  -- publish_cmd_vel_rt(): what leaves the robot's node.
  unfoldable pub publish_rt : Exec (SystemNode × NavState) (List Output)
  unfolding publish_cmd_vel_rt
  publish_rt (n, st) = keep_node (publish_cmd_vel_rt a times.publish n.controller_node st) n

  abbrev pub controller_step : Bool → Exec (SystemNode × NavState) Bool
  controller_step trigger (n, st) = controller_cycle_rt trigger n.controller_method (n, st)

  -- The components' cycles, in the code's order.
  abbrev pub components_rt : Exec (SystemNode × NavState) (List Output)
  components_rt = do
    perceptions ← on_board plugins.sensors_cycle_rt
    localization ← on_board (plugins.localizer_cycle_rt perceptions)
    ran ← controller_step (perceptions || localization)
    taken ← on_board (
        RecoveryManager.cycle_rt plugins.has_recovery names.robot_frame times.recovery
          plugins.recovery_update_rt)
    publish_rt

  unfoldable pub system_cycle_rt : Exec (SystemNode × NavState) (List Output)
  unfolding safety_cycle_rt controller_cycle_rt RecoveryManager.cycle_rt publish_rt
  system_cycle_rt (n, st) =
      if n.active then (safety_cycle_rt >> components_rt) (n, st) else return [] (n, st)

-- clear_cmd_vel().
unfoldable pub clear_cmd_vel : String → ℤ → Exec NavState (Unit {0})
unfolding set
clear_cmd_vel robot_frame now =
    set "cmd_vel" (
      twist
        (record { header = record { stamp = now; frame_id = robot_frame }; twist = zero_twist }))
