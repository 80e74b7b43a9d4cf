-- ===== src/Lib.antt =====
-- EasyNavigation: the mission, the velocity commands and the safety functions of the navigation.
-- Paths are from the repository's root. In a real-time cycle the system node updates the monitors of
-- the safety channel and of late cycles, the controller proposes a velocity on the blackboard, and
-- the controller node selects a command, guards it, smooths it and publishes it. In a slower cycle
-- the goal manager answers its clients and follows the mission on the blackboard. The sensors' cycle
-- marks what is too old, and the operations on points fuse what several sensors see.
--
-- Common, Double, Messages and Control hold what is shared. Double has the values of IEEE 754 doubles
-- with exact comparisons: a finite one is a whole number of 2^-1074, and the two zeros are one value.
-- Arithmetic that rounds is a parameter (Double.Arith), and so are std::hypot, std::fmod and
-- tf2::getYaw (GoalManager.Reached.Geometry) and the streams' text of a double. Messages and Control
-- have the fields of the ROS messages that the code uses (easynav_interfaces/msg).
--
-- NavState is easynav_common/include/easynav_common/types/NavState.hpp: a method is the function of
-- its name, on a store of typed values; what throws is a result (Outcome) beside the state left.
-- NavState.Schema gives the type that each key has throughout the system.
--
-- CircularBuffer is easynav_common/include/easynav_common/CircularBuffer.hpp; CircularBuffer.Queue is
-- its contract.
--
-- RobotLimits, SafetyChannel and VelocityCommand are the headers of those names in
-- easynav_core/include/easynav_core, with easynav_core/src/easynav_core/VelocityCommand.cpp.
-- SafetyChannel.Monitor and RtMonitor are SafetyChannelMonitor.cpp and RtMonitor.cpp of
-- easynav_system/src/easynav_system/safety.
--
-- VelocityMux, VelocitySmoother, CommandGuard and ControllerNode are the classes of those names in
-- easynav_controller/src/easynav_controller; VelocitySmoother::clamp is clamp_target, and
-- publish_cmd_vel_rt, stop_robot, publish and the limits' setters keep their names.
--
-- GoalManager and GoalManagerClient are the classes of those names in
-- easynav_system/src/easynav_system. The cases of control_callback()'s switch are on_request,
-- on_cancel, on_pause and on_resume; GoalManager.Update has the steps of update(), and
-- GoalManager.History the constructor and the histories of events. In the client cancel(), pause(),
-- resume() and reset() are cancel_mission, pause_mission, resume_mission and reset.
--
-- RateMonitor and MethodBase are the classes of those names in easynav_core/src/easynav_core. Of
-- their siblings, MethodUpdate has PlannerMethodBase.cpp and MapsManagerBase.cpp, whose updates are
-- the same code, MethodUpdate.Controller has ControllerMethodBase.cpp and MethodUpdate.Localizer has
-- LocalizerMethodBase.cpp: a plugin's own code is an argument, which may throw.
--
-- PluginSwitcher is PluginSwitcher.hpp of easynav_core/include/easynav_core; the node's parameters and
-- the class loader are an argument (Host).
--
-- SafetySupervisor and ParameterFreezer are the classes of those names in
-- easynav_system/src/easynav_system/safety: SafetySupervisor.Configure has the checks and
-- on_configured(), SafetySupervisor.Cycle has cycle_rt() and SafetySupervisor.Reports the
-- diagnostics, which RtMonitor and SafetyChannel.Monitor feed.
--
-- RecoveryManager is RecoveryManagerBase.cpp of easynav_core/src/easynav_core with the cycles of
-- easynav_recovery/src/easynav_recovery/RecoveryManagerNode.cpp. SystemNode is system_cycle_rt() and
-- the request of shutdown of easynav_system/src/easynav_system/SystemNode.cpp, with
-- ControllerNode::cycle_rt(): it composes the parts above in the code's order. The cycles of the
-- sensors and of the localizer are arguments. SystemNode.Reconfigure has the pending changes of
-- parameters: request_reconfigure(), apply_pending_reconfigure() and restart_with(), over nodes whose
-- lifecycle and parameters are an argument (Ros).
--
-- RttfBuffer is RTTFBuffer.hpp of easynav_common/include/easynav_common: lookupTransform() is
-- lookup_transform, with a timeout wait_lookup and over a fixed frame lookup_fixed, and canTransform()
-- likewise; tf2 and the arithmetic of se3_power() are an argument (Tf2).
--
-- PointPerception is PointPerception.hpp of easynav_sensors/include/easynav_sensors/types, and
-- PointPerceptionsOpsView is the class of that name in
-- easynav_sensors/src/easynav_sensors/types/PointPerception.cpp: filter() is filter_view, and
-- PointPerceptionsOpsView.Change has downsample(), collapse(), fuse() and add(). What the transform
-- buffer answers is an argument (PointPerception.Transforms), and so is the arithmetic on the points
-- (Geometry). SensorsNode is the real-time cycle of easynav_sensors/src/easynav_sensors/SensorsNode.cpp
-- with check_data_age() and report_data_age().
--
-- ConfigurationFingerprint has quote() and list() of string arrays of ConfigurationFingerprint.cpp in
-- easynav_system/src/easynav_system/safety, on lists of bytes.
--
-- Times are nanoseconds, whole numbers. uint64 counters wrap; the int64 sequence numbers and the int
-- counts of late cycles and of runs are unbounded. The braking loop of stop_robot() runs for as many
-- rounds as its deadline leaves, a number that the theorems take as any; every other loop is over a list. A
-- mutex makes each call one step, and a sequence of calls is a list of events. Logs, parameter
-- declaration, publishers' quality of service and thread handling are not modelled, as they change
-- no state here.
--
-- Not modelled: the system actions that a recovery plugin asks for in its cycle, the perceptions of
-- sensors that see no points, the publishing of the fused points, and the listener of transforms. The
-- tools and the Python client are user interfaces.
pub mod Common
pub mod Double
pub mod RtMonitor
pub mod RateMonitor
pub mod MethodBase
pub mod MethodUpdate
pub mod RobotLimits
pub mod SafetyChannel
pub mod Messages
pub mod NavState
pub mod VelocityCommand
pub mod VelocityMux
pub mod Control
pub mod GoalManager
pub mod CircularBuffer
pub mod VelocitySmoother
pub mod GoalManagerClient
pub mod ParameterFreezer
pub mod SafetySupervisor
pub mod RecoveryManager
pub mod SystemNode
pub mod PointPerception
pub mod PointPerceptionsOpsView
pub mod SensorsNode
pub mod ConfigurationFingerprint
pub mod CommandGuard
pub mod ControllerNode
pub mod Tests
pub mod PluginSwitcher
pub mod RttfBuffer
