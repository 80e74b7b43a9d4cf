-- ===== src/Messages.antt =====
-- The messages that the components exchange (easynav_interfaces/msg and the ROS messages they are
-- made of), with the fields that the code reads or writes. Times are nanoseconds.
use easy_navigation.Common.{ℤ, pos, Bool, List, [], String}
use easy_navigation.Double.{Double, zero_d}

pub record Header : Type 0 where
  pub stamp : ℤ
  pub frame_id : String

abbrev pub no_header : Header
no_header = record { stamp = pos 0; frame_id = "" }

pub record Vector3 : Type 0 where
  pub x : Double
  pub y : Double
  pub z : Double

abbrev pub origin : Vector3
origin = record { x = zero_d; y = zero_d; z = zero_d }

pub record Twist : Type 0 where
  pub linear : Vector3
  pub angular : Vector3

abbrev pub zero_twist : Twist
zero_twist = record { linear = origin; angular = origin }

pub record TwistStamped : Type 0 where
  pub header : Header
  pub twist : Twist

abbrev pub no_twist : TwistStamped
no_twist = record { header = no_header; twist = zero_twist }

pub record Quaternion : Type 0 where
  pub qx : Double
  pub qy : Double
  pub qz : Double
  pub qw : Double

pub record Pose : Type 0 where
  pub position : Vector3
  pub orientation : Quaternion

pub record PoseStamped : Type 0 where
  pub header : Header
  pub pose : Pose

pub record Goals : Type 0 where
  pub header : Header
  pub goals : List PoseStamped

abbrev pub no_goals : Goals
no_goals = record { header = no_header; goals = [] }

-- An odometry's header and the pose in it.
pub record Odometry : Type 0 where
  pub header : Header
  pub pose : Pose

pub data Level : Type 0 where
  ok warn error : Level

pub record DiagnosticStatus : Type 0 where
  pub level : Level
  pub name : String
  pub hardware_id : String
  pub message : String
  pub values : List (String × String)

-- easynav_core VelocityCommand.hpp: one source's slot.
pub record VelocityProposal : Type 0 where
  pub pending : Bool
  pub cmd : TwistStamped

-- easynav_system GoalManager.hpp: `GoalManager::State`.
pub data NavigationState : Type 0 where
  idle active : NavigationState
