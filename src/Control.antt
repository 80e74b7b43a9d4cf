-- ===== src/Control.antt =====
-- easynav_interfaces msg/NavigationControl and msg/GoalManagerInfo. The fields that no code writes
-- (estimated_time_remaining, distance_covered) are left out.
use easy_navigation.Common.{ℕ, ℤ, pos, String}
use easy_navigation.Double.{Double, zero_d}
use easy_navigation.Messages.{
  Header, no_header, Goals, no_goals, PoseStamped, NavigationState, idle, origin,
}

-- The `uint8 type`; `other` is a number that the message does not name.
pub data ControlType : Type 0 where
  request reject accept feedback finished failed cancel cancelled error pause resume paused
        resumed :
      ControlType
  other : ℕ → ControlType

abbrev pub no_pose : PoseStamped
no_pose = record {
  header = no_header;
  pose = record {
    position = origin;
    orientation = record { qx = zero_d; qy = zero_d; qz = zero_d; qw = zero_d };
  };
}

pub record NavigationControl : Type 0 where
  pub type : ControlType
  pub header : Header
  pub seq : ℤ
  pub user_id : String
  pub nav_current_user_id : String
  pub goals : Goals
  pub status_message : String
  pub current_pose : PoseStamped
  pub navigation_time : ℤ
  pub distance_to_goal : Double

abbrev pub no_control : NavigationControl
no_control = record {
  type = request;
  header = no_header;
  seq = pos 0;
  user_id = "";
  nav_current_user_id = "";
  goals = no_goals;
  status_message = "";
  current_pose = no_pose;
  navigation_time = pos 0;
  distance_to_goal = zero_d;
}

pub record GoalManagerInfo : Type 0 where
  pub status : NavigationState
  pub goals : Goals
  pub position_distance : Double
  pub angle_distance : Double
  pub position_tolerance : Double
  pub angle_tolerance : Double

abbrev pub no_info : GoalManagerInfo
no_info = record {
  status = idle;
  goals = no_goals;
  position_distance = zero_d;
  angle_distance = zero_d;
  position_tolerance = zero_d;
  angle_tolerance = zero_d;
}
