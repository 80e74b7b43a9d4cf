-- ===== src/Tests/Sensors.antt =====
-- Runs of the points of the sensors, and of the sensors' cycle.
use easy_navigation.Common.{
  ℕ, ℤ, pos, ◌≡◌, refl, arith, Bool, true, false, none, some, List, [], ◌∷◌, map,
}
use easy_navigation.CircularBuffer.{new}
use easy_navigation.CircularBuffer.Queue
use easy_navigation.CircularBuffer.Invariant.{new-IsValid}
use easy_navigation.CircularBuffer.Refine.{contents}
use easy_navigation.Double.{Double, fin, nan, zero_d, lt, eq, le, is_nan}
use easy_navigation.Messages.{Vector3}
use easy_navigation.NavState.{NavState, Exec, return, empty}
use easy_navigation.NavState.Rules.{Returns, returns}
use easy_navigation.NavState.Schema.{empty-IsTyped}
use easy_navigation.PointPerception.{
  Time, ros_time, Item, no_item, PointPerception, Transforms, integrate_pending_perceptions,
}
use easy_navigation.PointPerception
use easy_navigation.PointPerception.Items.{IsChosen, remaining}
use easy_navigation.PointPerception.Integrate.{
  pending_item, Shows, integrate_pending_perceptions-Integrated,
}
use easy_navigation.PointPerceptionsOpsView.{
  Geometry, PointPerceptionsOpsView, construct, filter_view, as_points,
}
use easy_navigation.PointPerceptionsOpsView.Change.{VoxelKey, voxel, downsample}
use easy_navigation.PointPerceptionsOpsView.Same.{as_points-filter_view}
use easy_navigation.PointPerceptionsOpsView.Voxels.{chosen_in, leading_in, downsample_lem}
use easy_navigation.PointPerceptionsOpsView.Once.{
  Operation, filtering, downsampling, fusing, adding, apply_all, AllOrdered, construct-AllOrdered,
}
use easy_navigation.SensorsNode.{SensorsNode, Handler, fresh, cycle_rt}
use easy_navigation.SensorsNode.Report.{IsChecked, cycle_rt-IsChecked}
use easy_navigation.Tests.Data.{truncating, whole}

abbrev number : Double → ℤ
number (fin z) = z
number _ = pos 0

-- Cells of one unit.
abbrev geometry : Geometry
geometry = record { to_float = λ x. x; inverse = λ x. x; mul = λ x y. x; floor_int = number }

abbrev point : ℕ → Vector3
point n = record { x = fin (pos n); y = zero_d; z = zero_d }

abbrev at : ℕ → Time
at n = record { nanoseconds = pos n; clock_type = ros_time }

-- Four points, of which two lie in one cell.
abbrev scan : PointPerception
scan = record PointPerception.new {
  stamp = at 5;
  frame_id = "laser";
  valid = true;
  cloud = point 1 ∷ point 3 ∷ point 3 ∷ point 7 ∷ [];
}

abbrev view : PointPerceptionsOpsView
view = record (construct true (some scan ∷ none ∷ [])) { has_target_frame = true }

abbrev low : List Double
low = fin (pos 2) ∷ nan ∷ []

as_points-filter_view_example :
    as_points geometry (filter_view low [] true view)
    ≡ as_points geometry (filter_view low [] false view)
as_points-filter_view_example = as_points-filter_view geometry low [] view refl

three_left : as_points geometry (filter_view low [] false view) ≡ point 3 ∷ point 3 ∷ point 7 ∷ []
unfolding as_points filter_view construct lt is_nan PointPerception.new
three_left = refl

abbrev cell : VoxelKey
cell = record { cell_x = pos 3; cell_y = pos 0; cell_z = pos 0 }

downsample_lem_example :
    map
      (chosen_in (voxel geometry view.collapsed (whole 1)) cell)
      (downsample geometry (whole 1) view).slots
    ≡ map (leading_in (voxel geometry view.collapsed (whole 1)) cell) view.slots
unfolding le lt eq construct
downsample_lem_example = downsample_lem geometry (whole 1) view cell refl

abbrev transforms : Transforms
transforms = record {
  robot_frame = "base_link";
  can_transform = λ target source time. true;
  lookup_transform = λ target source time. none;
}

abbrev operations : List Operation
operations =
    downsampling (whole 1)
    ∷ fusing transforms "map" (at 0) false
    ∷ adding (point 4 ∷ []) "map" (at 6)
    ∷ filtering low [] false
    ∷ []

construct-AllOrdered_example :
    AllOrdered (apply_all geometry operations (construct true (some scan ∷ none ∷ []))).slots
construct-AllOrdered_example = construct-AllOrdered geometry true (some scan ∷ none ∷ []) operations

abbrev waiting : PointPerception
waiting = record PointPerception.new {
  pending_available = true;
  pending_cloud = point 1 ∷ [];
  pending_frame = "laser";
  pending_stamp = at 9;
}

integrate_pending_perceptions-Integrated_example :
    (i : Item) × IsChosen transforms
      (Queue.push 10 (pending_item waiting) (contents no_item (new no_item 10)))
      i
    × Shows i
        (remaining transforms i
          (Queue.push 10 (pending_item waiting) (contents no_item (new no_item 10))))
        (integrate_pending_perceptions transforms waiting)
unfolding PointPerception.new
integrate_pending_perceptions-Integrated_example =
    integrate_pending_perceptions-Integrated transforms waiting
      (new-IsValid no_item 10 (omega arith)) refl

-- A laser whose data is older than a second.
abbrev laser : Handler
laser = record { sensor_name = "laser"; perception = some (record { stamp = at 5; valid = true }) }

abbrev sensors : SensorsNode
sensors = record {
  name = "sensors_node";
  handler_list = laser ∷ [];
  data_states = fresh ∷ [];
  data_age_reported = true;
  forget_time = whole 1;
}

abbrev idle : Handler → Exec (Handler × NavState) Bool
idle h s = return false s

cycle_rt-IsChecked_example :
    Returns
      (λ _ s. IsChecked truncating (whole 1) (at 2000000005) s)
      (cycle_rt truncating (λ d. "") (at 2000000005) idle (sensors, empty))
cycle_rt-IsChecked_example =
    cycle_rt-IsChecked truncating (λ d. "") (at 2000000005) idle sensors empty
      (λ h st t. returns false refl t) refl empty-IsTyped
