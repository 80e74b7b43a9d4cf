-- ===== src/PointPerceptionsOpsView.antt =====
-- easynav_sensors types/PointPerception.cpp: the operations on the points of several sensors.
-- The vectors of the source, of one entry per perception each, are one list of slots. The indices
-- of a slot count from 0, so none is negative. A perception belongs to the view alone here: what
-- others do to it through a shared pointer is left out. `Geometry` is the arithmetic that rounds.
pub mod Change
pub mod Same
pub mod Once
pub mod Voxels
use easy_navigation.Common.{
  ℕ, zero, suc, ◌+◌, ℤ, pos, ltb_ℤ, eqb_ℤ, Bool, true, false, not, ◌&&◌, ◌||◌, Option, none, some,
  is_some, String, str_eq, List, [], ◌∷◌, ◌++◌, length, map, filter, concat, get_elem?, is_empty,
  if◌then◌else◌, leb,
}
use easy_navigation.Double.{Double, lt, le, is_nan, zero_d}
use easy_navigation.Messages.{Vector3}
use easy_navigation.PointPerception.{
  Time, no_time, same_clock, Cloud, PointPerception, Transforms, integrate_pending_perceptions,
}
use easy_navigation.PointPerception

-- `static_cast<float>`, `1.0 / x`, the product, and `static_cast<int>(std::floor(x))`, which C++
-- leaves undefined for a NaN and out of the range of int: any value here.
pub record Geometry : Type 0 where
  pub to_float : Double → Double
  pub inverse : Double → Double
  pub mul : Double → Double → Double
  pub floor_int : Double → ℤ

-- A value for each axis, where there is one.
pub record Axes : Type 0 where
  pub on_x : Option Double
  pub on_y : Option Double
  pub on_z : Option Double

abbrev pub no_axes : Axes
no_axes = record { on_x = none; on_y = none; on_z = none }

pub record Slot : Type 0 where
  pub perception : Option PointPerception
  pub indices : List ℕ
  pub transform : Vector3 → Vector3
  pub tf_valid : Bool
  pub tf_failed : Bool

-- `collapse`, `post_min` and `post_max` are the flags with the values of the set ones.
pub record PointPerceptionsOpsView : Type 0 where
  pub owned : Bool
  pub slots : List Slot
  pub has_target_frame : Bool
  pub target_frame : String
  pub collapsed : Axes
  pub has_post_filter : Bool
  pub post_min : Axes
  pub post_max : Axes

-- The points of a perception that is there and valid.
abbrev pub cloud : Option PointPerception → Cloud
cloud none = []
cloud (some p) = if p.valid then p.cloud else []

unfoldable pub iota : ℕ → ℕ → List ℕ
iota start zero = []
iota start (suc n) = start ∷ iota (suc start) n

unfoldable pub new_slot : Option PointPerception → Slot
unfolding iota
new_slot p = record {
  perception = p;
  indices = iota 0 (length (cloud p));
  transform = λ pt. pt;
  tf_valid = false;
  tf_failed = false;
}

-- The constructors: `owned` is false for the one that takes a reference.
unfoldable pub construct : Bool → List (Option PointPerception) → PointPerceptionsOpsView
unfolding new_slot
construct owned perceptions = record {
  owned = owned;
  slots = map new_slot perceptions;
  has_target_frame = false;
  target_frame = "";
  collapsed = no_axes;
  has_post_filter = false;
  post_min = no_axes;
  post_max = no_axes;
}

-- The value of an axis, unless it is missing or a NaN.
abbrev pub axis : List Double → ℕ → Option Double
axis values k = elim (get_elem? values k) [
  | none ↦ none
  | some value ↦ if is_nan value then none else some value
]

-- fill_bounds().
unfoldable pub fill_bounds : List Double → Axes
fill_bounds values = record { on_x = axis values 0; on_y = axis values 1; on_z = axis values 2 }

abbrev pub is_below : Option Double → Double → Bool
is_below none x = false
is_below (some bound) x = lt x bound

abbrev pub is_above : Option Double → Double → Bool
is_above none x = false
is_above (some bound) x = lt bound x

unfoldable pub is_outside : Axes → Axes → Vector3 → Bool
is_outside low high p =
    is_below low.on_x p.x
    || is_below low.on_y p.y
    || is_below low.on_z p.z
    || is_above high.on_x p.x
    || is_above high.on_y p.y
    || is_above high.on_z p.z

-- A point in the target frame, if its slot has a transform.
abbrev pub place : Bool → Slot → Vector3 → Vector3
place has_target s pt = if has_target && s.tf_valid then s.transform pt else pt

abbrev pub is_skipped : Bool → Slot → Bool
is_skipped has_target s =
    is_empty (cloud s.perception) || is_empty s.indices || (has_target && s.tf_failed)

abbrev pub is_kept : Axes → Axes → Bool → Slot → Option Vector3 → Bool
is_kept low high has_target s none = false
is_kept low high has_target s (some pt) = not (is_outside low high (place has_target s pt))

unfoldable pub filter_slot : Axes → Axes → Bool → Slot → Slot
unfolding is_outside
filter_slot low high has_target s =
    if is_skipped has_target s then record s { indices = [] } else record s {
      indices =
          filter (λ i. is_kept low high has_target s (get_elem? (cloud s.perception) i)) s.indices;
    }

unfoldable pub filter_view :
    List Double → List Double → Bool → PointPerceptionsOpsView → PointPerceptionsOpsView
unfolding fill_bounds filter_slot
filter_view min_bounds max_bounds lazy_post_fuse v =
    let low = fill_bounds min_bounds in
    let high = fill_bounds max_bounds in
    if v.has_target_frame && lazy_post_fuse
    then record v { has_post_filter = true; post_min = low; post_max = high }
    else record v {
      has_post_filter = lazy_post_fuse && v.has_post_filter;
      slots = map (filter_slot low high v.has_target_frame) v.slots;
    }

abbrev pub collapse_to : (Double → Double) → Option Double → Double → Double
collapse_to to_float none x = to_float x
collapse_to to_float (some value) x = value

-- The point that as_points() puts out, of one in the target frame.
abbrev pub finish : Geometry → Axes → Vector3 → Vector3
finish g collapsed p = record {
  x = collapse_to g.to_float collapsed.on_x p.x;
  y = collapse_to g.to_float collapsed.on_y p.y;
  z = collapse_to g.to_float collapsed.on_z p.z;
}

-- The loop over a slot's indices.
unfoldable pub emit : Geometry → PointPerceptionsOpsView → Slot → List ℕ → Cloud
unfolding is_outside
emit g v s [] = []
emit g v s (i ∷ indices) =
    let rest = emit g v s indices in
    elim (get_elem? (cloud s.perception) i) [
      | none ↦ rest
      | some pt ↦
          let p = place v.has_target_frame s pt in
          if v.has_post_filter && is_outside v.post_min v.post_max p
          then rest
          else finish g v.collapsed p ∷ rest
    ]

abbrev pub points_of : Geometry → PointPerceptionsOpsView → Slot → Cloud
points_of g v s = if is_skipped v.has_target_frame s then [] else emit g v s s.indices

unfoldable pub as_points : Geometry → PointPerceptionsOpsView → Cloud
unfolding emit
as_points g v = concat (map (points_of g v) v.slots)
