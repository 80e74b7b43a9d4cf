-- ===== src/PointPerceptionsOpsView/Change.antt =====
-- The operations that change a view: downsampling, collapsing, fusing and adding.
use easy_navigation.Common.{
  ℕ, ℤ, pos, ltb_ℤ, eqb_ℤ, Bool, true, false, not, ◌&&◌, ◌||◌, Option, none, some, is_some, String,
  str_eq, List, [], ◌∷◌, ◌++◌, length, map, get_elem?, is_empty, if◌then◌else◌, leb,
}
use mathlib.Core.Option.{map as map_option}
use easy_navigation.Double.{Double, le, zero_d}
use easy_navigation.Messages.{Vector3}
use easy_navigation.PointPerception.{
  Time, no_time, same_clock, Cloud, PointPerception, Transforms, integrate_pending_perceptions,
}
use easy_navigation.PointPerception
use easy_navigation.PointPerceptionsOpsView.{
  Geometry, Axes, no_axes, Slot, PointPerceptionsOpsView, cloud, fill_bounds, new_slot,
}

pub record VoxelKey : Type 0 where
  pub cell_x : ℤ
  pub cell_y : ℤ
  pub cell_z : ℤ

abbrev pub same_key : VoxelKey → VoxelKey → Bool
same_key a b = eqb_ℤ a.cell_x b.cell_x && eqb_ℤ a.cell_y b.cell_y && eqb_ℤ a.cell_z b.cell_z

abbrev pub has_key : VoxelKey → List VoxelKey → Bool
has_key k [] = false
has_key k (key ∷ keys) = same_key k key || has_key k keys

abbrev pub or_value : Option Double → Double → Double
or_value none x = x
or_value (some value) x = value

-- The voxel of a point, with `inv_res` the inverse of the resolution.
unfoldable pub voxel : Geometry → Axes → Double → Vector3 → VoxelKey
voxel g collapsed inv_res pt = record {
  cell_x = g.floor_int (g.mul pt.x inv_res);
  cell_y = g.floor_int (g.mul pt.y inv_res);
  cell_z = g.floor_int (g.mul (or_value collapsed.on_z pt.z) inv_res);
}

-- The loop over a slot's indices, with the voxels seen.
unfoldable pub thin : (Vector3 → VoxelKey) → Cloud → List VoxelKey → List ℕ → List ℕ
thin voxel_of points seen [] = []
thin voxel_of points seen (i ∷ indices) = elim (get_elem? points i) [
  | none ↦ thin voxel_of points seen indices
  | some pt ↦ elim (has_key (voxel_of pt) seen) [
    | true ↦ thin voxel_of points seen indices
    | false ↦ i ∷ thin voxel_of points (voxel_of pt ∷ seen) indices
  ]
]

unfoldable pub downsample_slot : (Vector3 → VoxelKey) → Slot → Slot
unfolding thin
downsample_slot voxel_of s =
    if is_empty (cloud s.perception) || leb (length s.indices) 1
    then s
    else record s { indices = thin voxel_of (cloud s.perception) [] s.indices }

unfoldable pub downsample : Geometry → Double → PointPerceptionsOpsView → PointPerceptionsOpsView
unfolding voxel downsample_slot le
downsample g resolution v = if le resolution zero_d then v else record v {
  slots = map (downsample_slot (voxel g v.collapsed (g.inverse resolution))) v.slots;
}

abbrev pub to_floats : Geometry → Axes → Axes
to_floats g values = record {
  on_x = map_option g.to_float values.on_x;
  on_y = map_option g.to_float values.on_y;
  on_z = map_option g.to_float values.on_z;
}

abbrev pub collapse_point : Axes → Vector3 → Vector3
collapse_point values p = record {
  x = or_value values.on_x p.x;
  y = or_value values.on_y p.y;
  z = or_value values.on_z p.z;
}

abbrev pub collapse_slot : Axes → Slot → Slot
collapse_slot values s = elim s.perception [
  | none ↦ s
  | some p ↦
      if p.valid
      then record s { perception = some (record p { cloud = map (collapse_point values) p.cloud }) }
      else s
]

abbrev pub is_unused : Axes → Bool
is_unused values = not (is_some values.on_x || is_some values.on_y || is_some values.on_z)

unfoldable pub collapse :
    Geometry → List Double → Bool → PointPerceptionsOpsView → PointPerceptionsOpsView
unfolding fill_bounds
collapse g collapse_dims lazy v =
    let values = to_floats g (fill_bounds collapse_dims) in
    if lazy
    then record v { collapsed = values }
    else if not v.owned || is_unused values
    then v
    else record v { slots = map (collapse_slot values) v.slots; collapsed = no_axes }

-- update_latest_stamp().
unfoldable pub update_latest_stamp : Time → Time → Time
update_latest_stamp candidate stamp =
    if eqb_ℤ candidate.nanoseconds (pos 0)
    then stamp
    else if eqb_ℤ stamp.nanoseconds (pos 0)
    then candidate
    else if not (ltb_ℤ stamp.nanoseconds candidate.nanoseconds)
    then stamp
    else if same_clock stamp.clock_type candidate.clock_type
    then candidate
    else record stamp { nanoseconds = candidate.nanoseconds }

-- The body of fuse() from the lookup on.
unfoldable pub look_up : Transforms → String → Bool → PointPerception → Time → Slot → Slot × Time
unfolding update_latest_stamp
look_up tf target_frame exact_time p stamp s =
    let query_time = if exact_time then some p.stamp.nanoseconds else none in
    elim (tf.lookup_transform target_frame p.frame_id query_time) [
      | none ↦ (record s { tf_valid = false; tf_failed = true }, stamp)
      | some (transform, nanoseconds) ↦
          let at = if exact_time then p.stamp else record p.stamp { nanoseconds = nanoseconds } in
          (
            record s { transform = transform; tf_valid = true; tf_failed = false },
            update_latest_stamp at stamp,
          )
    ]

unfoldable pub fuse_slot : Transforms → String → Bool → Time → Slot → Slot × Time
unfolding integrate_pending_perceptions look_up
fuse_slot tf target_frame exact_time stamp s = elim s.perception [
  | none ↦ (record s { tf_valid = false; tf_failed = false }, stamp)
  | some old ↦
      let p = integrate_pending_perceptions tf old in
      let s' = record s { perception = some p; tf_valid = false; tf_failed = false } in
      if not p.valid || is_empty p.cloud || str_eq p.frame_id target_frame
      then (s', stamp)
      else look_up tf target_frame exact_time p stamp s'
]

unfoldable pub fuse_slots : Transforms → String → Bool → Time → List Slot → List Slot × Time
unfolding fuse_slot
fuse_slots tf target_frame exact_time stamp [] = ([], stamp)
fuse_slots tf target_frame exact_time stamp (s ∷ slots) =
    let (s', stamp') = fuse_slot tf target_frame exact_time stamp s in
    let (slots', last) = fuse_slots tf target_frame exact_time stamp' slots in (s' ∷ slots', last)

unfoldable pub fuse :
    Transforms → String → Time → Bool → PointPerceptionsOpsView → PointPerceptionsOpsView × Time
unfolding fuse_slots
fuse tf target_frame stamp exact_time v =
    let (slots, stamp') = fuse_slots tf target_frame exact_time stamp v.slots in
    (record v { has_target_frame = true; target_frame = target_frame; slots = slots }, stamp')

-- The perception of points that are added.
unfoldable pub added : Cloud → String → Time → PointPerception
unfolding PointPerception.new
added points frame stamp = record PointPerception.new {
  valid = true;
  frame_id = frame;
  stamp = stamp;
  cloud = points;
}

unfoldable pub add : Cloud → String → Time → PointPerceptionsOpsView → PointPerceptionsOpsView
unfolding new_slot added
add points frame stamp v =
    if v.owned
    then record v { slots = v.slots ++ new_slot (some (added points frame stamp)) ∷ [] }
    else v
