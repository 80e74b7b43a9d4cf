-- ===== src/RttfBuffer.antt =====
-- easynav_common RTTFBuffer.hpp: transforms slightly ahead of the latest one. tf2_ros::Buffer and
-- the product of transforms are an argument (Tf2), and so is the arithmetic of se3_power(), which
-- rounds: `predict` is T_last * (T_prev^-1 * T_last)^(ahead / window). Times are nanoseconds;
-- tf2::TimePointZero is 0.
pub mod Ahead
pub mod Consistent
use Prim.Native.String.{◌++◌}
use easy_navigation.Common.{
  ℕ, ◌+◌, ◌*◌, ◌/◌, ℤ, pos, negsuc, ◌+ℤ◌, ◌-ℤ◌, ltb_ℤ, leb_ℤ, eqb_ℤ, to_int, to_uint32, Bool, true,
  false, not, ◌&&◌, ◌||◌, Option, none, some, is_some, String, str_eq, if◌then◌else◌,
}

pub record Stamp : Type 0 where
  pub sec : ℤ
  pub nanosec : ℕ

pub record TransformStamped (Motion : Type 0) : Type 0 where
  pub stamp : Stamp
  pub frame_id : String
  pub child_frame_id : String
  pub transform : Motion

-- tf2::TransformException: an ExtrapolationException, or another.
pub data Failure : Type 0 where
  extrapolation other : Failure

pub data Lookup (Motion : Type 0) : Type 0 where
  found : TransformStamped Motion → Lookup Motion
  fails : Failure → Lookup Motion

pub record Tf2 (Motion : Type 0) : Type 0 where
  pub lookup_transform : String → String → ℤ → Lookup Motion
  pub can_transform : String → String → ℤ → Bool
  pub wait_lookup : String → String → ℤ → ℤ → Lookup Motion
  pub wait_can : String → String → ℤ → ℤ → Bool
  pub lookup_fixed : String → ℤ → String → ℤ → String → Lookup Motion
  pub can_fixed : String → ℤ → String → ℤ → String → Bool
  pub wait_lookup_fixed : String → ℤ → String → ℤ → String → ℤ → Lookup Motion
  pub wait_can_fixed : String → ℤ → String → ℤ → String → ℤ → Bool
  pub compose : Motion → Motion → Motion
  pub predict : Motion → Motion → ℤ → ℤ → Motion

pub record TfInfo : Type 0 where
  pub tf_prefix : String
  pub map_frame : String
  pub odom_frame : String
  pub robot_frame : String
  pub robot_footprint_frame : String
  pub world_frame : String

pub record RttfBuffer : Type 0 where
  pub tf_info : TfInfo
  pub max_future_extrapolation_ns : ℤ
  pub extrapolation_window_ns : ℤ

abbrev under : String → String → String
under prefix frame = prefix ++ "/" ++ frame

unfoldable pub set_tf_info : TfInfo → RttfBuffer → RttfBuffer
set_tf_info i b = record b {
  tf_info = if str_eq i.tf_prefix "" then i else record i {
    map_frame = under i.tf_prefix i.map_frame;
    odom_frame = under i.tf_prefix i.odom_frame;
    robot_frame = under i.tf_prefix i.robot_frame;
    robot_footprint_frame = under i.tf_prefix i.robot_footprint_frame;
    world_frame = under i.tf_prefix i.world_frame;
  };
}

unfoldable pub set_max_future_extrapolation : ℤ → RttfBuffer → RttfBuffer
set_max_future_extrapolation max_extrapolation b = record b {
  max_future_extrapolation_ns =
      if ltb_ℤ (pos 0) max_extrapolation then max_extrapolation else pos 0;
}

unfoldable pub set_extrapolation_window : ℤ → RttfBuffer → RttfBuffer
set_extrapolation_window window b =
    if ltb_ℤ (pos 0) window then record b { extrapolation_window_ns = window } else b

abbrev pub giga : ℕ
giga = 1000000000

-- std::chrono::seconds as nanoseconds, and the cast back, which cuts toward 0.
abbrev pub seconds : ℤ → ℤ
seconds (pos n) = pos (n * giga)
seconds (negsuc n) = pos 0 -ℤ pos ((n + 1) * giga)

abbrev pub whole_seconds : ℤ → ℤ
whole_seconds (pos n) = pos (n / giga)
whole_seconds (negsuc n) = pos 0 -ℤ pos ((n + 1) / giga)

unfoldable pub stamp_to_time : Stamp → ℤ
unfolding ◌+ℤ◌ ◌-ℤ◌
stamp_to_time s = seconds s.sec +ℤ pos s.nanosec

-- The stamp that extrapolate() writes.
unfoldable pub stamp_of : ℤ → Stamp
unfolding ◌-ℤ◌ to_int to_uint32
stamp_of time =
    let sec = to_int (whole_seconds time) in
    record { sec = sec; nanosec = to_uint32 (time -ℤ seconds sec) }

abbrev pub is_found : {Motion : Type 0} → Lookup Motion → Bool
is_found (found t) = true
is_found (fails f) = false

-- The catch of an ExtrapolationException.
abbrev pub or_extrapolated :
    {Motion : Type 0} → Lookup Motion → Option (TransformStamped Motion) → Lookup Motion
or_extrapolated (found t) e = found t
or_extrapolated (fails other) e = fails other
or_extrapolated (fails extrapolation) (some t) = found t
or_extrapolated (fails extrapolation) none = fails extrapolation

-- An extrapolation at once where tf2 would wait.
abbrev pub at_once :
    {Motion : Type 0} → Bool → Option (TransformStamped Motion) → Lookup Motion → Lookup Motion
at_once true e later = later
at_once false (some t) later = found t
at_once false none later = later

module _ {Motion : Type 0} (tf : Tf2 Motion) (b : RttfBuffer) where
  -- With the latest transform, and then with the one a window before it.
  abbrev pub from_previous :
      TransformStamped Motion → ℤ → ℤ → Lookup Motion → Option (TransformStamped Motion)
  from_previous last time ahead (fails f) = none
  from_previous last time ahead (found prev) = some (record last {
    stamp = stamp_of time;
    transform = tf.predict last.transform prev.transform ahead b.extrapolation_window_ns;
  })

  abbrev pub from_last : String → String → ℤ → Lookup Motion → Option (TransformStamped Motion)
  from_last target_frame source_frame time (fails f) = none
  from_last target_frame source_frame time (found last) =
      let t_last = stamp_to_time last.stamp in
      let ahead = time -ℤ t_last in
      if eqb_ℤ t_last (pos 0) || leb_ℤ ahead (pos 0) || ltb_ℤ b.max_future_extrapolation_ns ahead
      then none
      else from_previous last time ahead
          (tf.lookup_transform target_frame source_frame (t_last -ℤ b.extrapolation_window_ns))

  unfoldable pub extrapolate : String → String → ℤ → Option (TransformStamped Motion)
  unfolding stamp_to_time stamp_of ◌-ℤ◌
  extrapolate target_frame source_frame time =
      if leb_ℤ b.max_future_extrapolation_ns (pos 0)
      then none
      else from_last target_frame source_frame time
          (tf.lookup_transform target_frame source_frame (pos 0))

  unfoldable pub lookup_transform : String → String → ℤ → Lookup Motion
  unfolding extrapolate
  lookup_transform target_frame source_frame time =
      or_extrapolated (tf.lookup_transform target_frame source_frame time)
        (extrapolate target_frame source_frame time)

  unfoldable pub wait_lookup : String → String → ℤ → ℤ → Lookup Motion
  unfolding extrapolate
  wait_lookup target_frame source_frame time timeout =
      at_once (tf.can_transform target_frame source_frame time)
        (extrapolate target_frame source_frame time)
        (tf.wait_lookup target_frame source_frame time timeout)

  unfoldable pub can_transform : String → String → ℤ → Bool
  unfolding extrapolate
  can_transform target_frame source_frame time =
      tf.can_transform target_frame source_frame time
      || is_some (extrapolate target_frame source_frame time)

  unfoldable pub wait_can : String → String → ℤ → ℤ → Bool
  unfolding extrapolate
  wait_can target_frame source_frame time timeout =
      (not (tf.can_transform target_frame source_frame time)
        && is_some (extrapolate target_frame source_frame time))
      || tf.wait_can target_frame source_frame time timeout

  abbrev leg_found : Lookup Motion → Option (TransformStamped Motion)
  leg_found (found t) = some t
  leg_found (fails f) = none

  -- A transform to or from the fixed frame.
  abbrev pub leg : String → String → ℤ → Option (TransformStamped Motion)
  leg target_frame source_frame time = leg_found (lookup_transform target_frame source_frame time)

  abbrev pub join_legs :
      String
      → Option (TransformStamped Motion)
      → Option (TransformStamped Motion)
      → Option (TransformStamped Motion)
  join_legs source_frame (some target_fixed) (some fixed_source) = some (record target_fixed {
    child_frame_id = source_frame;
    transform = tf.compose target_fixed.transform fixed_source.transform;
  })
  join_legs source_frame _ _ = none

  unfoldable pub extrapolate_fixed :
      String → ℤ → String → ℤ → String → Option (TransformStamped Motion)
  unfolding lookup_transform
  extrapolate_fixed target_frame target_time source_frame source_time fixed_frame =
      if leb_ℤ b.max_future_extrapolation_ns (pos 0)
      then none
      else join_legs source_frame (leg target_frame fixed_frame target_time)
          (leg fixed_frame source_frame source_time)

  unfoldable pub lookup_fixed : String → ℤ → String → ℤ → String → Lookup Motion
  unfolding extrapolate_fixed
  lookup_fixed target_frame target_time source_frame source_time fixed_frame =
      or_extrapolated
        (tf.lookup_fixed target_frame target_time source_frame source_time fixed_frame)
        (extrapolate_fixed target_frame target_time source_frame source_time fixed_frame)

  unfoldable pub wait_lookup_fixed : String → ℤ → String → ℤ → String → ℤ → Lookup Motion
  unfolding extrapolate_fixed
  wait_lookup_fixed target_frame target_time source_frame source_time fixed_frame timeout =
      at_once (tf.can_fixed target_frame target_time source_frame source_time fixed_frame)
        (extrapolate_fixed target_frame target_time source_frame source_time fixed_frame)
        (tf.wait_lookup_fixed target_frame target_time source_frame source_time fixed_frame timeout)

  unfoldable pub can_fixed : String → ℤ → String → ℤ → String → Bool
  unfolding extrapolate_fixed
  can_fixed target_frame target_time source_frame source_time fixed_frame =
      tf.can_fixed target_frame target_time source_frame source_time fixed_frame
      || is_some (extrapolate_fixed target_frame target_time source_frame source_time fixed_frame)

  unfoldable pub wait_can_fixed : String → ℤ → String → ℤ → String → ℤ → Bool
  unfolding extrapolate_fixed
  wait_can_fixed target_frame target_time source_frame source_time fixed_frame timeout =
      (not (tf.can_fixed target_frame target_time source_frame source_time fixed_frame)
        && is_some
            (extrapolate_fixed target_frame target_time source_frame source_time fixed_frame))
      || tf.wait_can_fixed target_frame target_time source_frame source_time fixed_frame timeout
