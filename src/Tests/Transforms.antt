-- ===== src/Tests/Transforms.antt =====
-- Runs of the transform buffer.
use easy_navigation.Common.{
  ℕ, ◌+◌, ◌*◌, ℤ, pos, leb_ℤ, ◌≡◌, refl, arith, false, not, ◌&&◌, String, if◌then◌else◌,
}
use easy_navigation.RttfBuffer.{
  extrapolation, other, Lookup, found, fails, Tf2, RttfBuffer, giga, is_found, lookup_transform,
  can_transform,
}
use easy_navigation.RttfBuffer.Ahead.{IsAnswer, lookup_transform-IsAnswer}
use easy_navigation.RttfBuffer.Consistent.{IsTf2, is_other, can_transform_lem}

-- One frame that moves along a line; its latest transform is of the tenth second.
abbrev known : ℕ → String → String → Lookup ℕ
known sec target_frame source_frame = found (record {
  stamp = record { sec = pos sec; nanosec = 0 };
  frame_id = target_frame;
  child_frame_id = source_frame;
  transform = sec;
})

abbrev own_lookup : String → String → ℤ → Lookup ℕ
own_lookup target_frame source_frame time =
    if leb_ℤ time (pos (10 * giga)) then known 10 target_frame source_frame else fails extrapolation

abbrev tf : Tf2 ℕ
tf = record {
  lookup_transform = own_lookup;
  can_transform =
      λ target_frame source_frame time. is_found (own_lookup target_frame source_frame time);
  wait_lookup = λ target_frame source_frame time timeout. own_lookup target_frame source_frame time;
  wait_can = λ target_frame source_frame time timeout.
      is_found (own_lookup target_frame source_frame time);
  lookup_fixed = λ target_frame target_time source_frame source_time fixed_frame. fails other;
  can_fixed = λ target_frame target_time source_frame source_time fixed_frame. false;
  wait_lookup_fixed =
      λ target_frame target_time source_frame source_time fixed_frame timeout. fails other;
  wait_can_fixed = λ target_frame target_time source_frame source_time fixed_frame timeout. false;
  compose = λ a b. a + b;
  predict = λ last previous ahead window. last + 1;
}

tf-IsTf2 : IsTf2 tf
tf-IsTf2 target_frame source_frame time = refl

abbrev buffer : RttfBuffer
buffer = record {
  tf_info = record {
    tf_prefix = "";
    map_frame = "map";
    odom_frame = "odom";
    robot_frame = "base_link";
    robot_footprint_frame = "base_footprint";
    world_frame = "earth";
  };
  max_future_extrapolation_ns = pos 50000000;
  extrapolation_window_ns = pos 50000000;
}

-- 20 ms after the latest transform.
abbrev soon : ℕ
soon = 10020000000

extrapolated :
    lookup_transform tf buffer "map" "base_link" (pos soon)
    ≡ found (record {
      stamp = record { sec = pos 10; nanosec = 20000000 };
      frame_id = "map";
      child_frame_id = "base_link";
      transform = 11;
    })
unfolding lookup_transform
extrapolated = refl

lookup_transform-IsAnswer_example :
    IsAnswer tf buffer "map" "base_link" soon
      (tf.lookup_transform "map" "base_link" (pos soon))
      (lookup_transform tf buffer "map" "base_link" (pos soon))
lookup_transform-IsAnswer_example =
    lookup_transform-IsAnswer tf buffer "map" "base_link" soon (omega arith)

can_transform_lem_example :
    is_found (lookup_transform tf buffer "map" "base_link" (pos soon))
    ≡ can_transform tf buffer "map" "base_link" (pos soon)
      && not (is_other (tf.lookup_transform "map" "base_link" (pos soon)))
can_transform_lem_example = can_transform_lem tf buffer tf-IsTf2 "map" "base_link" (pos soon)
