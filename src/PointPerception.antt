-- ===== src/PointPerception.antt =====
-- easynav_sensors types/PointPerception.hpp: the data of a sensor that sees points. What the
-- transform buffer answers is an argument (RTTFBuffer, over tf2): `can_transform` is false where it
-- throws. A cloud is the list of its points; the source's `data` is `cloud` here. The stamps of one perception are of the node's clock.
pub mod Items
pub mod Integrate
use easy_navigation.Common.{
  ℕ, zero, suc, ℤ, pos, ltb_ℤ, leb_ℤ, Bool, true, false, not, ◌&&◌, Option, none, some, String,
  List, [], ◌∷◌, filter, is_empty, if◌then◌else◌,
}
use easy_navigation.Messages.{Vector3}
use easy_navigation.CircularBuffer.{CircularBuffer, push, pop, clear}
use easy_navigation.CircularBuffer

pub data ClockType : Type 0 where
  system_time ros_time steady_time : ClockType

abbrev pub same_clock : ClockType → ClockType → Bool
same_clock system_time system_time = true
same_clock ros_time ros_time = true
same_clock steady_time steady_time = true
same_clock _ _ = false

-- rclcpp::Time.
pub record Time : Type 0 where
  pub nanoseconds : ℤ
  pub clock_type : ClockType

abbrev pub no_time : Time
no_time = record { nanoseconds = pos 0; clock_type = system_time }

abbrev pub Cloud : Type 0
Cloud = List Vector3

-- PointPerceptionBufferType.
pub record Item : Type 0 where
  pub cloud : Cloud
  pub frame : String
  pub stamp : Time

abbrev pub no_item : Item
no_item = record { cloud = []; frame = ""; stamp = no_time }

pub record PointPerception : Type 0 where
  pub stamp : Time
  pub frame_id : String
  pub valid : Bool
  pub new_data : Bool
  pub cloud : Cloud
  pub pending_available : Bool
  pub pending_cloud : Cloud
  pub pending_frame : String
  pub pending_stamp : Time
  pub buffer : CircularBuffer Item

abbrev pub buffer_size : ℕ
buffer_size = 10

unfoldable pub new : PointPerception
unfolding CircularBuffer.new
new = record {
  stamp = no_time;
  frame_id = "";
  valid = false;
  new_data = false;
  cloud = [];
  pending_available = false;
  pending_cloud = [];
  pending_frame = "";
  pending_stamp = no_time;
  buffer = CircularBuffer.new no_item buffer_size;
}

unfoldable pub set_pending_cloud : Cloud → String → Time → PointPerception → PointPerception
set_pending_cloud cloud frame stamp p = record p {
  pending_cloud = cloud;
  pending_frame = frame;
  pending_stamp = stamp;
  pending_available = true;
}

-- The pending item goes into the buffer; the cloud is moved out of the perception.
unfoldable pub take_pending : PointPerception → PointPerception
unfolding push
take_pending p =
    if p.pending_available
    then record p {
      buffer =
          push
            (record { cloud = p.pending_cloud; frame = p.pending_frame; stamp = p.pending_stamp })
            p.buffer;
      pending_cloud = [];
      pending_available = false;
    }
    else p

-- The loop of pop() calls: the items, oldest first.
unfoldable pub pop_all : ℕ → CircularBuffer Item → List Item × CircularBuffer Item
unfolding pop
pop_all zero b = ([], b)
pop_all (suc n) b =
    let (popped, b') = pop no_item b in
    let (items, b'') = pop_all n b' in
    elim popped [ none ↦ ([], b') | some item ↦ (item ∷ items, b'') ]

-- `!newest || item.stamp > newest.stamp`, with the items in the place of their indices.
abbrev pub newer : Option Item → Item → Option Item
newer none item = some item
newer (some best) item =
    if ltb_ℤ best.stamp.nanoseconds item.stamp.nanoseconds then some item else some best

unfoldable pub newest : Option Item → List Item → Option Item
newest best [] = best
newest best (item ∷ items) = newest (newer best item) items

unfoldable pub push_all : List Item → CircularBuffer Item → CircularBuffer Item
unfolding push
push_all [] b = b
push_all (item ∷ items) b = push_all items (push item b)

-- What the transform buffer knows. A transform is the map that it applies to a point. A lookup at
-- no time takes the latest transform, and says its time.
pub record Transforms : Type 0 where
  pub robot_frame : String
  pub can_transform : String → String → ℤ → Bool
  pub lookup_transform : String → String → Option ℤ → Option ((Vector3 → Vector3) × ℤ)

abbrev pub has_tf : Transforms → Item → Bool
has_tf tf item = tf.can_transform tf.robot_frame item.frame item.stamp.nanoseconds

-- The items that the buffer keeps: those that are not older than the one in use.
abbrev pub kept : Option Item → List Item → List Item
kept none items = items
kept (some best) items = filter (λ item. leb_ℤ best.stamp.nanoseconds item.stamp.nanoseconds) items

abbrev pub prefer : Option Item → Option Item → Option Item
prefer (some valid) newest = some valid
prefer none newest = newest

-- From the choice of an item on; without one nothing is left to do.
unfoldable pub adopt :
    Option Item → List Item → CircularBuffer Item → PointPerception → PointPerception
unfolding push_all clear
adopt none items b p = record p { buffer = b }
adopt (some item) items b p = record p {
  cloud = item.cloud;
  frame_id = item.frame;
  stamp = item.stamp;
  valid = true;
  new_data = true;
  buffer = push_all items (clear b);
}

unfoldable pub integrate_pending_perceptions : Transforms → PointPerception → PointPerception
unfolding take_pending pop_all newest adopt
integrate_pending_perceptions tf p =
    let p' = take_pending p in
    let (items, b) = pop_all p'.buffer.size p'.buffer in
    let newest_valid = newest none (filter (has_tf tf) items) in
    adopt (prefer newest_valid (newest none items)) (kept newest_valid items) b p'
