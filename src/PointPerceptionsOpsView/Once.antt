-- ===== src/PointPerceptionsOpsView/Once.antt =====
-- The indices of a view, over any operations: each at most once, in the order of the cloud.
use easy_navigation.Common.{
  ℕ, zero, suc, ◌≤◌, ◌≡◌, refl, sym, subst, arith, Bool, true, false, Option, none, some, String,
  List, [], ◌∷◌, ◌++◌, map, filter, get_elem?, is_empty, if◌then◌else◌, Bool-cases, inl, inr,
  Option-cases, length, leb, ◌||◌, ◌&&◌, not, str_eq,
}
use easy_navigation.Double.{Double, le, zero_d}
use easy_navigation.PointPerception.{
  Cloud, Time, PointPerception, Transforms, integrate_pending_perceptions,
}
use easy_navigation.PointPerceptionsOpsView.{
  Geometry, Axes, Slot, PointPerceptionsOpsView, cloud, iota, new_slot, construct, is_skipped,
  filter_slot, fill_bounds, filter_view,
}
use easy_navigation.PointPerceptionsOpsView.Change.{
  VoxelKey, has_key, thin, voxel, downsample_slot, downsample, collapse_slot, collapse, added,
  look_up, added, fuse_slot, fuse_slots, fuse, add, is_unused, to_floats,
}
use easy_navigation.Messages.{Vector3}

-- Strictly increasing, from `n` on.
abbrev pub From : ℕ → List ℕ → Type 0
From n [] = Unit {0}
From n (i ∷ indices) = (n ≤ i) × From (suc i) indices

abbrev pub IsOrdered : Slot → Type 0
IsOrdered s = From 0 s.indices

abbrev pub AllOrdered : List Slot → Type 0
AllOrdered [] = Unit {0}
AllOrdered (s ∷ slots) = IsOrdered s × AllOrdered slots

weaken : (m n : ℕ) (indices : List ℕ) → m ≤ n → From n indices → From m indices
weaken m n [] h f = tt
weaken m n (i ∷ indices) h (l, f) = (omega (arith, h, l), f)

filter-From : (p : ℕ → Bool) (n : ℕ) (indices : List ℕ) → From n indices → From n (filter p indices)
filter-From p n [] f = tt
filter-From p n (i ∷ indices) (l, f) = elim (Bool-cases (p i)) [
  | inl e ↦ rw e (l, filter-From p (suc i) indices f)
  | inr e ↦ rw e (weaken n (suc i) _ (omega (arith, l)) (filter-From p (suc i) indices f))
]

thin-From :
    (voxel_of : Vector3 → VoxelKey) (points : Cloud) (seen : List VoxelKey) (n : ℕ)
    (indices : List ℕ)
    → From n indices
    → From n (thin voxel_of points seen indices)
unfolding thin
thin-From voxel_of points seen n [] f = tt
thin-From voxel_of points seen n (i ∷ indices) (l, f) = elim (Option-cases (get_elem? points i)) [
  | inl e ↦
      rw (e, thin)
        (weaken n (suc i) _ (omega (arith, l)) (thin-From voxel_of points seen (suc i) indices f))
  | inr (pt, e) ↦ elim (Bool-cases (has_key (voxel_of pt) seen)) [
    | inl o ↦
        rw (e, o, thin)
          (weaken n (suc i) _ (omega (arith, l)) (thin-From voxel_of points seen (suc i) indices f))
    | inr o ↦ rw (e, o, thin) (l, thin-From voxel_of points (voxel_of pt ∷ seen) (suc i) indices f)
  ]
]

iota-From : (start n : ℕ) → From start (iota start n)
unfolding iota
iota-From start zero = tt
iota-From start (suc n) = (omega arith, iota-From (suc start) n)

-- An operation on each slot.
map-AllOrdered :
    (f : Slot → Slot) (slots : List Slot)
    → ((s : Slot) → IsOrdered s → IsOrdered (f s))
    → AllOrdered slots
    → AllOrdered (map f slots)
map-AllOrdered f [] h a = tt
map-AllOrdered f (s ∷ slots) h (o, a) = (h s o, map-AllOrdered f slots h a)

filter_slot-IsOrdered :
    (low high : Axes) (has_target : Bool) (s : Slot)
    → IsOrdered s
    → IsOrdered (filter_slot low high has_target s)
unfolding filter_slot
filter_slot-IsOrdered low high has_target s o = elim (Bool-cases (is_skipped has_target s)) [
  | inl e ↦ rw e tt
  | inr e ↦ rw e (filter-From _ 0 s.indices o)
]

downsample_slot-IsOrdered :
    (voxel_of : Vector3 → VoxelKey) (s : Slot)
    → IsOrdered s
    → IsOrdered (downsample_slot voxel_of s)
unfolding downsample_slot
downsample_slot-IsOrdered voxel_of s o =
    elim (Bool-cases (is_empty (cloud s.perception) || leb (length s.indices) 1)) [
      | inl e ↦ rw e o
      | inr e ↦ rw e (thin-From voxel_of (cloud s.perception) [] 0 s.indices o)
    ]

collapse_slot_indices : (values : Axes) (s : Slot) → (collapse_slot values s).indices ≡ s.indices
collapse_slot_indices values s = ground arith

module _ (tf : Transforms) (target_frame : String) (exact_time : Bool) where
  look_up_indices :
      (p : PointPerception) (stamp : Time) (s : Slot)
      → (look_up tf target_frame exact_time p stamp s).0.indices ≡ s.indices
  unfolding look_up
  look_up_indices p stamp s =
      elim (Option-cases (
        tf.lookup_transform target_frame p.frame_id
          (if exact_time then some p.stamp.nanoseconds else none))) [
            | inl e ↦ rw (e, look_up) refl
            | inr (found, e) ↦ rw (e, look_up) refl
          ]

  fuse_slot_indices :
      (stamp : Time) (s : Slot)
      → (fuse_slot tf target_frame exact_time stamp s).0.indices ≡ s.indices
  unfolding fuse_slot
  fuse_slot_indices stamp s = elim (Option-cases s.perception) [
    | inl e ↦ rw (e, fuse_slot) refl
    | inr (old, e) ↦
        let p = integrate_pending_perceptions tf old in
        elim (Bool-cases (not p.valid || is_empty p.cloud || str_eq p.frame_id target_frame)) [
          | inl d ↦ rw (e, d, fuse_slot) refl
          | inr d ↦
              rw (e, d, fuse_slot)
                (look_up_indices p stamp
                  (record s { perception = some p; tf_valid = false; tf_failed = false }))
        ]
  ]

  fuse_slots-AllOrdered :
      (slots : List Slot) (stamp : Time)
      → AllOrdered slots
      → AllOrdered (fuse_slots tf target_frame exact_time stamp slots).0
  unfolding fuse_slots
  fuse_slots-AllOrdered [] stamp a = tt
  fuse_slots-AllOrdered (s ∷ slots) stamp (o, a) =
      (subst (From 0) (sym (fuse_slot_indices stamp s)) o, fuse_slots-AllOrdered slots _ a)

append-AllOrdered :
    (slots : List Slot) (s : Slot) → AllOrdered slots → IsOrdered s → AllOrdered (slots ++ s ∷ [])
append-AllOrdered [] s a o = (o, tt)
append-AllOrdered (r ∷ slots) s (b, a) o = (b, append-AllOrdered slots s a o)

new_slot-IsOrdered : (p : Option PointPerception) → IsOrdered (new_slot p)
unfolding new_slot
new_slot-IsOrdered p = iota-From 0 (length (cloud p))

new_slots-AllOrdered :
    (perceptions : List (Option PointPerception)) → AllOrdered (map new_slot perceptions)
new_slots-AllOrdered [] = tt
new_slots-AllOrdered (p ∷ perceptions) = (new_slot-IsOrdered p, new_slots-AllOrdered perceptions)

pub data Operation : Type 0 where
  filtering : List Double → List Double → Bool → Operation
  downsampling : Double → Operation
  collapsing : List Double → Bool → Operation
  fusing : Transforms → String → Time → Bool → Operation
  adding : Cloud → String → Time → Operation

abbrev pub apply : Geometry → Operation → PointPerceptionsOpsView → PointPerceptionsOpsView
apply g (filtering low high lazy) v = filter_view low high lazy v
apply g (downsampling resolution) v = downsample g resolution v
apply g (collapsing dims lazy) v = collapse g dims lazy v
apply g (fusing tf frame stamp exact) v = (fuse tf frame stamp exact v).0
apply g (adding points frame stamp) v = add points frame stamp v

-- The operations, the first one first.
abbrev pub apply_all : Geometry → List Operation → PointPerceptionsOpsView → PointPerceptionsOpsView
apply_all g [] v = v
apply_all g (o ∷ os) v = apply_all g os (apply g o v)

apply-AllOrdered :
    (g : Geometry) (o : Operation) (v : PointPerceptionsOpsView)
    → AllOrdered v.slots
    → AllOrdered (apply g o v).slots
unfolding filter_view downsample collapse fuse add
apply-AllOrdered g (filtering min_bounds max_bounds lazy) v a =
    let low = fill_bounds min_bounds in
    let high = fill_bounds max_bounds in
    elim (Bool-cases (v.has_target_frame && lazy)) [
      | inl e ↦ rw e a
      | inr e ↦ rw e (
          map-AllOrdered (filter_slot low high v.has_target_frame) v.slots
            (filter_slot-IsOrdered low high v.has_target_frame) a)
    ]
apply-AllOrdered g (downsampling resolution) v a =
    let voxel_of = voxel g v.collapsed (g.inverse resolution) in
    elim (Bool-cases (le resolution zero_d)) [
      | inl e ↦ rw e a
      | inr e ↦
          rw e (
            map-AllOrdered (downsample_slot voxel_of) v.slots (downsample_slot-IsOrdered voxel_of)
              a)
    ]
apply-AllOrdered g (collapsing dims true) v a = a
apply-AllOrdered g (collapsing dims false) v a =
    let values = to_floats g (fill_bounds dims) in
    elim (Bool-cases (not v.owned || is_unused values)) [
      | inl e ↦ rw e a
      | inr e ↦ rw e (
          map-AllOrdered (collapse_slot values) v.slots
            (λ s o. subst (From 0) (sym (collapse_slot_indices values s)) o) a)
    ]
apply-AllOrdered g (fusing tf frame stamp exact) v a =
    fuse_slots-AllOrdered tf frame exact v.slots stamp a
apply-AllOrdered g (adding points frame stamp) v a = elim (Bool-cases v.owned) [
  | inl e ↦ rw e (
      append-AllOrdered v.slots (new_slot (some (added points frame stamp))) a
        (new_slot-IsOrdered (some (added points frame stamp))))
  | inr e ↦ rw e a
]

apply_all-AllOrdered :
    (g : Geometry) (os : List Operation) (v : PointPerceptionsOpsView)
    → AllOrdered v.slots
    → AllOrdered (apply_all g os v).slots
apply_all-AllOrdered g [] v a = a
apply_all-AllOrdered g (o ∷ os) v a =
    apply_all-AllOrdered g os (apply g o v) (apply-AllOrdered g o v a)

-- From the constructor on, whatever operations were applied: the indices of every slot increase
-- strictly, so that no point is put out twice and the points keep the order of their cloud.
pub construct-AllOrdered :
    (g : Geometry) (owned : Bool) (perceptions : List (Option PointPerception))
    (os : List Operation)
    → AllOrdered (apply_all g os (construct owned perceptions)).slots
unfolding construct
construct-AllOrdered g owned perceptions os =
    apply_all-AllOrdered g os _ (new_slots-AllOrdered perceptions)
