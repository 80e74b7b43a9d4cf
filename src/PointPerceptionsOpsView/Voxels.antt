-- ===== src/PointPerceptionsOpsView/Voxels.antt =====
-- What downsampling keeps of a slot's points.
use easy_navigation.Common.{
  ℕ, ℤ, pos, negsuc, ◌≡◌, refl, ap, ap₂, leb, length, ◌∙◌, arith, Bool, true, false, ◌||◌, Option,
  none, some, List, [], ◌∷◌, map, filter, get_elem?, is_empty, if◌then◌else◌, Bool-cases, inl, inr,
  Option-cases, eqb_ℤ,
}
use easy_navigation.Messages.{Vector3}
use easy_navigation.PointPerception.{Cloud}
use easy_navigation.Double.{Double, le, zero_d}
use easy_navigation.PointPerceptionsOpsView.{Geometry, PointPerceptionsOpsView, Slot, cloud}
use easy_navigation.PointPerceptionsOpsView.Change.{
  VoxelKey, same_key, has_key, voxel, thin, downsample_slot, downsample,
}

abbrev pub is_in : (Vector3 → VoxelKey) → VoxelKey → Option Vector3 → Bool
is_in voxel_of k none = false
is_in voxel_of k (some pt) = same_key k (voxel_of pt)

-- Whether an index has its point in the voxel `k`.
abbrev pub in_voxel : (Vector3 → VoxelKey) → Cloud → VoxelKey → ℕ → Bool
in_voxel voxel_of points k i = is_in voxel_of k (get_elem? points i)

-- The first index of a voxel, none if it is empty.
abbrev pub first_in : (Vector3 → VoxelKey) → Cloud → VoxelKey → List ℕ → List ℕ
first_in voxel_of points k [] = []
first_in voxel_of points k (i ∷ indices) =
    if in_voxel voxel_of points k i then i ∷ [] else first_in voxel_of points k indices

-- The indices of a voxel.
abbrev pub all_in : (Vector3 → VoxelKey) → Cloud → VoxelKey → List ℕ → List ℕ
all_in voxel_of points k indices = filter (in_voxel voxel_of points k) indices

eqb_ℤ_lem : (a b : ℤ) → eqb_ℤ a b ≡ true → a ≡ b
eqb_ℤ_lem (pos m) (pos n) h = ap pos (ground (arith, h))
eqb_ℤ_lem (pos m) (negsuc n) h = absurd (ground (arith, h))
eqb_ℤ_lem (negsuc m) (pos n) h = absurd (ground (arith, h))
eqb_ℤ_lem (negsuc m) (negsuc n) h = ap negsuc (ground (arith, h))

same_key_lem : (a b : VoxelKey) → same_key a b ≡ true → a ≡ b
same_key_lem a b h =
    let x : eqb_ℤ a.cell_x b.cell_x ≡ true = ground (arith, h) in
    let y : eqb_ℤ a.cell_y b.cell_y ≡ true = ground (arith, h) in
    let z : eqb_ℤ a.cell_z b.cell_z ≡ true = ground (arith, h) in
    let e = eqb_ℤ_lem a.cell_x b.cell_x x in
    let f = eqb_ℤ_lem a.cell_y b.cell_y y in
    let g = eqb_ℤ_lem a.cell_z b.cell_z z in
    λ i. record { cell_x = e i; cell_y = f i; cell_z = g i }

no_choice : (b : Bool) → ◌≡◌ {A = List ℕ} [] (if b then [] else [])
no_choice true = refl
no_choice false = refl

chosen : (b : Bool) (indices : List ℕ) → b ≡ true → (if b then [] else indices) ≡ []
chosen true indices h = refl
chosen false indices h = absurd (ground (arith, h))

module _ (voxel_of : Vector3 → VoxelKey) (points : Cloud) (k : VoxelKey) where
  thin_lem :
      (seen : List VoxelKey) (indices : List ℕ)
      → all_in voxel_of points k (thin voxel_of points seen indices)
        ≡ (if has_key k seen then [] else first_in voxel_of points k indices)
  unfolding thin
  thin_lem seen [] = no_choice (has_key k seen)
  thin_lem seen (i ∷ indices) = elim (Option-cases (get_elem? points i)) [
    | inl e ↦ rw (e, thin) (thin_lem seen indices)
    | inr (pt, e) ↦ elim (Bool-cases (has_key (voxel_of pt) seen)) [
      | inl o ↦
          rw (e, o, thin)
            (elim (Bool-cases (same_key k (voxel_of pt))) [
              | inl q ↦
                  let same = same_key_lem k (voxel_of pt) q in
                  let h : has_key k seen ≡ true = ap (λ c. has_key c seen) same ∙ o in
                  rw (q, h)
                    (thin_lem seen indices
                      ∙ chosen (has_key k seen) (first_in voxel_of points k indices) h)
              | inr q ↦ rw q (thin_lem seen indices)
            ])
      | inr o ↦
          let fresh = thin_lem (voxel_of pt ∷ seen) indices in
          rw (e, o, thin)
            (elim (Bool-cases (same_key k (voxel_of pt))) [
              | inl q ↦
                  let same = same_key_lem k (voxel_of pt) q in
                  let h : has_key k seen ≡ false = ap (λ c. has_key c seen) same ∙ o in
                  rw (q, h)
                    (rw (e, q)
                      (ap (◌∷◌ i) (
                        fresh
                        ∙ chosen (same_key k (voxel_of pt) || has_key k seen)
                            (first_in voxel_of points k indices)
                            (ap (λ b. b || has_key k seen) q))))
              | inr q ↦ rw q (
                  rw (e, q)
                    (fresh
                      ∙ ap
                          (λ b.
                            if b || has_key k seen then [] else first_in voxel_of points k indices)
                          q))
            ])
    ]
  ]

  -- One index is the first, and no index has a point in an empty cloud.
  all_in_lone : (i : ℕ) → all_in voxel_of points k (i ∷ []) ≡ first_in voxel_of points k (i ∷ [])
  all_in_lone i = elim (Bool-cases (in_voxel voxel_of points k i)) [
    | inl e ↦ rw e refl
    | inr e ↦ rw e refl
  ]

  all_in_short :
      (indices : List ℕ)
      → leb (length indices) 1 ≡ true
      → all_in voxel_of points k indices ≡ first_in voxel_of points k indices
  all_in_short [] h = refl
  all_in_short (i ∷ []) h = all_in_lone i
  all_in_short (i ∷ j ∷ indices) h = absurd (ground (arith, h))

module _ (voxel_of : Vector3 → VoxelKey) (k : VoxelKey) where
  all_in_empty :
      (points : Cloud) (indices : List ℕ)
      → is_empty points ≡ true
      → all_in voxel_of points k indices ≡ first_in voxel_of points k indices
  all_in_empty [] [] h = refl
  all_in_empty [] (i ∷ indices) h = all_in_empty [] indices h
  all_in_empty (p ∷ points) indices h = absurd (ground (arith, h))

  downsample_slot_lem :
      (s : Slot)
      → all_in voxel_of (cloud s.perception) k (downsample_slot voxel_of s).indices
        ≡ first_in voxel_of (cloud s.perception) k s.indices
  unfolding downsample_slot
  downsample_slot_lem s = elim (Bool-cases (is_empty (cloud s.perception))) [
    | inl e ↦ rw e (all_in_empty (cloud s.perception) s.indices e)
    | inr e ↦ elim (Bool-cases (leb (length s.indices) 1)) [
      | inl l ↦ rw (e, l) (all_in_short voxel_of (cloud s.perception) k s.indices l)
      | inr l ↦ rw (e, l) (thin_lem voxel_of (cloud s.perception) k [] s.indices)
    ]
  ]

  downsample_slot_cloud : (s : Slot) → (downsample_slot voxel_of s).perception ≡ s.perception
  unfolding downsample_slot
  downsample_slot_cloud s =
      elim (Bool-cases (is_empty (cloud s.perception) || leb (length s.indices) 1)) [
        | inl e ↦ rw e refl
        | inr e ↦ rw e refl
      ]

-- Per slot, the indices whose point lies in the voxel, and the first of them.
abbrev pub chosen_in : (Vector3 → VoxelKey) → VoxelKey → Slot → List ℕ
chosen_in voxel_of k s = all_in voxel_of (cloud s.perception) k s.indices

abbrev pub leading_in : (Vector3 → VoxelKey) → VoxelKey → Slot → List ℕ
leading_in voxel_of k s = first_in voxel_of (cloud s.perception) k s.indices

slots_lem :
    (voxel_of : Vector3 → VoxelKey) (k : VoxelKey) (slots : List Slot)
    → map (chosen_in voxel_of k) (map (downsample_slot voxel_of) slots)
      ≡ map (leading_in voxel_of k) slots
slots_lem voxel_of k [] = refl
slots_lem voxel_of k (s ∷ slots) =
    ap₂ ◌∷◌
      (ap (λ p. all_in voxel_of (cloud p) k (downsample_slot voxel_of s).indices)
          (downsample_slot_cloud voxel_of k s)
        ∙ downsample_slot_lem voxel_of k s)
      (slots_lem voxel_of k slots)

-- With a resolution above 0 or a NaN, for every voxel: of the indices of a slot whose point lies in
-- the voxel, downsampling keeps the first and no other, in every slot.
pub downsample_lem :
    (g : Geometry) (resolution : Double) (v : PointPerceptionsOpsView) (k : VoxelKey)
    → le resolution zero_d ≡ false
    → map
        (chosen_in (voxel g v.collapsed (g.inverse resolution)) k)
        (downsample g resolution v).slots
      ≡ map (leading_in (voxel g v.collapsed (g.inverse resolution)) k) v.slots
unfolding downsample
downsample_lem g resolution v k h =
    rw h (slots_lem (voxel g v.collapsed (g.inverse resolution)) k v.slots)
