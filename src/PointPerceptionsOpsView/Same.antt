-- ===== src/PointPerceptionsOpsView/Same.antt =====
-- The two ways of filtering a fused view.
use easy_navigation.Common.{
  ℕ, ◌≡◌, refl, sym, ap, ap₂, ◌∙◌, arith, Bool, true, false, ◌&&◌, ◌||◌, List, [], ◌∷◌, map, filter,
  concat, get_elem?, is_empty, if◌then◌else◌, Bool-cases, inl, inr, Option-cases,
}
use easy_navigation.Double.{Double}
use easy_navigation.PointPerception.{Cloud}
use easy_navigation.PointPerceptionsOpsView.{
  Geometry, Axes, Slot, PointPerceptionsOpsView, cloud, fill_bounds, is_outside, place, is_skipped,
  is_kept, filter_slot, filter_view, finish, emit, points_of, as_points,
}

-- A skip that only spares an empty loop.
skip_lem :
    (a b c : Bool) (xs : List ℕ) (f : List ℕ → Cloud)
    → (a || b || c) ≡ false
    → f [] ≡ []
    → (if a || is_empty xs || c then [] else f xs) ≡ f xs
skip_lem true b c xs f h e = absurd (ground arith)
skip_lem false b true xs f h e = absurd (ground arith)
skip_lem false b false [] f h e = sym e
skip_lem false b false (x ∷ xs) f h e = refl

skip_all : (b : Bool) → ◌≡◌ {A = Cloud} (if b then [] else []) []
skip_all true = refl
skip_all false = refl

module _ (g : Geometry) (low high : Axes) (v : PointPerceptionsOpsView) where
  -- The views that the two ways leave, for the slots.
  abbrev Lazy : PointPerceptionsOpsView
  Lazy = record v { has_post_filter = true; post_min = low; post_max = high }

  abbrev Eager : PointPerceptionsOpsView
  Eager = record v {
    has_post_filter = false;
    slots = map (filter_slot low high v.has_target_frame) v.slots;
  }

  abbrev keeps : Slot → ℕ → Bool
  keeps s i = is_kept low high v.has_target_frame s (get_elem? (cloud s.perception) i)

  -- Filtering the indices first leaves the loop the points that are not outside.
  emit-filter :
      (s : Slot) (any indices : List ℕ)
      → emit g Eager (record s { indices = any }) (filter (keeps s) indices) ≡ emit g Lazy s indices
  unfolding emit
  emit-filter s any [] = refl
  emit-filter s any (i ∷ indices) =
      let rest = emit-filter s any indices in
      elim (Option-cases (get_elem? (cloud s.perception) i)) [
        | inl e ↦ rw (e, emit) rest
        | inr (pt, e) ↦ elim (Bool-cases (is_outside low high (place v.has_target_frame s pt))) [
          | inl o ↦ rw (e, o, emit) rest
          | inr o ↦
              rw (e, o, emit)
                (rw e (ap (◌∷◌ (finish g v.collapsed (place v.has_target_frame s pt))) rest))
        ]
      ]

  -- The points that a slot puts out, whichever way it was filtered.
  points_of-filter_slot :
      (s : Slot)
      → points_of g Eager (filter_slot low high v.has_target_frame s) ≡ points_of g Lazy s
  unfolding filter_slot emit
  points_of-filter_slot s =
      let kept = filter (keeps s) s.indices in
      elim (Bool-cases (is_skipped v.has_target_frame s)) [
        | inl e ↦ rw e (
            skip_all (is_empty (cloud s.perception) || true || (v.has_target_frame && s.tf_failed)))
        | inr e ↦ rw e (
            skip_lem (is_empty (cloud s.perception)) (is_empty s.indices)
              (v.has_target_frame && s.tf_failed) kept (emit g Eager (record s { indices = kept }))
              e refl
            ∙ emit-filter s kept s.indices)
      ]

  slots_lem :
      (slots : List Slot)
      → map (points_of g Eager) (map (filter_slot low high v.has_target_frame) slots)
        ≡ map (points_of g Lazy) slots
  slots_lem [] = refl
  slots_lem (s ∷ slots) = ap₂ ◌∷◌ (points_of-filter_slot s) (slots_lem slots)

if_lem : {A : Type 0} (b : Bool) (x y : A) → b ≡ true → (if b then x else y) ≡ x
if_lem true x y e = refl
if_lem false x y e = absurd (ground (arith, e))

if_not : {A : Type 0} (b : Bool) (x y : A) → b ≡ false → (if b then x else y) ≡ y
if_not false x y e = refl
if_not true x y e = absurd (ground (arith, e))

-- In a view that was fused, with any bounds, points and transforms: filtering when the points are
-- put out, and filtering the indices at once, put out the same points in the same order.
pub as_points-filter_view :
    (g : Geometry) (min_bounds max_bounds : List Double) (v : PointPerceptionsOpsView)
    → v.has_target_frame ≡ true
    → as_points g (filter_view min_bounds max_bounds true v)
      ≡ as_points g (filter_view min_bounds max_bounds false v)
unfolding as_points filter_view
as_points-filter_view g min_bounds max_bounds v h =
    let low = fill_bounds min_bounds in
    let high = fill_bounds max_bounds in
    ap (as_points g) (
      if_lem (v.has_target_frame && true) (Lazy g low high v)
        (record (Eager g low high v) { has_post_filter = v.has_post_filter }) (ground (arith, h)))
    ∙ sym (ap concat (slots_lem g low high v v.slots))
    ∙ sym (
        ap (as_points g) (
          if_not (v.has_target_frame && false) (Lazy g low high v) (Eager g low high v)
            (ground arith)))
