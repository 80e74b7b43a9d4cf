-- ===== src/RttfBuffer/Consistent.antt =====
-- The answer whether there is a transform agrees with the lookup.
use easy_navigation.Common.{
  ℤ, ◌≡◌, refl, Bool, true, false, not, ◌&&◌, ◌||◌, Option, none, some, is_some, String,
}
use easy_navigation.RttfBuffer.{
  TransformStamped, extrapolation, other, Lookup, found, fails, Tf2, RttfBuffer, is_found,
  or_extrapolated, extrapolate, lookup_transform, can_transform,
}

abbrev pub is_other : {Motion : Type 0} → Lookup Motion → Bool
is_other (found t) = false
is_other (fails extrapolation) = false
is_other (fails other) = true

-- tf2's canTransform() says that there is a transform where its lookup gives one.
abbrev pub IsTf2 : {Motion : Type 0} → Tf2 Motion → Type 0
IsTf2 tf =
    (target_frame source_frame : String) (time : ℤ)
    → tf.can_transform target_frame source_frame time
      ≡ is_found (tf.lookup_transform target_frame source_frame time)

is_found-or_extrapolated :
    {Motion : Type 0} (own : Lookup Motion) (e : Option (TransformStamped Motion))
    → is_found (or_extrapolated own e) ≡ (is_found own || is_some e) && not (is_other own)
is_found-or_extrapolated (found t) e = refl
is_found-or_extrapolated (fails other) none = refl
is_found-or_extrapolated (fails other) (some t) = refl
is_found-or_extrapolated (fails extrapolation) (some t) = refl
is_found-or_extrapolated (fails extrapolation) none = refl

-- Where tf2's own canTransform() agrees with its lookup: lookupTransform() gives a transform exactly
-- if canTransform() says that there is one and tf2's own lookup does not fail but for an
-- extrapolation. Where it fails for another reason, canTransform() may say yes all the same.
pub can_transform_lem :
    {Motion : Type 0} (tf : Tf2 Motion) (b : RttfBuffer)
    → IsTf2 tf
    → (target_frame source_frame : String) (time : ℤ)
    → is_found (lookup_transform tf b target_frame source_frame time)
      ≡ can_transform tf b target_frame source_frame time
        && not (is_other (tf.lookup_transform target_frame source_frame time))
unfolding can_transform lookup_transform
can_transform_lem tf b agrees target_frame source_frame time =
    rw (agrees target_frame source_frame time) (
      is_found-or_extrapolated (tf.lookup_transform target_frame source_frame time)
        (extrapolate tf b target_frame source_frame time))
