-- ===== src/RttfBuffer/Ahead.antt =====
-- How far ahead of the latest transform an answer may be.
use easy_navigation.Common.{
  ℕ, ◌*◌, ◌^◌, ◌<◌, pos, ◌+ℤ◌, ◌-ℤ◌, ◌≤ℤ◌, ◌<ℤ◌, ltb_ℤ, leb_ℤ, eqb_ℤ, to_int, to_uint32, ◌/◌, ◌⊎◌,
  ◌≡◌, refl, ◌∙◌, ap, arith, false, ◌||◌, Bool-cases, inl, inr, Option, none, some, String,
  -ℤ_parts,
}
use easy_navigation.RttfBuffer.{
  TransformStamped, extrapolation, other, Lookup, found, fails, Tf2, RttfBuffer, giga, seconds,
  stamp_to_time, stamp_of, or_extrapolated, from_previous, from_last, extrapolate, lookup_transform,
}

module _ {Motion : Type 0} (tf : Tf2 Motion) (b : RttfBuffer) where
  -- A transform at `time` extrapolated from the latest one, which moves, is before `time`, and is
  -- so by the maximum at most; `n` is the time.
  pub record IsExtrapolated (target_frame source_frame : String) (n : ℕ)
      (t : TransformStamped Motion) : Type 0 where
    pub last : TransformStamped Motion
    pub latest : tf.lookup_transform target_frame source_frame (pos 0) ≡ found last
    pub moves : eqb_ℤ (stamp_to_time last.stamp) (pos 0) ≡ false
    pub ahead : stamp_to_time last.stamp <ℤ pos n
    pub bounded : (pos n -ℤ stamp_to_time last.stamp) ≤ℤ b.max_future_extrapolation_ns
    pub at : stamp_to_time t.stamp ≡ pos n
    pub frames : (t.frame_id ≡ last.frame_id) × (t.child_frame_id ≡ last.child_frame_id)

  abbrev pub Holds : (TransformStamped Motion → Type 0) → Option (TransformStamped Motion) → Type 0
  Holds P none = Unit {0}
  Holds P (some t) = P t

  -- The answer is tf2's own, its failure included, or an extrapolation.
  abbrev pub IsAnswer : String → String → ℕ → Lookup Motion → Lookup Motion → Type 0
  IsAnswer target_frame source_frame n own (fails f) = own ≡ fails f
  IsAnswer target_frame source_frame n own (found t) =
      (own ≡ found t) ⊎ IsExtrapolated target_frame source_frame n t

whole_lem : (n : ℕ) → n < 2 ^ 31 * giga → to_int (pos (n / giga)) ≡ pos (n / giga)
unfolding to_int
whole_lem n h = ground (arith, h)

-- The nanoseconds that are left of a second.
rest_lem :
    (n : ℕ) → pos (n / giga * giga) +ℤ pos (to_uint32 (pos n -ℤ pos (n / giga * giga))) ≡ pos n
unfolding ◌+ℤ◌ ◌-ℤ◌ to_uint32
rest_lem n = ground arith

stamp_to_time-stamp_of : (n : ℕ) → n < 2 ^ 31 * giga → stamp_to_time (stamp_of (pos n)) ≡ pos n
unfolding stamp_to_time stamp_of
stamp_to_time-stamp_of n h =
    ap (λ s. seconds s +ℤ pos (to_uint32 (pos n -ℤ seconds s))) (whole_lem n h) ∙ rest_lem n

module _ {Motion : Type 0} (tf : Tf2 Motion) (b : RttfBuffer) where
  from_previous_lem :
      (target_frame source_frame : String) (n : ℕ) (last : TransformStamped Motion)
      (r : Lookup Motion)
      → n < 2 ^ 31 * giga
      → tf.lookup_transform target_frame source_frame (pos 0) ≡ found last
      → (eqb_ℤ (stamp_to_time last.stamp) (pos 0)
          || leb_ℤ (pos n -ℤ stamp_to_time last.stamp) (pos 0)
          || ltb_ℤ b.max_future_extrapolation_ns (pos n -ℤ stamp_to_time last.stamp))
        ≡ false
      → Holds tf b
          (IsExtrapolated tf b target_frame source_frame n)
          (from_previous tf b last (pos n) (pos n -ℤ stamp_to_time last.stamp) r)
  from_previous_lem target_frame source_frame n last (fails f) h l c = tt
  from_previous_lem target_frame source_frame n last (found prev) h l c =
      let parts = -ℤ_parts (pos n) (stamp_to_time last.stamp) in
      record {
        last = last;
        latest = l;
        moves = ground (arith, c);
        ahead = ground (arith, c, parts);
        bounded = ground (arith, c);
        at = stamp_to_time-stamp_of n h;
        frames = (refl, refl);
      }

  from_last_lem :
      (target_frame source_frame : String) (n : ℕ) (r : Lookup Motion)
      → n < 2 ^ 31 * giga
      → tf.lookup_transform target_frame source_frame (pos 0) ≡ r
      → Holds tf b
          (IsExtrapolated tf b target_frame source_frame n)
          (from_last tf b target_frame source_frame (pos n) r)
  from_last_lem target_frame source_frame n (fails f) h l = tt
  from_last_lem target_frame source_frame n (found last) h l =
      elim (Bool-cases (
        eqb_ℤ (stamp_to_time last.stamp) (pos 0)
        || leb_ℤ (pos n -ℤ stamp_to_time last.stamp) (pos 0)
        || ltb_ℤ b.max_future_extrapolation_ns (pos n -ℤ stamp_to_time last.stamp))) [
          | inl e ↦ rw e tt
          | inr e ↦ rw e (from_previous_lem target_frame source_frame n last _ h l e)
        ]

  extrapolate-IsExtrapolated :
      (target_frame source_frame : String) (n : ℕ)
      → n < 2 ^ 31 * giga
      → Holds tf b
          (IsExtrapolated tf b target_frame source_frame n)
          (extrapolate tf b target_frame source_frame (pos n))
  unfolding extrapolate
  extrapolate-IsExtrapolated target_frame source_frame n h =
      elim (Bool-cases (leb_ℤ b.max_future_extrapolation_ns (pos 0))) [
        | inl e ↦ rw e tt
        | inr e ↦ rw e (from_last_lem target_frame source_frame n _ h refl)
      ]

  or_extrapolated-IsAnswer :
      (target_frame source_frame : String) (n : ℕ) (own : Lookup Motion)
      (e : Option (TransformStamped Motion))
      → Holds tf b (IsExtrapolated tf b target_frame source_frame n) e
      → IsAnswer tf b target_frame source_frame n own (or_extrapolated own e)
  or_extrapolated-IsAnswer target_frame source_frame n (found t) e h = inl refl
  or_extrapolated-IsAnswer target_frame source_frame n (fails other) e h = refl
  or_extrapolated-IsAnswer target_frame source_frame n (fails extrapolation) (some t) h = inr h
  or_extrapolated-IsAnswer target_frame source_frame n (fails extrapolation) none h = refl

  -- For a time from the epoch to 2^31 seconds: the lookup gives what tf2 gives, its failure
  -- included, or else a transform of that time between the same frames, where tf2's latest one is
  -- not of a static chain, is before the time and is so by no more than the maximum.
  pub lookup_transform-IsAnswer :
      (target_frame source_frame : String) (n : ℕ)
      → n < 2 ^ 31 * giga
      → IsAnswer tf b target_frame source_frame n
          (tf.lookup_transform target_frame source_frame (pos n))
          (lookup_transform tf b target_frame source_frame (pos n))
  unfolding lookup_transform
  lookup_transform-IsAnswer target_frame source_frame n h =
      or_extrapolated-IsAnswer target_frame source_frame n _ _
        (extrapolate-IsExtrapolated target_frame source_frame n h)
