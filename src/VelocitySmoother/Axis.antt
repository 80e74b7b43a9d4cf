-- ===== src/VelocitySmoother/Axis.antt =====
-- One axis of the smoother: the change and the direction of a step, and the turning radius.
use easy_navigation.Common.{
  ◌≡◌, refl, ◌&&◌, ◌||◌, Bool-cases, if◌then◌else◌, ◌⊎◌, inl, inr, Bool, true, false, arith,
}
use easy_navigation.Double.{Double, zero_d, lt, le, neg, abs, clamp, is_nan, Arith}
use easy_navigation.Double.Order.{lt_asymm, abs_sign, lt_of_not_le, lt_of_le}
use easy_navigation.VelocitySmoother.{max_delta, stop_at_zero, step_axis, within_radius}

-- What IEEE 754 says of signs: no product of numbers that are not negative, and no quotient of one
-- by a positive one, is negative.
pub record SignLaws (a : Arith) : Type 0 where
  pub mul_sign :
      (x y : Double) → lt x zero_d ≡ false → lt y zero_d ≡ false → lt (a.mul x y) zero_d ≡ false
  pub div_sign :
      (x y : Double) → lt x zero_d ≡ false → lt zero_d y ≡ true → lt (a.div x y) zero_d ≡ false

-- A clamp to an interval around zero.
pub clamp_around :
    (v hi : Double) → lt hi zero_d ≡ false → lt hi (abs (clamp v (neg hi) hi)) ≡ false
unfolding clamp abs neg lt
clamp_around v hi h = ground arith

-- A clamp to an interval around zero changes no value within it.
clamp_within :
    (v hi : Double) → lt hi zero_d ≡ false → (lt hi (abs v) ≡ true) ⊎ (clamp v (neg hi) hi ≡ v)
unfolding clamp abs neg lt
clamp_within v hi h = ground arith

abbrev pub is_reversed : Double → Double → Bool
is_reversed current next =
    (lt zero_d current && lt next zero_d) || (lt current zero_d && lt zero_d next)

-- A step from `current` towards `target` to `next`: by a change `d` of at most `most`, which is all
-- of the way where that is no more, unless this would reverse the direction, where it stops.
pub record IsStep (a : Arith) (most current target next : Double) : Type 0 where
  pub no_reverse : is_reversed current next ≡ false
  pub d : Double
  pub bounded : lt most (abs d) ≡ false
  pub whole_way : (lt most (abs (a.sub target current)) ≡ true) ⊎ (d ≡ a.sub target current)
  pub change :
      ((is_reversed current (a.add current d) ≡ false) × (next ≡ a.add current d))
      ⊎ ((is_reversed current (a.add current d) ≡ true) × (next ≡ zero_d))

stop_at_zero_signs :
    (current next : Double)
    → (is_reversed current (stop_at_zero current next) ≡ false)
      × (((is_reversed current next ≡ false) × (stop_at_zero current next ≡ next))
          ⊎ ((is_reversed current next ≡ true) × (stop_at_zero current next ≡ zero_d)))
unfolding stop_at_zero lt
stop_at_zero_signs current next = ground arith

step_axis-IsStep :
    (a : Arith) (current target acc decel dt : Double)
    → lt (max_delta a current target acc decel dt) zero_d ≡ false
    → IsStep a
        (max_delta a current target acc decel dt)
        current
        target
        (step_axis a current target acc decel dt)
unfolding step_axis
step_axis-IsStep a current target acc decel dt h =
    let most = max_delta a current target acc decel dt in
    let d = clamp (a.sub target current) (neg most) most in
    let (r, c) = stop_at_zero_signs current (a.add current d) in
    record {
      no_reverse = r;
      d = d;
      bounded = clamp_around (a.sub target current) most h;
      whole_way = clamp_within (a.sub target current) most h;
      change = c;
    }

chosen :
    (slowing : Bool) (acc decel : Double)
    → lt acc zero_d ≡ false
    → lt decel zero_d ≡ false
    → lt (if slowing then decel else acc) zero_d ≡ false
chosen slowing acc decel ha hd = ground arith

max_delta_sign :
    (a : Arith) (current target acc decel dt : Double)
    → SignLaws a
    → lt acc zero_d ≡ false
    → lt decel zero_d ≡ false
    → lt dt zero_d ≡ false
    → lt (max_delta a current target acc decel dt) zero_d ≡ false
unfolding max_delta
max_delta_sign a current target acc decel dt s ha hd ht =
    s.mul_sign _ dt (chosen _ acc decel ha hd) ht

-- A step of an axis with limits and a time that are not negative.
pub axis-IsStep :
    (a : Arith) (current target acc decel dt : Double)
    → SignLaws a
    → lt acc zero_d ≡ false
    → lt decel zero_d ≡ false
    → lt dt zero_d ≡ false
    → IsStep a
        (max_delta a current target acc decel dt)
        current
        target
        (step_axis a current target acc decel dt)
axis-IsStep a current target acc decel dt s ha hd ht =
    step_axis-IsStep a current target acc decel dt
      (max_delta_sign a current target acc decel dt s ha hd ht)

clamp_around_signs :
    (v hi : Double)
    → lt hi zero_d ≡ false
    → ((lt zero_d v && lt (clamp v (neg hi) hi) zero_d) ≡ false)
      × ((lt v zero_d && lt zero_d (clamp v (neg hi) hi)) ≡ false)
unfolding clamp neg lt
clamp_around_signs v hi h = ground arith

-- A clamp to an interval around zero changes a value to the nearest end, if at all.
clamp_around_exact :
    (v hi : Double)
    → lt hi zero_d ≡ false
    → (clamp v (neg hi) hi ≡ v) ⊎ ((lt hi (abs v) ≡ true) × (abs (clamp v (neg hi) hi) ≡ abs hi))
unfolding clamp abs neg lt
clamp_around_exact v hi h = ground arith

-- The angular velocity `next` keeps the direction of `angular`, its curvature is bounded, and it is
-- `angular` itself unless that exceeds the bound, where it has the size of the bound.
pub record IsTurn (a : Arith) (angular linear radius next : Double) : Type 0 where
  pub turning : (lt zero_d radius && lt (a.div (abs linear) radius) (abs next)) ≡ false
  pub no_right : (lt zero_d angular && lt next zero_d) ≡ false
  pub no_left : (lt angular zero_d && lt zero_d next) ≡ false
  pub cut :
      (next ≡ angular)
      ⊎ ((lt zero_d radius ≡ true)
          × (lt (a.div (abs linear) radius) (abs angular) ≡ true)
          × (abs next ≡ abs (a.div (abs linear) radius)))

pub within_radius-IsTurn :
    (a : Arith) (angular linear radius : Double)
    → SignLaws a
    → is_nan radius ≡ false
    → IsTurn a angular linear radius (within_radius a angular linear radius)
unfolding within_radius is_nan
within_radius-IsTurn a angular linear radius s h = elim (Bool-cases (le radius zero_d)) [
  | inl e ↦
      let p = lt_of_le radius zero_d e in
      let q = lt_asymm zero_d angular in
      rw e (record {
        turning = ground (arith, p);
        no_right = ground (arith, q);
        no_left = ground (arith, q);
        cut = inl refl;
      })
  | inr e ↦
      let most = a.div (abs linear) radius in
      let p = lt_of_not_le radius zero_d h refl e in
      let q = s.div_sign (abs linear) radius (abs_sign linear) p in
      let (r, l) = clamp_around_signs angular most q in
      rw e (record {
        turning = ground (arith, clamp_around angular most q);
        no_right = r;
        no_left = l;
        cut = elim (clamp_around_exact angular most q) [
          | inl same ↦ inl same
          | inr (over, size) ↦ inr (p, over, size)
        ];
      })
]
