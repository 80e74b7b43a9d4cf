-- ===== src/MethodUpdate/Localizer/Pose.antt =====
-- The pose that a localizer plugin is given from before it was loaded.
use easy_navigation.Common.{
  ◌≡◌, refl, Bool, true, false, ◌||◌, some, String, List, [], ◌∷◌, Bool-cases, ◌⊎◌, inl, inr,
}
use easy_navigation.Double.{Arith}
use easy_navigation.Messages.{Odometry}
use easy_navigation.NavState.{
  NavState, Outcome, ok, throws, Exec, bind_outcome, branch, has, get_safe, as_odometry,
}
use easy_navigation.MethodBase.{Format, is_time2_run_rt, is_time2_run}
use easy_navigation.MethodUpdate.{Names, Reads}
use easy_navigation.MethodUpdate.Localizer.{
  LocalizerMethodBase, is_valid_pose, usable, last_known_pose, check_last_known_pose, run_rt,
  check_rt, internal_update_rt, run, check, internal_update,
}

-- At most one pose was given, a valid one, and then the check is over.
abbrev pub IsKnown : String → LocalizerMethodBase → Type 0
IsKnown map_frame l =
    (l.known_poses ≡ [])
    ⊎ ((odom : Odometry) × (l.known_poses ≡ odom ∷ [])
        × (is_valid_pose map_frame odom ≡ true)
        × (l.last_known_pose_once ≡ true))

-- A property of the state that each of two steps keeps, whether it returns or throws.
after_bind :
    {S A B : Type 0} (P : S → Type 0) (r : Outcome A × S) (f : A → Exec S B)
    → P r.1
    → ((a : A) (s : S) → P s → P (f a s).1)
    → P (bind_outcome r f).1
after_bind P (ok a, s) f p h = h a s p
after_bind P (throws e, s) f p h = p

after_branch :
    {S A : Type 0} (P : S → Type 0) (b : Bool) (m n : Exec S A) (s : S)
    → P (m s).1
    → P (n s).1
    → P (branch b m n s).1
unfolding branch
after_branch P true m n s p q = p
after_branch P false m n s p q = q

usable_lem :
    (map_frame : String) (r : Outcome Odometry)
    → (usable map_frame r ≡ [])
      ⊎ ((odom : Odometry) × (usable map_frame r ≡ odom ∷ [])
          × (is_valid_pose map_frame odom ≡ true))
usable_lem map_frame (throws e) = inl refl
usable_lem map_frame (ok odom) = elim (Bool-cases (is_valid_pose map_frame odom)) [
  | inl e ↦ inr (odom, rw e refl, e)
  | inr e ↦ inl (rw e refl)
]

last_lem :
    (map_frame : String) (st : NavState)
    → (last_known_pose map_frame st ≡ [])
      ⊎ ((odom : Odometry) × (last_known_pose map_frame st ≡ odom ∷ [])
          × (is_valid_pose map_frame odom ≡ true))
unfolding last_known_pose
last_lem map_frame st = elim (Bool-cases (has "robot_pose" st)) [
  | inl e ↦ rw e (usable_lem map_frame (get_safe as_odometry "robot_pose" st).0)
  | inr e ↦ rw e (inl refl)
]

check_last-IsKnown :
    (map_frame : String) (st : NavState) (l : LocalizerMethodBase)
    → IsKnown map_frame l
    → IsKnown map_frame (check_last_known_pose map_frame st l)
unfolding check_last_known_pose
check_last-IsKnown map_frame st l k = elim (Bool-cases l.last_known_pose_once) [
  | inl e ↦ rw e (rw e at k)
  | inr e ↦ elim k [
    | inl none_yet ↦ elim (last_lem map_frame st) [
      | inl n ↦ rw (e, n) (inl none_yet)
      | inr (odom, o, v) ↦ rw (e, o, none_yet) (inr (odom, refl, v, refl))
    ]
    | inr (odom, o, v, once) ↦ cc
  ]
]

module _ (a : Arith) (format : Format) (names : Names) where
  -- An update of the plugin: in the real-time cycle, triggered or not, or in the other one.
  pub data Update : Type 0 where
    real_time : Reads → Exec NavState (Unit {0}) → Bool → Update
    other : Reads → Exec NavState (Unit {0}) → Update

  unfoldable pub after : Update → LocalizerMethodBase × NavState → LocalizerMethodBase × NavState
  unfolding internal_update_rt internal_update
  after (real_time reads update trigger) s =
      (internal_update_rt a format names reads update trigger s).1
  after (other reads update) s = (internal_update a format names reads update s).1

  abbrev pub Known : LocalizerMethodBase × NavState → Type 0
  Known s = IsKnown names.map_frame s.0

  update-Known : (u : Update) (s : LocalizerMethodBase × NavState) → Known s → Known (after u s)
  unfolding after internal_update_rt internal_update check_rt check run_rt run
  update-Known (real_time reads update trigger) (l, st) k =
      after_bind Known _ (λ _. check_rt a format names reads update trigger) k
        (λ _ (l', st') k'.
          after_branch Known ((is_time2_run_rt a (some reads.checked) l'.method).0 || trigger) _ _ _
            (check_last-IsKnown names.map_frame st' _ k') k')
  update-Known (other reads update) (l, st) k =
      after_bind Known _ (λ _. check a format names reads update) k
        (λ _ (l', st') k'.
          after_branch Known (is_time2_run a (some reads.checked) l'.method).0 _ _ _
            (check_last-IsKnown names.map_frame st' _ k') k')

  abbrev pub after_all :
      List Update → LocalizerMethodBase × NavState → LocalizerMethodBase × NavState
  after_all [] s = s
  after_all (u ∷ us) s = after_all us (after u s)

  all-Known :
      (us : List Update) (s : LocalizerMethodBase × NavState) → Known s → Known (after_all us s)
  all-Known [] s k = k
  all-Known (u ∷ us) s k = all-Known us (after u s) (update-Known u s k)

  -- Of a localizer that was given no pose before, after any updates of whatever plugin code, on any
  -- blackboard, also where they throw: the plugin was given at most one pose, and that one is finite,
  -- has an orientation that is not zero, and is in the map's frame.
  pub after_all-IsKnown :
      (us : List Update) (l : LocalizerMethodBase) (st : NavState)
      → l.known_poses ≡ []
      → IsKnown names.map_frame (after_all us (l, st)).0
  after_all-IsKnown us l st e = all-Known us (l, st) (inl e)
