-- ===== src/SensorsNode/Age.antt =====
-- What the check of the age leaves valid.
use easy_navigation.Common.{
  ◌≡◌, ◌↔◌, ap, arith, Bool, true, false, ◌&&◌, Option, none, some, List, [], ◌∷◌, length, inl, inr,
  Option-cases,
}
use easy_navigation.Double.{Double, Arith}
use easy_navigation.PointPerception.{Time}
use easy_navigation.SensorsNode.{
  PerceptionBase, Handler, DataState, fresh, is_expired, judge, check_one, check_all,
}

-- The state of a perception that was checked tells whether it is valid and why.
abbrev pub IsJudged : Bool → PerceptionBase → DataState → PerceptionBase → Type 0
IsJudged expired p known p' =
    (p'.stamp ≡ p.stamp)
    × ((p'.valid ≡ true) ↔ ((p.valid ≡ true) × (expired ≡ false)))
    × ((known ≡ fresh) ↔ (p'.valid ≡ true))

judge-IsJudged :
    (expired : Bool) (p : PerceptionBase)
    → IsJudged expired p (judge expired p).0 (judge expired p).1
unfolding judge
judge-IsJudged expired p = ground arith

in_time :
    (v b expired old : Bool)
    → b ≡ expired
    → (v ≡ true) ↔ ((old ≡ true) × (expired ≡ false))
    → (v && b) ≡ false
in_time v b expired old e h = ground (arith, e, h)

module _ (a : Arith) (forget_time : Double) (now : Time) where
  -- A perception that is valid is not older than the forget time, and its state says so.
  abbrev pub IsInTime : Option PerceptionBase → DataState → Type 0
  IsInTime none known = Unit {0}
  IsInTime (some p) known =
      ((p.valid && is_expired a forget_time now p.stamp) ≡ false)
      × ((known ≡ fresh) ↔ (p.valid ≡ true))

  -- One state per handler, each as it should be.
  abbrev pub AllInTime : List Handler → List DataState → Type 0
  AllInTime [] [] = Unit {0}
  AllInTime (h ∷ handlers) (known ∷ states) =
      IsInTime h.perception known × AllInTime handlers states
  AllInTime _ _ = ⊥

  check_one-IsInTime :
      (h : Handler) (known : DataState)
      → IsInTime
          (check_one a forget_time now h known).0.perception
          (check_one a forget_time now h known).1.0
  unfolding check_one
  check_one-IsInTime h known = elim (Option-cases h.perception) [
    | inl e ↦ rw (e, check_one) (rw e tt)
    | inr (q, e) ↦
        let expired = is_expired a forget_time now q.stamp in
        let (stamp, valid, state_of) = judge-IsJudged expired q in
        rw (e, check_one)
          (in_time _ _ expired q.valid (ap (is_expired a forget_time now) stamp) valid, state_of)
  ]

  pub check_all-AllInTime :
      (handlers : List Handler) (states : List DataState)
      → length states ≡ length handlers
      → AllInTime
          (check_all a forget_time now handlers states).0
          (check_all a forget_time now handlers states).1.0
  unfolding check_all
  check_all-AllInTime [] [] e = tt
  check_all-AllInTime (h ∷ handlers) (known ∷ states) e =
      (check_one-IsInTime h known, check_all-AllInTime handlers states (omega (arith, e)))
  check_all-AllInTime [] (s ∷ states) e = absurd (omega (arith, e))
  check_all-AllInTime (h ∷ handlers) [] e = absurd (omega (arith, e))
