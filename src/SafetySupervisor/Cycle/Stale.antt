-- ===== src/SafetySupervisor/Cycle/Stale.antt =====
-- A stale pose in safety mode: what the cycle leaves for the mux.
use easy_navigation.Common.{
  ℤ, pos, ◌-ℤ◌, ◌||◌, not, ◌≡◌, ◌≢◌, ◌∙◌, refl, ap, Bool, true, false, Option, some, String,
  Bool-cases, inl, inr, eqb_ℤ, if◌then◌else◌, arith,
}
use easy_navigation.Double.{Double, zero_d, lt, Arith}
use easy_navigation.Messages.{Odometry, zero_twist}
use easy_navigation.NavState.{
  NavState, Outcome, ok, Exec, branch, return, bind_outcome, Value, odometry, bool, type_code,
  lookup, has, get_safe, as_odometry, set,
}
use easy_navigation.NavState.Laws.{set-Typed, odometry_of}
use easy_navigation.NavState.Rules.{Returns, returns, bind_rule, branch_rule, weaken_rule}
use easy_navigation.NavState.Schema.{IsTyped, set-IsTyped}
use easy_navigation.VelocityMux.{VelocityMux}
use easy_navigation.VelocityMux.Typed.{well_typed}
use easy_navigation.VelocityMux.Priority.{Selects, is_halted, select_halted}
use easy_navigation.MethodUpdate.{on_nav}
use easy_navigation.SafetySupervisor.{SafetySupervisor, Print}
use easy_navigation.SafetySupervisor.Reports.{
  is_finite_pose, pose_age, is_stale, pose_diagnostic, report_pose, is_stale_reported, judge_pose,
  check_pose_age,
}
use easy_navigation.SafetySupervisor.Cycle.{cycle_rt, conclude}
use easy_navigation.SafetySupervisor.Cycle.Safe.{Keeps, core, diagnostic-Keeps, cycle_rule}

-- A step that keeps the types and what the cycle's end looks at, and leaves `value` at
-- "inhibit_motion".
abbrev pub Inhibits : SafetySupervisor → Option Value → SafetySupervisor × NavState → Type 0
Inhibits before value s =
    IsTyped s.1 × (lookup "inhibit_motion" s.1.values ≡ value) × (core s.0 ≡ core before)

decided :
    (before : Option Value) (mode stale : Bool)
    → mode ≡ true
    → stale ≡ true
    → (if mode then some (bool stale) else before) ≡ some (bool true)
decided before true true e h = refl
decided before false stale e h = cc
decided before mode false e h = cc

halted :
    (st : NavState) → lookup "inhibit_motion" st.values ≡ some (bool true) → is_halted st ≡ true
halted st i = rw i (ground arith)

module _ (a : Arith) (print : Print) where
  report_pose-Inhibits :
      (stale : Bool) (wall : ℤ) (odom : Odometry) (s : SafetySupervisor) (st : NavState)
      → IsTyped st
      → Returns
          (λ _ s'. Inhibits s (lookup "inhibit_motion" st.values) s')
          (report_pose a print stale wall odom (s, st))
  unfolding report_pose lookup
  report_pose-Inhibits stale wall odom s st t =
      elim (Bool-cases (is_stale_reported stale s.last_pose_stale)) [
        | inl e ↦ rw e (returns tt refl (t, refl, refl))
        | inr e ↦ rw e (
            nav_Inhibits (
              diagnostic-Keeps "diagnostics.robot_pose" "inhibit_motion"
                (pose_diagnostic a print stale wall odom s) st refl refl refl t))
      ]
    where
      nav_Inhibits :
          {r : Outcome (Unit {0}) × NavState}
          → Returns (λ _ st'. Keeps "inhibit_motion" st st') r
          → Returns
              (λ _ s'. Inhibits s (lookup "inhibit_motion" st.values) s')
              (r.0, (record s { last_pose_stale = some stale }, r.1))
      nav_Inhibits (returns u e (k, same)) = returns u e (k, same, refl)

  -- The flag that safety mode writes.
  mark_lem :
      (mode stale : Bool) (s : SafetySupervisor) (st : NavState)
      → IsTyped st
      → Returns
          (λ _ s'.
            IsTyped s'.1
            × (lookup "inhibit_motion" s'.1.values
                ≡ (if mode then some (bool stale) else lookup "inhibit_motion" st.values))
            × (s'.0 ≡ s))
          (branch mode (on_nav (set "inhibit_motion" (bool stale))) (return tt) (s, st))
  unfolding branch lookup type_code
  mark_lem false stale s st t = returns tt refl (t, refl, refl)
  mark_lem true stale s st t =
      let (done, t') = set-IsTyped "inhibit_motion" (bool stale) st refl t in
      let v =
        (set-Typed "inhibit_motion" "inhibit_motion" (bool stale) st
          (t "inhibit_motion" 0 refl)).1 in
      returns tt done (t', v, refl)

  judge_pose-Inhibits :
      (wall : ℤ) (odom : Odometry) (s : SafetySupervisor) (st : NavState)
      → IsTyped st
      → Returns
          (λ _ s'.
            Inhibits s
              (if s.safety_mode
                then some (bool (is_stale a print wall odom s))
                else lookup "inhibit_motion" st.values)
              s')
          (judge_pose a print wall odom (s, st))
  unfolding judge_pose
  judge_pose-Inhibits wall odom s st t =
      let stale = is_stale a print wall odom s in
      bind_rule
        (λ _ s'.
          IsTyped s'.1
          × (lookup "inhibit_motion" s'.1.values
              ≡ (if s.safety_mode then some (bool stale) else lookup "inhibit_motion" st.values))
          × (s'.0 ≡ s))
        {f = λ _. report_pose a print stale wall odom} (mark_lem s.safety_mode stale s st t)
        (λ _ (s', st') (t', v, same).
          weaken_rule _ (report_pose-Inhibits stale wall odom s' st' t')
            (λ _ s'' (k, w, c). (k, w ∙ v, c ∙ ap core same)))

  abbrev judged : ℤ → Odometry → Exec (SafetySupervisor × NavState) (Unit {0})
  judged wall odom =
      branch (eqb_ℤ odom.header.stamp (pos 0)) (return tt) (judge_pose a print wall odom)

  -- A pose that is there is read.
  check_eq :
      (wall : ℤ) (odom : Odometry) (s : SafetySupervisor) (st : NavState)
      → lookup "robot_pose" st.values ≡ some (odometry odom)
      → check_pose_age a print wall (s, st) ≡ (
          if not (lt zero_d s.max_pose_age)
          then return tt (s, st)
          else branch
              (eqb_ℤ odom.header.stamp (pos 0))
              (return tt)
              (judge_pose a print wall odom)
              (s, st))
  unfolding check_pose_age
  check_eq wall odom s st e =
      let there : has "robot_pose" st ≡ true = rw (e, has) in
      let got : get_safe as_odometry "robot_pose" st ≡ (ok odom, st) = rw (e, get_safe) in
      rw there (elim (Bool-cases (lt zero_d s.max_pose_age)) [
        | inl w ↦ rw w (ap (λ r. bind_outcome (r.0, (s, r.1)) (judged wall)) got)
        | inr w ↦ rw w refl
      ])

  -- A pose that is there, with a stamp, while the age is watched.
  check_pose_age-Inhibits :
      (wall : ℤ) (odom : Odometry) (s : SafetySupervisor) (st : NavState)
      → IsTyped st
      → lookup "robot_pose" st.values ≡ some (odometry odom)
      → odom.header.stamp ≢ pos 0
      → lt zero_d s.max_pose_age ≡ true
      → Returns
          (λ _ s'.
            Inhibits s
              (if s.safety_mode
                then some (bool (is_stale a print wall odom s))
                else lookup "inhibit_motion" st.values)
              s')
          (check_pose_age a print wall (s, st))
  check_pose_age-Inhibits wall odom s st t e n w =
      rw (check_eq wall odom s st e, w)
        (branch_rule (eqb_ℤ odom.header.stamp (pos 0)) (return tt) (judge_pose a print wall odom)
          (λ z. absurd (n (ground arith))) (λ _. judge_pose-Inhibits wall odom s st t))

  pose_there :
      (st : NavState)
      → has "robot_pose" st ≡ true
      → IsTyped st
      → (odom : Odometry) × (lookup "robot_pose" st.values ≡ some (odometry odom))
  unfolding has lookup
  pose_there st h t = odometry_of (lookup "robot_pose" st.values) h (t "robot_pose" 5 refl)

  -- Any blackboard whose keys have their types.
  pub check_pose_age-Core :
      (wall : ℤ) (s : SafetySupervisor) (st : NavState)
      → IsTyped st
      → Returns (λ _ s'. IsTyped s'.1 × (core s'.0 ≡ core s)) (check_pose_age a print wall (s, st))
  unfolding check_pose_age lookup
  check_pose_age-Core wall s st t = elim (Bool-cases (has "robot_pose" st)) [
    | inr h ↦ rw h (elim (Bool-cases (lt zero_d s.max_pose_age)) [
      | inl w ↦ rw w (returns tt refl (t, refl))
      | inr w ↦ rw w (returns tt refl (t, refl))
    ])
    | inl h ↦
        let (odom, e) = pose_there st h t in
        rw (check_eq wall odom s st e) (elim (Bool-cases (lt zero_d s.max_pose_age)) [
          | inr w ↦ rw w (returns tt refl (t, refl))
          | inl w ↦ rw w (
              branch_rule (eqb_ℤ odom.header.stamp (pos 0)) (return tt)
                (judge_pose a print wall odom) (λ _. returns tt refl (t, refl))
                (λ _.
                  weaken_rule _ (judge_pose-Inhibits wall odom s st t) (λ _ s' (k, v, c). (k, c))))
        ])
  ]

  stale_core :
      (wall : ℤ) (odom : Odometry) (s s' : SafetySupervisor)
      → s'.max_pose_age ≡ s.max_pose_age
      → is_stale a print wall odom s' ≡ is_stale a print wall odom s
  unfolding is_stale
  stale_core wall odom s s' e = rw e refl

  stale_of :
      (wall : ℤ) (odom : Odometry) (s : SafetySupervisor)
      → lt s.max_pose_age (a.seconds (wall -ℤ odom.header.stamp)) || not (is_finite_pose odom)
        ≡ true
      → is_stale a print wall odom s ≡ true
  unfolding is_stale pose_age
  stale_of wall odom s h = h

  module _ (reason : String × Double → String) (now stamp wall : ℤ) where
    -- In safety mode with the pose's age watched, on a blackboard whose keys have their types and
    -- that has a pose with a stamp: if the pose is older than `max_pose_age` or not finite, the
    -- cycle throws nothing, motion is inhibited, and so the mux next selects a zero command, which
    -- goes through the smoother, whatever is proposed.
    pub cycle_rt-stale :
        (odom : Odometry) (s : SafetySupervisor) (st : NavState) (m : VelocityMux)
        → IsTyped st
        → lookup "robot_pose" st.values ≡ some (odometry odom)
        → odom.header.stamp ≢ pos 0
        → lt zero_d s.max_pose_age ≡ true
        → s.safety_mode ≡ true
        → lt s.max_pose_age (a.seconds (wall -ℤ odom.header.stamp)) || not (is_finite_pose odom)
          ≡ true
        → Returns
            (λ _ s'.
              (lookup "inhibit_motion" s'.1.values ≡ some (bool true))
              × Selects m s'.1 (λ c. (c.cmd.twist ≡ zero_twist) × (c.smooth ≡ true)))
            (cycle_rt a print reason now stamp wall (s, st))
    cycle_rt-stale odom s st m t e n w safe stale =
        cycle_rule a print reason now stamp wall s st t (λ s₂ st₂ ((t₂, p₂), c₂).
          bind_rule (λ _ s'. Inhibits s₂ (some (bool true)) s') {f = λ _. conclude a print _}
            (weaken_rule _
              (check_pose_age-Inhibits wall odom s₂ st₂ t₂ (p₂ ∙ e) n
                (ap (λ c. lt zero_d c.max_pose_age) c₂ ∙ w))
              (λ _ s' (k, v, c). (
                k,
                v
                    ∙ decided _ s₂.safety_mode _ (ap (λ c. c.safety_mode) c₂ ∙ safe) (
                        stale_core wall odom s s₂ (ap (λ c. c.max_pose_age) c₂)
                        ∙ stale_of wall odom s stale),
                c,
              )))
            (λ _ (s₃, st₃) (t₃, i, c₃).
              unfold conclude in
              returns _ refl (i, select_halted m st₃ (well_typed st₃ t₃) (halted st₃ i))))
