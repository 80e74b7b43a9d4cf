-- ===== src/SafetySupervisor/Cycle/Failure.antt =====
-- When the supervisor asks to stop: over any cycles since it was activated.
use easy_navigation.Common.{
  ℕ, suc, ℤ, pos, ◌⊎◌, ◌≡◌, ◌∙◌, ◌↔◌, refl, sym, ap, Bool, true, false, not, ◌&&◌, ◌||◌, is_some,
  String, List, [], ◌∷◌, Bool-cases, inl, inr, arith,
}
use easy_navigation.Double.{Double, Arith}
use easy_navigation.NavState.{NavState, Outcome, ok}
use easy_navigation.NavState.Rules.{Returns, returns, bind_rule}
use easy_navigation.NavState.Schema.{IsTyped}
use easy_navigation.RtMonitor.{RtMonitor, Status, cycle_started}
use easy_navigation.RtMonitor
use easy_navigation.RtMonitor.Streak.{AllLate, run, status-run_iff}
use easy_navigation.SafetySupervisor.{SafetySupervisor, Print, is_error, on_activate}
use easy_navigation.SafetySupervisor.Cycle.{judge, conclude, cycle_rt}
use easy_navigation.SafetySupervisor.Cycle.Safe.{core, cycle_rule}
use easy_navigation.SafetySupervisor.Cycle.Stale.{check_pose_age-Core}

-- Whether the cycle that starts at `now` ends a streak of late ones that is too long.
abbrev pub fails_at : Arith → ℤ → SafetySupervisor → Bool
fails_at a now s = s.safety_mode && is_error (cycle_started a now s.rt_monitor).status

module _ (a : Arith) (print : Print) where
  judge_failure :
      (status : Status) (s : SafetySupervisor)
      → (is_some (judge a print status s).failure
          ≡ (is_some s.failure || (s.safety_mode && is_error status)))
        × ((judge a print status s).safety_mode ≡ s.safety_mode)
        × ((judge a print status s).rt_monitor ≡ s.rt_monitor)
  unfolding judge
  judge_failure status s =
      elim (Bool-cases (s.safety_mode && is_error status && not (is_some s.failure))) [
        | inl e ↦ rw e (ground arith, refl, refl)
        | inr e ↦ rw e (ground arith, refl, refl)
      ]

  -- What a cycle does to the request to stop.
  abbrev pub Judged : ℤ → SafetySupervisor → Bool → SafetySupervisor × NavState → Type 0
  Judged now s go s' =
      IsTyped s'.1
      × (go ≡ not (is_some s'.0.failure))
      × (is_some s'.0.failure ≡ (is_some s.failure || fails_at a now s))
      × (s'.0.safety_mode ≡ s.safety_mode)
      × (s'.0.rt_monitor ≡ cycle_started a now s.rt_monitor)

  pub cycle_rt-Judged :
      (reason : String × Double → String) (now stamp wall : ℤ) (s : SafetySupervisor)
      (st : NavState)
      → IsTyped st
      → Returns (Judged now s) (cycle_rt a print reason now stamp wall (s, st))
  cycle_rt-Judged reason now stamp wall s st t =
      let status = (cycle_started a now s.rt_monitor).status in
      cycle_rule a print reason now stamp wall s st t (λ s₂ st₂ ((t₂, p₂), c₂).
        bind_rule (λ _ s'. IsTyped s'.1 × (core s'.0 ≡ core s₂)) {f = λ _. conclude a print status}
          (check_pose_age-Core a print wall s₂ st₂ t₂)
          (λ _ (s₃, st₃) (t₃, c₃).
            let (f, mode, monitor) = judge_failure status s₃ in
            let same = c₃ ∙ c₂ in
            unfold conclude in
            returns _ refl (
              t₃,
              refl,
              f ∙ ap (λ c. is_some c.failure || (c.safety_mode && is_error status)) same,
              mode ∙ ap (λ c. c.safety_mode) same,
              monitor ∙ ap (λ c. c.rt_monitor) same,
            )))

-- A cycle: its clock readings, and the blackboard at its start.
pub record Input : Type 0 where
  pub now : ℤ
  pub stamp : ℤ
  pub wall : ℤ
  pub nav_state : NavState

abbrev pub AllTyped : List Input → Type 0
AllTyped [] = Unit {0}
AllTyped (i ∷ is) = IsTyped i.nav_state × AllTyped is

abbrev pub starts : List Input → List ℤ
starts [] = []
starts (i ∷ is) = i.now ∷ starts is

-- Some `k + 1` periods in a row were all late, at some time in the history.
abbrev pub WasLate : Arith → Double → ℕ → List ℤ → Type 0
WasLate a max_period k [] = ⊥
WasLate a max_period k (t ∷ ts) = AllLate a max_period (suc k) (t ∷ ts) ⊎ WasLate a max_period k ts

is_error_iff : (status : Status) → (is_error status ≡ true) ↔ (status ≡ RtMonitor.error)
is_error_iff RtMonitor.error = ((λ _. refl), (λ _. refl))
is_error_iff RtMonitor.ok = ((λ e. ground arith), (λ e. ground arith))
is_error_iff RtMonitor.late = ((λ e. ground arith), (λ e. ground arith))

iff_trans : {P Q R : Type 0} → P ↔ Q → Q ↔ R → P ↔ R
iff_trans (f, g) (h, k) = ((λ p. h (f p)), (λ r. g (k r)))

not_iff : (b : Bool) → (not b ≡ false) ↔ (b ≡ true)
not_iff b = ground arith

-- A request to stop is kept, and made by a cycle that ends a streak in safety mode.
judged_iff :
    (before after mode late : Bool) (Ends Was : Type 0)
    → after ≡ (before || (mode && late))
    → (before ≡ true) ↔ ((mode ≡ true) × Was)
    → (late ≡ true) ↔ Ends
    → (after ≡ true) ↔ ((mode ≡ true) × (Ends ⊎ Was))
judged_iff before after mode late Ends Was e b l = ground (arith, e, b, l)

module _ (a : Arith) (print : Print) (reason : String × Double → String) where
  -- The supervisor after the cycles since it was activated, listed newest first.
  unfoldable pub after : List Input → SafetySupervisor → SafetySupervisor
  unfolding cycle_rt on_activate
  after [] s = on_activate s
  after (i ∷ is) s = (cycle_rt a print reason i.now i.stamp i.wall (after is s, i.nav_state)).1.0

  module _ (s : SafetySupervisor) (k : ℕ) (e : s.rt_monitor.max_late_cycles ≡ pos (suc k)) where
    abbrev Late : List ℤ → Type 0
    Late = WasLate a s.rt_monitor.max_period k

    -- After some cycles.
    abbrev Followed : List ℤ → SafetySupervisor → Type 0
    Followed ts s' =
        ((is_some s'.failure ≡ true) ↔ ((s.safety_mode ≡ true) × Late ts))
        × (s'.safety_mode ≡ s.safety_mode)
        × (s'.rt_monitor ≡ run a ts s.rt_monitor)

    step_lem :
        (now : ℤ) (ts : List ℤ) (s' : SafetySupervisor) (st : NavState)
        (r : Outcome Bool × (SafetySupervisor × NavState))
        → Followed ts s'
        → Returns (Judged a print now s') r
        → Followed (now ∷ ts) r.1.0 × (r.0 ≡ ok (not (is_some r.1.0.failure)))
    step_lem now ts s' st r (f, mode, m) (returns go g (t, same, f', mode', m')) =
        let m'' : r.1.0.rt_monitor ≡ run a (now ∷ ts) s.rt_monitor =
          unfold run in m' ∙ ap (cycle_started a now) m in
        let late = (status-run_iff a now ts s.rt_monitor k e).0 in
        let error_late = iff_trans (is_error_iff (run a (now ∷ ts) s.rt_monitor).status) late in
        let f'' =
          f' ∙ (λ i. is_some s'.failure || (mode i && is_error ((sym m' ∙ m'') i).status)) in
        ((judged_iff _ _ _ _ _ _ f'' f error_late, mode' ∙ mode, m''), g ∙ ap ok same)

    after_lem : (is : List Input) → AllTyped is → Followed (starts is) (after is s)
    unfolding after on_activate run
    after_lem [] t = (((λ h. ground arith), (λ h. absurd h.1)), refl, refl)
    after_lem (i ∷ is) (t, ts) =
        (step_lem i.now (starts is) (after is s) i.nav_state _ (after_lem is ts)
          (cycle_rt-Judged a print reason i.now i.stamp i.wall (after is s) i.nav_state t)).0

    -- With a threshold of at least one late cycle, on blackboards whose keys have their types: after
    -- any cycles since the activation, the next cycle throws nothing, and it asks to stop exactly if,
    -- in safety mode, at some time since the activation as many periods in a row as the threshold
    -- were all late: once it has asked to stop it keeps asking.
    pub cycle_rt_stops :
        (is : List Input) (i : Input)
        → AllTyped (i ∷ is)
        → (go : Bool) × ((cycle_rt a print reason i.now i.stamp i.wall (after is s, i.nav_state)).0
            ≡ ok go)
          × ((go ≡ false) ↔ ((s.safety_mode ≡ true) × Late (starts (i ∷ is))))
    cycle_rt_stops is i (t, ts) =
        let r = cycle_rt a print reason i.now i.stamp i.wall (after is s, i.nav_state) in
        let (f, g) =
          step_lem i.now (starts is) (after is s) i.nav_state r (after_lem is ts)
            (cycle_rt-Judged a print reason i.now i.stamp i.wall (after is s) i.nav_state t) in
        (not (is_some r.1.0.failure), g, iff_trans (not_iff _) f.0)
