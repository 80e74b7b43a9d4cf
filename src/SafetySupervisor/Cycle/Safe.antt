-- ===== src/SafetySupervisor/Cycle/Safe.antt =====
-- The steps of a cycle on a blackboard whose keys have their types.
use easy_navigation.Common.{
  ℤ, ◌≡◌, ◌∙◌, refl, Bool, true, false, Option, some, String, Bool-cases, inl, inr, str_eq,
  if◌then◌else◌,
}
use easy_navigation.Double.{Double, Arith}
use easy_navigation.Messages.{DiagnosticStatus}
use easy_navigation.NavState.{
  NavState, Outcome, Exec, bind_outcome, Value, diagnostic, safety, type_code, lookup, set,
  add_to_group, contains, members_or_none,
}
use easy_navigation.NavState.Laws.{set-Typed}
use easy_navigation.NavState.Rules.{Returns, returns, bind_rule, branch_rule, weaken_rule}
use easy_navigation.NavState.Schema.{IsTyped, schema, set-IsTyped}
use easy_navigation.SafetyChannel.Monitor.{Evaluation, evaluate}
use easy_navigation.RtMonitor.{RtMonitor, Status, cycle_started}
use easy_navigation.MethodUpdate.{on_nav}
use easy_navigation.SafetySupervisor.{
  SafetySupervisor, Print, write_diagnostic, log_late, report_rt_status, rt_diagnostic, is_reported,
}
use easy_navigation.SafetySupervisor.Reports.{report_safety_status, is_known, channel_diagnostic}
use easy_navigation.SafetySupervisor.Cycle.{
  supervise_rt, follow_channel, beat, finish, follow, cycle_rt,
}

-- The types are kept, and so is the key `j`.
abbrev pub Keeps : String → NavState → NavState → Type 0
Keeps j before st = IsTyped st × (lookup j st.values ≡ lookup j before.values)

-- A write at a key of the schema, other than `j`.
pub set-Keeps :
    (key j : String) (v : Value) (st : NavState)
    → lookup key schema ≡ some (type_code v)
    → str_eq key j ≡ false
    → IsTyped st
    → Returns (λ _ s. Keeps j st s) (set key v st)
set-Keeps key j v st e n t =
    let (done, t') = set-IsTyped key v st e t in
    returns tt done (t', (set-Typed key j v st (t key (type_code v) e)).1 ∙ rw n refl)

pub group-Keeps :
    (group key j : String) (st : NavState)
    → lookup group schema ≡ some 2
    → str_eq group j ≡ false
    → IsTyped st
    → Returns (λ _ s. Keeps j st s) (add_to_group group key st)
unfolding add_to_group type_code
group-Keeps group key j st e n t =
    elim (Bool-cases (contains key (members_or_none (lookup group st.groups)))) [
      | inl c ↦ rw c (returns tt refl (t, refl))
      | inr c ↦ rw c (set-Keeps group j _ _ e n t)
    ]

pub diagnostic-Keeps :
    (key j : String) (d : DiagnosticStatus) (st : NavState)
    → lookup key schema ≡ some 9
    → str_eq key j ≡ false
    → str_eq "diagnostics" j ≡ false
    → IsTyped st
    → Returns (λ _ s. Keeps j st s) (write_diagnostic key d st)
unfolding write_diagnostic type_code lookup
diagnostic-Keeps key j d st e n g t =
    bind_rule (λ _ s. Keeps j st s) {f = λ _. add_to_group "diagnostics" key}
      (set-Keeps key j (diagnostic d) st e n t)
      (λ _ s (k, same).
        weaken_rule (λ _ s'. Keeps j s s') (group-Keeps "diagnostics" key j s refl g k)
          (λ _ s' (k', same'). (k', same' ∙ same)))

-- What the cycle's end looks at.
pub record Core : Type 0 where
  pub failure : Option String
  pub safety_mode : Bool
  pub max_pose_age : Double
  pub rt_monitor : RtMonitor

abbrev pub core : SafetySupervisor → Core
core s = record {
  failure = s.failure;
  safety_mode = s.safety_mode;
  max_pose_age = s.max_pose_age;
  rt_monitor = s.rt_monitor;
}

-- A step that leaves that as it is, with the types and the pose.
abbrev pub Steady : SafetySupervisor → NavState → SafetySupervisor × NavState → Type 0
Steady before st s = Keeps "robot_pose" st s.1 × (core s.0 ≡ core before)

-- Code on the blackboard alone.
nav_Steady :
    (before s : SafetySupervisor) (st : NavState) (f : Exec NavState (Unit {0}))
    → core s ≡ core before
    → Returns (λ _ st'. Keeps "robot_pose" st st') (f st)
    → Returns (λ _ s'. Steady before st s') (on_nav f (s, st))
nav_Steady before s st f c (returns u e k) = returns u e (k, c)

-- One step after another.
pub then_Steady :
    {A B : Type 0} (before : SafetySupervisor) (st : NavState)
    (r : Outcome A × (SafetySupervisor × NavState)) (f : A → Exec (SafetySupervisor × NavState) B)
    → Returns (λ _ s. Steady before st s) r
    → ((a : A) (s : SafetySupervisor) (st' : NavState)
        → IsTyped st'
        → Returns (λ _ s'. Steady s st' s') (f a (s, st')))
    → Returns (λ _ s. Steady before st s) (bind_outcome r f)
then_Steady before st r f h k =
    bind_rule (λ _ s. Steady before st s) {f = f} h
      (λ a (s, st') ((t, same), c).
        weaken_rule (λ _ s'. Steady s st' s') (k a s st' t)
          (λ b s' ((t', same'), c'). ((t', same' ∙ same), c' ∙ c)))

core_if : (b : Bool) (x y : SafetySupervisor) → core x ≡ core y → core (if b then x else y) ≡ core y
core_if true x y e = e
core_if false x y e = refl

pub diagnostic-Steady :
    (key : String) (d : DiagnosticStatus) (before s : SafetySupervisor) (st : NavState)
    → core s ≡ core before
    → lookup key schema ≡ some 9
    → str_eq key "robot_pose" ≡ false
    → IsTyped st
    → Returns (λ _ s'. Steady before st s') (on_nav (write_diagnostic key d) (s, st))
diagnostic-Steady key d before s st c e n t =
    nav_Steady before s st (write_diagnostic key d) c
      (diagnostic-Keeps key "robot_pose" d st e n refl t)

module _ (a : Arith) (print : Print) where
  rt_Steady :
      (status : Status) (now : ℤ) (s : SafetySupervisor) (st : NavState)
      → IsTyped st
      → Returns (λ _ s'. Steady s st s') (report_rt_status a print status now (s, st))
  unfolding report_rt_status log_late lookup
  rt_Steady status now s st t =
      let s₁ = log_late status now s in
      let e : core s₁ ≡ core s = core_if _ _ s refl in
      branch_rule (is_reported status s₁.last_rt_report) _ _ (λ _. returns tt refl ((t, refl), e))
        (λ _.
          diagnostic-Steady "diagnostics.rt_cycle" (rt_diagnostic a print status s₁) s
            (record s₁ { last_rt_report = _ }) st e refl refl t)

  core-beat :
      (now stamp : ℤ) (status : Status) (s : SafetySupervisor)
      → core (beat a print now stamp status s) ≡ core s
  unfolding beat
  core-beat now stamp status s = core_if _ _ s refl

  pub supervise_rt-Steady :
      (now stamp : ℤ) (s : SafetySupervisor) (st : NavState)
      → IsTyped st
      → Returns
          (λ status s'.
            (status ≡ (cycle_started a now s.rt_monitor).status)
            × Steady (record s { rt_monitor = cycle_started a now s.rt_monitor }) st s')
          (supervise_rt a print now stamp (s, st))
  unfolding supervise_rt
  supervise_rt-Steady now stamp s st t =
      let m = cycle_started a now s.rt_monitor in
      bind_rule (λ _ s'. Steady (record s { rt_monitor = m }) st s')
        (rt_Steady m.status now (record s { rt_monitor = m }) st t)
        (λ _ (s', st') (k, c).
          returns m.status refl (refl, (k, core-beat now stamp m.status s' ∙ c)))

  report_Steady :
      (reason : String × Double → String) (e : Evaluation) (s : SafetySupervisor) (st : NavState)
      → IsTyped st
      → Returns (λ _ s'. Steady s st s') (report_safety_status a print reason e (s, st))
  unfolding report_safety_status lookup
  report_Steady reason e s st t = elim (Bool-cases (is_known a print e s.last_safety_report)) [
    | inl k ↦ rw k (returns tt refl ((t, refl), refl))
    | inr k ↦ rw k (
        diagnostic-Steady "diagnostics.safety_status" (channel_diagnostic a print reason e s) s
          (record s { last_safety_report = some e }) st refl refl refl t)
  ]

  pub channel-Steady :
      (reason : String × Double → String) (now : ℤ) (s : SafetySupervisor) (st : NavState)
      → IsTyped st
      → Returns (λ _ s'. Steady s st s') (follow_channel a print reason now (s, st))
  unfolding follow_channel type_code lookup
  channel-Steady reason now s st t =
      let e = evaluate now s.safety_channel in
      branch_rule s.safety_status_sub _ _
        (λ _.
          then_Steady s st _ (λ _. report_safety_status a print reason e)
            (nav_Steady s s st (set "safety_status" (safety e.state)) refl
              (set-Keeps "safety_status" "robot_pose" (safety e.state) st refl refl t))
            (λ _ s' st' t'. report_Steady reason e s' st' t'))
        (λ _. returns tt refl ((t, refl), refl))

  -- A cycle up to the check of the pose's age.
  pub cycle_rule :
      {R : Bool → SafetySupervisor × NavState → Type 0} (reason : String × Double → String)
      (now stamp wall : ℤ) (s : SafetySupervisor) (st : NavState)
      → IsTyped st
      → ((s' : SafetySupervisor) (st' : NavState)
          → Steady (record s { rt_monitor = cycle_started a now s.rt_monitor }) st (s', st')
          → Returns R (finish a print wall (cycle_started a now s.rt_monitor).status (s', st')))
      → Returns R (cycle_rt a print reason now stamp wall (s, st))
  unfolding cycle_rt
  cycle_rule reason now stamp wall s st t h =
      bind_rule _ {f = follow a print reason now wall} (supervise_rt-Steady now stamp s st t)
        (λ status (s₁, st₁) (e, k). rw e (
          bind_rule _ {f = λ _. finish a print wall (cycle_started a now s.rt_monitor).status}
            (channel-Steady reason now s₁ st₁ k.0.0)
            (λ _ (s₂, st₂) (k', c'). h s₂ st₂ ((k'.0, k'.1 ∙ k.0.1), c' ∙ k.1))))
