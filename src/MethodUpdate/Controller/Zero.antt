-- ===== src/MethodUpdate/Controller/Zero.antt =====
-- A controller plugin that fails: nothing escapes, and its command is zero.
use easy_navigation.Common.{ℤ, ◌≡◌, ◌≢◌, ◌∙◌, refl, Bool, true, false, ◌||◌, some, arith}
use easy_navigation.Double.{Arith}
use easy_navigation.NavState.{
  NavState, Outcome, ok, throws, undefined_behaviour, key_not_found, type_mismatch, group_not_found,
  runtime_error, Exec, branch, ◌>>=◌, lookup, twist, type_code,
}
use easy_navigation.NavState.Laws.{Typed, set-Typed}
use easy_navigation.NavState.Rules.{Returns, returns, bind_rule, branch_rule, weaken_rule}
use easy_navigation.NavState.Schema.{IsTyped, set-IsTyped}
use easy_navigation.NavState.Free.{IsFree}
use easy_navigation.MethodBase.{MethodBase, Format, is_time2_run_rt}
use easy_navigation.MethodBase.Report.{report_rt_rate-IsTyped}
use easy_navigation.MethodUpdate.{Names, Reads, attempt, caught, on_nav}
use easy_navigation.MethodUpdate.Controller.{
  zero_speed, stop_if_failed, run, check, internal_update_rt,
}

-- A plugin's update that writes the blackboard's keys at their types, and whose behaviour is
-- defined: it returns, or it throws.
pub record IsTame (update : Exec NavState (Unit {0})) : Type 0 where
  pub keeps : (st : NavState) → IsTyped st → IsTyped (update st).1
  pub defined : (st : NavState) → (update st).0 ≢ throws undefined_behaviour

-- Whether an outcome is an exception.
abbrev pub is_thrown : Outcome (Unit {0}) → Bool
is_thrown (ok u) = false
is_thrown (throws e) = true

caught_lem :
    (r : Outcome (Unit {0}) × NavState)
    → r.0 ≢ throws undefined_behaviour
    → caught r ≡ (ok (is_thrown r.0), r.1)
caught_lem (ok u, s) h = refl
caught_lem (throws undefined_behaviour, s) h = absurd (h refl)
caught_lem (throws key_not_found, s) h = refl
caught_lem (throws type_mismatch, s) h = refl
caught_lem (throws group_not_found, s) h = refl
caught_lem (throws runtime_error, s) h = refl

module _ (update : Exec NavState (Unit {0})) (tame : IsTame update) where
  attempt_lem :
      (st : NavState)
      → IsTyped st
      → Returns (λ failed st'. IsTyped st' × (failed ≡ is_thrown (update st).0)) (attempt update st)
  unfolding attempt
  attempt_lem st t =
      rw (caught_lem (update st) (tame.defined st))
        (returns (is_thrown (update st).0) refl (tame.keeps st t, refl))

-- Code on the blackboard alone leaves the rest as it is.
nav_rule :
    {M A : Type 0} (Q : A → NavState → Type 0) (f : Exec NavState A) (m : M) (st : NavState)
    → Returns Q (f st)
    → Returns (λ a s. Q a s.1) (on_nav f (m, st))
nav_rule Q f m st (returns a e q) = returns a e q

-- What the controller leaves when its plugin failed or not.
abbrev pub IsStopped : Names → ℤ → Bool → NavState → Type 0
IsStopped names now true st = lookup "cmd_vel" st.values ≡ some (twist (zero_speed names now))
IsStopped names now false st = Unit {0}

stop_lem :
    (names : Names) (now : ℤ) (failed : Bool) (st : NavState)
    → IsTyped st
    → Returns
        (λ ran st'. (ran ≡ true) × IsTyped st' × IsStopped names now failed st')
        (stop_if_failed names now failed st)
unfolding stop_if_failed branch type_code lookup
stop_lem names now false st t = returns true refl (refl, t, tt)
stop_lem names now true st t =
    let (done, t') = set-IsTyped "cmd_vel" (twist (zero_speed names now)) st refl t in
    let e =
      (set-Typed "cmd_vel" "cmd_vel" (twist (zero_speed names now)) st (t "cmd_vel" 6 refl)).1 in
    bind_rule (λ _ s. IsTyped s × (lookup "cmd_vel" s.values ≡ some (twist (zero_speed names now))))
      (returns tt done (t', e)) (λ _ s (k, v). returns true refl (refl, k, v))

-- What an update leaves: it ran if it was triggered, and then, if the plugin is one that fails, its
-- command is zero.
abbrev pub IsUpdated : Names → ℤ → Bool → Bool → Bool → NavState → Type 0
IsUpdated names now failing trigger true st = IsTyped st × IsStopped names now failing st
IsUpdated names now failing trigger false st = IsTyped st × (trigger ≡ false)

module _ (a : Arith) (format : Format) (names : Names) (reads : Reads)
    (update : Exec NavState (Unit {0})) (tame : IsTame update) (failing : Bool)
    (fails : (st : NavState) → is_thrown (update st).0 ≡ failing) where
  run_lem :
      (m : MethodBase) (st : NavState)
      → IsTyped st
      → Returns
          (λ ran s. (ran ≡ true) × IsTyped s.1 × IsStopped names reads.stopped failing s.1)
          (run a format names reads update (m, st))
  unfolding run
  run_lem m st t =
      nav_rule (λ ran s. (ran ≡ true) × IsTyped s × IsStopped names reads.stopped failing s)
        (attempt update >>= stop_if_failed names reads.stopped) _ st
        (bind_rule (λ failed s. IsTyped s × (failed ≡ is_thrown (update st).0))
          {f = stop_if_failed names reads.stopped} (attempt_lem update tame st t)
          (λ failed s (k, e). rw (e ∙ fails st) (stop_lem names reads.stopped failing s k)))

  check_lem :
      (trigger : Bool) (m : MethodBase) (st : NavState)
      → IsTyped st
      → Returns
          (λ ran s. IsUpdated names reads.stopped failing trigger ran s.1)
          (check a format names reads update trigger (m, st))
  unfolding check
  check_lem trigger m st t =
      let due = (is_time2_run_rt a (some reads.checked) m).0 in
      branch_rule (due || trigger) _ _
        (λ e.
          weaken_rule _ (run_lem (is_time2_run_rt a (some reads.checked) m).1 st t)
            (λ ran s (y, k, z). rw y (k, z)))
        (λ e. returns false refl (t, ground arith))

  -- For a plugin that throws always or never, whose update is defined and writes the blackboard's
  -- keys at their types, and a diagnostic key outside the schema that has no value of another type:
  -- no update throws, the keys keep their types, a triggered update runs, and after an update that
  -- ran with a plugin that throws the command under "cmd_vel" is zero, in the robot's frame and
  -- with the stamp at which it failed.
  pub internal_update_rt-IsUpdated :
      (trigger : Bool) (m : MethodBase) (st : NavState)
      → IsFree m.rt_cycle.key
      → Typed 9 (lookup m.rt_cycle.key st.values)
      → IsTyped st
      → Returns
          (λ ran s. IsUpdated names reads.stopped failing trigger ran s.1)
          (internal_update_rt a format names reads update trigger (m, st))
  unfolding internal_update_rt
  internal_update_rt-IsUpdated trigger m st f h t =
      bind_rule (λ _ s. IsTyped s.1) {f = λ _. check a format names reads update trigger}
        (report_rt_rate-IsTyped a format names.node_name reads.reported m st f h t)
        (λ _ (m', s) k. check_lem trigger m' s k)
