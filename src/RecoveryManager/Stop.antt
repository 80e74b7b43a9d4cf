-- ===== src/RecoveryManager/Stop.antt =====
-- A recovery plugin that throws: the robot is stopped.
use easy_navigation.Common.{
  ℤ, ◌≡◌, ◌≢◌, refl, sym, ap, subst, Bool, true, ◌||◌, some, String, arith,
}
use easy_navigation.Messages.{zero_twist, TwistStamped}
use easy_navigation.NavState.{
  NavState, Outcome, throws, Error, undefined_behaviour, key_not_found, type_mismatch,
  group_not_found, runtime_error, Exec, return, ◌>>◌, proposal, type_code, lookup,
}
use easy_navigation.NavState.Laws.{set-Typed}
use easy_navigation.NavState.Rules.{Returns, returns, bind_rule}
use easy_navigation.NavState.Schema.{IsTyped, set-IsTyped}
use easy_navigation.VelocityCommand.{override, key, propose}
use easy_navigation.VelocityMux.{VelocityMux, Inputs, choose}
use easy_navigation.VelocityMux.Slots.{pending, pending_in}
use easy_navigation.VelocityMux.Select.{inputs_of, select_choice}
use easy_navigation.VelocityMux.Priority.{is_halted, Selects}
use easy_navigation.VelocityMux.Typed.{well_typed}
use easy_navigation.RecoveryManager.{
  override_velocity, failsafe_stop, recovered, internal_update_rt, cycle_rt,
}

-- A pending override of zero is a stop: at once, or through the smoother while the robot is halted.
choose_stop :
    (i : Inputs) (m : VelocityMux) (cmd : TwistStamped)
    → i.override_cmd ≡ some cmd
    → cmd.twist ≡ zero_twist
    → ((choose i m).cmd.twist ≡ zero_twist)
      × ((choose i m).smooth ≡ (i.protective_stop || i.motion_inhibited))
unfolding choose
choose_stop i m cmd o z = ground arith

-- Whatever it selected before, the mux stops the robot next.
abbrev pub WillStop : NavState → Type 0
WillStop st =
    (m : VelocityMux) → Selects m st (λ s. (s.cmd.twist ≡ zero_twist) × (s.smooth ≡ is_halted st))

pending-WillStop :
    (cmd : TwistStamped) (st : NavState)
    → IsTyped st
    → pending override st ≡ some cmd
    → cmd.twist ≡ zero_twist
    → WillStop st
pending-WillStop cmd st t p z m =
    let i = inputs_of st in
    (choose i m, select_choice m st (well_typed st t), choose_stop i m cmd p z)

override_lem :
    (cmd : TwistStamped) (st : NavState)
    → IsTyped st
    → Returns (λ _ st'. IsTyped st' × (pending override st' ≡ some cmd)) (override_velocity cmd st)
unfolding propose key type_code lookup
override_lem cmd st t =
    let p = proposal (record { pending = true; cmd = cmd }) in
    let (done, t') = set-IsTyped "cmd_vel.proposal.override" p st refl t in
    let e =
      (set-Typed "cmd_vel.proposal.override" "cmd_vel.proposal.override" p st
        (t "cmd_vel.proposal.override" 7 refl)).1 in
    returns tt done (t', ap pending_in e)

recovered_lem :
    (robot_frame : String) (now : ℤ) (e : Error) (st : NavState)
    → e ≢ undefined_behaviour
    → recovered robot_frame now (throws e, st)
      ≡ (override_velocity (failsafe_stop robot_frame now) >> return true) st
recovered_lem robot_frame now undefined_behaviour st h = absurd (h refl)
recovered_lem robot_frame now key_not_found st h = refl
recovered_lem robot_frame now type_mismatch st h = refl
recovered_lem robot_frame now group_not_found st h = refl
recovered_lem robot_frame now runtime_error st h = refl

-- When the recovery plugin throws an exception in its real-time update and the keys of the
-- blackboard that it leaves have their types: the cycle throws nothing, answers that it took over,
-- keeps the types, and the mux, in any state, next selects a zero command, past the smoother unless
-- the safety channel or an inhibition halts the robot.
pub cycle_rt_failsafe :
    (robot_frame : String) (now : ℤ) (update_rt : Exec NavState Bool) (e : Error) (st : NavState)
    → (update_rt st).0 ≡ throws e
    → e ≢ undefined_behaviour
    → IsTyped (update_rt st).1
    → Returns
        (λ taken st'. (taken ≡ true) × IsTyped st' × WillStop st')
        (cycle_rt true robot_frame now update_rt st)
unfolding cycle_rt internal_update_rt
cycle_rt_failsafe robot_frame now update_rt e st f h t =
    let cmd = failsafe_stop robot_frame now in
    let after = (update_rt st).1 in
    let stopped =
      bind_rule (λ _ s. IsTyped s × (pending override s ≡ some cmd)) {f = λ _. return true}
        (override_lem cmd after t)
        (λ _ s (k, p).
          returns true refl (refl, k, pending-WillStop cmd s k p (unfold failsafe_stop in refl))) in
    subst Stops (sym f) (subst (Returns _) (sym (recovered_lem robot_frame now e after h)) stopped)
  where
    Stops : Outcome Bool → Type 0
    Stops o =
        Returns (λ taken st'. (taken ≡ true) × IsTyped st' × WillStop st')
          (recovered robot_frame now (o, (update_rt st).1))
