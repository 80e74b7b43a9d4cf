-- ===== src/VelocityMux/Priority.antt =====
-- Whom the mux obeys: the order of its sources, and what a stop means for the cycles after it.
use easy_navigation.Common.{◌≡◌, Bool, true, false, ◌||◌, none, some, arith, ◌↔◌}
use easy_navigation.Messages.{zero_twist}
use easy_navigation.NavState.{NavState, ok}
use easy_navigation.VelocityCommand.{controller, takeover, override}
use easy_navigation.VelocityMux.{VelocityMux, Selection, Inputs, choose, remember, select}
use easy_navigation.VelocityMux.Slots.{pending}
use easy_navigation.VelocityMux.Select.{WellTyped, inputs_of, select_choice}

-- The safety channel stops the robot, or motion is inhibited.
abbrev pub is_halted : NavState → Bool
is_halted st = (inputs_of st).protective_stop || (inputs_of st).motion_inhibited

-- select() returns, with a selection of which `P` holds, and remembers it.
abbrev pub Selects : VelocityMux → NavState → (Selection → Type 0) → Type 0
Selects m st P = (s : Selection) × ((select m st).0 ≡ ok (s, remember s)) × P s

choose_bypass :
    (i : Inputs) (m : VelocityMux)
    → ((choose i m).smooth ≡ false) ↔ (
        ((i.protective_stop || i.motion_inhibited) ≡ false)
        × (i.override_cmd ≡ some (choose i m).cmd))
unfolding choose
choose_bypass i m = (ground arith, ground arith)

choose_idle :
    (i : Inputs) (m : VelocityMux)
    → i.override_cmd ≡ none
    → i.takeover_cmd ≡ none
    → i.controller_cmd ≡ none
    → m.last_target.twist ≡ zero_twist
    → (choose i m).cmd.twist ≡ zero_twist
unfolding choose
choose_idle i m o t c z = ground arith

choose_halted :
    (i : Inputs) (m : VelocityMux)
    → (i.protective_stop || i.motion_inhibited) ≡ true
    → ((choose i m).cmd.twist ≡ zero_twist) × ((choose i m).smooth ≡ true)
unfolding choose
choose_halted i m h = ground arith

-- While the safety channel stops the robot or motion is inhibited, the selected command is zero
-- and goes through the smoother, whatever is proposed.
pub select_halted :
    (m : VelocityMux) (st : NavState)
    → WellTyped st
    → is_halted st ≡ true
    → Selects m st (λ s. (s.cmd.twist ≡ zero_twist) × (s.smooth ≡ true))
select_halted m st w h =
    (choose (inputs_of st) m, select_choice m st w, choose_halted (inputs_of st) m h)

-- The smoother is bypassed exactly by a pending override while nothing halts the robot, and then
-- the override is selected as it is.
select_bypass :
    (m : VelocityMux) (st : NavState)
    → WellTyped st
    → Selects m st
        (λ s. (s.smooth ≡ false) ↔ ((is_halted st ≡ false) × (pending override st ≡ some s.cmd)))
select_bypass m st w =
    (choose (inputs_of st) m, select_choice m st w, choose_bypass (inputs_of st) m)

-- After a cycle that was halted, a cycle in which nothing is proposed selects zero too, also when
-- the halt is over by then.
select_after_halt :
    (m : VelocityMux) (st later : NavState)
    → WellTyped st
    → WellTyped later
    → is_halted st ≡ true
    → pending override later ≡ none
    → pending takeover later ≡ none
    → pending controller later ≡ none
    → Selects m st (λ s. Selects (remember s) later (λ t. t.cmd.twist ≡ zero_twist))
unfolding remember
select_after_halt m st later w w' h o t c =
    let s = choose (inputs_of st) m in
    (
      s,
      select_choice m st w,
      (
        choose (inputs_of later) (remember s),
        select_choice (remember s) later w',
        choose_idle (inputs_of later) (remember s) o t c (choose_halted (inputs_of st) m h).0,
      ),
    )
