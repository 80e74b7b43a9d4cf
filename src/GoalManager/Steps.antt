-- ===== src/GoalManager/Steps.antt =====
-- The steps of update() on a typed blackboard: each returns, with the part of the manager's
-- invariant that holds after it.
use easy_navigation.Common.{
  ◌≡◌, refl, Bool, true, false, some, String, List, [], ◌∷◌, arith, is_empty, eq_refl, Bool-cases,
  inl, inr,
}
use easy_navigation.Messages.{Goals, no_goals, PoseStamped, Pose}
use easy_navigation.NavState.{
  NavState, Value, type_code, state, bool, real, goals, as_goals, lookup, has, set, get_safe,
}
use easy_navigation.NavState.Laws.{Typed, set-Typed, get_goals}
use easy_navigation.NavState.Rules.{Returns, returns, bind_rule, branch_rule, weaken_rule}
use easy_navigation.NavState.Schema.{schema, IsTyped, set-IsTyped}
use easy_navigation.GoalManager.{GoalManager, Clock, is_idle, set_finished}
use easy_navigation.GoalManager.Reached.{check_goals, check_goal_list, is_reached}
use easy_navigation.GoalManager.Invariant.{IsCoherent, Inv}
use easy_navigation.GoalManager.Update.{
  World, Environment, put, call, sync_state, sync_paused, sync_tolerances, publish_final_info,
  update_idle, ensure_goals, refresh_goals, sync_goals, check_progress, finish_if_empty, report,
}

-- A property of the manager, on a typed blackboard.
abbrev pub On : (GoalManager → Type 0) → Unit {0} → World → Type 0
On P _ w = P w.gm × IsTyped w.nav

pub put_rule :
    (P : GoalManager → Type 0) (key : String) (v : Value) (w : World)
    → lookup key schema ≡ some (type_code v)
    → On P tt w
    → Returns (On P) (put key v w)
unfolding put
put_rule P key v w e (p, t) = let s = set-IsTyped key v w.nav e t in returns tt (s.0) (p, s.1)

-- During a mission, whatever goals are left.
abbrev pub IsOn : GoalManager → Type 0
IsOn m = (is_idle m.state ≡ false) × (m.info_final_pending ≡ true) × (m.goals_synced_empty ≡ false)

pub sync_state_rule : (w : World) → On Inv tt w → Returns (On Inv) (sync_state w)
unfolding sync_state lookup type_code
sync_state_rule w h =
    branch_rule _ _ _ (λ _. returns tt refl h)
      (λ _.
        bind_rule (On Inv) (put_rule Inv "navigation_state" (state w.gm.state) w refl h)
          (λ _ w' h'. returns tt refl h'))

pub sync_paused_rule : (w : World) → On Inv tt w → Returns (On Inv) (sync_paused w)
unfolding sync_paused lookup type_code
sync_paused_rule w h =
    branch_rule _ _ _ (λ _. returns tt refl h)
      (λ _.
        bind_rule (On Inv) (put_rule Inv "navigation_paused" (bool w.gm.is_paused) w refl h)
          (λ _ w' h'. returns tt refl h'))

pub sync_tolerances_rule : (w : World) → On Inv tt w → Returns (On Inv) (sync_tolerances w)
unfolding sync_tolerances lookup type_code
sync_tolerances_rule w h =
    bind_rule (On Inv)
      (bind_rule (On Inv) (put_rule Inv "goal_tolerance.position" (real _) w refl h)
        (λ _ w' h'. put_rule Inv "goal_tolerance.height" (real _) w' refl h'))
      (λ _ w' h'. put_rule Inv "goal_tolerance.yaw" (real _) w' refl h')

abbrev pub Idle : GoalManager → Type 0
Idle m = Inv m × (is_idle m.state ≡ true)

pub final_info_rule :
    (env : Environment) (w : World) → On Idle tt w → Returns (On Idle) (publish_final_info env w)
unfolding publish_final_info
final_info_rule env w ((v, e), t) =
    branch_rule _ _ _ (λ _. returns tt refl ((v, e), t))
      (λ _. branch_rule _ _ _ (λ _. returns tt refl (told, t)) (λ _. returns tt refl (told, t)))
  where
    told :
        IsCoherent w.gm.state w.gm.goals.goals w.gm.is_paused w.gm.goals_synced_empty false
        × (is_idle w.gm.state ≡ true)
    told = ground arith

-- The list of goals is the manager's own in its type on the blackboard.
pub goals_put_rule :
    (P : GoalManager → Type 0) (g : Goals) (w : World)
    → On P tt w
    → Returns (On P) (put "goals" (goals g) w)
unfolding lookup type_code
goals_put_rule P g w h = put_rule P "goals" (goals g) w refl h

pub Idle-no_goals : (m : GoalManager) → Idle m → Idle (record m { goals = no_goals })
Idle-no_goals m (v, e) = ground arith

pub Idle-synced : (m : GoalManager) → Idle m → Idle (record m { goals_synced_empty = true })
Idle-synced m (v, e) = ground arith

pub update_idle_rule :
    (env : Environment) (w : World) → On Idle tt w → Returns (On Idle) (update_idle env w)
unfolding update_idle
update_idle_rule env w h = bind_rule (On Idle) (final_info_rule env w h) (λ _ w' (idle', t').
    branch_rule _ _ _ (λ _. returns tt refl (idle', t'))
      (λ _.
        bind_rule (On Idle) (goals_put_rule Idle no_goals _ (Idle-no_goals w'.gm idle', t'))
          (λ _ w'' (idle'', t''). returns tt refl (Idle-synced w''.gm idle'', t''))))

pub IsOn-Inv : (m : GoalManager) → IsOn m → is_empty m.goals.goals ≡ false → Inv m
IsOn-Inv m (i, p, s) e = ground arith

pub finish_rule :
    (clock : Clock) (w : World) → On IsOn tt w → Returns (On Inv) (finish_if_empty clock w)
unfolding finish_if_empty set_finished
finish_rule clock w (on, t) =
    branch_rule _ _ _ (λ _. returns tt refl (ground arith, t))
      (λ e. returns tt refl (IsOn-Inv w.gm on e, t))

pub report_rule :
    (env : Environment) (due : Bool) (w : World) → On Inv tt w → Returns (On Inv) (report env due w)
unfolding report
report_rule env due w h =
    branch_rule _ _ _
      (λ e.
        weaken_rule (On Idle) (final_info_rule env w ((h.0, e), h.1)) (λ _ w' h'. (h'.0.0, h'.1)))
      (λ _. branch_rule _ _ _ (λ _. returns tt refl h) (λ _. returns tt refl h))

-- The goals are on the blackboard.
abbrev pub Shown : Unit {0} → World → Type 0
Shown _ w = On IsOn tt w × (has "goals" w.nav ≡ true)

pub has-set :
    (key : String) (v : Value) (st : NavState)
    → Typed (type_code v) (lookup key st.values)
    → has key (set key v st).1 ≡ true
unfolding has
has-set key v st h = rw ((set-Typed key key v st h).1, eq_refl key)

-- A typed key that is there can be read.
pub goals_read :
    (w : World)
    → Shown tt w
    → Returns (λ (g : Goals) w'. On IsOn tt w') (call (get_safe as_goals "goals") w)
unfolding lookup
goals_read w ((on, t), h) =
    let (g, e) = get_goals "goals" w.nav h (t "goals" 4 refl) in rw e (returns g refl (on, t))

pub show_rule :
    (w : World)
    → On IsOn tt w
    → has "goals" w.nav ≡ false
    → Returns Shown (put "goals" (goals w.gm.goals) w)
unfolding put lookup type_code
show_rule w (on, t) e =
    let v = goals w.gm.goals in
    let s = set-IsTyped "goals" v w.nav refl t in
    returns tt (s.0) ((on, s.1), has-set "goals" v w.nav (t "goals" 4 refl))

pub ensure_goals_rule : (w : World) → On IsOn tt w → Returns Shown (ensure_goals w)
unfolding ensure_goals
ensure_goals_rule w h = branch_rule _ _ _ (λ e. returns tt refl (h, e)) (λ e. show_rule w h e)

pub refresh_goals_rule :
    (env : Environment) (w : World) → Shown tt w → Returns (On IsOn) (refresh_goals env w)
unfolding refresh_goals
refresh_goals_rule env w shown =
    bind_rule (λ g. On IsOn tt) (goals_read w shown)
      (λ g w' h'.
        branch_rule _ _ _ (λ _. returns tt refl h') (λ _. goals_put_rule IsOn w'.gm.goals w' h'))

pub sync_goals_rule :
    (env : Environment) (w : World) → On IsOn tt w → Returns (On IsOn) (sync_goals env w)
unfolding sync_goals
sync_goals_rule env w h =
    bind_rule Shown (ensure_goals_rule w h) (λ _ w' shown. refresh_goals_rule env w' shown)

pub check_list-IsOn :
    (env : Environment) (current : Pose) (l : List PoseStamped) (m : GoalManager)
    → IsOn m
    → IsOn (check_goal_list env.geometry current m.tolerance l m)
unfolding check_goal_list
check_list-IsOn env current [] m on = on
check_list-IsOn env current (first ∷ rest) m on =
    elim (Bool-cases (is_reached env.geometry current m.tolerance first.pose)) [
      | inl e ↦ rw e on
      | inr e ↦ rw e on
    ]

pub check_rule :
    (env : Environment) (current : Pose) (w : World)
    → On IsOn tt w
    → Returns (On IsOn) (check_progress env current w)
unfolding check_progress check_goals
check_rule env current w (on, t) =
    returns tt refl (ground (arith, check_list-IsOn env current w.gm.goals.goals w.gm on), t)
