-- ===== src/NavState/Schema.antt =====
-- The type that each key of the blackboard has throughout the system, and that every component's
-- writes respect.
use easy_navigation.Common.{
  ℕ, ◌≡◌, some, String, List, [], ◌∷◌, str_eq, eq_iff, Bool-cases, inl, inr,
}
use easy_navigation.NavState.{NavState, ok, Value, type_code, lookup, set, empty}
use easy_navigation.NavState.Laws.{Typed, set-Typed}

abbrev pub schema : List (String × ℕ)
schema =
    ("navigation_state", 3)
    ∷ ("navigation_paused", 0)
    ∷ ("goal_tolerance.position", 1)
    ∷ ("goal_tolerance.height", 1)
    ∷ ("goal_tolerance.yaw", 1)
    ∷ ("goals", 4)
    ∷ ("robot_pose", 5)
    ∷ ("cmd_vel", 6)
    ∷ ("cmd_vel.proposal.controller", 7)
    ∷ ("cmd_vel.proposal.takeover", 7)
    ∷ ("cmd_vel.proposal.override", 7)
    ∷ ("safety_status", 8)
    ∷ ("inhibit_motion", 0)
    ∷ ("diagnostics", 2)
    ∷ ("diagnostics.cmd_vel", 9)
    ∷ ("diagnostics.rt_cycle", 9)
    ∷ ("diagnostics.robot_pose", 9)
    ∷ ("diagnostics.safety_status", 9)
    ∷ ("diagnostics.sensors", 9)
    ∷ ("configuration_hash", 10)
    ∷ []

-- Every key of the schema that is present has its type.
abbrev pub IsTyped : NavState → Type 0
IsTyped st =
    (key : String) (code : ℕ) → lookup key schema ≡ some code → Typed code (lookup key st.values)

pub empty-IsTyped : IsTyped empty
unfolding lookup
empty-IsTyped key code e = tt

-- A write at the key's own type is done, and keeps every key's type.
pub set-IsTyped :
    (key : String) (v : Value) (st : NavState)
    → lookup key schema ≡ some (type_code v)
    → IsTyped st
    → ((set key v st).0 ≡ ok tt) × IsTyped (set key v st).1
set-IsTyped key v st e t = (
  (set-Typed key key v st (t key (type_code v) e)).0,
  λ j code d.
      rw ((set-Typed key j v st (t key (type_code v) e)).1) (elim (Bool-cases (str_eq key j)) [
        | inl same ↦ rw same (cc ((eq_iff key j).0 same))
        | inr other ↦ rw other (t j code d)
      ]),
)
