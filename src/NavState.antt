-- ===== src/NavState.antt =====
-- easynav_common types/NavState.hpp: the blackboard that the components share.
-- A value is stored with its type, which is its constructor here; the three maps of the source,
-- always written together, are one association list. What a call throws is a result beside the
-- state that the call leaves. The mutexes make each call one step. A reader's shared pointer or
-- reference into the store is not modelled: every read is a copy, as get_safe()'s.
pub mod Laws
pub mod Rules
pub mod Schema
pub mod Free
use easy_navigation.Common.{
  ℕ, Bool, true, false, Option, none, some, is_some, String, List, [], ◌∷◌, ◌++◌, if◌then◌else◌,
  ◌==◌, ◌||◌, str_eq,
}
use easy_navigation.Double.{Double}
use easy_navigation.Messages.{
  Goals, Odometry, TwistStamped, DiagnosticStatus, VelocityProposal, NavigationState,
}
use easy_navigation.SafetyChannel.{SafetyChannelState}

pub data Error : Type 0 where
  key_not_found type_mismatch group_not_found : Error
  -- Any other exception, such as std::runtime_error or what a plugin throws.
  runtime_error : Error
  -- What the standard leaves undefined, such as front() of an empty vector.
  undefined_behaviour : Error

pub data Outcome {ℓ} (A : Type ℓ) : Type ℓ where
  ok : A → Outcome A
  throws : Error → Outcome A

-- Code over a mutable state `S` that may throw: what it did before it threw stays done.
abbrev pub Exec : Type 0 → Type 0 → Type 0
Exec S A = S → Outcome A × S

abbrev pub bind_outcome : {S A B : Type 0} → Outcome A × S → (A → Exec S B) → Outcome B × S
bind_outcome (ok a, s) f = f a s
bind_outcome (throws e, s) f = (throws e, s)

infixl 5 ◌>>=◌ ◌>>◌
abbrev pub ◌>>=◌ : {S A B : Type 0} → Exec S A → (A → Exec S B) → Exec S B
◌>>=◌ m f s = bind_outcome (m s) f

abbrev pub ◌>>◌ : {S B : Type 0} → Exec S (Unit {0}) → Exec S B → Exec S B
◌>>◌ m k s = bind_outcome (m s) (λ _. k)

abbrev pub return : {S A : Type 0} → A → Exec S A
return a s = (ok a, s)

-- A conditional step; shut, so that a proof takes its two sides apart by one rule.
unfoldable pub branch : {S A : Type 0} → Bool → Exec S A → Exec S A → Exec S A
branch true m n = m
branch false m n = n

-- The types stored by the components modelled here.
pub data Value : Type 0 where
  bool : Bool → Value
  real : Double → Value
  texts : List String → Value
  state : NavigationState → Value
  goals : Goals → Value
  odometry : Odometry → Value
  twist : TwistStamped → Value
  proposal : VelocityProposal → Value
  safety : SafetyChannelState → Value
  diagnostic : DiagnosticStatus → Value
  text : String → Value

-- `typeid(T).hash_code()` of the stored type.
unfoldable pub type_code : Value → ℕ
type_code (bool b) = 0
type_code (real d) = 1
type_code (texts l) = 2
type_code (state s) = 3
type_code (goals g) = 4
type_code (odometry o) = 5
type_code (twist t) = 6
type_code (proposal p) = 7
type_code (safety s) = 8
type_code (diagnostic d) = 9
type_code (text s) = 10

abbrev pub as_bool : Value → Option Bool
as_bool (bool b) = some b
as_bool _ = none

abbrev pub as_goals : Value → Option Goals
as_goals (goals g) = some g
as_goals _ = none

abbrev pub as_odometry : Value → Option Odometry
as_odometry (odometry o) = some o
as_odometry _ = none

abbrev pub as_twist : Value → Option TwistStamped
as_twist (twist t) = some t
as_twist _ = none

abbrev pub as_proposal : Value → Option VelocityProposal
as_proposal (proposal p) = some p
as_proposal _ = none

abbrev pub as_safety : Value → Option SafetyChannelState
as_safety (safety s) = some s
as_safety _ = none

module _ {V : Type 0} where
  unfoldable pub lookup : String → List (String × V) → Option V
  lookup key [] = none
  lookup key ((name, value) ∷ rest) = if str_eq name key then some value else lookup key rest

  unfoldable pub insert : String → V → List (String × V) → List (String × V)
  insert key new [] = (key, new) ∷ []
  insert key new ((name, value) ∷ rest) =
      if str_eq name key then (key, new) ∷ rest else (name, value) ∷ insert key new rest

pub record NavState : Type 0 where
  pub values : List (String × Value)
  pub groups : List (String × List String)

abbrev pub empty : NavState
empty = record { values = []; groups = [] }

unfoldable pub has : String → NavState → Bool
has key st = is_some (lookup key st.values)

-- A key keeps the type of its first value.
unfoldable pub set : String → Value → Exec NavState (Unit {0})
unfolding type_code
set key v st = elim (lookup key st.values) [
  | none ↦ (ok tt, record st { values = insert key v st.values })
  | some old ↦
      if type_code old == type_code v
      then (ok tt, record st { values = insert key v st.values })
      else (throws type_mismatch, st)
]

-- A read at the type whose values `as_type` accepts.
unfoldable pub get_safe : {A : Type 0} → (Value → Option A) → String → Exec NavState A
get_safe as_type key st = elim (lookup key st.values) [
  | none ↦ (throws key_not_found, st)
  | some v ↦ elim (as_type v) [ none ↦ (throws type_mismatch, st) | some a ↦ (ok a, st) ]
]

unfoldable pub get_to_vector : {A : Type 0} → (Value → Option A) → String → NavState → List A
get_to_vector as_type key st = elim (lookup key st.values) [
  | none ↦ []
  | some v ↦ elim (as_type v) [ none ↦ [] | some a ↦ a ∷ [] ]
]

unfoldable pub set_group : String → List String → Exec NavState (Unit {0})
unfolding set
set_group key group_keys st =
    set key (texts group_keys) (record st { groups = insert key group_keys st.groups })

unfoldable pub contains : String → List String → Bool
contains key [] = false
contains key (k ∷ ks) = str_eq k key || contains key ks

abbrev pub members_or_none : Option (List String) → List String
members_or_none none = []
members_or_none (some members) = members

unfoldable pub get_group_keys : String → NavState → List String
unfolding lookup
get_group_keys group_key st = members_or_none (lookup group_key st.groups)

-- `groups_[group_key]` creates a missing group.
unfoldable pub add_to_group : String → String → Exec NavState (Unit {0})
unfolding set contains
add_to_group group_key key st =
    let members = members_or_none (lookup group_key st.groups) in
    let members' = members ++ key ∷ [] in
    if contains key members
    then (ok tt, st)
    else set group_key (texts members') (record st { groups = insert group_key members' st.groups })

unfoldable pub has_group : String → NavState → Bool
has_group key st = is_some (lookup key st.groups)

-- The members' values, without those that get_ptr() fails to read.
abbrev collect : {A : Type 0} → (Value → Option A) → List String → NavState → List A
collect as_type [] st = []
collect as_type (k ∷ ks) st = get_to_vector as_type k st ++ collect as_type ks st

unfoldable pub get_group : {A : Type 0} → (Value → Option A) → String → Exec NavState (List A)
unfolding get_to_vector
get_group as_type group_key st = elim (lookup group_key st.groups) [
  | none ↦ (throws group_not_found, st)
  | some ks ↦ (ok (collect as_type ks st), st)
]
