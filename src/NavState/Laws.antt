-- ===== src/NavState/Laws.antt =====
-- The laws of the blackboard's maps and calls.
use easy_navigation.Common.{
  ℕ, ◌≢◌, ◌≡◌, refl, true, Option, none, some, is_some, String, List, [], ◌∷◌, arith, if◌then◌else◌,
  str_eq, eq_iff,
}
use easy_navigation.NavState.{
  NavState, Value, ok, throws, type_mismatch, type_code, lookup, insert, has, set, get_safe,
  as_goals, as_odometry, as_safety, goals, odometry, safety,
}
use easy_navigation.SafetyChannel.{SafetyChannelState}
use easy_navigation.Messages.{Goals, Odometry}

-- A key reads back what was last written to it, and any other key what it read before.
pub lookup-insert :
    {V : Type 0} (written read : String) (new : V) (store : List (String × V))
    → lookup read (insert written new store)
      ≡ (if str_eq written read then some new else lookup read store)
unfolding lookup insert
lookup-insert written read new [] = refl
lookup-insert written read new ((name, value) ∷ rest) = ground (
  arith,
  lookup-insert written read new rest,
  eq_iff name read,
  eq_iff name written,
  eq_iff written read,
)

-- The value under a key, if any, has the type `code`.
abbrev pub Typed : ℕ → Option Value → Type 0
Typed code none = Unit {0}
Typed code (some v) = type_code v ≡ code

-- A write of the key's own type is done, at that key only.
pub set-Typed :
    (key j : String) (v : Value) (st : NavState)
    → Typed (type_code v) (lookup key st.values)
    → ((set key v st).0 ≡ ok tt)
      × (lookup j (set key v st).1.values ≡ (if str_eq key j then some v else lookup j st.values))
      × ((set key v st).1.groups ≡ st.groups)
unfolding set
set-Typed key j v st h = ground (arith, lookup-insert key j v st.values)

-- A write of another type than the key's is refused, and changes nothing.
set_untyped :
    (key : String) (v old : Value) (st : NavState)
    → lookup key st.values ≡ some old
    → type_code old ≢ type_code v
    → set key v st ≡ (throws type_mismatch, st)
unfolding set
set_untyped key v old st h ne = ground arith

-- A value of a known type.
goals_of : (o : Option Value) → is_some o ≡ true → Typed 4 o → (g : Goals) × (o ≡ some (goals g))
unfolding type_code
goals_of none h t = cc
goals_of (some (goals g)) h t = (g, refl)
goals_of (some _) h t = absurd (omega arith)

pub odometry_of :
    (o : Option Value) → is_some o ≡ true → Typed 5 o → (g : Odometry) × (o ≡ some (odometry g))
unfolding type_code
odometry_of none h t = cc
odometry_of (some (odometry g)) h t = (g, refl)
odometry_of (some _) h t = absurd (omega arith)

-- A key that is there and has the type asked for can be read, and reading changes nothing.
pub get_goals :
    (key : String) (st : NavState)
    → has key st ≡ true
    → Typed 4 (lookup key st.values)
    → (g : Goals) × (get_safe as_goals key st ≡ (ok g, st))
unfolding has get_safe
get_goals key st h t = let (g, e) = goals_of (lookup key st.values) h t in (g, rw (e, get_safe))

pub get_odometry :
    (key : String) (st : NavState)
    → has key st ≡ true
    → Typed 5 (lookup key st.values)
    → (g : Odometry) × (get_safe as_odometry key st ≡ (ok g, st))
unfolding has get_safe
get_odometry key st h t =
    let (g, e) = odometry_of (lookup key st.values) h t in (g, rw (e, get_safe))

pub safety_of :
    (o : Option Value)
    → is_some o ≡ true
    → Typed 8 o
    → (g : SafetyChannelState) × (o ≡ some (safety g))
unfolding type_code
safety_of none h t = cc
safety_of (some (safety g)) h t = (g, refl)
safety_of (some _) h t = absurd (omega arith)

pub get_safety :
    (key : String) (st : NavState)
    → has key st ≡ true
    → Typed 8 (lookup key st.values)
    → (g : SafetyChannelState) × (get_safe as_safety key st ≡ (ok g, st))
unfolding has get_safe
get_safety key st h t = let (g, e) = safety_of (lookup key st.values) h t in (g, rw (e, get_safe))
