-- ===== src/NavState/Free.antt =====
-- Writes at keys outside the schema: they keep the types of the schema's keys.
use easy_navigation.Common.{
  ℕ, ◌≡◌, ◌∙◌, refl, false, none, some, String, Bool-cases, inl, inr, str_eq, eq_iff, eq_refl,
  arith,
}
use easy_navigation.NavState.{
  NavState, ok, Value, type_code, lookup, set, add_to_group, contains, members_or_none,
}
use easy_navigation.NavState.Laws.{Typed, set-Typed}
use easy_navigation.NavState.Schema.{IsTyped, schema, set-IsTyped}

-- A key that the schema does not hold.
abbrev pub IsFree : String → Type 0
IsFree key = lookup key schema ≡ none

pub free_ne :
    (key held : String) (code : ℕ)
    → IsFree key
    → lookup held schema ≡ some code
    → (str_eq held key ≡ false) × (str_eq key held ≡ false)
free_ne key held code f g = grind (arith, eq_iff)

-- A write at a free key, of the type that the key has.
pub set_free :
    (key : String) (v : Value) (st : NavState)
    → IsFree key
    → Typed (type_code v) (lookup key st.values)
    → IsTyped st
    → ((set key v st).0 ≡ ok tt)
      × IsTyped (set key v st).1
      × (lookup key (set key v st).1.values ≡ some v)
set_free key v st f h t = (
  (set-Typed key key v st h).0,
  λ j code d. rw ((set-Typed key j v st h).1, (free_ne key j code f d).1) (t j code d),
  (set-Typed key key v st h).1 ∙ rw (eq_refl key) refl,
)

-- Joining a group keeps the types, and what a free key holds.
pub add_to_group_free :
    (group member key : String) (st : NavState)
    → IsFree key
    → lookup group schema ≡ some 2
    → IsTyped st
    → ((add_to_group group member st).0 ≡ ok tt)
      × IsTyped (add_to_group group member st).1
      × (lookup key (add_to_group group member st).1.values ≡ lookup key st.values)
unfolding add_to_group type_code
add_to_group_free group member key st f g t =
    elim (Bool-cases (contains member (members_or_none (lookup group st.groups)))) [
      | inl c ↦ rw c (refl, t, refl)
      | inr c ↦ rw c (
        (set-IsTyped group _ _ g t).0,
        (set-IsTyped group _ _ g t).1,
        (set-Typed group key _ _ (t group 2 g)).1 ∙ rw ((free_ne key group 2 f g).0) refl,
      )
    ]
