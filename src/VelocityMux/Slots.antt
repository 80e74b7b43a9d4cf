-- ===== src/VelocityMux/Slots.antt =====
-- What taking a proposal does to the blackboard.
use easy_navigation.Common.{
  ◌≡◌, refl, false, Option, none, some, String, arith, if◌then◌else◌, str_eq, eq_refl,
}
use easy_navigation.Messages.{TwistStamped}
use easy_navigation.NavState.{
  NavState, Outcome, ok, Value, proposal, type_code, lookup, has, get_safe,
}
use easy_navigation.NavState.Laws.{Typed, set-Typed}
use easy_navigation.VelocityCommand.{VelocitySource, key, peek, take, consume}

abbrev pub pending_in : Option Value → Option TwistStamped
pending_in (some (proposal p)) = if p.pending then some p.cmd else none
pending_in (some _) = none
pending_in none = none

-- The command that waits in a source's slot.
abbrev pub pending : VelocitySource → NavState → Option TwistStamped
pending source st = pending_in (lookup (key source) st.values)

pub peek-Typed :
    (source : VelocitySource) (st : NavState)
    → Typed 7 (lookup (key source) st.values)
    → peek source st ≡ (ok (pending source st), st)
unfolding peek has get_safe type_code
peek-Typed source st h = ground arith

abbrev pub Taken :
    VelocitySource → String → NavState → Outcome (Option TwistStamped) × NavState → Type 0
Taken source j st r =
    (r.0 ≡ ok (pending source st))
    × (pending source r.1 ≡ none)
    × Typed 7 (lookup (key source) r.1.values)
    × (str_eq (key source) j ≡ false → lookup j r.1.values ≡ lookup j st.values)

consume-Taken :
    (source : VelocitySource) (c : Option TwistStamped) (j : String) (st : NavState)
    → Typed 7 (lookup (key source) st.values)
    → pending source st ≡ c
    → Taken source j st (consume source c st)
unfolding type_code
consume-Taken source none j st h e = ground arith
consume-Taken source (some c) j st h e =
    let p = proposal (record { pending = false; cmd = c }) in
    ground (
      arith,
      set-Typed (key source) (key source) p st,
      set-Typed (key source) j p st,
      eq_refl (key source),
    )

-- Taking hands out the waiting command, leaves none in the slot, and touches no other key.
pub take-Typed :
    (source : VelocitySource) (j : String) (st : NavState)
    → Typed 7 (lookup (key source) st.values)
    → Taken source j st (take source st)
unfolding take
take-Typed source j st h =
    rw (peek-Typed source st h) (consume-Taken source (pending source st) j st h refl)
