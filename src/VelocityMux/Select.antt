-- ===== src/VelocityMux/Select.antt =====
-- select() as a whole: what it reads, what it leaves on the blackboard, and whom it obeys.
use easy_navigation.Common.{
  ◌≡◌, refl, ap, ◌∙◌, Bool, false, Option, none, some, String, arith, str_eq,
}
use easy_navigation.NavState.{
  NavState, Outcome, ok, Value, bool, safety, type_code, lookup, has, get_safe,
}
use easy_navigation.NavState.Laws.{Typed}
use easy_navigation.VelocityCommand.{VelocitySource, controller, takeover, override, key, take}
use easy_navigation.VelocityMux.{
  VelocityMux, Inputs, read_inputs, read_flag, read_protective_stop, choose, remember, select,
}
use easy_navigation.VelocityMux.Slots.{pending, pending_in, take-Typed}

abbrev pub flag_in : Option Value → Bool
flag_in (some (bool b)) = b
flag_in (some _) = false
flag_in none = false

abbrev pub stop_in : Option Value → Bool
stop_in (some (safety s)) = s.protective_stop
stop_in (some _) = false
stop_in none = false

-- What the blackboard says, read all at once and without consuming anything.
abbrev pub inputs_of : NavState → Inputs
inputs_of st = record {
  override_cmd = pending override st;
  takeover_cmd = pending takeover st;
  controller_cmd = pending controller st;
  navigation_paused = flag_in (lookup "navigation_paused" st.values);
  protective_stop = stop_in (lookup "safety_status" st.values);
  motion_inhibited = flag_in (lookup "inhibit_motion" st.values);
}

-- The keys that the mux uses hold values of their own types, where they hold any.
pub record WellTyped (st : NavState) : Type 0 where
  pub slots : (s : VelocitySource) → Typed 7 (lookup (key s) st.values)
  pub paused : Typed 0 (lookup "navigation_paused" st.values)
  pub inhibited : Typed 0 (lookup "inhibit_motion" st.values)
  pub status : Typed 8 (lookup "safety_status" st.values)

pub read_flag-Typed :
    (k : String) (st : NavState)
    → Typed 0 (lookup k st.values)
    → read_flag k st ≡ (ok (flag_in (lookup k st.values)), st)
unfolding read_flag has get_safe type_code
read_flag-Typed k st h = ground arith

pub read_stop-Typed :
    (st : NavState)
    → Typed 8 (lookup "safety_status" st.values)
    → read_protective_stop st ≡ (ok (stop_in (lookup "safety_status" st.values)), st)
unfolding read_protective_stop has get_safe type_code
read_stop-Typed st h = ground arith

result_of : {S A : Type 0} (r : Outcome A × S) (a : A) → r.0 ≡ ok a → r ≡ (ok a, r.1)
result_of r a e = λ i. (e i, r.1)

-- The blackboard after the three proposals are taken.
abbrev pub drained : NavState → NavState
drained st = (take controller (take takeover (take override st).1).1).1

abbrev pub OtherKey : String → Type 0
OtherKey j = (s : VelocitySource) → str_eq (key s) j ≡ false

module _ (st : NavState) (typed : (s : VelocitySource) → Typed 7 (lookup (key s) st.values)) where
  abbrev first : NavState
  first = (take override st).1

  abbrev second : NavState
  second = (take takeover first).1

  first-takeover : lookup (key takeover) first.values ≡ lookup (key takeover) st.values
  unfolding key
  first-takeover = (take-Typed override (key takeover) st (typed override)).3 refl

  first-controller : lookup (key controller) first.values ≡ lookup (key controller) st.values
  unfolding key
  first-controller = (take-Typed override (key controller) st (typed override)).3 refl

  takeover-Typed : Typed 7 (lookup (key takeover) first.values)
  takeover-Typed = rw first-takeover (typed takeover)

  second-controller : lookup (key controller) second.values ≡ lookup (key controller) st.values
  unfolding key
  second-controller =
      (take-Typed takeover (key controller) first takeover-Typed).3 refl ∙ first-controller

  controller-Typed : Typed 7 (lookup (key controller) second.values)
  controller-Typed = rw second-controller (typed controller)

  -- Keys that are no slot keep their values.
  drained-kept : (j : String) → OtherKey j → lookup j (drained st).values ≡ lookup j st.values
  drained-kept j o =
      (take-Typed controller j second controller-Typed).3 (o controller)
      ∙ (take-Typed takeover j first takeover-Typed).3 (o takeover)
      ∙ (take-Typed override j st (typed override)).3 (o override)

  drained_slots : (s : VelocitySource) → pending s (drained st) ≡ none
  unfolding key
  drained_slots controller = (take-Typed controller "" second controller-Typed).1
  drained_slots takeover =
      ap pending_in ((take-Typed controller (key takeover) second controller-Typed).3 refl)
      ∙ (take-Typed takeover "" first takeover-Typed).1
  drained_slots override =
      ap pending_in ((take-Typed controller (key override) second controller-Typed).3 refl)
      ∙ ap pending_in ((take-Typed takeover (key override) first takeover-Typed).3 refl)
      ∙ (take-Typed override "" st (typed override)).1

  taken_override : take override st ≡ (ok (pending override st), first)
  taken_override = result_of _ _ (take-Typed override "" st (typed override)).0

  taken_takeover : take takeover first ≡ (ok (pending takeover st), second)
  taken_takeover =
      result_of _ _ (
        (take-Typed takeover "" first takeover-Typed).0
        ∙ ap (λ v. ok (pending_in v)) first-takeover)

  taken_controller : take controller second ≡ (ok (pending controller st), drained st)
  taken_controller = result_of _ _ (
      (take-Typed controller "" second controller-Typed).0
      ∙ ap (λ v. ok (pending_in v)) second-controller)

not_slot :
    (j : String)
    → str_eq "cmd_vel.proposal.override" j ≡ false
    → str_eq "cmd_vel.proposal.takeover" j ≡ false
    → str_eq "cmd_vel.proposal.controller" j ≡ false
    → OtherKey j
unfolding key
not_slot j o t c override = o
not_slot j o t c takeover = t
not_slot j o t c controller = c

read_inputs_typed :
    (st : NavState) → WellTyped st → read_inputs st ≡ (ok (inputs_of st), drained st)
unfolding read_inputs
read_inputs_typed st w =
    let kept = drained-kept st w.slots in
    let paused = kept "navigation_paused" (not_slot "navigation_paused" refl refl refl) in
    let status = kept "safety_status" (not_slot "safety_status" refl refl refl) in
    let inhibit = kept "inhibit_motion" (not_slot "inhibit_motion" refl refl refl) in
    rw (
      taken_override st w.slots,
      taken_takeover st w.slots,
      taken_controller st w.slots,
      read_flag-Typed "navigation_paused" (drained st) (rw paused w.paused),
      read_stop-Typed (drained st) (rw status w.status),
      read_flag-Typed "inhibit_motion" (drained st) (rw inhibit w.inhibited),
      paused,
      status,
      inhibit,
    )

-- On a well-typed blackboard select() throws nothing: it decides by what the blackboard says at its
-- start, remembers its decision, leaves no proposal pending, and keeps the value of every key `j`
-- that is no slot.
pub select_typed :
    (m : VelocityMux) (st : NavState) (j : String)
    → WellTyped st
    → OtherKey j
    → (select m st ≡ (ok (choose (inputs_of st) m, remember (choose (inputs_of st) m)), drained st))
      × ((s : VelocitySource) → pending s (drained st) ≡ none)
      × (lookup j (drained st).values ≡ lookup j st.values)
unfolding select
select_typed m st j w o =
    (rw (read_inputs_typed st w), drained_slots st w.slots, drained-kept st w.slots j o)

pub select_choice :
    (m : VelocityMux) (st : NavState)
    → WellTyped st
    → (select m st).0 ≡ ok (choose (inputs_of st) m, remember (choose (inputs_of st) m))
unfolding select
select_choice m st w = rw (read_inputs_typed st w)
