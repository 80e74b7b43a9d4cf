-- ===== src/CommandGuard/Finite.antt =====
-- What the guard's discarding leaves of the proposals.
use easy_navigation.Common.{
  ◌≡◌, refl, sym, ap, ◌∙◌, Bool, true, false, ◌||◌, Option, none, if◌then◌else◌,
}
use easy_navigation.Messages.{TwistStamped}
use easy_navigation.NavState.{NavState, Outcome, ok, lookup, branch, return}
use easy_navigation.NavState.Laws.{Typed}
use easy_navigation.VelocityCommand.{VelocitySource, controller, takeover, override, key, take}
use easy_navigation.VelocityMux.Slots.{pending, pending_in, peek-Typed, take-Typed}
use easy_navigation.CommandGuard.{is_bad, discard_one, discard_non_finite, discard_taken}

-- Each slot holds a proposal, where it holds anything.
abbrev pub Slots : NavState → Type 0
Slots st = (s : VelocitySource) → Typed 7 (lookup (key s) st.values)

-- A command, unless it is bad.
abbrev pub finite_only : Option TwistStamped → Option TwistStamped
finite_only cmd = if is_bad cmd then none else cmd

abbrev same_source : VelocitySource → VelocitySource → Bool
same_source controller controller = true
same_source takeover takeover = true
same_source override override = true
same_source _ _ = false

abbrev Discarded : VelocitySource → NavState → Outcome Bool × NavState → Type 0
Discarded source st r =
    (r.0 ≡ ok (is_bad (pending source st)))
    × Slots r.1
    × ((s : VelocitySource)
        → pending s r.1
          ≡ (if same_source source s then finite_only (pending s st) else pending s st))

take_result :
    (source : VelocitySource) (st : NavState)
    → Slots st
    → take source st ≡ (ok (pending source st), (take source st).1)
take_result source st h = λ i. ((take-Typed source "" st (h source)).0 i, (take source st).1)

-- A slot after another's, or its own, is taken.
after_take :
    (source s : VelocitySource) (st : NavState)
    → Slots st
    → Typed 7 (lookup (key s) (take source st).1.values)
      × (pending s (take source st).1 ≡ (if same_source source s then none else pending s st))
unfolding key
after_take controller controller st h =
    let (a, b, c, d) = take-Typed controller "" st (h controller) in (c, b)
after_take takeover takeover st h =
    let (a, b, c, d) = take-Typed takeover "" st (h takeover) in (c, b)
after_take override override st h =
    let (a, b, c, d) = take-Typed override "" st (h override) in (c, b)
after_take controller takeover st h =
    let (a, b, c, d) = take-Typed controller (key takeover) st (h controller) in
    (rw (d refl) (h takeover), ap pending_in (d refl))
after_take controller override st h =
    let (a, b, c, d) = take-Typed controller (key override) st (h controller) in
    (rw (d refl) (h override), ap pending_in (d refl))
after_take takeover controller st h =
    let (a, b, c, d) = take-Typed takeover (key controller) st (h takeover) in
    (rw (d refl) (h controller), ap pending_in (d refl))
after_take takeover override st h =
    let (a, b, c, d) = take-Typed takeover (key override) st (h takeover) in
    (rw (d refl) (h override), ap pending_in (d refl))
after_take override controller st h =
    let (a, b, c, d) = take-Typed override (key controller) st (h override) in
    (rw (d refl) (h controller), ap pending_in (d refl))
after_take override takeover st h =
    let (a, b, c, d) = take-Typed override (key takeover) st (h override) in
    (rw (d refl) (h takeover), ap pending_in (d refl))

-- The source's own slot, as the test of its command leaves it.
kept :
    (source s : VelocitySource) (st : NavState)
    → is_bad (pending source st) ≡ false
    → pending s st ≡ (if same_source source s then finite_only (pending s st) else pending s st)
kept controller controller st e = rw e
kept takeover takeover st e = rw e
kept override override st e = rw e
kept _ _ st e = refl

dropped :
    (source s : VelocitySource) (st : NavState)
    → is_bad (pending source st) ≡ true
    → (if same_source source s then none else pending s st)
      ≡ (if same_source source s then finite_only (pending s st) else pending s st)
dropped controller controller st e = rw e
dropped takeover takeover st e = rw e
dropped override override st e = rw e
dropped _ _ st e = refl

branch-Discarded :
    (source : VelocitySource) (st : NavState) (b : Bool)
    → Slots st
    → is_bad (pending source st) ≡ b
    → Discarded source st (branch b (discard_taken source) (return false) st)
unfolding branch
branch-Discarded source st true h e = rw (take_result source st h) (
  ap ok (sym e),
  λ s. (after_take source s st h).0,
  λ s. (after_take source s st h).1 ∙ dropped source s st e,
)
branch-Discarded source st false h e = (ap ok (sym e), h, λ s. kept source s st e)

discard_one-Discarded :
    (source : VelocitySource) (st : NavState)
    → Slots st
    → Discarded source st (discard_one source st)
unfolding discard_one
discard_one-Discarded source st h =
    rw (peek-Typed source st (h source))
      (branch-Discarded source st (is_bad (pending source st)) h refl)

one_result :
    (source : VelocitySource) (st : NavState)
    → Slots st
    → discard_one source st ≡ (ok (is_bad (pending source st)), (discard_one source st).1)
one_result source st h = λ i. ((discard_one-Discarded source st h).0 i, (discard_one source st).1)

module _ (st : NavState) (h : Slots st) where
  abbrev first : NavState
  first = (discard_one override st).1

  abbrev second : NavState
  second = (discard_one takeover first).1

  abbrev third : NavState
  third = (discard_one controller second).1

  first-Slots : Slots first
  first-Slots = (discard_one-Discarded override st h).1

  second-Slots : Slots second
  second-Slots = (discard_one-Discarded takeover first first-Slots).1

  first_slot :
      (s : VelocitySource)
      → pending s first
        ≡ (if same_source override s then finite_only (pending s st) else pending s st)
  first_slot = (discard_one-Discarded override st h).2

  second_slot :
      (s : VelocitySource)
      → pending s second
        ≡ (if same_source takeover s then finite_only (pending s first) else pending s first)
  second_slot = (discard_one-Discarded takeover first first-Slots).2

  third_slot :
      (s : VelocitySource)
      → pending s third
        ≡ (if same_source controller s then finite_only (pending s second) else pending s second)
  third_slot = (discard_one-Discarded controller second second-Slots).2

  slots_left : (s : VelocitySource) → pending s third ≡ finite_only (pending s st)
  slots_left controller =
      third_slot controller ∙ ap finite_only (second_slot controller ∙ first_slot controller)
  slots_left takeover =
      third_slot takeover ∙ second_slot takeover ∙ ap finite_only (first_slot takeover)
  slots_left override = third_slot override ∙ second_slot override ∙ first_slot override

  found_takeover : is_bad (pending takeover first) ≡ is_bad (pending takeover st)
  found_takeover = ap is_bad (first_slot takeover)

  found_controller : is_bad (pending controller second) ≡ is_bad (pending controller st)
  found_controller = ap is_bad (second_slot controller ∙ first_slot controller)

-- Where each source's slot holds a proposal, if anything, discarding tells whether any pending
-- command has a number that is not finite, and leaves of the pending commands those without one.
pub discard_non_finite_lem :
    (st : NavState)
    → Slots st
    → ((discard_non_finite st).0
        ≡ ok (
            is_bad (pending override st)
            || is_bad (pending takeover st)
            || is_bad (pending controller st)))
      × ((s : VelocitySource) → pending s (discard_non_finite st).1 ≡ finite_only (pending s st))
unfolding discard_non_finite
discard_non_finite_lem st h =
    rw
      (
        one_result override st h,
        one_result takeover (first st h) (first-Slots st h),
        one_result controller (second st h) (second-Slots st h),
        found_takeover st h,
        found_controller st h,
      )
      (refl, slots_left st h)
