-- ===== src/SystemNode/Restore.antt =====
-- A reconfiguration that fails: the previous values, or a shutdown.
use easy_navigation.Common.{
  ◌≡◌, refl, sym, ap, subst, ◌∙◌, arith, Bool, true, false, not, ◌||◌, Option, none, some, String,
  List, [], ◌∷◌, if◌then◌else◌, Bool-cases, inl, inr,
}
use easy_navigation.ParameterFreezer.{ParameterValue}
use easy_navigation.SystemNode.Reconfigure.{
  same_state, ParameterChange, Ros, clean_up, set_all, step_if, bring_down, bring_up, restart_with,
  previous_values, with_value, with_value, Attempt, applied, restored, lost, attempt, cleanup,
  deactivate, inactive, active, unconfigured,
}
use easy_navigation.SystemNode.Values.{
  Keeps, is_forwarded, same_parameter, Has, AreValues, any_same, step_if-Has, clean_up-Has,
  bring_up-Has, set_all-done, set_all-others,
}

passed :
    {World : Type 0} (b : Bool) (w : World) (r : Bool × World)
    → (if not b then (false, w) else r).0 ≡ true
    → (b ≡ true) × (r.0 ≡ true)
passed true w r e = (refl, e)
passed false w r e = absurd (ground (arith, e))

module _ {World : Type 0} (ros : Ros World) (keeps : Keeps ros) where
  -- What was read: values of the world, for the parameters of the changes.
  abbrev pub IsPrevious :
      String → String → List ParameterChange → World → Option (List ParameterChange) → Type 0
  IsPrevious node name changes w none = Unit {0}
  IsPrevious node name changes w (some previous) =
      AreValues ros previous w × (any_same node name previous ≡ any_same node name changes)

  with_value-IsPrevious :
      (node name : String) (c : ParameterChange) (changes : List ParameterChange) (w : World)
      (o : Option ParameterValue) (rest : Option (List ParameterChange))
      → ros.get_parameter c.node c.name w ≡ o
      → IsPrevious node name changes w rest
      → IsPrevious node name (c ∷ changes) w (with_value c o rest)
  with_value-IsPrevious node name c changes w none rest e h = tt
  with_value-IsPrevious node name c changes w (some v) none e h = tt
  with_value-IsPrevious node name c changes w (some v) (some previous) e (a, s) =
      ((e, a), ap (λ b. same_parameter node name c || b) s)

  previous_values-IsPrevious :
      (node name : String) (changes : List ParameterChange) (w : World)
      → IsPrevious node name changes w (previous_values ros changes w)
  unfolding previous_values
  previous_values-IsPrevious node name [] w = (tt, refl)
  previous_values-IsPrevious node name (c ∷ changes) w =
      with_value-IsPrevious node name c changes w _ _ refl
        (previous_values-IsPrevious node name changes w)

  bring_down-Has :
      (w : World) (node name : String) (v : ParameterValue)
      → Has ros node name v w
      → Has ros node name v (bring_down ros w)
  bring_down-Has w node name v h =
      step_if-Has ros keeps inactive cleanup (step_if ros active deactivate w) node name v
        (step_if-Has ros keeps active deactivate w node name v h)

  -- A restart leaves the parameters that it does not set.
  restart_with-others :
      (changes : List ParameterChange) (w : World) (node name : String) (v : ParameterValue)
      → is_forwarded node name ≡ false
      → any_same node name changes ≡ false
      → Has ros node name v w
      → Has ros node name v (restart_with ros changes w).1
  unfolding restart_with
  restart_with-others changes w node name v f s h =
      let down = bring_down-Has w node name v h in
      elim (Bool-cases (same_state (ros.get_current_state (bring_down ros w)) unconfigured)) [
        | inl e ↦ rw e (
            bring_up-Has ros keeps _ _ node name v f (
              set_all-others ros keeps changes _ node name v s
                (clean_up-Has ros keeps ros.nodes (bring_down ros w) node name v down)))
        | inr e ↦ rw e down
      ]

  bring_up_done : (all_set : Bool) (w : World) → (bring_up ros all_set w).0 ≡ true → all_set ≡ true
  unfolding bring_up
  bring_up_done all_set w h = ground (arith, h)

  -- A restart with values of a world that succeeds brings them back.
  restart_with-done :
      (changes : List ParameterChange) (w₀ w : World) (node name : String) (v : ParameterValue)
      → is_forwarded node name ≡ false
      → AreValues ros changes w₀
      → Has ros node name v w₀
      → (restart_with ros changes w).0 ≡ true
      → any_same node name changes ≡ true
      → Has ros node name v (restart_with ros changes w).1
  unfolding restart_with
  restart_with-done changes w₀ w node name v f a h d s =
      let set = set_all ros changes (clean_up ros ros.nodes (bring_down ros w)) in
      let (e, up) =
        passed (same_state (ros.get_current_state (bring_down ros w)) unconfigured)
          (bring_down ros w) (bring_up ros set.0 set.1) d in
      rw e (
        bring_up-Has ros keeps set.0 set.1 node name v f (
          set_all-done ros keeps changes w₀ (clean_up ros ros.nodes (bring_down ros w)) node name v
            a h (bring_up_done set.0 set.1 up) s))

  abbrev outcome : Bool × World → Bool × World → Attempt × World
  outcome x y = if x.0 then (applied, x.1) else (if y.0 then restored else lost, y.1)

  attempt_back :
      (x y : Bool × World) → (outcome x y).0 ≡ restored → (y.0 ≡ true) × ((outcome x y).1 ≡ y.1)
  attempt_back (true, x) y e = absurd (ground (arith, e))
  attempt_back (false, x) (true, y) e = (refl, refl)
  attempt_back (false, x) (false, y) e = absurd (ground (arith, e))

  -- When the changes of a reconfiguration fail and the previous values that were read before are
  -- restored, where a parameter keeps its value over transitions and declarations until it is set,
  -- and has the value that was set: every parameter that had a value before the attempt has that
  -- value again, whichever of the changes were done, but for the controller's `use_cmd_vel_stamped`,
  -- which a configuring node overwrites with its own, deprecated one.
  pub attempt-restored :
      (changes previous : List ParameterChange) (w : World) (node name : String)
      (v : ParameterValue)
      → is_forwarded node name ≡ false
      → previous_values ros changes w ≡ some previous
      → (attempt ros changes previous w).0 ≡ restored
      → ros.get_parameter node name w ≡ some v
      → ros.get_parameter node name (attempt ros changes previous w).1 ≡ some v
  unfolding attempt
  attempt-restored changes previous w node name v f p r h =
      let first = restart_with ros changes w in
      let (back, world) = attempt_back first (restart_with ros previous first.1) r in
      let (values, same) =
        subst (IsPrevious node name changes w) p (previous_values-IsPrevious node name changes w) in
      let there : Has ros node name v (restart_with ros previous first.1).1 =
        elim (Bool-cases (any_same node name previous)) [
          | inl s ↦ restart_with-done previous w first.1 node name v f values h back s
          | inr s ↦
              restart_with-others previous first.1 node name v f s
                (restart_with-others changes w node name v f (sym same ∙ s) h)
        ] in
      ap (ros.get_parameter node name) world ∙ there
