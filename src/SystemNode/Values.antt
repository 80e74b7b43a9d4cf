-- ===== src/SystemNode/Values.antt =====
-- The values of the parameters over the steps of a restart.
use easy_navigation.Common.{
  ◌≡◌, arith, Bool, true, false, not, ◌&&◌, ◌||◌, is_some, some, String, List, [], ◌∷◌, str_eq,
  eq_iff, Bool-cases, inl, inr,
}
use easy_navigation.ParameterFreezer.{ParameterValue, bool}
use easy_navigation.SystemNode.Reconfigure.{
  State, same_state, Transition, ParameterChange, Ros, clean_up, set_all, step_if, bring_up,
  use_cmd_vel_stamped, or_false, configure_node, forward_deprecated_use_cmd_vel_stamped, cleanup,
  configure, activate, inactive,
}

abbrev pub same_parameter : String → String → ParameterChange → Bool
same_parameter node name c = str_eq node c.node && str_eq name c.name

-- The parameter that a configuring node overwrites with its deprecated one.
abbrev pub is_forwarded : String → String → Bool
is_forwarded node name = str_eq node "controller_node" && str_eq name use_cmd_vel_stamped

-- A parameter that has a value keeps it over the transitions (but for the forwarding, which is
-- modelled), over declarations, and until it is set; a parameter that was set has the value.
pub record Keeps {World : Type 0} (ros : Ros World) : Type 0 where
  pub transition :
      (t : Transition) (w : World) (node name : String) (v : ParameterValue)
      → ros.get_parameter node name w ≡ some v
      → ros.get_parameter node name (ros.trigger_transition t w) ≡ some v
  pub node_transition :
      (sub : String) (t : Transition) (w : World) (node name : String) (v : ParameterValue)
      → ros.get_parameter node name w ≡ some v
      → ros.get_parameter node name (ros.trigger_node sub t w) ≡ some v
  pub declares :
      (n p : String) (x : ParameterValue) (w : World) (node name : String) (v : ParameterValue)
      → ros.get_parameter node name w ≡ some v
      → ros.get_parameter node name (ros.declare_absent n p x w) ≡ some v
  pub others :
      (c : ParameterChange) (w : World) (node name : String) (v : ParameterValue)
      → ros.get_parameter node name w ≡ some v
      → same_parameter node name c ≡ false
      → ros.get_parameter node name (ros.set_parameter c.node c.name c.value w).1 ≡ some v
  pub done :
      (c : ParameterChange) (w : World)
      → (ros.set_parameter c.node c.name c.value w).0 ≡ true
      → ros.get_parameter c.node c.name (ros.set_parameter c.node c.name c.value w).1 ≡ some c.value

abbrev pub any_same : String → String → List ParameterChange → Bool
any_same node name [] = false
any_same node name (c ∷ changes) = same_parameter node name c || any_same node name changes

module _ {World : Type 0} (ros : Ros World) where
  -- A parameter has a value in a world.
  abbrev pub Has : String → String → ParameterValue → World → Type 0
  Has node name v w = ros.get_parameter node name w ≡ some v

  -- The changes name the values of a world.
  abbrev pub AreValues : List ParameterChange → World → Type 0
  AreValues [] w = Unit {0}
  AreValues (c ∷ changes) w = Has c.node c.name c.value w × AreValues changes w

module _ {World : Type 0} (ros : Ros World) (keeps : Keeps ros) where
  pub step_if-Has :
      (s : State) (t : Transition) (w : World) (node name : String) (v : ParameterValue)
      → Has ros node name v w
      → Has ros node name v (step_if ros s t w)
  step_if-Has s t w node name v h = elim (Bool-cases (same_state (ros.get_current_state w) s)) [
    | inl e ↦ rw e (keeps.transition t w node name v h)
    | inr e ↦ rw e h
  ]

  pub clean_up-Has :
      (nodes : List String) (w : World) (node name : String) (v : ParameterValue)
      → Has ros node name v w
      → Has ros node name v (clean_up ros nodes w)
  unfolding clean_up
  clean_up-Has [] w node name v h = h
  clean_up-Has (sub ∷ nodes) w node name v h =
      clean_up-Has nodes _ node name v
        (elim (Bool-cases (same_state (ros.node_state sub w) inactive)) [
          | inl e ↦ rw e (keeps.node_transition sub cleanup w node name v h)
          | inr e ↦ rw e h
        ])

  forward-Has :
      (w : World) (node name : String) (v : ParameterValue)
      → is_forwarded node name ≡ false
      → Has ros node name v w
      → Has ros node name v (forward_deprecated_use_cmd_vel_stamped ros w)
  unfolding forward_deprecated_use_cmd_vel_stamped
  forward-Has w node name v f h =
      let p = use_cmd_vel_stamped in
      let w' = ros.declare_absent "system_node" p (bool false) w in
      let h' = keeps.declares "system_node" p (bool false) w node name v h in
      let x = or_false (ros.get_parameter "system_node" p w') in
      let c : ParameterChange = record { node = "controller_node"; name = p; value = x } in
      elim (Bool-cases (
        not (ros.has_override "system_node" p)
        && not (is_some (ros.get_parameter "system_node" p w)))) [
          | inl e ↦ rw e h
          | inr e ↦ elim (Bool-cases (ros.has_override "controller_node" p)) [
            | inl o ↦ rw (e, o) h'
            | inr o ↦ rw (e, o) (keeps.others c w' node name v h' f)
          ]
        ]

  pub bring_up-Has :
      (all_set : Bool) (w : World) (node name : String) (v : ParameterValue)
      → is_forwarded node name ≡ false
      → Has ros node name v w
      → Has ros node name v (bring_up ros all_set w).1
  unfolding bring_up
  bring_up-Has all_set w node name v f h =
      let h' = keeps.transition configure _ node name v (forward-Has w node name v f h) in
      elim (Bool-cases (same_state (ros.get_current_state (configure_node ros w)) inactive)) [
        | inl e ↦ rw e (keeps.transition activate _ node name v h')
        | inr e ↦ rw e h'
      ]

  -- Of the same parameter, the changes of a world's values have the same value.
  same_value :
      (w₀ : World) (node name : String) (v : ParameterValue) (c : ParameterChange)
      → same_parameter node name c ≡ true
      → Has ros node name v w₀
      → Has ros c.node c.name c.value w₀
      → (node ≡ c.node) × (name ≡ c.name) × (c.value ≡ v)
  same_value w₀ node name v c s h k =
      let e : str_eq node c.node ≡ true = ground (arith, s) in
      let f : str_eq name c.name ≡ true = ground (arith, s) in
      let p = (eq_iff node c.node).0 e in let q = (eq_iff name c.name).0 f in (p, q, cc)

  set_one :
      (w₀ w : World) (node name : String) (v : ParameterValue) (c : ParameterChange)
      → same_parameter node name c ≡ true
      → Has ros node name v w₀
      → Has ros c.node c.name c.value w₀
      → (ros.set_parameter c.node c.name c.value w).0 ≡ true
      → Has ros node name v (ros.set_parameter c.node c.name c.value w).1
  set_one w₀ w node name v c s h k d =
      let (p, q, e) = same_value w₀ node name v c s h k in let there = keeps.done c w d in cc

  -- Setting values of `w₀` keeps the others of them.
  set_all-keep :
      (changes : List ParameterChange) (w₀ w : World) (node name : String) (v : ParameterValue)
      → AreValues ros changes w₀
      → Has ros node name v w₀
      → (set_all ros changes w).0 ≡ true
      → Has ros node name v w
      → Has ros node name v (set_all ros changes w).1
  unfolding set_all
  set_all-keep [] w₀ w node name v a h d k = k
  set_all-keep (c ∷ changes) w₀ w node name v (b, a) h d k =
      let w' = (ros.set_parameter c.node c.name c.value w).1 in
      let one : (ros.set_parameter c.node c.name c.value w).0 ≡ true = ground (arith, d) in
      let rest : (set_all ros changes w').0 ≡ true = ground (arith, d) in
      set_all-keep changes w₀ w' node name v a h rest
        (elim (Bool-cases (same_parameter node name c)) [
          | inl s ↦ set_one w₀ w node name v c s h b one
          | inr s ↦ keeps.others c w node name v k s
        ])

  pub set_all-done :
      (changes : List ParameterChange) (w₀ w : World) (node name : String) (v : ParameterValue)
      → AreValues ros changes w₀
      → Has ros node name v w₀
      → (set_all ros changes w).0 ≡ true
      → any_same node name changes ≡ true
      → Has ros node name v (set_all ros changes w).1
  unfolding set_all
  set_all-done [] w₀ w node name v a h d s = absurd (ground (arith, s))
  set_all-done (c ∷ changes) w₀ w node name v (b, a) h d s =
      let w' = (ros.set_parameter c.node c.name c.value w).1 in
      let one : (ros.set_parameter c.node c.name c.value w).0 ≡ true = ground (arith, d) in
      let rest : (set_all ros changes w').0 ≡ true = ground (arith, d) in
      let later = set_all-done changes w₀ w' node name v a h rest in
      elim (Bool-cases (same_parameter node name c)) [
        | inl e ↦
            set_all-keep changes w₀ w' node name v a h rest (set_one w₀ w node name v c e h b one)
        | inr e ↦ later (ground (arith, s, e))
      ]

  pub set_all-others :
      (changes : List ParameterChange) (w : World) (node name : String) (v : ParameterValue)
      → any_same node name changes ≡ false
      → Has ros node name v w
      → Has ros node name v (set_all ros changes w).1
  unfolding set_all
  set_all-others [] w node name v s h = h
  set_all-others (c ∷ changes) w node name v s h =
      set_all-others changes _ node name v (ground (arith, s))
        (keeps.others c w node name v h (ground (arith, s)))
