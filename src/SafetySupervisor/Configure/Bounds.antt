-- ===== src/SafetySupervisor/Configure/Bounds.antt =====
-- What a configuration that passed the checks keeps to in safety mode.
use easy_navigation.Common.{
  ◌≡◌, ◌∙◌, refl, sym, ap, Bool, true, false, String, List, [], ◌∷◌, ◌++◌, is_empty, arith,
}
use easy_navigation.Double.{Double, zero_d, lt, le, eq, abs, is_finite, Arith}
use easy_navigation.RobotLimits.{RobotLimits}
use easy_navigation.SafetySupervisor.{SafetySupervisor}
use easy_navigation.SafetySupervisor.Configure.{
  SystemParameters, errors_of, is_unusable, parameter_checks, parameter_errors, check_system,
  exceeds, controller_checks, controller_errors, check_controller,
}

-- No limit of the controller is above what the safety channel is configured with.
abbrev pub IsWithin : RobotLimits → Double → Double → Type 0
IsWithin limits linear angular =
    (lt linear (abs limits.max_linear_vel) ≡ false)
    × (lt linear (abs limits.min_linear_vel) ≡ false)
    × (lt linear (abs limits.max_lateral_vel) ≡ false)
    × (lt linear (abs limits.max_vertical_vel) ≡ false)
    × (lt angular (abs limits.max_angular_vel) ≡ false)

usable_positive : (v : Double) → is_unusable true v ≡ false → lt zero_d v ≡ true
unfolding is_unusable is_finite lt eq
usable_positive v h = ground arith

within :
    (value limit : Double)
    → lt zero_d limit ≡ true
    → exceeds value limit ≡ false
    → lt limit (abs value) ≡ false
unfolding exceeds
within value limit p h = ground arith

-- Every check passes.
abbrev AllPass : List (Bool × String) → Type 0
AllPass [] = Unit {0}
AllPass ((fails, name) ∷ checks) = (fails ≡ false) × AllPass checks

all_pass : (checks : List (Bool × String)) → is_empty (errors_of checks) ≡ true → AllPass checks
all_pass [] h = tt
all_pass ((true, name) ∷ checks) h = absurd (ground (arith, h))
all_pass ((false, name) ∷ checks) h = (refl, all_pass checks h)

empty_left : (xs ys : List String) → is_empty (xs ++ ys) ≡ true → is_empty xs ≡ true
empty_left [] ys h = refl
empty_left (x ∷ xs) ys h = absurd (ground (arith, h))

system_lem :
    (p : SystemParameters)
    → p.safety_mode ≡ true
    → is_empty (parameter_errors p) ≡ true
    → (lt zero_d p.max_linear_vel ≡ true) × (lt zero_d p.max_angular_vel ≡ true)
unfolding parameter_errors parameter_checks
system_lem p e h =
    let (linear, (angular, rest)) = all_pass (parameter_checks p) h in
    (
      usable_positive p.max_linear_vel (ap (λ b. is_unusable b p.max_linear_vel) (sym e) ∙ linear),
      usable_positive p.max_angular_vel
          (ap (λ b. is_unusable b p.max_angular_vel) (sym e) ∙ angular),
    )

controller_lem :
    (cmd_timeout keepalive_period : Double) (limits : RobotLimits) (s : SafetySupervisor)
    → s.safety_mode ≡ true
    → lt zero_d s.max_linear_vel ≡ true
    → lt zero_d s.max_angular_vel ≡ true
    → is_empty (controller_errors cmd_timeout keepalive_period limits s) ≡ true
    → (le cmd_timeout zero_d ≡ false)
      × (le keepalive_period zero_d ≡ false)
      × IsWithin limits s.max_linear_vel s.max_angular_vel
unfolding controller_errors controller_checks
controller_lem cmd_timeout keepalive_period limits s e l w h =
    let (timeout, (keepalive, (max_linear, (min_linear, (lateral, (vertical, (angular, rest))))))) =
      all_pass (controller_checks cmd_timeout keepalive_period limits s) h in
    (
      ground (arith, e, timeout),
      ground (arith, e, keepalive),
      (
        within limits.max_linear_vel s.max_linear_vel l max_linear,
        within limits.min_linear_vel s.max_linear_vel l min_linear,
        within limits.max_lateral_vel s.max_linear_vel l lateral,
        within limits.max_vertical_vel s.max_linear_vel l vertical,
        within limits.max_angular_vel s.max_angular_vel w angular,
      ),
    )

-- Where both checks of a configuration in safety mode pass: the speeds that the safety channel
-- enforces are given, commands time out and are kept alive, and no speed limit of the controller
-- exceeds the safety channel's.
pub check_controller-IsWithin :
    (a : Arith) (priority_fails lock_fails : Bool) (name : String) (p : SystemParameters)
    (s : SafetySupervisor) (cmd_timeout keepalive_period : Double) (limits : RobotLimits)
    → p.safety_mode ≡ true
    → (check_system a priority_fails lock_fails name p s).0 ≡ true
    → check_controller cmd_timeout keepalive_period limits
        (check_system a priority_fails lock_fails name p s).1
      ≡ true
    → (lt zero_d p.max_linear_vel ≡ true)
      × (lt zero_d p.max_angular_vel ≡ true)
      × ((le cmd_timeout zero_d ≡ false)
          × (le keepalive_period zero_d ≡ false)
          × IsWithin limits p.max_linear_vel p.max_angular_vel)
unfolding check_system check_controller
check_controller-IsWithin a priority_fails lock_fails name p s cmd_timeout keepalive_period limits e
      h k =
    let (linear, angular) = system_lem p e (empty_left (parameter_errors p) _ h) in
    let c = check_system a priority_fails lock_fails name p s in
    (linear, angular, controller_lem cmd_timeout keepalive_period limits c.1 e linear angular k)
