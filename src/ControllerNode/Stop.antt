-- ===== src/ControllerNode/Stop.antt =====
-- How the robot is left when the node stops.
use easy_navigation.Common.{
  ℕ, zero, suc, ℤ, ◌≡◌, refl, ◌&&◌, not, Bool, true, false, List, [], ◌∷◌, ◌++◌, String, arith, ap,
  Option, none, some, if◌then◌else◌, Bool-cases, inl, inr,
}
use easy_navigation.Messages.{TwistStamped, zero_twist}
use easy_navigation.Double.{Double, eq, Arith}
use easy_navigation.RobotLimits.{invalid_robot_limits}
use easy_navigation.VelocityMux.{VelocityMux, no_choice}
use easy_navigation.VelocitySmoother
use easy_navigation.VelocitySmoother.{reached, step, set_limits}
use easy_navigation.CommandGuard.{CommandGuard, published}
use easy_navigation.CommandGuard
use easy_navigation.ControllerNode.{
  ControllerNode, Output, stamped, plain, publish, zero_command, brake, braked, rest_robot,
  stop_robot, get_robot_limits, is_zero,
}

-- The publishers that a node has, and which it uses.
abbrev Publishers : Type 0
Publishers = Bool × Bool × Bool

abbrev publishers : ControllerNode → Publishers
publishers n = (n.use_cmd_vel_stamped, n.vel_pub_stamped, n.vel_pub)

publishers-brake :
    (a : Arith) (rounds : ℕ) (frame : String) (clock : ℕ → ℤ) (n : ControllerNode)
    → publishers (brake a rounds frame clock n).0 ≡ publishers n
unfolding brake publish
publishers-brake a zero frame clock n = refl
publishers-brake a (suc rounds) frame clock n =
    elim (Bool-cases (reached a zero_twist n.smoother)) [
      | inl e ↦ rw e
      | inr e ↦ rw e (publishers-brake a rounds frame (λ i. clock (suc i)) _)
    ]

publishers-braked :
    (a : Arith) (bad : Option (String × Double)) (rounds : ℕ) (frame : String) (clock : ℕ → ℤ)
    (n : ControllerNode)
    → publishers (braked a bad rounds frame clock n).0 ≡ publishers n
publishers-braked a none rounds frame clock n = publishers-brake a rounds frame clock n
publishers-braked a (some bad) rounds frame clock n = refl

-- The publisher that the node uses is there.
abbrev pub has_publisher : ControllerNode → Bool
has_publisher n = if n.use_cmd_vel_stamped then n.vel_pub_stamped else n.vel_pub

-- A command as the node sends it.
abbrev pub as_sent : ControllerNode → TwistStamped → Output
as_sent n cmd = if n.use_cmd_vel_stamped then stamped cmd else plain cmd.twist

publish_sent :
    (cmd : TwistStamped) (n : ControllerNode)
    → has_publisher n ≡ true
    → (publish cmd n).1 ≡ as_sent n cmd ∷ []
unfolding publish
publish_sent cmd n h = ground arith

rest_sent :
    (a : Arith) (cmd : TwistStamped) (n m : ControllerNode)
    → has_publisher n ≡ true
    → publishers m ≡ publishers n
    → (rest_robot a cmd m).1 ≡ as_sent n cmd ∷ []
unfolding rest_robot
rest_sent a cmd n m h e = ground (arith, publish_sent cmd m)

-- A mux that has chosen nothing.
abbrev pub IsIdle : VelocityMux → Type 0
IsIdle m = (m.last_target.twist ≡ zero_twist) × (m.last_choice ≡ no_choice)

-- A guard that remembers nothing of the commands before.
abbrev pub IsFresh : CommandGuard → Type 0
IsFresh g =
    (g.last_controller_cmd ≡ none)
    × (g.last_proposal ≡ none)
    × (g.last_publish ≡ none)
    × (g.timed_out ≡ false)

rest_state :
    (a : Arith) (frame : String) (now : ℤ) (m : ControllerNode)
    → ((rest_robot a (zero_command frame now) m).0.smoother.current ≡ zero_twist)
      × IsIdle (rest_robot a (zero_command frame now) m).0.mux
      × IsFresh (rest_robot a (zero_command frame now) m).0.command_guard
      × ((rest_robot a (zero_command frame now) m).0.last_published_zero ≡ true)
unfolding rest_robot publish VelocitySmoother.reset CommandGuard.reset is_zero eq
rest_state a frame now m = (refl, (refl, refl), (refl, refl, refl, refl), refl)

some_publisher :
    (n : ControllerNode) → has_publisher n ≡ true → (not n.vel_pub && not n.vel_pub_stamped) ≡ false
some_publisher n h = ground arith

-- Stopping a node whose publisher is there ends, after any ramp, with an exact zero command, and
-- leaves the smoother at rest, the mux without a choice, the guard without a command, a proposal, a publishing
-- or a timeout to remember, and a zero as what was last published.
pub stop_robot-last :
    (a : Arith) (rounds : ℕ) (frame : String) (clock : ℕ → ℤ) (last : ℤ) (n : ControllerNode)
    → has_publisher n ≡ true
    → (before : List Output) × ((stop_robot a rounds frame clock last n).1
        ≡ before ++ as_sent n (zero_command frame last) ∷ [])
      × ((stop_robot a rounds frame clock last n).0.smoother.current ≡ zero_twist)
      × IsIdle (stop_robot a rounds frame clock last n).0.mux
      × IsFresh (stop_robot a rounds frame clock last n).0.command_guard
      × ((stop_robot a rounds frame clock last n).0.last_published_zero ≡ true)
unfolding stop_robot
stop_robot-last a rounds frame clock last n h =
    let bad = invalid_robot_limits (get_robot_limits n) in
    let slow = braked a bad rounds frame clock n in
    let (x, y, z, w) = rest_state a frame last slow.0 in
    let e =
      rest_sent a (zero_command frame last) n slow.0 h
        (publishers-braked a bad rounds frame clock n) in
    rw (some_publisher n h) (slow.1, ap (λ out. slow.1 ++ out) e, x, y, z, w)
